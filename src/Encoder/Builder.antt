-- ===== src/Encoder/Builder.antt =====
-- The members of `Encoder`.
use printer_driver.Base.{
  ℕ, zero, suc, ◌+◌, ◌-◌, ◌*◌, ◌/◌, min, Bytes, Bool, true, false, not, ◌&&◌, ◌||◌, [], ◌∷◌, ◌++◌,
  Option, none, some, if◌then◌else◌, ltb, leb, ◌==◌, length, take, drop, low_byte, high_byte, List,
  ◌>>=◌, ◌%◌, ◌^◌,
}
use printer_driver.Encoder.{
  Encoder, Alignment, alignment_value, CutMode, CodePage, code_page_value, QrModel, qr_model_value,
  QrErrorCorrection, qr_error_correction_value, RasterScale, raster_scale_value,
}
use printer_driver.Encoder.CodePages.{transliterate}
use printer_driver.Encoder.Commands.{
  lf, dle_eot, gs_paper_status, process_id_marker, raster_command,
}
use printer_driver.Parser.Status.{DleEotKind}

abbrev pub put : Bytes → Encoder → Encoder
put bits e = record e { buffer = e.buffer ++ bits }

abbrev pub reset_style_state : Encoder → Encoder
reset_style_state e = record e {
  code_page = CodePage.pc437;
  alignment = Alignment.left;
  bold = false;
  underline = 0;
  size_width = 1;
  size_height = 1;
}

abbrev pub clear : Encoder → Encoder
clear e = record (reset_style_state e) { buffer = []; cut_with_feed = false; cut_feed_units = 0 }

unfoldable pub initialize : Encoder → Encoder
initialize e = reset_style_state (put (27 ∷ 64 ∷ []) e)

unfoldable pub select_code_page : CodePage → Encoder → Encoder
select_code_page page e =
    if code_page_value e.code_page == code_page_value page
    then e
    else put (27 ∷ 116 ∷ code_page_value page ∷ []) (record e { code_page = page })

unfoldable pub align : Alignment → Encoder → Encoder
align alignment e =
    if alignment_value e.alignment == alignment_value alignment
    then e
    else put (27 ∷ 97 ∷ alignment_value alignment ∷ []) (record e { alignment = alignment })

abbrev pub bit_of : Bool → ℕ
bit_of true = 1
bit_of false = 0

unfoldable pub set_bold : Bool → Encoder → Encoder
set_bold enabled e =
    if bit_of e.bold == bit_of enabled
    then e
    else put (27 ∷ 69 ∷ bit_of enabled ∷ []) (record e { bold = enabled })

unfoldable pub set_underline : ℕ → Encoder → Option Encoder
set_underline dots e =
    if ltb 2 dots
    then none
    else if e.underline == dots
    then some e
    else some (put (27 ∷ 45 ∷ dots ∷ []) (record e { underline = dots }))

abbrev pub is_multiplier : ℕ → Bool
is_multiplier n = leb 1 n && leb n 8

unfoldable pub text_size : ℕ → ℕ → Encoder → Option Encoder
text_size width height e =
    if not (is_multiplier width && is_multiplier height)
    then none
    else if (e.size_width == width) && (e.size_height == height)
    then some e
    else some (
        put (29 ∷ 33 ∷ ((width - 1) * 16 + (height - 1)) ∷ [])
          (record e { size_width = width; size_height = height }))

unfoldable pub text : Bytes → Encoder → Encoder
text utf8 e = put (transliterate utf8 e.code_page) e

unfoldable pub feed : Encoder → Encoder
feed e = put (lf ∷ []) e

unfoldable pub line : Bytes → Encoder → Encoder
unfolding text feed
line utf8 e = feed (text utf8 e)

unfoldable pub feed_lines : ℕ → Encoder → Encoder
feed_lines lines e = put (27 ∷ 100 ∷ lines ∷ []) e

-- The commands of `feedDots`; each turn of the loop takes at least one dot.
unfoldable pub dot_commands : ℕ → ℕ → Bytes
dot_commands zero dots = []
dot_commands (suc fuel) dots =
    let chunk = min dots 255 in
    let rest = dot_commands fuel (dots - chunk) in if ltb 0 dots then 27 ∷ 74 ∷ chunk ∷ rest else []

unfoldable pub feed_dots : ℕ → Encoder → Encoder
feed_dots dots e = put (dot_commands dots dots) e

unfoldable pub use_cut_with_feed : Bool → ℕ → Encoder → Encoder
use_cut_with_feed enabled feed_units e = record e {
  cut_with_feed = enabled;
  cut_feed_units = feed_units;
}

abbrev is_full : CutMode → Bool
is_full CutMode.partial = false
is_full CutMode.full = true

unfoldable pub cut_with_feed : CutMode → ℕ → Encoder → Encoder
cut_with_feed mode feed_units e =
    put (29 ∷ 86 ∷ (if is_full mode then 65 else 66) ∷ feed_units ∷ []) e

unfoldable pub cut : CutMode → Encoder → Encoder
unfolding cut_with_feed
cut mode e =
    if e.cut_with_feed
    then cut_with_feed mode e.cut_feed_units e
    else put (29 ∷ 86 ∷ (if is_full mode then 0 else 1) ∷ []) e

unfoldable pub kick_cash_drawer : ℕ → ℕ → ℕ → Encoder → Option Encoder
kick_cash_drawer connector_pin on_time off_time e =
    if ltb 1 connector_pin
    then none
    else some (put (27 ∷ 112 ∷ connector_pin ∷ on_time ∷ off_time ∷ []) e)

unfoldable pub asb : Bool → ℕ → Encoder → Encoder
asb enabled mask e = put (29 ∷ 97 ∷ (if enabled then mask else 0) ∷ []) e

abbrev pub raw : Bytes → Encoder → Encoder
raw bits e = put bits e

unfoldable pub process_id : Bytes → Encoder → Option Encoder
process_id token e = process_id_marker token >>= (λ marker. some (raw marker e))

unfoldable pub realtime_status : DleEotKind → Encoder → Encoder
realtime_status kind e = raw (dle_eot kind) e

unfoldable pub queued_paper_status : Encoder → Encoder
queued_paper_status e = raw gs_paper_status e

-- The loop of `appendBandedRaster`, with the rows that are left and their data; each turn takes at
-- least one row.
unfoldable pub band_commands : ℕ → ℕ → ℕ → ℕ → ℕ → Bytes → Bytes
band_commands zero scale bytes_per_row band left bits = []
band_commands (suc fuel) scale bytes_per_row band left bits =
    let rows = min band left in
    let size = bytes_per_row * rows in
    let rest = band_commands fuel scale bytes_per_row band (left - rows) (drop size bits) in
    if ltb 0 left then raster_command scale bytes_per_row rows (take size bits) ++ rest else []

unfoldable pub banded_raster : Bytes → ℕ → ℕ → RasterScale → ℕ → Bytes
unfolding band_commands
banded_raster bits bytes_per_row height scale max_rows_per_band =
    band_commands height (raster_scale_value scale) bytes_per_row
      (if max_rows_per_band == 0 then height else max_rows_per_band) height bits

unfoldable pub raster_packed : Bytes → ℕ → ℕ → RasterScale → ℕ → Encoder → Option Encoder
raster_packed bits width_dots height_dots scale max_rows_per_band e =
    let bytes_per_row = (width_dots + 7) % 2 ^ 32 / 8 in
    if (width_dots == 0) || (height_dots == 0)
    then none
    else if ltb 65535 bytes_per_row || ltb 65535 height_dots
    then none
    else if not (length bits == bytes_per_row * height_dots)
    then none
    else some (put (banded_raster bits bytes_per_row height_dots scale max_rows_per_band) e)

unfoldable pub qr : Bytes → ℕ → QrErrorCorrection → QrModel → Encoder → Option Encoder
qr content module_size ec model e =
    let size = length content + 3 in
    if not (leb 1 module_size && leb module_size 16)
    then none
    else if ltb 65532 (length content)
    then none
    else some (
        put
          ((29 ∷ 40 ∷ 107 ∷ 4 ∷ 0 ∷ 49 ∷ 65 ∷ qr_model_value model ∷ 0 ∷ [])
            ++ ((29 ∷ 40 ∷ 107 ∷ 3 ∷ 0 ∷ 49 ∷ 67 ∷ module_size ∷ [])
                ++ ((29 ∷ 40 ∷ 107 ∷ 3 ∷ 0 ∷ 49 ∷ 69 ∷ qr_error_correction_value ec ∷ [])
                    ++ ((29 ∷ 40 ∷ 107 ∷ low_byte size ∷ high_byte size ∷ 49 ∷ 80 ∷ 48 ∷ [])
                        ++ (content ++ (29 ∷ 40 ∷ 107 ∷ 3 ∷ 0 ∷ 49 ∷ 81 ∷ 48 ∷ []))))))
          e)

-- A call of a member, with the arguments it is given.
pub data Call : Type 0 where
  initializes feeds asks_paper_status : Call
  selects_code_page : CodePage → Call
  aligns : Alignment → Call
  sets_bold : Bool → Call
  sets_underline : ℕ → Call
  sets_text_size : ℕ → ℕ → Call
  writes writes_line : Bytes → Call
  feeds_lines feeds_dots : ℕ → Call
  uses_cut_with_feed : Bool → ℕ → Call
  cuts : CutMode → Call
  cuts_with_feed : CutMode → ℕ → Call
  kicks : ℕ → ℕ → ℕ → Call
  sets_asb : Bool → ℕ → Call
  marks : Bytes → Call
  asks_status : DleEotKind → Call
  draws : Bytes → ℕ → ℕ → RasterScale → ℕ → Call
  draws_qr : Bytes → ℕ → QrErrorCorrection → QrModel → Call

unfoldable pub call : Call → Encoder → Option Encoder
call initializes e = some (initialize e)
call feeds e = some (feed e)
call asks_paper_status e = some (queued_paper_status e)
call (selects_code_page page) e = some (select_code_page page e)
call (aligns alignment) e = some (align alignment e)
call (sets_bold enabled) e = some (set_bold enabled e)
call (sets_underline dots) e = set_underline dots e
call (sets_text_size width height) e = text_size width height e
call (writes utf8) e = some (text utf8 e)
call (writes_line utf8) e = some (line utf8 e)
call (feeds_lines lines) e = some (feed_lines lines e)
call (feeds_dots dots) e = some (feed_dots dots e)
call (uses_cut_with_feed enabled units) e = some (use_cut_with_feed enabled units e)
call (cuts mode) e = some (cut mode e)
call (cuts_with_feed mode units) e = some (cut_with_feed mode units e)
call (kicks pin on_time off_time) e = kick_cash_drawer pin on_time off_time e
call (sets_asb enabled mask) e = some (asb enabled mask e)
call (marks token) e = process_id token e
call (asks_status kind) e = some (realtime_status kind e)
call (draws bits width height scale band) e = raster_packed bits width height scale band e
call (draws_qr bits size ec model) e = qr bits size ec model e

-- A chain of calls, which the first exception ends.
unfoldable pub run : List Call → Encoder → Option Encoder
unfolding call
run [] e = some e
run (c ∷ cs) e = call c e >>= run cs
