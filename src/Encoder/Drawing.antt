-- ===== src/Encoder/Drawing.antt =====
-- What a chain of encoder calls asks for: the reference that knows no bytes and caches nothing. Every
-- call sets its style and adds what it prints.
use printer_driver.Base.{
  ℕ, ◌+◌, ◌*◌, ◌/◌, Bytes, Bool, true, false, ◌&&◌, ◌||◌, ◌<◌, ◌^◌, List, [], ◌∷◌, ◌++◌,
  if◌then◌else◌, leb, ◌==◌, length, map,
}
use printer_driver.Encoder.{
  CodePage, code_page_value, CutMode, alignment_value, qr_model_value, qr_error_correction_value,
  raster_scale_value,
}
use printer_driver.Encoder.Builder.{Call, bit_of}
use printer_driver.Encoder.CodePages.{transliterate}
use printer_driver.Encoder.Commands.{dle_eot_value}
use printer_driver.Encoder.Printer.{
  Style, Item, default_style, glyph, fed_line, fed_dot, cut_at, kicked, queued_status, raster_byte,
  function, copies,
}

-- The style in force, how a cut is to be made, and what is on the paper.
pub record Sheet : Type 0 where
  pub page : CodePage
  pub style : Style
  pub cut_with_feed : Bool
  pub cut_feed_units : ℕ
  pub items : List Item

abbrev pub blank : Sheet
blank = record {
  page = CodePage.pc437;
  style = default_style;
  cut_with_feed = false;
  cut_feed_units = 0;
  items = [];
}

abbrev pub add : List Item → Sheet → Sheet
add items t = record t { items = t.items ++ items }

abbrev pub restyle : Style → Sheet → Sheet
restyle s t = record t { style = s }

abbrev pub fed_cut_at : CutMode → ℕ → Item
fed_cut_at CutMode.partial units = cut_at 66 units
fed_cut_at CutMode.full units = cut_at 65 units

abbrev pub plain_cut_at : CutMode → Item
plain_cut_at CutMode.partial = cut_at 1 0
plain_cut_at CutMode.full = cut_at 0 0

abbrev pub glyphs : Bytes → Sheet → List Item
glyphs utf8 t = map (glyph t.style) (transliterate utf8 t.page)

abbrev pub qr_symbol : Bytes → ℕ → ℕ → ℕ → List Item
qr_symbol content size ec model =
    function 107 (49 ∷ 65 ∷ model ∷ 0 ∷ [])
    ∷ function 107 (49 ∷ 67 ∷ size ∷ [])
    ∷ function 107 (49 ∷ 69 ∷ ec ∷ [])
    ∷ function 107 (49 ∷ 80 ∷ 48 ∷ content)
    ∷ function 107 (49 ∷ 81 ∷ 48 ∷ [])
    ∷ []

unfoldable pub draw : Call → Sheet → Sheet
draw Call.initializes t = record t { page = CodePage.pc437; style = default_style }
draw Call.feeds t = add (glyph t.style 10 ∷ []) t
draw Call.asks_paper_status t = add (queued_status 1 ∷ []) t
draw (Call.selects_code_page page) t = record t {
  page = page;
  style = record t.style { code_table = code_page_value page };
}
draw (Call.aligns alignment) t =
    restyle (record t.style { justification = alignment_value alignment }) t
draw (Call.sets_bold enabled) t = restyle (record t.style { emphasis = bit_of enabled }) t
draw (Call.sets_underline dots) t = restyle (record t.style { underlining = dots }) t
draw (Call.sets_text_size width height) t =
    restyle (record t.style { width = width; height = height }) t
draw (Call.writes utf8) t = add (glyphs utf8 t) t
draw (Call.writes_line utf8) t = add (glyphs utf8 t ++ (glyph t.style 10 ∷ [])) t
draw (Call.feeds_lines lines) t = add (copies lines fed_line) t
draw (Call.feeds_dots dots) t = add (copies dots fed_dot) t
draw (Call.uses_cut_with_feed enabled units) t = record t {
  cut_with_feed = enabled;
  cut_feed_units = units;
}
draw (Call.cuts mode) t =
    add ((if t.cut_with_feed then fed_cut_at mode t.cut_feed_units else plain_cut_at mode) ∷ []) t
draw (Call.cuts_with_feed mode units) t = add (fed_cut_at mode units ∷ []) t
draw (Call.kicks pin on_time off_time) t = add (kicked pin on_time off_time ∷ []) t
draw (Call.sets_asb enabled mask) t = add (Item.status_back (if enabled then mask else 0) ∷ []) t
draw (Call.marks token) t = add (function 72 (48 ∷ 48 ∷ token) ∷ []) t
draw (Call.asks_status kind) t = add (Item.realtime_status (dle_eot_value kind) ∷ []) t
draw (Call.draws bits width height scale band) t =
    add (map (raster_byte (raster_scale_value scale) ((width + 7) / 8)) bits) t
draw (Call.draws_qr content size ec model) t =
    add (qr_symbol content size (qr_error_correction_value ec) (qr_model_value model)) t

unfoldable pub draw_all : List Call → Sheet → Sheet
unfolding draw
draw_all [] t = t
draw_all (c ∷ cs) t = draw_all cs (draw c t)

-- The width of a raster is a 32-bit number.
abbrev pub Fits : Call → Type 0
Fits (Call.draws bits width height scale band) = width < 2 ^ 32
Fits _ = Unit

abbrev within : ℕ → ℕ → ℕ → Bool
within low high n = leb low n && leb n high

-- The arguments are in the ranges that the encoder documents. The sum of a width and 7 wraps around at
-- 2 ^ 32, and a raster with such a width passes when it has no bits.
unfoldable pub is_valid : Call → Bool
is_valid (Call.sets_underline dots) = within 0 2 dots
is_valid (Call.sets_text_size width height) = within 1 8 width && within 1 8 height
is_valid (Call.kicks pin on_time off_time) = within 0 1 pin
is_valid (Call.marks (a ∷ b ∷ c ∷ d ∷ [])) =
    within 32 126 a && (within 32 126 b && (within 32 126 c && within 32 126 d))
is_valid (Call.marks token) = false
is_valid (Call.draws bits width height scale band) =
    within 1 65535 height
    && ((within 1 524280 width && (length bits == (width + 7) / 8 * height))
        || (leb 4294967289 width && (length bits == 0)))
is_valid (Call.draws_qr content size ec model) = within 1 16 size && leb (length content + 3) 65535
is_valid _ = true
