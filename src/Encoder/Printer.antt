-- ===== src/Encoder/Printer.antt =====
-- A printer that reads commands as core/include/printerdriver/escpos_encoder.hpp describes them, byte
-- by byte: the reference that the encoder's bytes are read by.
use printer_driver.Base.{
  ℕ, zero, suc, ◌+◌, ◌*◌, ◌/◌, ◌%◌, Bytes, List, [], ◌∷◌, ◌++◌, if◌then◌else◌, ◌==◌, ◌||◌,
}

-- The style that the printer is in, by the operands of the commands that set it.
pub record Style : Type 0 where
  pub code_table : ℕ
  pub justification : ℕ
  pub emphasis : ℕ
  pub underlining : ℕ
  pub width : ℕ
  pub height : ℕ

-- After power-on, and after ESC @.
abbrev pub default_style : Style
default_style = record {
  code_table = 0;
  justification = 0;
  emphasis = 0;
  underlining = 0;
  width = 1;
  height = 1;
}

-- What the printer does, in order.
pub data Item : Type 0 where
  glyph : Style → ℕ → Item
  fed_line fed_dot : Item
  -- The operand of GS V, and the units fed before the cut.
  cut_at : ℕ → ℕ → Item
  kicked : ℕ → ℕ → ℕ → Item
  status_back queued_status realtime_status : ℕ → Item
  -- One byte of a raster, with the scale and the bytes of a row.
  raster_byte : ℕ → ℕ → ℕ → Item
  -- GS ( with its function letter and its parameters.
  function : ℕ → Bytes → Item

-- A command whose operands are being collected.
pub data Command : Type 0 where
  code_table justification emphasis underlining lines dots kick character_size : Command
  status_back queued cut_mode raster_header function_header realtime : Command
  fed_cut function_of : ℕ → Command

pub data Mode : Type 0 where
  ready escape group link : Mode
  -- The operands that are missing besides the next one, and those that have come.
  collecting : Command → ℕ → Bytes → Mode
  -- The scale, the bytes of a row, and the data bytes that are missing besides the next one.
  raster : ℕ → ℕ → ℕ → Mode

pub record Printer : Type 0 where
  pub style : Style
  pub mode : Mode
  pub printed : List Item

-- Ready in a style, after what has been printed.
abbrev pub ready_in : Style → List Item → Printer
ready_in s printed = record { style = s; mode = ready; printed = printed }

abbrev pub power_on : Printer
power_on = ready_in default_style []

abbrev pub does : List Item → Printer → Printer
does items p = record p { mode = ready; printed = p.printed ++ items }

abbrev pub restyled : Style → Printer → Printer
restyled s p = record p { mode = ready; style = s }

abbrev pub copies : ℕ → Item → List Item
copies zero item = []
copies (suc n) item = item ∷ copies n item

abbrev pub raster_left : ℕ → ℕ → ℕ → Mode
raster_left scale width zero = ready
raster_left scale width (suc n) = raster scale width n

abbrev pub function_left : ℕ → ℕ → Printer → Printer
function_left letter zero p = does (function letter [] ∷ []) p
function_left letter (suc n) p = record p { mode = collecting (function_of letter) n [] }

-- A command with all its operands.
unfoldable pub execute : Command → Bytes → Printer → Printer
execute Command.code_table (n ∷ []) p = restyled (record p.style { code_table = n }) p
execute Command.justification (n ∷ []) p = restyled (record p.style { justification = n }) p
execute Command.emphasis (n ∷ []) p = restyled (record p.style { emphasis = n }) p
execute Command.underlining (n ∷ []) p = restyled (record p.style { underlining = n }) p
execute Command.character_size (n ∷ []) p =
    restyled (record p.style { width = n / 16 % 8 + 1; height = n % 8 + 1 }) p
execute Command.lines (n ∷ []) p = does (copies n fed_line) p
execute Command.dots (n ∷ []) p = does (copies n fed_dot) p
execute Command.kick (m ∷ t1 ∷ t2 ∷ []) p = does (kicked m t1 t2 ∷ []) p
execute Command.status_back (n ∷ []) p = does (Item.status_back n ∷ []) p
execute Command.queued (n ∷ []) p = does (queued_status n ∷ []) p
execute Command.realtime (n ∷ []) p = does (realtime_status n ∷ []) p
execute Command.cut_mode (m ∷ []) p =
    if (m == 65) || (m == 66)
    then record p { mode = collecting (fed_cut m) 0 [] }
    else does (cut_at m 0 ∷ []) p
execute (fed_cut m) (n ∷ []) p = does (cut_at m n ∷ []) p
execute Command.raster_header (zero_byte ∷ scale ∷ xl ∷ xh ∷ yl ∷ yh ∷ []) p =
    let width = xl + 256 * xh in
    record p { mode = raster_left scale width (width * (yl + 256 * yh)) }
execute Command.function_header (letter ∷ pl ∷ ph ∷ []) p = function_left letter (pl + 256 * ph) p
execute (function_of letter) params p = does (function letter params ∷ []) p
execute c operands p = record p { mode = ready }

-- A command with no operand yet.
abbrev awaiting : Command → ℕ → Printer → Printer
awaiting cmd n p = record p { mode = collecting cmd n [] }

-- The letter behind ESC.
abbrev pub after_escape : ℕ → Printer → Printer
after_escape c p =
    if c == 64
    then restyled default_style p
    else if c == 116
    then awaiting Command.code_table 0 p
    else if c == 97
    then awaiting Command.justification 0 p
    else if c == 69
    then awaiting Command.emphasis 0 p
    else if c == 45
    then awaiting Command.underlining 0 p
    else if c == 100
    then awaiting Command.lines 0 p
    else if c == 74
    then awaiting Command.dots 0 p
    else if c == 112
    then awaiting Command.kick 2 p
    else record p { mode = ready }

-- The letter behind GS.
abbrev pub after_group : ℕ → Printer → Printer
after_group c p =
    if c == 33
    then awaiting Command.character_size 0 p
    else if c == 97
    then awaiting Command.status_back 0 p
    else if c == 114
    then awaiting Command.queued 0 p
    else if c == 86
    then awaiting Command.cut_mode 0 p
    else if c == 118
    then awaiting Command.raster_header 5 p
    else if c == 40
    then awaiting Command.function_header 2 p
    else record p { mode = ready }

abbrev pub after_link : ℕ → Printer → Printer
after_link c p =
    if c == 4
    then record p { mode = collecting Command.realtime 0 [] }
    else record p { mode = ready }

-- A byte in text is a control code or a glyph.
abbrev pub in_text : ℕ → Printer → Printer
in_text b p =
    if b == 27
    then record p { mode = escape }
    else if b == 29
    then record p { mode = group }
    else if b == 16
    then record p { mode = link }
    else does (glyph p.style b ∷ []) p

abbrev pub collect : Command → ℕ → Bytes → Printer → Printer
unfolding execute
collect cmd zero operands p = execute cmd operands p
collect cmd (suc n) operands p = record p { mode = collecting cmd n operands }

unfoldable pub read_byte : Mode → ℕ → Printer → Printer
read_byte ready b p = in_text b p
read_byte escape b p = after_escape b p
read_byte group b p = after_group b p
read_byte link b p = after_link b p
read_byte (collecting cmd n operands) b p = collect cmd n (operands ++ (b ∷ [])) p
read_byte (raster scale width n) b p = record p {
  mode = raster_left scale width n;
  printed = p.printed ++ (raster_byte scale width b ∷ []);
}

unfoldable pub interpret : Bytes → Printer → Printer
unfolding read_byte
interpret [] p = p
interpret (b ∷ bs) p = interpret bs (read_byte p.mode b p)
