-- ===== src/Encoder/Rendering.antt =====
-- What the printer does with an encoder's bytes, against what each call of the encoder asks for.
use printer_driver.Base.{
  and_parts, ℕ, Bytes, Bool, true, not, ◌&&◌, List, [], ◌∷◌, ◌++◌, ◌==◌, ◌≡◌, refl, and_parts, sym,
  ap, arith, length, map, all,
}
use mathlib.Core.List.{append_assoc, append-nil}
use printer_driver.Encoder.Printer.{
  Style, Item, ready, raster_left, glyph, raster_byte, function, Printer, ready_in, interpret,
  read_byte, execute, function_of, collecting,
}

pub interpret-append :
    (xs ys : Bytes) (p : Printer) → interpret (xs ++ ys) p ≡ interpret ys (interpret xs p)
unfolding interpret
interpret-append [] ys p = refl
interpret-append (x ∷ xs) ys p = interpret-append xs ys _

-- Bytes that start no command.
abbrev pub is_text : ℕ → Bool
is_text b = not (b == 27) && (not (b == 29) && not (b == 16))

pub read_text :
    (s : Style) (out : List Item) (b : ℕ)
    → is_text b ≡ true
    → read_byte ready b (ready_in s out) ≡ ready_in s (out ++ (glyph s b ∷ []))
unfolding read_byte
read_text s out b t = ground (arith, t)

pub interpret-text :
    (bs : Bytes) (s : Style) (out : List Item)
    → all is_text bs ≡ true
    → interpret bs (ready_in s out) ≡ ready_in s (out ++ map (glyph s) bs)
unfolding interpret
interpret-text [] s out t = ap (ready_in s) (sym (append-nil out))
interpret-text (b ∷ bs) s out t =
    let parts = and_parts (is_text b) (all is_text bs) t in
    rw
      (
        read_text s out b parts.0,
        interpret-text bs s (out ++ (glyph s b ∷ [])) parts.1,
        append_assoc out (glyph s b ∷ []) (map (glyph s) bs),
      )
      refl

-- The bytes of a raster, each a dot byte.
pub interpret-raster :
    (bs : Bytes) (scale width : ℕ) (s : Style) (out : List Item)
    → interpret bs (record { style = s; mode = raster_left scale width (length bs); printed = out })
      ≡ ready_in s (out ++ map (raster_byte scale width) bs)
unfolding interpret read_byte
interpret-raster [] scale width s out = ap (ready_in s) (sym (append-nil out))
interpret-raster (b ∷ bs) scale width s out =
    rw
      (
        interpret-raster bs scale width s _,
        append_assoc out (raster_byte scale width b ∷ []) (map (raster_byte scale width) bs),
      )
      refl

-- The parameters of a function, collected.
pub interpret-collect :
    (bs : Bytes) (b letter : ℕ) (old : Bytes) (s : Style) (out : List Item)
    → interpret (b ∷ bs) (record {
      style = s;
      mode = collecting (function_of letter) (length bs) old;
      printed = out;
    })
      ≡ ready_in s (out ++ (function letter (old ++ (b ∷ bs)) ∷ []))
unfolding interpret read_byte execute
interpret-collect [] b letter old s out = refl
interpret-collect (c ∷ bs) b letter old s out =
    rw (interpret-collect bs c letter (old ++ (b ∷ [])) s out, append_assoc old (b ∷ []) (c ∷ bs))
      refl
