-- ===== src/Encoder/Chunks.antt =====
-- Feeds and rasters in several commands print what one command would.
use printer_driver.Base.{
  ℕ, zero, suc, ◌+◌, ◌-◌, ◌*◌, ◌≤◌, min, Bytes, List, [], ◌∷◌, ◌++◌, ◌≡◌, refl, ◌∙◌, low_byte,
  high_byte, sym, ap, arith, length, map, take, drop, if_holds, ltb,
}
use native.Mathlib.Nat.{mul-add}
use mathlib.Core.List.{append_assoc, append-nil, map-append}
use printer_driver.Encoder.Builder.{dot_commands, band_commands}
use printer_driver.Encoder.Commands.{raster_command}
use printer_driver.Encoder.Printer.{
  Style, Item, fed_dot, raster_byte, Printer, ready_in, copies, interpret, read_byte, execute,
  raster_left,
}
use printer_driver.Encoder.Rendering.{interpret-raster, interpret-append}

copies_append : (m n : ℕ) (item : Item) → copies m item ++ copies n item ≡ copies (m + n) item
copies_append zero n item = let e : n ≡ 0 + n = omega arith in ap (λ k. copies k item) e
copies_append (suc m) n item =
    let e : suc (m + n) ≡ suc m + n = omega arith in
    ap (λ l. item ∷ l) (copies_append m n item) ∙ ap (λ k. copies k item) e

-- The loop of `feedDots` feeds all the dots, with fuel for one turn a dot.
pub interpret-dot_commands :
    (fuel dots : ℕ) (s : Style) (out : List Item)
    → dots ≤ fuel
    → interpret (dot_commands fuel dots) (ready_in s out) ≡ ready_in s (out ++ copies dots fed_dot)
unfolding dot_commands interpret read_byte execute
interpret-dot_commands zero dots s out le =
    let e : 0 ≡ dots = omega (arith, le) in
    ap (ready_in s) (sym (append-nil out)) ∙ ap (λ k. ready_in s (out ++ copies k fed_dot)) e
interpret-dot_commands (suc fuel) dots s out le =
    let chunk = min dots 255 in
    let left = dots - chunk in
    let e : chunk + left ≡ dots = omega arith in
    let tail : copies chunk fed_dot ++ copies left fed_dot ≡ copies dots fed_dot =
      copies_append chunk left fed_dot ∙ ap (λ n. copies n fed_dot) e in
    if_holds (λ bytes. interpret bytes (ready_in s out) ≡ ready_in s (out ++ copies dots fed_dot))
      (ltb 0 dots) (27 ∷ 74 ∷ chunk ∷ dot_commands fuel left) []
      (λ some_left.
        interpret-dot_commands fuel left s (out ++ copies chunk fed_dot)
          (ground (arith, le, some_left))
        ∙ ap (ready_in s) (
            append_assoc out (copies chunk fed_dot) (copies left fed_dot)
            ∙ ap (λ l. out ++ l) tail))
      (λ none_left.
        let z : 0 ≡ dots = ground (arith, none_left) in
        ap (ready_in s) (sym (append-nil out)) ∙ ap (λ k. ready_in s (out ++ copies k fed_dot)) z)

split_bytes : (n : ℕ) → n ≤ 65535 → low_byte n + 256 * high_byte n ≡ n
split_bytes n le = omega (arith, le)

-- One raster command prints its bits.
pub interpret-raster_command :
    (scale width rows : ℕ) (bits : Bytes) (s : Style) (out : List Item)
    → width ≤ 65535
    → rows ≤ 65535
    → length bits ≡ width * rows
    → interpret (raster_command scale width rows bits) (ready_in s out)
      ≡ ready_in s (out ++ map (raster_byte scale width) bits)
unfolding raster_command interpret read_byte execute
interpret-raster_command scale width rows bits s out w r size =
    let reading : ℕ → ℕ → Printer =
      λ v n. interpret bits (record { style = s; mode = raster_left scale v n; printed = out }) in
    ap (λ v. reading v (v * (low_byte rows + 256 * high_byte rows))) (split_bytes width w)
    ∙ ap (λ n. reading width (width * n)) (split_bytes rows r)
    ∙ ap (λ n. reading width n) (sym size)
    ∙ interpret-raster bits scale width s out

take-append-drop : (n : ℕ) (bits : Bytes) → take n bits ++ drop n bits ≡ bits
take-append-drop zero bits = refl
take-append-drop (suc n) [] = refl
take-append-drop (suc n) (b ∷ bits) = ap (λ l. b ∷ l) (take-append-drop n bits)

length-take : (n : ℕ) (bits : Bytes) → n ≤ length bits → length (take n bits) ≡ n
length-take zero bits le = refl
length-take (suc n) [] le = omega (arith, le)
length-take (suc n) (b ∷ bits) le = omega (arith, le, length-take n bits)

length-drop : (n : ℕ) (bits : Bytes) → length (drop n bits) ≡ length bits - n
length-drop zero bits = omega arith
length-drop (suc n) [] = omega arith
length-drop (suc n) (b ∷ bits) = omega (arith, length-drop n bits)

interpret-empty :
    (bits : Bytes) (scale width : ℕ) (s : Style) (out : List Item)
    → length bits ≡ 0
    → ready_in s out ≡ ready_in s (out ++ map (raster_byte scale width) bits)
interpret-empty [] scale width s out e = ap (ready_in s) (sym (append-nil out))
interpret-empty (b ∷ bits) scale width s out e = absurd (omega (arith, e))

-- The bands of a raster print its bits, whatever the height of a band.
pub interpret-band_commands :
    (fuel scale width band left : ℕ) (bits : Bytes) (s : Style) (out : List Item)
    → left ≤ fuel
    → 1 ≤ band
    → width ≤ 65535
    → left ≤ 65535
    → length bits ≡ width * left
    → interpret (band_commands fuel scale width band left bits) (ready_in s out)
      ≡ ready_in s (out ++ map (raster_byte scale width) bits)
unfolding band_commands interpret
interpret-band_commands zero scale width band left bits s out le b w l size =
    let none_left : left ≡ 0 = omega (arith, le) in
    interpret-empty bits scale width s out (size ∙ ap (λ n. width * n) none_left ∙ omega arith)
interpret-band_commands (suc fuel) scale width band left bits s out le b w l size =
    let rows = min band left in
    let now = take (width * rows) bits in
    let later = drop (width * rows) bits in
    let rest = band_commands fuel scale width band (left - rows) later in
    let dot = raster_byte scale width in
    let all_rows : rows + (left - rows) ≡ left = omega arith in
    let sizes : width * rows + width * (left - rows) ≡ length bits =
      sym (mul-add width rows (left - rows)) ∙ ap (λ n. width * n) all_rows ∙ sym size in
    if_holds (λ bytes. interpret bytes (ready_in s out) ≡ ready_in s (out ++ map dot bits))
      (ltb 0 left) (raster_command scale width rows now ++ rest) []
      (λ some_left.
        interpret-append (raster_command scale width rows now) rest (ready_in s out)
        ∙ ap (interpret rest) (
            interpret-raster_command scale width rows now s out w (omega (arith, l))
              (length-take (width * rows) bits (omega (arith, sizes))))
        ∙ interpret-band_commands fuel scale width band (left - rows) later s (out ++ map dot now)
            (ground (arith, le, b, some_left)) b w (omega (arith, l))
            (length-drop (width * rows) bits ∙ omega (arith, sizes))
        ∙ ap (ready_in s) (
            append_assoc out (map dot now) (map dot later)
            ∙ ap (λ k. out ++ k)
                (sym (map-append dot now later)
                  ∙ ap (map dot) (take-append-drop (width * rows) bits))))
      (λ none_left.
        let z : left ≡ 0 = ground (arith, none_left) in
        interpret-empty bits scale width s out (size ∙ ap (λ n. width * n) z ∙ omega arith))
