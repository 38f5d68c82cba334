-- ===== src/Encoder/Frames.antt =====
-- Calls that send whole frames: the dot feeds, the rasters, the marker and the QR code.
use printer_driver.Base.{
  ◌||◌, ℕ, suc, ◌+◌, ◌*◌, ◌/◌, Bytes, not, ◌&&◌, List, [], ◌∷◌, ◌++◌, if◌then◌else◌, ◌==◌, ltb, leb,
  ◌≡◌, refl, ◌∙◌, ap, arith, length, none, some, if_holds, low_byte, high_byte, ◌>>=◌, ◌<◌, ◌^◌,
  ◌%◌,
}
use printer_driver.Encoder.{
  QrErrorCorrection, qr_model_value, qr_error_correction_value, QrModel, Encoder, RasterScale,
  raster_scale_value,
}
use printer_driver.Encoder.Builder.{
  Call, put, feed_dots, kick_cash_drawer, process_id, raster_packed, qr, banded_raster,
}
use printer_driver.Encoder.Commands.{is_valid_process_id_token}
use printer_driver.Encoder.Chunks.{interpret-dot_commands, interpret-band_commands}
use printer_driver.Encoder.Drawing.{Sheet, draw}
use printer_driver.Encoder.Printer.{
  Command, collecting, function, function_left, Style, Item, Printer, ready_in, interpret,
  read_byte, execute,
}
use printer_driver.Encoder.Styles.{Matches, Holds, put-Matches}
use printer_driver.Encoder.Rendering.{interpret-append, interpret-collect}

pub feed_dots-Matches :
    (p : Printer) (e : Encoder) (t : Sheet) (dots : ℕ)
    → Matches p e t
    → Matches p (feed_dots dots e) (draw (Call.feeds_dots dots) t)
unfolding feed_dots draw
feed_dots-Matches p e t dots m =
    put-Matches p e t _ _ m (interpret-dot_commands dots dots t.style t.items (omega arith))

pub kick-Matches :
    (p : Printer) (e : Encoder) (t : Sheet) (pin on_time off_time : ℕ)
    → Matches p e t
    → Holds p (draw (Call.kicks pin on_time off_time) t) (kick_cash_drawer pin on_time off_time e)
unfolding Holds draw kick_cash_drawer interpret read_byte execute
kick-Matches p e t pin on_time off_time m =
    if_holds (Holds p (draw (Call.kicks pin on_time off_time) t)) (ltb 1 pin) none _ (λ bad. tt)
      (λ good. put-Matches p e t _ _ m refl)

-- A GS ( command with its parameters.
pub interpret-function :
    (letter pl ph b : ℕ) (bs : Bytes) (s : Style) (out : List Item)
    → pl + 256 * ph ≡ suc (length bs)
    → interpret (29 ∷ 40 ∷ letter ∷ pl ∷ ph ∷ b ∷ bs) (ready_in s out)
      ≡ ready_in s (out ++ (function letter (b ∷ bs) ∷ []))
unfolding interpret read_byte execute
interpret-function letter pl ph b bs s out size =
    ap
      (λ n. interpret (b ∷ bs) (
        function_left letter n (record {
          style = s;
          mode = collecting Command.function_header 0 (letter ∷ pl ∷ []);
          printed = out;
        })))
      size
    ∙ interpret-collect bs b letter [] s out

pub process_id-Matches :
    (p : Printer) (e : Encoder) (t : Sheet) (token : Bytes)
    → Matches p e t
    → Holds p (draw (Call.marks token) t) (process_id token e)
unfolding Holds draw process_id
process_id-Matches p e t token m =
    if_holds (λ o. Holds p (draw (Call.marks token) t) (o >>= (λ marker. some (put marker e))))
      (is_valid_process_id_token token) (some _) none
      (λ good.
        put-Matches p e t _ _ m
          (interpret-function 72 6 0 48 (48 ∷ token) t.style t.items (ground (arith, good))))
      (λ bad. tt)

-- A width whose sum with 7 does not wrap around.
narrow : (width : ℕ) → width + 7 < 2 ^ 32 → (width + 7) % 2 ^ 32 / 8 ≡ (width + 7) / 8
narrow width h = omega (arith, h)

pub raster_packed-Matches :
    (p : Printer) (e : Encoder) (t : Sheet) (bits : Bytes) (width height : ℕ) (scale : RasterScale)
    (band : ℕ)
    → width + 7 < 2 ^ 32
    → Matches p e t
    → Holds p
        (draw (Call.draws bits width height scale band) t)
        (raster_packed bits width height scale band e)
unfolding Holds draw raster_packed banded_raster
raster_packed-Matches p e t bits width height scale band h m =
    let Q = Holds p (draw (Call.draws bits width height scale band) t) in
    let row = (width + 7) / 8 in
    rw (narrow width h, raster_packed)
      (if_holds Q ((width == 0) || (height == 0)) none _ (λ bad. tt)
        (λ sized.
          if_holds Q (ltb 65535 row || ltb 65535 height) none _ (λ bad. tt)
            (λ fits.
              if_holds Q (not (length bits == row * height)) none _ (λ bad. tt)
                (λ exact. put-Matches p e t _ _ m (
                  interpret-band_commands height (raster_scale_value scale) row
                    (if band == 0 then height else band) height bits t.style t.items (omega arith)
                    (ground (arith, sized)) (ground (arith, fits)) (ground (arith, fits))
                    (ground (arith, exact)))))))

-- Five items behind others.
append_five :
    (out : List Item) (a b c d e : Item)
    → ((((out ++ (a ∷ [])) ++ (b ∷ [])) ++ (c ∷ [])) ++ (d ∷ [])) ++ (e ∷ [])
      ≡ out ++ (a ∷ b ∷ c ∷ d ∷ e ∷ [])
append_five [] a b c d e = refl
append_five (x ∷ out) a b c d e = ap (λ l. x ∷ l) (append_five out a b c d e)

pub qr-Matches :
    (p : Printer) (e : Encoder) (t : Sheet) (content : Bytes) (size : ℕ) (ec : QrErrorCorrection)
    (model : QrModel)
    → Matches p e t
    → Holds p (draw (Call.draws_qr content size ec model) t) (qr content size ec model e)
unfolding Holds draw qr interpret read_byte execute
qr-Matches p e t content size ec model m =
    let Q = Holds p (draw (Call.draws_qr content size ec model) t) in
    let fn = (λ (params : Bytes). function 107 params) in
    let first = fn (49 ∷ 65 ∷ qr_model_value model ∷ 0 ∷ []) in
    let second = fn (49 ∷ 67 ∷ size ∷ []) in
    let third = fn (49 ∷ 69 ∷ qr_error_correction_value ec ∷ []) in
    let before : List Item = ((t.items ++ (first ∷ [])) ++ (second ∷ [])) ++ (third ∷ []) in
    let last : Bytes = 29 ∷ 40 ∷ 107 ∷ 3 ∷ 0 ∷ 49 ∷ 81 ∷ 48 ∷ [] in
    let n = length content + 3 in
    let store : Bytes = 29 ∷ 40 ∷ 107 ∷ low_byte n ∷ high_byte n ∷ 49 ∷ 80 ∷ 48 ∷ content in
    if_holds Q (not (leb 1 size && leb size 16)) none _ (λ bad. tt)
      (λ sized.
        if_holds Q (ltb 65532 (length content)) none _ (λ bad. tt)
          (λ fits. put-Matches p e t _ _ m (
            interpret-append store last (ready_in t.style before)
            ∙ ap (interpret last) (
                interpret-function 107 (low_byte n) (high_byte n) 49 (80 ∷ 48 ∷ content) t.style
                  before (ground (arith, fits)))
            ∙ ap (ready_in t.style) (
                append_five t.items first second third (fn (49 ∷ 80 ∷ 48 ∷ content))
                  (fn (49 ∷ 81 ∷ 48 ∷ []))))))
