-- ===== src/Encoder/Faithful.antt =====
-- The printer does with an encoder's bytes what the calls asked for.
use printer_driver.Parser.Status.{DleEotKind}
use printer_driver.Encoder.Frames.{
  feed_dots-Matches, kick-Matches, process_id-Matches, raster_packed-Matches, qr-Matches,
}
use printer_driver.Base.{
  Option-cases, inl, inr, is_some, ℕ, Bytes, Bool, true, false, List, [], ◌∷◌, ◌++◌, if◌then◌else◌,
  ◌≡◌, refl, sym, ◌∙◌, ap, arith, All, all, some, is_some,
}
use mathlib.Core.List.{append_assoc}
use printer_driver.Encoder.{Encoder, CutMode, new_encoder}
use printer_driver.Encoder.Builder.{
  Call, call, run, put, set_underline, text_size, text, line, feed, feed_lines, use_cut_with_feed,
  cut, cut_with_feed, kick_cash_drawer, asb, process_id, realtime_status, queued_paper_status,
  raster_packed, qr,
}
use printer_driver.Encoder.CodePages.{transliterate}
use printer_driver.Encoder.Drawing.{
  Fits, fed_cut_at, plain_cut_at, Sheet, blank, draw, draw_all, is_valid, glyphs,
}
use printer_driver.Encoder.Plain.{transliterate-text}
use printer_driver.Encoder.Printer.{
  Style, Item, Printer, power_on, ready_in, interpret, read_byte, execute, glyph,
}
use mathlib.Core.Path.{subst}
use printer_driver.Encoder.Styles.{
  style_of, Matches, IsPlain, Holds, put-Matches, initialize-Matches, select_code_page-Matches,
  align-Matches, set_bold-Matches, set_underline-Matches, text_size-Matches,
}
use printer_driver.Encoder.Rendering.{is_text, interpret-text}

text-Matches :
    (p : Printer) (e : Encoder) (t : Sheet) (utf8 : Bytes)
    → all is_text utf8 ≡ true
    → Matches p e t
    → Matches p (text utf8 e) (draw (Call.writes utf8) t)
unfolding text draw
text-Matches p e t utf8 plain m = put-Matches p e t _ (glyphs utf8 t) m (
    ap (λ page. interpret (transliterate utf8 page) (ready_in t.style t.items)) m.page
    ∙ interpret-text (transliterate utf8 t.page) t.style t.items
        (transliterate-text utf8 t.page plain))

line-Matches :
    (p : Printer) (e : Encoder) (t : Sheet) (utf8 : Bytes)
    → all is_text utf8 ≡ true
    → Matches p e t
    → Matches p (line utf8 e) (draw (Call.writes_line utf8) t)
unfolding line text feed draw interpret read_byte
line-Matches p e t utf8 plain m =
    subst (λ items. Matches p (line utf8 e) (record t { items = items }))
      (append_assoc t.items (glyphs utf8 t) (glyph t.style 10 ∷ []))
      (put-Matches p (text utf8 e) (draw (Call.writes utf8) t) (10 ∷ []) (glyph t.style 10 ∷ [])
        (text-Matches p e t utf8 plain m) refl)

cut_with_feed-Matches :
    (p : Printer) (e : Encoder) (t : Sheet) (mode : CutMode) (units : ℕ)
    → Matches p e t
    → Matches p (cut_with_feed mode units e) (draw (Call.cuts_with_feed mode units) t)
unfolding cut_with_feed draw interpret read_byte execute
cut_with_feed-Matches p e t CutMode.partial units m = put-Matches p e t _ _ m refl
cut_with_feed-Matches p e t CutMode.full units m = put-Matches p e t _ _ m refl

abbrev cut_bytes : CutMode → Bool → ℕ → Bytes
cut_bytes CutMode.partial fed units = if fed then 29 ∷ 86 ∷ 66 ∷ units ∷ [] else 29 ∷ 86 ∷ 1 ∷ []
cut_bytes CutMode.full fed units = if fed then 29 ∷ 86 ∷ 65 ∷ units ∷ [] else 29 ∷ 86 ∷ 0 ∷ []

abbrev cut_item : CutMode → Bool → ℕ → Item
cut_item mode fed units = if fed then fed_cut_at mode units else plain_cut_at mode

interpret-cut_bytes :
    (mode : CutMode) (fed : Bool) (units : ℕ) (s : Style) (out : List Item)
    → interpret (cut_bytes mode fed units) (ready_in s out)
      ≡ ready_in s (out ++ (cut_item mode fed units ∷ []))
unfolding interpret read_byte execute
interpret-cut_bytes CutMode.partial true units s out = refl
interpret-cut_bytes CutMode.partial false units s out = refl
interpret-cut_bytes CutMode.full true units s out = refl
interpret-cut_bytes CutMode.full false units s out = refl

put_if :
    (b : Bool) (x y : Bytes) (e : Encoder)
    → put (if b then x else y) e ≡ (if b then put x e else put y e)
put_if true x y e = refl
put_if false x y e = refl

cut-put :
    (mode : CutMode) (e : Encoder)
    → put (cut_bytes mode e.cut_with_feed e.cut_feed_units) e ≡ cut mode e
unfolding cut cut_with_feed
cut-put CutMode.partial e = put_if e.cut_with_feed _ _ e
cut-put CutMode.full e = put_if e.cut_with_feed _ _ e

cut-Matches :
    (p : Printer) (e : Encoder) (t : Sheet) (mode : CutMode)
    → Matches p e t
    → Matches p (cut mode e) (draw (Call.cuts mode) t)
unfolding draw
cut-Matches p e t mode m =
    subst (λ x. Matches p x (draw (Call.cuts mode) t)) (cut-put mode e)
      (put-Matches p e t _ _ m (
        ap (λ fed. interpret (cut_bytes mode fed e.cut_feed_units) (ready_in t.style t.items))
          m.cut_with_feed
        ∙ ap (λ units. interpret (cut_bytes mode t.cut_with_feed units) (ready_in t.style t.items))
            m.cut_feed_units
        ∙ interpret-cut_bytes mode t.cut_with_feed t.cut_feed_units t.style t.items))

-- Every call that returns leaves encoder and printer as the call asks.
call-Matches :
    (p : Printer) (c : Call) (e : Encoder) (t : Sheet)
    → IsPlain c
    → Matches p e t
    → Holds p (draw c t) (call c e)
unfolding Holds call draw feed feed_lines use_cut_with_feed asb realtime_status queued_paper_status
    interpret read_byte execute
call-Matches p Call.initializes e t plain m = initialize-Matches p e t m
call-Matches p Call.feeds e t plain m = put-Matches p e t _ _ m refl
call-Matches p Call.asks_paper_status e t plain m = put-Matches p e t _ _ m refl
call-Matches p (Call.selects_code_page page) e t plain m = select_code_page-Matches p e t page m
call-Matches p (Call.aligns a) e t plain m = align-Matches p e t a m
call-Matches p (Call.sets_bold enabled) e t plain m = set_bold-Matches p e t enabled m
call-Matches p (Call.sets_underline dots) e t plain m = set_underline-Matches p e t dots m
call-Matches p (Call.sets_text_size w h) e t plain m = text_size-Matches p e t w h m
call-Matches p (Call.writes utf8) e t plain m = text-Matches p e t utf8 plain m
call-Matches p (Call.writes_line utf8) e t plain m = line-Matches p e t utf8 plain m
call-Matches p (Call.feeds_lines lines) e t plain m = put-Matches p e t _ _ m refl
call-Matches p (Call.feeds_dots dots) e t plain m = feed_dots-Matches p e t dots m
call-Matches p (Call.uses_cut_with_feed enabled units) e t plain m = record {
  page = m.page;
  style = m.style;
  cut_with_feed = refl;
  cut_feed_units = refl;
  shown = m.shown;
}
call-Matches p (Call.cuts mode) e t plain m = cut-Matches p e t mode m
call-Matches p (Call.cuts_with_feed mode units) e t plain m =
    cut_with_feed-Matches p e t mode units m
call-Matches p (Call.kicks pin on_time off_time) e t plain m =
    kick-Matches p e t pin on_time off_time m
call-Matches p (Call.sets_asb enabled mask) e t plain m = put-Matches p e t _ _ m refl
call-Matches p (Call.marks token) e t plain m = process_id-Matches p e t token m
call-Matches p (Call.asks_status DleEotKind.printer_status) e t plain m =
    put-Matches p e t _ _ m refl
call-Matches p (Call.asks_status DleEotKind.offline_cause) e t plain m =
    put-Matches p e t _ _ m refl
call-Matches p (Call.asks_status DleEotKind.error_cause) e t plain m = put-Matches p e t _ _ m refl
call-Matches p (Call.asks_status DleEotKind.paper_sensor) e t plain m = put-Matches p e t _ _ m refl
call-Matches p (Call.draws bits w h scale band) e t plain m =
    raster_packed-Matches p e t bits w h scale band plain m
call-Matches p (Call.draws_qr content size ec model) e t plain m =
    qr-Matches p e t content size ec model m

run-Matches :
    (p : Printer) (cs : List Call) (e : Encoder) (t : Sheet)
    → All IsPlain cs
    → Matches p e t
    → Holds p (draw_all cs t) (run cs e)
unfolding run draw_all Holds
run-Matches p [] e t plain m = m
run-Matches p (c ∷ cs) e t plain m = elim (Option-cases (call c e)) [
  | inl thrown ↦ rw thrown tt
  | inr (after, returned) ↦ rw returned (
      run-Matches p cs after (draw c t) plain.1
        (subst (Holds p (draw c t)) returned (call-Matches p c e t plain.0 m)))
]

-- Calls of all members but `raw` and the gray raster are chained on a new encoder, with text that has no
-- control codes of commands and rasters whose width is below 2 ^ 32 - 7, and none of them throws.
-- Then the printer that reads the bytes prints, from power-on, exactly what the calls ask for, each glyph
-- in the style in force, and the style that the encoder remembers, to leave commands out, is the
-- printer's.
pub run-renders :
    (cs : List Call) (e : Encoder)
    → All IsPlain cs
    → run cs new_encoder ≡ some e
    → (interpret e.buffer power_on ≡ ready_in (draw_all cs blank).style (draw_all cs blank).items)
      × (style_of e ≡ (draw_all cs blank).style)
unfolding Holds interpret
run-renders cs e plain returned =
    let m = subst (Holds power_on (draw_all cs blank)) returned (
      run-Matches power_on cs new_encoder blank plain (record {
        page = refl;
        style = refl;
        cut_with_feed = refl;
        cut_feed_units = refl;
        shown = refl;
      })) in
    (m.shown, m.style)

call-is_valid : (c : Call) (e : Encoder) → Fits c → is_some (call c e) ≡ is_valid c
unfolding call is_valid set_underline text_size kick_cash_drawer process_id raster_packed qr
call-is_valid Call.initializes e fits = refl
call-is_valid Call.feeds e fits = refl
call-is_valid Call.asks_paper_status e fits = refl
call-is_valid (Call.selects_code_page page) e fits = refl
call-is_valid (Call.aligns a) e fits = refl
call-is_valid (Call.sets_bold enabled) e fits = refl
call-is_valid (Call.sets_underline dots) e fits = ground arith
call-is_valid (Call.sets_text_size w h) e fits = ground arith
call-is_valid (Call.writes utf8) e fits = refl
call-is_valid (Call.writes_line utf8) e fits = refl
call-is_valid (Call.feeds_lines lines) e fits = refl
call-is_valid (Call.feeds_dots dots) e fits = refl
call-is_valid (Call.uses_cut_with_feed enabled units) e fits = refl
call-is_valid (Call.cuts mode) e fits = refl
call-is_valid (Call.cuts_with_feed mode units) e fits = refl
call-is_valid (Call.kicks pin on_time off_time) e fits = ground arith
call-is_valid (Call.sets_asb enabled mask) e fits = refl
call-is_valid (Call.marks token) e fits = ground arith
call-is_valid (Call.asks_status kind) e fits = refl
call-is_valid (Call.draws bits w h scale band) e fits = ground (arith, fits)
call-is_valid (Call.draws_qr content size ec model) e fits = ground arith

-- A chain of calls, of all members but `raw` and the gray raster and with 32-bit widths of rasters,
-- throws if and only if one of them has an argument out of its documented range; of the widths that are
-- too large, those from 2 ^ 32 - 7 do not throw with no bits.
pub run-is_valid :
    (cs : List Call) (e : Encoder) → All Fits cs → is_some (run cs e) ≡ all is_valid cs
unfolding run
run-is_valid [] e fits = refl
run-is_valid (c ∷ cs) e fits = elim (Option-cases (call c e)) [
  | inl thrown ↦ rw (sym (call-is_valid c e fits.0), thrown) refl
  | inr (after, returned) ↦
      rw (sym (call-is_valid c e fits.0), returned) (run-is_valid cs after fits.1)
]
