-- ===== src/Encoder/Styles.antt =====
-- What the encoder remembers of the style is what the printer is in: the setters.
use printer_driver.Base.{
  ℕ, ◌+◌, ◌-◌, ◌*◌, ◌/◌, ◌%◌, Bytes, Bool, true, not, ◌&&◌, List, [], ◌∷◌, ◌++◌, if◌then◌else◌,
  ◌==◌, ltb, ◌≡◌, refl, sym, ◌∙◌, ap, arith, all, Option, none, some, if_holds, ==_iff, and_parts,
  ◌<◌, ◌^◌,
}
use printer_driver.Encoder.{Encoder, alignment_value, code_page_value, CodePage, Alignment}
use printer_driver.Encoder.Builder.{
  Call, bit_of, is_multiplier, put, initialize, select_code_page, align, set_bold, set_underline,
  text_size, cut,
}
use printer_driver.Encoder.Drawing.{Sheet, add, draw}
use printer_driver.Encoder.Printer.{
  default_style, Style, Item, Printer, ready_in, interpret, read_byte, execute,
}
use printer_driver.Encoder.Rendering.{is_text, interpret-append}

-- The style that the encoder takes the printer to have.
abbrev pub style_of : Encoder → Style
style_of e = record {
  code_table = code_page_value e.code_page;
  justification = alignment_value e.alignment;
  emphasis = bit_of e.bold;
  underlining = e.underline;
  width = e.size_width;
  height = e.size_height;
}

-- What the encoder remembers, and the printer after the encoder's bytes, are as the sheet has them.
pub record Matches (p : Printer) (e : Encoder) (t : Sheet) : Type 0 where
  pub page : e.code_page ≡ t.page
  pub style : style_of e ≡ t.style
  pub cut_with_feed : e.cut_with_feed ≡ t.cut_with_feed
  pub cut_feed_units : e.cut_feed_units ≡ t.cut_feed_units
  pub shown : interpret e.buffer p ≡ ready_in t.style t.items

-- Text that no printer takes for a command.
abbrev pub IsPlain : Call → Type 0
IsPlain (Call.writes utf8) = all is_text utf8 ≡ true
IsPlain (Call.writes_line utf8) = all is_text utf8 ≡ true
IsPlain (Call.draws bits width height scale band) = width + 7 < 2 ^ 32
IsPlain _ = Unit

-- Bytes are appended behind a buffer that the printer has read.
pub shown_put :
    (p : Printer) {s s' : Style} {out out' : List Item} (buffer bytes : Bytes)
    → interpret buffer p ≡ ready_in s out
    → interpret bytes (ready_in s out) ≡ ready_in s' out'
    → interpret (buffer ++ bytes) p ≡ ready_in s' out'
shown_put p buffer bytes old new = interpret-append buffer bytes _ ∙ ap (interpret bytes) old ∙ new

-- A call that prints and leaves the style.
pub put-Matches :
    (p : Printer) (e : Encoder) (t : Sheet) (bytes : Bytes) (items : List Item)
    → Matches p e t
    → interpret bytes (ready_in t.style t.items) ≡ ready_in t.style (t.items ++ items)
    → Matches p (put bytes e) (add items t)
put-Matches p e t bytes items m new = record {
  page = m.page;
  style = m.style;
  cut_with_feed = m.cut_with_feed;
  cut_feed_units = m.cut_feed_units;
  shown = shown_put p e.buffer bytes m.shown new;
}

-- A setter finds the style as it is to be.
kept-Matches :
    (p : Printer) (e : Encoder) (t : Sheet) (f : Style → Style) (page : CodePage)
    → Matches p e t
    → style_of e ≡ f (style_of e)
    → e.code_page ≡ page
    → Matches p e (record t { page = page; style = f t.style })
kept-Matches p e t f page m kept same = record {
  page = same;
  style = kept ∙ ap f m.style;
  cut_with_feed = m.cut_with_feed;
  cut_feed_units = m.cut_feed_units;
  shown = m.shown ∙ ap (λ s. ready_in s t.items) (sym m.style ∙ kept ∙ ap f m.style);
}

-- A setter changes the style and tells the printer.
set-Matches :
    (p : Printer) (e e' : Encoder) (t : Sheet) (f : Style → Style) (page : CodePage) (bytes : Bytes)
    → Matches p e t
    → e'.code_page ≡ page
    → e'.buffer ≡ e.buffer ++ bytes
    → style_of e' ≡ f (style_of e)
    → (e'.cut_with_feed ≡ e.cut_with_feed) × (e'.cut_feed_units ≡ e.cut_feed_units)
    → interpret bytes (ready_in t.style t.items) ≡ ready_in (f t.style) t.items
    → Matches p e' (record t { page = page; style = f t.style })
set-Matches p e e' t f page bytes m same buffer style cut new = record {
  page = same;
  style = style ∙ ap f m.style;
  cut_with_feed = cut.0 ∙ m.cut_with_feed;
  cut_feed_units = cut.1 ∙ m.cut_feed_units;
  shown = ap (λ b. interpret b p) buffer ∙ shown_put p e.buffer bytes m.shown new;
}

-- A call that may throw.
unfoldable pub Holds : Printer → Sheet → Option Encoder → Type 0
Holds p t none = Unit
Holds p t (some e) = Matches p e t

pub initialize-Matches :
    (p : Printer) (e : Encoder) (t : Sheet)
    → Matches p e t
    → Matches p (initialize e) (draw Call.initializes t)
unfolding initialize draw interpret read_byte
initialize-Matches p e t m =
    set-Matches p e _ t (λ s. default_style) CodePage.pc437 (27 ∷ 64 ∷ []) m refl refl refl
      (refl, refl) refl

page_of : ℕ → CodePage
page_of n =
    if n == 0
    then CodePage.pc437
    else if n == 2
    then CodePage.pc850
    else if n == 16
    then CodePage.wpc1252
    else if n == 18
    then CodePage.pc852
    else CodePage.pc858

page_of-value : (page : CodePage) → page_of (code_page_value page) ≡ page
unfolding page_of
page_of-value CodePage.pc437 = refl
page_of-value CodePage.pc850 = refl
page_of-value CodePage.wpc1252 = refl
page_of-value CodePage.pc852 = refl
page_of-value CodePage.pc858 = refl

pub select_code_page-Matches :
    (p : Printer) (e : Encoder) (t : Sheet) (page : CodePage)
    → Matches p e t
    → Matches p (select_code_page page e) (draw (Call.selects_code_page page) t)
unfolding select_code_page draw interpret read_byte execute
select_code_page-Matches p e t page m =
    let f = (λ (s : Style). record s { code_table = code_page_value page }) in
    if_holds (λ x. Matches p x (draw (Call.selects_code_page page) t))
      (code_page_value e.code_page == code_page_value page) e _
      (λ same.
        let n : code_page_value e.code_page ≡ code_page_value page = (==_iff _ _).0 same in
        kept-Matches p e t f page m (ap (λ k. record (style_of e) { code_table = k }) n)
          (sym (page_of-value e.code_page) ∙ ap page_of n ∙ page_of-value page))
      (λ other. set-Matches p e _ t f page _ m refl refl refl (refl, refl) refl)

pub align-Matches :
    (p : Printer) (e : Encoder) (t : Sheet) (a : Alignment)
    → Matches p e t
    → Matches p (align a e) (draw (Call.aligns a) t)
unfolding align draw interpret read_byte execute
align-Matches p e t a m =
    let f = (λ (s : Style). record s { justification = alignment_value a }) in
    if_holds (λ x. Matches p x (draw (Call.aligns a) t))
      (alignment_value e.alignment == alignment_value a) e _
      (λ same.
        kept-Matches p e t f t.page m
          (ap (λ k. record (style_of e) { justification = k }) ((==_iff _ _).0 same)) m.page)
      (λ other. set-Matches p e _ t f t.page _ m m.page refl refl (refl, refl) refl)

pub set_bold-Matches :
    (p : Printer) (e : Encoder) (t : Sheet) (enabled : Bool)
    → Matches p e t
    → Matches p (set_bold enabled e) (draw (Call.sets_bold enabled) t)
unfolding set_bold draw interpret read_byte execute
set_bold-Matches p e t enabled m =
    let f = (λ (s : Style). record s { emphasis = bit_of enabled }) in
    if_holds (λ x. Matches p x (draw (Call.sets_bold enabled) t)) (bit_of e.bold == bit_of enabled)
      e _
      (λ same.
        kept-Matches p e t f t.page m
          (ap (λ k. record (style_of e) { emphasis = k }) ((==_iff _ _).0 same)) m.page)
      (λ other. set-Matches p e _ t f t.page _ m m.page refl refl (refl, refl) refl)

pub set_underline-Matches :
    (p : Printer) (e : Encoder) (t : Sheet) (dots : ℕ)
    → Matches p e t
    → Holds p (draw (Call.sets_underline dots) t) (set_underline dots e)
unfolding set_underline draw interpret read_byte execute Holds
set_underline-Matches p e t dots m =
    let f = (λ (s : Style). record s { underlining = dots }) in
    if_holds (Holds p (draw (Call.sets_underline dots) t)) (ltb 2 dots) none _ (λ bad. tt)
      (λ good.
        if_holds (Holds p (draw (Call.sets_underline dots) t)) (e.underline == dots) (some e) _
          (λ same.
            kept-Matches p e t f t.page m
              (ap (λ k. record (style_of e) { underlining = k }) ((==_iff _ _).0 same)) m.page)
          (λ other. set-Matches p e _ t f t.page _ m m.page refl refl (refl, refl) refl))

-- The two nibbles of GS ! give the multipliers back.
nibbles :
    (w h : ℕ)
    → is_multiplier w && is_multiplier h ≡ true
    → (((w - 1) * 16 + (h - 1)) / 16 % 8 + 1 ≡ w) × (((w - 1) * 16 + (h - 1)) % 8 + 1 ≡ h)
nibbles w h r = ground (arith, r)

pub text_size-Matches :
    (p : Printer) (e : Encoder) (t : Sheet) (w h : ℕ)
    → Matches p e t
    → Holds p (draw (Call.sets_text_size w h) t) (text_size w h e)
unfolding text_size draw interpret read_byte execute Holds
text_size-Matches p e t w h m =
    let f = (λ (s : Style). record s { width = w; height = h }) in
    let sized = (λ (v k : ℕ). ready_in (record t.style { width = v; height = k }) t.items) in
    if_holds (λ o. Holds p (draw (Call.sets_text_size w h) t) o)
      (not (is_multiplier w && is_multiplier h)) none _ (λ bad. tt)
      (λ good.
        let n = nibbles w h (ground (arith, good)) in
        if_holds (Holds p (draw (Call.sets_text_size w h) t))
          ((e.size_width == w) && (e.size_height == h)) (some e) _
          (λ same.
            let parts = and_parts (e.size_width == w) (e.size_height == h) same in
            kept-Matches p e t f t.page m
              (ap (λ k. record (style_of e) { width = k }) ((==_iff _ _).0 parts.0)
                ∙ ap (λ k. record (style_of e) { width = w; height = k }) ((==_iff _ _).0 parts.1))
              m.page)
          (λ other.
            set-Matches p e _ t f t.page _ m m.page refl refl (refl, refl)
              (ap (λ v. sized v (((w - 1) * 16 + (h - 1)) % 8 + 1)) n.0 ∙ ap (sized w) n.1)))
