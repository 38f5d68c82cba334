-- ===== src/Encoder/Plain.antt =====
-- Text without control codes stays text when it is transliterated.
use printer_driver.Base.{
  ◌/◌, ℕ, zero, suc, Bytes, true, false, ◌&&◌, List, [], ◌∷◌, ◌≡◌, refl, arith, all, and_parts,
  Option, none, some, if_holds, ltb, leb, ◌==◌, length,
}
use printer_driver.Encoder.{CodePage, code_page_value}
use printer_driver.Encoder.CodePages.{
  cp852, checked, lower_bound, lookup_in, lookup_cp852, or_fallback, encode_codepoint,
  transliterate_loop, transliterate,
}
use printer_driver.Encoder.Rendering.{is_text}
use printer_driver.Encoder.Utf8.{lead, continuation, rejected, accept, decode_sequence, decode_utf8}

-- The test passes what the search ends on, and the entry it is given.
checked-text :
    (c : ℕ) (e : ℕ × ℕ) → is_text e.1 ≡ true → is_text (or_fallback (checked c (some e))) ≡ true
checked-text c e t =
    if_holds (λ o. is_text (or_fallback o) ≡ true) (e.0 == c) (some e.1) none (λ x. t) (λ x. refl)

lookup_in-text :
    (table : List (ℕ × ℕ)) (c : ℕ)
    → all (λ e. is_text e.1) table ≡ true
    → is_text (or_fallback (lookup_in table c)) ≡ true
unfolding lookup_in lower_bound
lookup_in-text [] c t = refl
lookup_in-text (e ∷ table) c t =
    let parts = and_parts (is_text e.1) (all (λ x. is_text x.1) table) t in
    if_holds (λ o. is_text (or_fallback (checked c o)) ≡ true) (ltb e.0 c) (lower_bound table c)
      (some e) (λ less. lookup_in-text table c parts.1) (λ found. checked-text c e parts.0)

-- What a code point becomes is text, if it is not an ASCII control code itself.
encode_codepoint-text :
    (page : CodePage) (c : ℕ)
    → (ltb c 128 ≡ true → is_text c ≡ true)
    → is_text (encode_codepoint page (some c)) ≡ true
unfolding encode_codepoint lookup_cp852
encode_codepoint-text page c t =
    if_holds (λ b. is_text b ≡ true) (ltb c 128) c _ t
      (λ wide.
        if_holds (λ b. is_text b ≡ true) (code_page_value page == 18)
          (or_fallback (lookup_in cp852 c)) 63 (λ is_852. lookup_in-text cp852 c refl)
          (λ other. refl))

-- What is left of the input after a decoding, and what the decoding gave.
abbrev IsText : CodePage → Option ℕ × Bytes → Type 0
IsText page d = (is_text (encode_codepoint page d.0) ≡ true) × (all is_text d.1 ≡ true)

abbrev LeavesText : Option (ℕ × Bytes) → Type 0
LeavesText none = Unit
LeavesText (some (c, input)) = all is_text input ≡ true

continuation-text :
    (extra c : ℕ) (input : Bytes)
    → all is_text input ≡ true
    → LeavesText (continuation extra c input)
unfolding continuation
continuation-text zero c input t = t
continuation-text (suc extra) c [] t = tt
continuation-text (suc extra) c (b ∷ rest) t =
    let parts = and_parts (is_text b) (all is_text rest) t in
    if_holds LeavesText (b / 64 == 2) _ none (λ good. continuation-text extra _ rest parts.1)
      (λ bad. tt)

-- A sequence that is not rejected gives no ASCII.
rejected-wide :
    (extra c : ℕ) → leb 1 extra && leb extra 3 ≡ true → rejected extra c ≡ false → ltb c 128 ≡ false
unfolding rejected
rejected-wide extra c r n = ground (arith, r, n)

accept-IsText :
    (page : CodePage) (extra : ℕ) (rest : Bytes) (o : Option (ℕ × Bytes))
    → leb 1 extra && leb extra 3 ≡ true
    → all is_text rest ≡ true
    → LeavesText o
    → IsText page (accept extra rest o)
unfolding accept encode_codepoint
accept-IsText page extra rest none r t l = (refl, t)
accept-IsText page extra rest (some (c, input)) r t l =
    if_holds (IsText page) (rejected extra c) (none, rest) (some c, input) (λ bad. (refl, t))
      (λ good. (
        encode_codepoint-text page c (λ ascii. ground (arith, ascii, rejected-wide extra c r good)),
        l,
      ))

decode_utf8-IsText :
    (page : CodePage) (byte : ℕ) (rest : Bytes)
    → is_text byte ≡ true
    → all is_text rest ≡ true
    → IsText page (decode_utf8 byte rest)
unfolding decode_utf8 decode_sequence lead encode_codepoint
decode_utf8-IsText page byte rest b t =
    let longer = (λ (extra bits : ℕ) (r : leb 1 extra && leb extra 3 ≡ true).
      accept-IsText page extra rest (continuation extra bits rest) r t
        (continuation-text extra bits rest t)) in
    if_holds (IsText page) (ltb byte 128) (some byte, rest) (decode_sequence rest (lead byte))
      (λ ascii. (encode_codepoint-text page byte (λ x. b), t))
      (λ wide.
        if_holds (λ l. IsText page (decode_sequence rest l)) (byte / 32 == 6) (some (1, _)) _
          (λ e. longer 1 _ refl)
          (λ n.
            if_holds (λ l. IsText page (decode_sequence rest l)) (byte / 16 == 14) (some (2, _)) _
              (λ e. longer 2 _ refl)
              (λ n.
                if_holds (λ l. IsText page (decode_sequence rest l)) (byte / 8 == 30) (some (3, _))
                  none (λ e. longer 3 _ refl) (λ n. (refl, t)))))

transliterate_loop-text :
    (fuel : ℕ) (input : Bytes) (page : CodePage)
    → all is_text input ≡ true
    → all is_text (transliterate_loop fuel input page) ≡ true
unfolding transliterate_loop
transliterate_loop-text zero input page t = refl
transliterate_loop-text (suc fuel) [] page t = refl
transliterate_loop-text (suc fuel) (byte ∷ rest) page t =
    let parts = and_parts (is_text byte) (all is_text rest) t in
    let decoded = decode_utf8-IsText page byte rest parts.0 parts.1 in
    ground (arith, decoded.0, transliterate_loop-text fuel (decode_utf8 byte rest).1 page decoded.1)

-- Text with no control code of a command in it has none after it is transliterated.
pub transliterate-text :
    (utf8 : Bytes) (page : CodePage)
    → all is_text utf8 ≡ true
    → all is_text (transliterate utf8 page) ≡ true
unfolding transliterate
transliterate-text utf8 page t = transliterate_loop-text (length utf8) utf8 page t
