-- ===== src/Encoder/Scalars.antt =====
-- Well-formed UTF-8 is decoded to the scalars that it encodes, and becomes one byte for each.
use printer_driver.Base.{
  ℕ, zero, suc, ◌+◌, ◌*◌, ◌/◌, ◌%◌, ◌≤◌, ◌<◌, Bytes, Bool, true, false, not, ◌&&◌, List, [], ◌∷◌,
  ◌++◌, ◌≡◌, refl, ap, ◌∙◌, arith, all, and_parts, some, if_holds, ltb, leb, if◌then◌else◌, length,
  map, length-append,
}
use printer_driver.Encoder.{CodePage}
use printer_driver.Encoder.CodePages.{encode_codepoint, transliterate_loop, transliterate}
use printer_driver.Encoder.Utf8.{lead, continuation, rejected, accept, decode_sequence, decode_utf8}

-- The Unicode scalars: the code points that are no surrogates.
unfoldable pub is_scalar : ℕ → Bool
is_scalar c = leb c 1114111 && not (leb 55296 c && leb c 57343)

-- The UTF-8 form of a scalar.
unfoldable pub utf8_of : ℕ → Bytes
utf8_of c =
    if ltb c 128
    then c ∷ []
    else if ltb c 2048
    then (192 + c / 64) ∷ (128 + c % 64) ∷ []
    else if ltb c 65536
    then (224 + c / 4096) ∷ (128 + c / 64 % 64) ∷ (128 + c % 64) ∷ []
    else (240 + c / 262144) ∷ (128 + c / 4096 % 64) ∷ (128 + c / 64 % 64) ∷ (128 + c % 64) ∷ []

lead-two : (b : ℕ) → b / 32 ≡ 6 → lead b ≡ some (1, b % 32)
unfolding lead
lead-two b h = ground (arith, h)

lead-three : (b : ℕ) → b / 16 ≡ 14 → lead b ≡ some (2, b % 16)
unfolding lead
lead-three b h = ground (arith, h)

lead-four : (b : ℕ) → b / 8 ≡ 30 → lead b ≡ some (3, b % 8)
unfolding lead
lead-four b h = ground (arith, h)

continuation-step :
    (extra c b : ℕ) (rest : Bytes)
    → b / 64 ≡ 2
    → continuation (suc extra) c (b ∷ rest) ≡ continuation extra (c * 64 + b % 64) rest
unfolding continuation
continuation-step extra c b rest h = ground (arith, h)

accept-good :
    (extra c : ℕ) (rest input : Bytes)
    → rejected extra c ≡ false
    → accept extra rest (some (c, input)) ≡ (some c, input)
unfolding accept
accept-good extra c rest input h = rw h refl

decode-wide : (b : ℕ) (rest : Bytes) → 128 ≤ b → decode_utf8 b rest ≡ decode_sequence rest (lead b)
unfolding decode_utf8
decode-wide b rest h = ground (arith, h)

decode-two :
    (c : ℕ) (rest : Bytes)
    → 128 ≤ c
    → c < 2048
    → decode_utf8 (192 + c / 64) ((128 + c % 64) ∷ rest) ≡ (some c, rest)
unfolding decode_sequence continuation rejected
decode-two c rest lo hi =
    let b = 192 + c / 64 in
    let d = 128 + c % 64 in
    let value : b % 32 * 64 + d % 64 ≡ c = omega (arith, lo, hi) in
    decode-wide b (d ∷ rest) (omega arith)
    ∙ ap (decode_sequence (d ∷ rest)) (lead-two b (omega (arith, lo, hi)))
    ∙ ap (accept 1 (d ∷ rest))
        (continuation-step 0 (b % 32) d rest (omega arith) ∙ ap (λ v. some (v, rest)) value)
    ∙ accept-good 1 c (d ∷ rest) rest (ground (arith, lo, hi))

decode-three :
    (c : ℕ) (rest : Bytes)
    → 2048 ≤ c
    → c < 65536
    → leb 55296 c && leb c 57343 ≡ false
    → decode_utf8 (224 + c / 4096) ((128 + c / 64 % 64) ∷ (128 + c % 64) ∷ rest) ≡ (some c, rest)
unfolding decode_sequence continuation rejected
decode-three c rest lo hi s =
    let b = 224 + c / 4096 in
    let d = 128 + c / 64 % 64 in
    let e = 128 + c % 64 in
    let value : (b % 16 * 64 + d % 64) * 64 + e % 64 ≡ c = omega (arith, lo, hi) in
    decode-wide b (d ∷ e ∷ rest) (omega arith)
    ∙ ap (decode_sequence (d ∷ e ∷ rest)) (lead-three b (omega (arith, lo, hi)))
    ∙ ap (accept 2 (d ∷ e ∷ rest)) (
        continuation-step 1 (b % 16) d (e ∷ rest) (omega arith)
        ∙ continuation-step 0 (b % 16 * 64 + d % 64) e rest (omega arith)
        ∙ ap (λ v. some (v, rest)) value)
    ∙ accept-good 2 c (d ∷ e ∷ rest) rest (ground (arith, lo, hi, s))

decode-four :
    (c : ℕ) (rest : Bytes)
    → 65536 ≤ c
    → c ≤ 1114111
    → decode_utf8
        (240 + c / 262144)
        ((128 + c / 4096 % 64) ∷ (128 + c / 64 % 64) ∷ (128 + c % 64) ∷ rest)
      ≡ (some c, rest)
unfolding decode_sequence continuation rejected
decode-four c rest lo hi =
    let b = 240 + c / 262144 in
    let d = 128 + c / 4096 % 64 in
    let e = 128 + c / 64 % 64 in
    let f = 128 + c % 64 in
    let value : ((b % 8 * 64 + d % 64) * 64 + e % 64) * 64 + f % 64 ≡ c = omega (arith, lo, hi) in
    decode-wide b (d ∷ e ∷ f ∷ rest) (omega arith)
    ∙ ap (decode_sequence (d ∷ e ∷ f ∷ rest)) (lead-four b (omega (arith, lo, hi)))
    ∙ ap (accept 3 (d ∷ e ∷ f ∷ rest)) (
        continuation-step 2 (b % 8) d (e ∷ f ∷ rest) (omega arith)
        ∙ continuation-step 1 (b % 8 * 64 + d % 64) e (f ∷ rest) (omega arith)
        ∙ continuation-step 0 ((b % 8 * 64 + d % 64) * 64 + e % 64) f rest (omega arith)
        ∙ ap (λ v. some (v, rest)) value)
    ∙ accept-good 3 c (d ∷ e ∷ f ∷ rest) rest (ground (arith, lo, hi))

decode-one : (c : ℕ) (rest : Bytes) → c < 128 → decode_utf8 c rest ≡ (some c, rest)
unfolding decode_utf8
decode-one c rest h = ground (arith, h)

-- One turn of the loop, at what a decoding of its next byte gives.
turn :
    (fuel b c : ℕ) (rest later : Bytes) (page : CodePage)
    → decode_utf8 b rest ≡ (some c, later)
    → transliterate_loop (suc fuel) (b ∷ rest) page
      ≡ encode_codepoint page (some c) ∷ transliterate_loop fuel later page
unfolding transliterate_loop
turn fuel b c rest later page h =
    ap (λ d. encode_codepoint page d.0 ∷ transliterate_loop fuel d.1 page) h

turn-scalar :
    (fuel c : ℕ) (rest : Bytes) (page : CodePage)
    → is_scalar c ≡ true
    → transliterate_loop (suc fuel) (utf8_of c ++ rest) page
      ≡ encode_codepoint page (some c) ∷ transliterate_loop fuel rest page
unfolding utf8_of is_scalar
turn-scalar fuel c rest page s =
    let Q = (λ (bytes : Bytes).
      transliterate_loop (suc fuel) (bytes ++ rest) page
      ≡ encode_codepoint page (some c) ∷ transliterate_loop fuel rest page) in
    if_holds Q (ltb c 128) _ _
      (λ one. turn fuel _ c _ rest page (decode-one c rest (ground (arith, one))))
      (λ n1.
        if_holds Q (ltb c 2048) _ _
          (λ two.
            turn fuel _ c _ rest page
              (decode-two c rest (ground (arith, n1)) (ground (arith, two))))
          (λ n2.
            if_holds Q (ltb c 65536) _ _
              (λ three. turn fuel _ c _ rest page (
                decode-three c rest (ground (arith, n2)) (ground (arith, three))
                  (ground (arith, s))))
              (λ n3.
                turn fuel _ c _ rest page
                  (decode-four c rest (ground (arith, n3)) (ground (arith, s))))))

-- The UTF-8 form of a text.
unfoldable pub utf8_text : List ℕ → Bytes
unfolding utf8_of
utf8_text [] = []
utf8_text (c ∷ cs) = utf8_of c ++ utf8_text cs

utf8_of-length : (c : ℕ) → 1 ≤ length (utf8_of c)
unfolding utf8_of
utf8_of-length c = ground arith

transliterate_loop-scalars :
    (fuel : ℕ) (cs : List ℕ) (page : CodePage)
    → all is_scalar cs ≡ true
    → length (utf8_text cs) ≤ fuel
    → transliterate_loop fuel (utf8_text cs) page ≡ map (λ c. encode_codepoint page (some c)) cs
unfolding utf8_text
transliterate_loop-scalars zero [] page s le = unfold transliterate_loop in refl
transliterate_loop-scalars (suc fuel) [] page s le = unfold transliterate_loop in refl
transliterate_loop-scalars zero (c ∷ cs) page s le =
    absurd (omega (arith, le, length-append (utf8_of c) (utf8_text cs), utf8_of-length c))
transliterate_loop-scalars (suc fuel) (c ∷ cs) page s le =
    let parts = and_parts (is_scalar c) (all is_scalar cs) s in
    turn-scalar fuel c (utf8_text cs) page parts.0
    ∙ ap (λ l. encode_codepoint page (some c) ∷ l)
        (transliterate_loop-scalars fuel cs page parts.1
          (omega (arith, le, length-append (utf8_of c) (utf8_text cs), utf8_of-length c)))

-- The UTF-8 form of Unicode scalars becomes one byte of the code page for each scalar, in order: no
-- scalar is rejected, split or merged.
pub transliterate-scalars :
    (cs : List ℕ) (page : CodePage)
    → all is_scalar cs ≡ true
    → transliterate (utf8_text cs) page ≡ map (λ c. encode_codepoint page (some c)) cs
unfolding transliterate
transliterate-scalars cs page s =
    transliterate_loop-scalars (length (utf8_text cs)) cs page s (omega arith)
