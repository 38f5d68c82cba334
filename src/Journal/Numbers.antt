-- ===== src/Journal/Numbers.antt =====
-- Numbers are written in decimal and read back, as long as they fit their 64 bits.
use printer_driver.Base.{
  ℕ, zero, suc, ◌+◌, ◌*◌, ◌/◌, ◌%◌, ◌<◌, Bytes, some, [], ◌∷◌, ◌≡◌, ◌≢◌, refl, ◌∙◌, arith,
}
use printer_driver.Journal.Escape.{IsPlain}
use printer_driver.Journal.Fields.{decimal_onto, decimal, parse_digits, parse_uint, u64_mod}

decimal_onto-IsPlain :
    (fuel n : ℕ) (rest : Bytes) → IsPlain rest → IsPlain (decimal_onto fuel n rest)
unfolding decimal_onto
decimal_onto-IsPlain zero n rest h = h
decimal_onto-IsPlain (suc fuel) n rest h =
    let digit : (48 + n % 10 ≢ 9) × (48 + n % 10 ≢ 10) × (48 + n % 10 ≢ 13) = omega arith in
    ground (arith, decimal_onto-IsPlain fuel (n / 10) ((48 + n % 10) ∷ rest) (digit, h))

pub decimal-IsPlain : (n : ℕ) → IsPlain (decimal n)
unfolding decimal
decimal-IsPlain n = decimal_onto-IsPlain (suc n) n [] tt

parse_digits-digit :
    (v d : ℕ) (rest : Bytes)
    → d < 10
    → v * 10 + d < u64_mod
    → parse_digits v ((48 + d) ∷ rest) ≡ parse_digits (v * 10 + d) rest
unfolding parse_digits
parse_digits-digit v d rest h b = ground arith

parse_digits-decimal_onto :
    (fuel n : ℕ) (rest : Bytes)
    → n < fuel
    → n < u64_mod
    → parse_digits 0 (decimal_onto fuel n rest) ≡ parse_digits n rest
unfolding decimal_onto
parse_digits-decimal_onto zero n rest h b = absurd (omega arith)
parse_digits-decimal_onto (suc fuel) n rest h b = ground (
  arith,
  parse_digits-digit 0 n rest,
  parse_digits-decimal_onto fuel (n / 10) ((48 + n % 10) ∷ rest),
  parse_digits-digit (n / 10) (n % 10) rest,
)

decimal_onto-ne-nil : (fuel n d : ℕ) (rest : Bytes) → decimal_onto fuel n (d ∷ rest) ≢ []
unfolding decimal_onto
decimal_onto-ne-nil zero n d rest = λ e. cc
decimal_onto-ne-nil (suc fuel) n d rest =
    ground (arith, decimal_onto-ne-nil fuel (n / 10) (48 + n % 10) (d ∷ rest))

decimal-ne-nil : (n : ℕ) → decimal n ≢ []
unfolding decimal decimal_onto
decimal-ne-nil n = ground (arith, decimal_onto-ne-nil n (n / 10) (48 + n % 10) [])

parse_uint-digits : (b : Bytes) → b ≢ [] → parse_uint b ≡ parse_digits 0 b
unfolding parse_uint
parse_uint-digits [] h = absurd (h refl)
parse_uint-digits (c ∷ cs) h = refl

parse_digits-nil : (n : ℕ) → parse_digits n [] ≡ some n
unfolding parse_digits
parse_digits-nil n = refl

-- A number below 2 ^ 64 comes back as it was.
pub parse_uint-decimal : (n : ℕ) → n < u64_mod → parse_uint (decimal n) ≡ some n
unfolding decimal
parse_uint-decimal n h =
    parse_uint-digits _ (decimal-ne-nil n)
    ∙ parse_digits-decimal_onto (suc n) n [] (omega arith) h
    ∙ parse_digits-nil n
