-- ===== src/Journal/Fields.antt =====
-- The fields of a journal line: escaping, splitting at tabs, and decimal numbers.
use printer_driver.Base.{
  ℕ, zero, suc, ◌+◌, ◌-◌, ◌*◌, ◌/◌, ◌%◌, ◌^◌, Bytes, true, false, ◌||◌, Option, none, some, List,
  [], ◌∷◌, ◌++◌, ltb, ◌==◌, if◌then◌else◌,
}

abbrev pub tab : ℕ
tab = 9

abbrev pub newline : ℕ
newline = 10

abbrev pub return : ℕ
return = 13

abbrev pub backslash : ℕ
backslash = 92

-- What `escapeField` appends for one byte.
unfoldable pub escape_byte : ℕ → Bytes
escape_byte c =
    if c == backslash
    then backslash ∷ backslash ∷ []
    else if c == tab
    then backslash ∷ b't' ∷ []
    else if c == newline
    then backslash ∷ b'n' ∷ []
    else if c == return
    then backslash ∷ b'r' ∷ []
    else c ∷ []

unfoldable pub escape_field : Bytes → Bytes
escape_field [] = []
escape_field (c ∷ cs) = escape_byte c ++ escape_field cs

-- The byte behind a backslash.
unfoldable pub unescape_byte : ℕ → ℕ
unescape_byte c =
    if c == b't' then tab else if c == b'n' then newline else if c == b'r' then return else c

unfoldable pub unescape_field : Bytes → Bytes
unfolding unescape_byte
unescape_field [] = []
unescape_field (c ∷ []) = c ∷ []
unescape_field (c ∷ d ∷ cs) = elim (c == backslash) [
  | true ↦ unescape_byte d ∷ unescape_field cs
  | false ↦ c ∷ unescape_field (d ∷ cs)
]

-- The loop of `splitTabs`, with the field that it is in.
unfoldable pub split_onto : Bytes → Bytes → List Bytes
split_onto current [] = current ∷ []
split_onto current (c ∷ cs) = elim (c == tab) [
  | true ↦ current ∷ split_onto [] cs
  | false ↦ split_onto (current ++ (c ∷ [])) cs
]

unfoldable pub split_tabs : Bytes → List Bytes
unfolding split_onto
split_tabs = split_onto []

-- `os << n`: the digits of `n` in front of `rest`.
unfoldable pub decimal_onto : ℕ → ℕ → Bytes → Bytes
decimal_onto zero n rest = rest
decimal_onto (suc fuel) n rest =
    let more = decimal_onto fuel (n / 10) ((48 + n % 10) ∷ rest) in
    if ltb n 10 then (48 + n) ∷ rest else more

unfoldable pub decimal : ℕ → Bytes
unfolding decimal_onto
decimal n = decimal_onto (suc n) n []

abbrev pub u64_mod : ℕ
u64_mod = 2 ^ 64

abbrev pub u32_mod : ℕ
u32_mod = 2 ^ 32

-- The loop of `parseUint`; the value wraps at 64 bits.
unfoldable pub parse_digits : ℕ → Bytes → Option ℕ
parse_digits value [] = some value
parse_digits value (c ∷ cs) =
    let rest = parse_digits ((value * 10 + (c - 48)) % u64_mod) cs in
    if ltb c b'0' || ltb b'9' c then none else rest

unfoldable pub parse_uint : Bytes → Option ℕ
unfolding parse_digits
parse_uint [] = none
parse_uint (c ∷ cs) = parse_digits 0 (c ∷ cs)
