-- ===== src/Encoder/Table.antt =====
-- The table of code page 852 pairs the bytes from 0x80 on with as many code points.
use printer_driver.Base.{
  Bool-cases, inl, inr, ℕ, zero, suc, ◌+◌, ◌≤◌, ◌<◌, Bool, true, false, ◌&&◌, List, [], ◌∷◌, ◌≡◌,
  refl, sym, ◌∙◌, ap, arith, all, and_parts, Option, none, some, if_holds, ltb, leb, ◌==◌,
  if◌then◌else◌, ==_iff,
}
use mathlib.Core.Path.{subst}
use printer_driver.Encoder.CodePages.{cp852, checked, lower_bound, lookup_in, lookup_cp852}

-- What holds of all entries holds of the code point and the byte that it is looked up as.
Passes : (ℕ → ℕ → Bool) → ℕ → Option ℕ → Type 0
Passes q c none = Unit
Passes q c (some b) = q c b ≡ true

checked-Passes :
    (q : ℕ → ℕ → Bool) (c : ℕ) (e : ℕ × ℕ) → q e.0 e.1 ≡ true → Passes q c (checked c (some e))
unfolding Passes
checked-Passes q c e t =
    if_holds (Passes q c) (e.0 == c) (some e.1) none
      (λ same. subst (λ x. q x e.1 ≡ true) ((==_iff e.0 c).0 same) t) (λ other. tt)

lookup_in-Passes :
    (q : ℕ → ℕ → Bool) (table : List (ℕ × ℕ)) (c : ℕ)
    → all (λ e. q e.0 e.1) table ≡ true
    → Passes q c (lookup_in table c)
unfolding Passes lookup_in lower_bound
lookup_in-Passes q [] c t = tt
lookup_in-Passes q (e ∷ table) c t =
    let parts = and_parts (q e.0 e.1) (all (λ x. q x.0 x.1) table) t in
    if_holds (λ o. Passes q c (checked c o)) (ltb e.0 c) (lower_bound table c) (some e)
      (λ less. lookup_in-Passes q table c parts.1) (λ found. checked-Passes q c e parts.0)

-- The code point of a byte.
reverse_in : List (ℕ × ℕ) → ℕ → ℕ
reverse_in [] b = 0
reverse_in (e ∷ table) b = let later = reverse_in table b in if e.1 == b then e.0 else later

is_reverse : ℕ → ℕ → Bool
unfolding reverse_in
is_reverse c b = (reverse_in cp852 b == c) && leb 128 b

lookup-reverse : (c b : ℕ) → lookup_cp852 c ≡ some b → (reverse_in cp852 b ≡ c) × (128 ≤ b)
unfolding lookup_cp852 Passes reverse_in is_reverse
lookup-reverse c b found =
    let t : is_reverse c b ≡ true =
      subst (Passes is_reverse c) found
        (lookup_in-Passes is_reverse cp852 c (unfold is_reverse in refl)) in
    let parts = and_parts (reverse_in cp852 b == c) (leb 128 b) t in
    ((==_iff (reverse_in cp852 b) c).0 parts.0, ground (arith, parts.1))

range : ℕ → ℕ → List ℕ
range start zero = []
range start (suc count) = start ∷ range (suc start) count

all-range :
    (p : ℕ → Bool) (start count b : ℕ)
    → all p (range start count) ≡ true
    → start ≤ b
    → b < start + count
    → p b ≡ true
unfolding range
all-range p start zero b t lo hi = absurd (omega (arith, lo, hi))
all-range p start (suc count) b t lo hi =
    let parts = and_parts (p start) (all p (range (suc start) count)) t in
    elim (Bool-cases (start == b)) [
      | inl here ↦ subst (λ x. p x ≡ true) ((==_iff start b).0 here) parts.0
      | inr later ↦
          all-range p (suc start) count b parts.1 (ground (arith, lo, later)) (omega (arith, hi))
    ]

abbrev holds_byte : Option ℕ → ℕ → Bool
holds_byte none b = false
holds_byte (some c) b = c == b

holds_byte-some : (o : Option ℕ) (b : ℕ) → holds_byte o b ≡ true → o ≡ some b
holds_byte-some none b t = ground (arith, t)
holds_byte-some (some c) b t = ap some ((==_iff c b).0 t)

-- The lookup in code page 852 is a bijection onto the high half: it gives bytes from 0x80 on, no two
-- code points the same byte, and every byte from 0x80 to 0xFF for some code point.
pub lookup_cp852-bijective :
    ((c d b : ℕ) → lookup_cp852 c ≡ some b → lookup_cp852 d ≡ some b → (c ≡ d) × (128 ≤ b))
    × ((b : ℕ) → 128 ≤ b → b < 256 → (c : ℕ) × (lookup_cp852 c ≡ some b))
lookup_cp852-bijective = (
  λ c d b p q. (sym (lookup-reverse c b p).0 ∙ (lookup-reverse d b q).0, (lookup-reverse c b p).1),
  λ b lo hi. (
    reverse_in cp852 b,
    holds_byte-some _ b (
        all-range (λ x. holds_byte (lookup_cp852 (reverse_in cp852 x)) x) 128 128 b
          (unfold range reverse_in lookup_cp852 lookup_in lower_bound in refl) lo hi),
  ),
)
