-- ===== src/Engine/Markers.antt =====
-- `MarkerAllocator` of core/src/driver.cpp: the tokens that a job's print fence and cut fence carry.
use printer_driver.Base.{
  ℕ, zero, suc, ◌+◌, ◌*◌, ◌/◌, ◌%◌, Bytes, Bool, true, false, ◌||◌, Option, some, none, List, [],
  ◌∷◌, ◌++◌, ◌≡◌, ◌≢◌, refl, ap, sym, ◌∙◌, arith, if◌then◌else◌, if_holds, eq_bytes, eq_bytes_iff,
}
use printer_driver.Engine.{TokenPair}

abbrev pub alphabet_size : ℕ
alphabet_size = 94

-- The tokens' first character, `kTokenAlphabetFirst`.
abbrev first_character : ℕ
first_character = 0x21

abbrev pub sequence_space : ℕ
sequence_space = 8836

abbrev u32_mod : ℕ
u32_mod = 4294967296

unfoldable pub encode_base94 : ℕ → Bytes
encode_base94 value =
    let wrapped = value % sequence_space in
    (first_character + wrapped / alphabet_size) ∷ (first_character + wrapped % alphabet_size) ∷ []

pub record MarkerAllocator : Type 0 where
  pub nonce : Bytes
  pub next : ℕ
  pub in_use : List Bytes

unfoldable pub is_outstanding : Bytes → List Bytes → Bool
is_outstanding token [] = false
is_outstanding token (t ∷ ts) = if eq_bytes t token then true else is_outstanding token ts

-- The pair of a slot.
unfoldable pub slot_pair : Bytes → ℕ → TokenPair
unfolding encode_base94
slot_pair nonce slot = record {
  print_token = nonce ++ encode_base94 (slot * 2 % u32_mod);
  cut_token = nonce ++ encode_base94 ((slot * 2 + 1) % u32_mod);
}

-- The loop of `acquire`, with the rounds that are left; `none` is the exception.
unfoldable pub acquire_loop : ℕ → MarkerAllocator → Option (TokenPair × MarkerAllocator)
unfolding slot_pair is_outstanding
acquire_loop zero m = none
acquire_loop (suc rounds) m =
    let pair = slot_pair m.nonce m.next in
    let after = record m { next = suc m.next % u32_mod } in
    let rest = acquire_loop rounds after in
    if is_outstanding pair.print_token m.in_use || is_outstanding pair.cut_token m.in_use
    then rest
    else some (pair, record after { in_use = pair.print_token ∷ pair.cut_token ∷ m.in_use })

unfoldable pub acquire : MarkerAllocator → Option (TokenPair × MarkerAllocator)
unfolding acquire_loop
acquire m = acquire_loop 4418 m

-- `in_use_.erase(token)`.
unfoldable pub erase_token : Bytes → List Bytes → List Bytes
erase_token token [] = []
erase_token token (t ∷ ts) =
    let rest = erase_token token ts in if eq_bytes t token then rest else t ∷ rest

unfoldable pub release : TokenPair → MarkerAllocator → MarkerAllocator
unfolding erase_token
release pair m = record m {
  in_use = erase_token pair.cut_token (erase_token pair.print_token m.in_use);
}

-- So many slots from the next one on have a token that is outstanding.
unfoldable pub AllTaken : ℕ → MarkerAllocator → Type 0
unfolding slot_pair
AllTaken zero m = Unit
AllTaken (suc rounds) m =
    ((is_outstanding (slot_pair m.nonce m.next).print_token m.in_use
        || is_outstanding (slot_pair m.nonce m.next).cut_token m.in_use)
      ≡ true)
    × AllTaken rounds (record m { next = suc m.next % u32_mod })

-- A pair is free in the old set, its two tokens differ, and the new set is the old one with the pair;
-- with no pair, every slot that the loop has tried is taken.
abbrev pub Leases : ℕ → MarkerAllocator → Option (TokenPair × MarkerAllocator) → Type 0
Leases rounds m none = AllTaken rounds m
Leases rounds m (some (pair, n)) =
    (is_outstanding pair.print_token m.in_use ≡ false)
    × (is_outstanding pair.cut_token m.in_use ≡ false)
    × (pair.print_token ≢ pair.cut_token)
    × (n.in_use ≡ pair.print_token ∷ pair.cut_token ∷ m.in_use)

tail_of : Bytes → Bytes → Bytes
tail_of [] ys = ys
tail_of (x ∷ xs) [] = []
tail_of (x ∷ xs) (y ∷ ys) = tail_of xs ys

tail_of-append : (xs ys : Bytes) → tail_of xs (xs ++ ys) ≡ ys
unfolding tail_of
tail_of-append [] ys = refl
tail_of-append (x ∷ xs) ys = tail_of-append xs ys

second : Bytes → ℕ
second [] = 0
second (x ∷ []) = 0
second (x ∷ y ∷ ys) = y

encode_base94-differ :
    (slot : ℕ) → encode_base94 (slot * 2 % u32_mod) ≢ encode_base94 ((slot * 2 + 1) % u32_mod)
unfolding encode_base94 second
encode_base94-differ slot h =
    let digits : first_character + slot * 2 % u32_mod % sequence_space % alphabet_size
        ≡ first_character + (slot * 2 + 1) % u32_mod % sequence_space % alphabet_size =
      ap second h in
    omega (arith, digits)

slot_pair-differ :
    (nonce : Bytes) (slot : ℕ)
    → (slot_pair nonce slot).print_token ≢ (slot_pair nonce slot).cut_token
unfolding slot_pair
slot_pair-differ nonce slot h = encode_base94-differ slot (
    sym (tail_of-append nonce (encode_base94 (slot * 2 % u32_mod)))
    ∙ ap (tail_of nonce) h
    ∙ tail_of-append nonce (encode_base94 ((slot * 2 + 1) % u32_mod)))

later-Leases :
    (rounds : ℕ) (m : MarkerAllocator) (x : Option (TokenPair × MarkerAllocator))
    → (is_outstanding (slot_pair m.nonce m.next).print_token m.in_use
        || is_outstanding (slot_pair m.nonce m.next).cut_token m.in_use)
      ≡ true
    → Leases rounds (record m { next = suc m.next % u32_mod }) x
    → Leases (suc rounds) m x
unfolding AllTaken
later-Leases rounds m none e h = (e, h)
later-Leases rounds m (some (pair, n)) e h = h

acquire_loop-Leases : (rounds : ℕ) (m : MarkerAllocator) → Leases rounds m (acquire_loop rounds m)
unfolding acquire_loop AllTaken
acquire_loop-Leases zero m = tt
acquire_loop-Leases (suc rounds) m =
    let pair = slot_pair m.nonce m.next in
    let rest = acquire_loop-Leases rounds (record m { next = suc m.next % u32_mod }) in
    if_holds (Leases (suc rounds) m)
      (is_outstanding pair.print_token m.in_use || is_outstanding pair.cut_token m.in_use) _ _
      (λ e.
        later-Leases rounds m (acquire_loop rounds (record m { next = suc m.next % u32_mod })) e
          rest)
      (λ e. (ground (arith, e), ground (arith, e), slot_pair-differ m.nonce m.next, refl))

-- The two tokens that the allocator hands out differ, neither is outstanding at that time, and both
-- are outstanding afterwards, with those that were; and it fails only when each of the 4418 slots from
-- the next one on has a token that is outstanding.
pub acquire-Leases : (m : MarkerAllocator) → Leases 4418 m (acquire m)
unfolding acquire
acquire-Leases m = acquire_loop-Leases 4418 m

erase_token-outstanding :
    (token other : Bytes) (used : List Bytes)
    → is_outstanding other (erase_token token used)
      ≡ (if eq_bytes token other then false else is_outstanding other used)
unfolding erase_token is_outstanding
erase_token-outstanding token other [] = ground arith
erase_token-outstanding token other (t ∷ used) = ground (
  arith,
  erase_token-outstanding token other used,
  eq_bytes_iff t token,
  eq_bytes_iff t other,
  eq_bytes_iff token other,
)

-- Releasing a pair frees its two tokens and no other.
pub release-outstanding :
    (pair : TokenPair) (m : MarkerAllocator) (other : Bytes)
    → is_outstanding other (release pair m).in_use ≡ (
        if eq_bytes pair.print_token other || eq_bytes pair.cut_token other
        then false
        else is_outstanding other m.in_use)
unfolding release
release-outstanding pair m other = ground (
  arith,
  erase_token-outstanding pair.cut_token other (erase_token pair.print_token m.in_use),
  erase_token-outstanding pair.print_token other m.in_use,
)
