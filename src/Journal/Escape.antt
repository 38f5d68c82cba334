-- ===== src/Journal/Escape.antt =====
-- A field that is escaped holds no separator, comes back as it was, and is found where it stands.
use mathlib.Core.List.{append-nil, append_assoc}
use printer_driver.Base.{
  ℕ, Bytes, List, [], ◌∷◌, ◌++◌, ◌≡◌, ◌≢◌, refl, ap, ◌∙◌, arith, All, All-append,
}
use printer_driver.Journal.Fields.{
  tab, newline, return, backslash, escape_byte, escape_field, unescape_byte, unescape_field,
  split_onto, split_tabs,
}

-- No byte ends a field or a line.
abbrev pub IsPlain : Bytes → Type 0
IsPlain = All (λ c. (c ≢ tab) × (c ≢ newline) × (c ≢ return))

escape_byte-IsPlain : (c : ℕ) → IsPlain (escape_byte c)
unfolding escape_byte
escape_byte-IsPlain c = ground arith

pub escape_field-IsPlain : (s : Bytes) → IsPlain (escape_field s)
unfolding escape_field
escape_field-IsPlain [] = tt
escape_field-IsPlain (c ∷ s) =
    All-append _ (escape_byte c) (escape_field s) (escape_byte-IsPlain c) (escape_field-IsPlain s)

unescape_field-cons :
    (c : ℕ) (r : Bytes) → c ≢ backslash → unescape_field (c ∷ r) ≡ c ∷ unescape_field r
unfolding unescape_field
unescape_field-cons c [] h = refl
unescape_field-cons c (d ∷ r) h = ground arith

unescape_field-escape_byte :
    (c : ℕ) (r : Bytes) → unescape_field (escape_byte c ++ r) ≡ c ∷ unescape_field r
unfolding escape_byte unescape_byte unescape_field
unescape_field-escape_byte c r = ground (arith, unescape_field-cons c r)

-- Whatever bytes a field holds, reading it back after escaping gives the same bytes.
pub unescape_field-escape_field : (s : Bytes) → unescape_field (escape_field s) ≡ s
unfolding escape_field
unescape_field-escape_field [] = unfold unescape_field in refl
unescape_field-escape_field (c ∷ s) =
    unescape_field-escape_byte c (escape_field s) ∙ ap (◌∷◌ c) (unescape_field-escape_field s)

split_onto-last : (a current : Bytes) → IsPlain a → split_onto current a ≡ (current ++ a) ∷ []
unfolding split_onto
split_onto-last [] current h = rw append-nil
split_onto-last (c ∷ a) current h =
    ground (arith, split_onto-last a (current ++ (c ∷ [])) h.1, append_assoc current (c ∷ []) a)

split_onto-field :
    (a current r : Bytes)
    → IsPlain a
    → split_onto current (a ++ (tab ∷ r)) ≡ (current ++ a) ∷ split_onto [] r
unfolding split_onto
split_onto-field [] current r h = rw append-nil
split_onto-field (c ∷ a) current r h =
    ground (arith, split_onto-field a (current ++ (c ∷ [])) r h.1, append_assoc current (c ∷ []) a)

pub split_tabs-last : (a : Bytes) → IsPlain a → split_tabs a ≡ a ∷ []
unfolding split_tabs
split_tabs-last a h = split_onto-last a [] h

pub split_tabs-field :
    (a r : Bytes) {fields : List Bytes}
    → IsPlain a
    → split_tabs r ≡ fields
    → split_tabs (a ++ (tab ∷ r)) ≡ a ∷ fields
unfolding split_tabs
split_tabs-field a r h e = split_onto-field a [] r h ∙ ap (◌∷◌ a) e
