-- ===== src/Drawer/Polarity.antt =====
-- `DrawerPolarityStore` of core/src/cash_drawer.cpp: the records, their file, and what a later process
-- reads back.
use mathlib.Core.List.{append_assoc, append-nil}
use printer_driver.Base.{
  sym, Bytes, Bool, true, false, not, ◌&&◌, ◌||◌, Option, none, some, List, [], ◌∷◌, ◌++◌,
  if◌then◌else◌, if_holds, ltb, ◌==◌, length, drop, get_or, ◌≡◌, refl, ap, ◌∙◌, arith, all,
  eq_bytes, eq_bytes_iff, and_parts,
}

pub record Record : Type 0 where
  pub printer_id : Bytes
  pub high_means_open : Bool

-- One line of the file: "<0|1> <printer id>".
unfoldable pub record_line : Record → Bytes
record_line r = (if r.high_means_open then 49 else 48) ∷ 32 ∷ r.printer_id

-- The blob that `flush` writes.
unfoldable pub flush : List Record → Bytes
unfolding record_line
flush [] = []
flush (r ∷ rs) = record_line r ++ (10 ∷ flush rs)

-- `std::getline` until the end: the line so far, and the bytes behind it. A last line without its newline
-- counts if it has a byte.
abbrev last_line : Bytes → List Bytes
last_line [] = []
last_line (b ∷ bs) = (b ∷ bs) ∷ []

unfoldable pub lines_onto : Bytes → Bytes → List Bytes
lines_onto line [] = last_line line
lines_onto line (b ∷ bs) =
    let next = line ∷ lines_onto [] bs in
    let longer = lines_onto (line ++ (b ∷ [])) bs in if b == 10 then next else longer

unfoldable pub parse_line : Bytes → Option Record
parse_line line =
    let flag = get_or line 0 0 in
    if ltb (length line) 3
      || ((not (flag == 48) && not (flag == 49)) || not (get_or line 1 0 == 32))
    then none
    else some (record { printer_id = drop 2 line; high_means_open = flag == 49 })

abbrev pub push_parsed : Option Record → List Record → List Record
push_parsed none rs = rs
push_parsed (some r) rs = r ∷ rs

unfoldable pub load_lines : List Bytes → List Record
unfolding parse_line
load_lines [] = []
load_lines (line ∷ lines) = push_parsed (parse_line line) (load_lines lines)

unfoldable pub load : Bytes → List Record
unfolding load_lines lines_onto
load file = load_lines (lines_onto [] file)

abbrev is_empty : Bytes → Bool
is_empty [] = true
is_empty (b ∷ bs) = false

unfoldable pub find_in : Bytes → List Record → Option Bool
find_in id [] = none
find_in id (r ∷ rs) =
    let later = find_in id rs in if eq_bytes r.printer_id id then some r.high_means_open else later

unfoldable pub find : Bytes → List Record → Option Bool
unfolding find_in
find id rs = if is_empty id then none else find_in id rs

unfoldable pub save_in : Bytes → Bool → List Record → List Record
save_in id high [] = record { printer_id = id; high_means_open = high } ∷ []
save_in id high (r ∷ rs) =
    let later = r ∷ save_in id high rs in
    if eq_bytes r.printer_id id then record r { high_means_open = high } ∷ rs else later

unfoldable pub save : Bytes → Bool → List Record → List Record
unfolding save_in
save id high rs = if is_empty id then rs else save_in id high rs

-- An id that fits a line: not empty and without a newline.
abbrev pub fits_line : Bytes → Bool
fits_line id = not (is_empty id) && all (λ b. not (b == 10)) id

lines_onto-append :
    (line id rest : Bytes)
    → all (λ b. not (b == 10)) id ≡ true
    → lines_onto line (id ++ (10 ∷ rest)) ≡ (line ++ id) ∷ lines_onto [] rest
unfolding lines_onto
lines_onto-append line [] rest t = ap (λ l. l ∷ lines_onto [] rest) (sym (append-nil line))
lines_onto-append line (b ∷ id) rest t =
    let parts = and_parts (not (b == 10)) (all (λ c. not (c == 10)) id) t in
    if_holds (λ (l : List Bytes). l ≡ (line ++ (b ∷ id)) ∷ lines_onto [] rest) (b == 10) _ _
      (λ yes. absurd (ground (arith, yes, parts.0)))
      (λ no.
        lines_onto-append (line ++ (b ∷ [])) id rest parts.1
        ∙ ap (λ l. l ∷ lines_onto [] rest) (append_assoc line (b ∷ []) id))

parse_line-flagged :
    (high : Bool) (id : Bytes)
    → not (is_empty id) ≡ true
    → parse_line ((if high then 49 else 48) ∷ 32 ∷ id)
      ≡ some (record { printer_id = id; high_means_open = high })
unfolding parse_line
parse_line-flagged high [] t = ground (arith, t)
parse_line-flagged true (b ∷ id) t =
    if_holds
      (λ (o : Option Record). o ≡ some (record { printer_id = b ∷ id; high_means_open = true }))
      (ltb (length (49 ∷ 32 ∷ b ∷ id)) 3 || false) none _ (λ short. ground (arith, short))
      (λ long. refl)
parse_line-flagged false (b ∷ id) t =
    if_holds
      (λ (o : Option Record). o ≡ some (record { printer_id = b ∷ id; high_means_open = false }))
      (ltb (length (48 ∷ 32 ∷ b ∷ id)) 3 || false) none _ (λ short. ground (arith, short))
      (λ long. refl)

-- No byte of a line of a record is a newline.
record_line-unbroken :
    (high : Bool) (id : Bytes)
    → all (λ b. not (b == 10)) id ≡ true
    → all (λ b. not (b == 10)) ((if high then 49 else 48) ∷ 32 ∷ id) ≡ true
record_line-unbroken true id t = t
record_line-unbroken false id t = t

load-flush : (rs : List Record) → all (λ r. fits_line r.printer_id) rs ≡ true → load (flush rs) ≡ rs
unfolding load flush load_lines lines_onto record_line
load-flush [] t = refl
load-flush (r ∷ rs) t =
    let parts = and_parts (fits_line r.printer_id) (all (λ x. fits_line x.printer_id) rs) t in
    let fits =
      and_parts (not (is_empty r.printer_id)) (all (λ b. not (b == 10)) r.printer_id) parts.0 in
    ap load_lines (
      lines_onto-append [] (record_line r) (flush rs)
        (record_line-unbroken r.high_means_open r.printer_id fits.1))
    ∙ ap (λ o. push_parsed o (load (flush rs)))
        (parse_line-flagged r.high_means_open r.printer_id fits.0)
    ∙ ap (λ l. r ∷ l) (load-flush rs parts.1)

find_in-save_in :
    (id other : Bytes) (high : Bool) (rs : List Record)
    → find_in other (save_in id high rs)
      ≡ (if eq_bytes id other then some high else find_in other rs)
unfolding find_in save_in
find_in-save_in id other high [] = refl
find_in-save_in id other high (r ∷ rs) = ground (
  arith,
  eq_bytes_iff r.printer_id id,
  eq_bytes_iff id other,
  eq_bytes_iff r.printer_id other,
  find_in-save_in id other high rs,
)

save_in-fits :
    (id : Bytes) (high : Bool) (rs : List Record)
    → fits_line id ≡ true
    → all (λ r. fits_line r.printer_id) rs ≡ true
    → all (λ r. fits_line r.printer_id) (save_in id high rs) ≡ true
unfolding save_in
save_in-fits id high [] f t = ground (arith, f)
save_in-fits id high (r ∷ rs) f t =
    let parts = and_parts (fits_line r.printer_id) (all (λ x. fits_line x.printer_id) rs) t in
    if_holds (λ (l : List Record). all (λ x. fits_line x.printer_id) l ≡ true)
      (eq_bytes r.printer_id id) _ _ (λ same. t)
      (λ other. ground (arith, parts.0, save_in-fits id high rs f parts.1))

-- A calibration that was saved is found by every later process that reads the file, under its printer's
-- id, and the others as they were. The ids are not empty and have no newline.
pub find-save :
    (id other : Bytes) (high : Bool) (rs : List Record)
    → fits_line id ≡ true
    → fits_line other ≡ true
    → all (λ r. fits_line r.printer_id) rs ≡ true
    → find other (load (flush (save id high rs)))
      ≡ (if eq_bytes id other then some high else find other rs)
unfolding find save
find-save [] other high rs f g t = ground (arith, f)
find-save (b ∷ id) [] high rs f g t = ground (arith, g)
find-save (b ∷ id) (c ∷ other) high rs f g t =
    ap (find_in (c ∷ other))
      (load-flush (save_in (b ∷ id) high rs) (save_in-fits (b ∷ id) high rs f t))
    ∙ find_in-save_in (b ∷ id) (c ∷ other) high rs
