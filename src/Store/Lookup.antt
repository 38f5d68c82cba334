-- ===== src/Store/Lookup.antt =====
-- What the lookups of a store find after its calls: `findById` and `findByKey`.
use mathlib.Core.Option
use printer_driver.Base.{
  ℕ, Bytes, Option, none, some, List, [], ◌∷◌, ◌++◌, ◌≡◌, ◌≢◌, refl, ◌∙◌, inl, inr, Option-cases,
  if_holds, if◌then◌else◌, eq_bytes, eq_bytes_self,
}
use printer_driver.Journal.Lines.{JobRecord}
use printer_driver.Store.Durability.{Ensures}
use printer_driver.Store.Tables.{lookup, lookup-append_new, lookup-assign}
use printer_driver.Store.{
  Disk, taken, refused, unsynced, Maps, JobStore, stored_record, create_job, append, find_by_id,
  find_by_key, index_key,
}

-- What holds of the store with the new maps holds of the store that `append` returns.
append-maps :
    (P : Maps → Type 0) (disk : Disk) (line : Bytes) (m : Maps) (s : JobStore)
    → P m
    → Ensures (λ t. P t.maps) (append disk line m s)
unfolding append
append-maps P taken line m s p =
    if_holds (Ensures (λ t. P t.maps)) s.persistent _ _ (λ kept. p) (λ memory. p)
append-maps P refused line m s p =
    if_holds (Ensures (λ t. P t.maps)) s.persistent _ _ (λ kept. tt) (λ memory. p)
append-maps P unsynced line m s p =
    if_holds (Ensures (λ t. P t.maps)) s.persistent _ _ (λ kept. tt) (λ memory. p)

lookup-index_key :
    (key id : Bytes) (keys : List (Bytes × Bytes))
    → key ≢ []
    → lookup key (index_key key id keys) ≡ some id
unfolding index_key
lookup-index_key [] id keys h = absurd (h refl)
lookup-index_key (c ∷ key) id keys h =
    lookup-assign (c ∷ key) (c ∷ key) id keys ∙ rw (eq_bytes_self (c ∷ key)) refl

lookup-created :
    (s : JobStore) (now : ℕ) (r : JobRecord)
    → lookup r.id s.by_id ≡ none
    → (id : Bytes)
    → lookup id (s.by_id ++ ((r.id, stored_record now r) ∷ []))
      ≡ (if eq_bytes r.id id then some (stored_record now r) else lookup id s.by_id)
lookup-created s now r fresh id = lookup-append_new r.id id (stored_record now r) s.by_id fresh

found_by_key :
    (s : JobStore) (now : ℕ) (r : JobRecord)
    → lookup r.id s.by_id ≡ none
    → r.key ≢ []
    → elim (lookup r.key (index_key r.key r.id s.id_by_key)) as (λ x. Option JobRecord) [
      | none ↦ none
      | some id ↦ lookup id (s.by_id ++ ((r.id, stored_record now r) ∷ []))
    ]
      ≡ some (stored_record now r)
found_by_key s now r fresh h =
    rw
      (
        lookup-index_key r.key r.id s.id_by_key h,
        lookup-created s now r fresh r.id,
        eq_bytes_self r.id,
      )
      refl

-- Right after a call that creates a job whose key is not empty, its id and its key both find that job as
-- the store wrote it down, and any other id finds what it found before the call.
pub create_job-found :
    (s : JobStore) (disk : Disk) (now : ℕ) (r : JobRecord) (id : Bytes)
    → r.key ≢ []
    → Ensures
        (λ t.
          (find_by_id id t
            ≡ (if eq_bytes r.id id then some (stored_record now r) else find_by_id id s))
          × (find_by_key r.key t ≡ some (stored_record now r)))
        (create_job disk now r s)
unfolding create_job find_by_id find_by_key stored_record
create_job-found s disk now r id h = elim (Option-cases (lookup r.id s.by_id)) [
  | inl fresh ↦
      rw (fresh, create_job)
        (append-maps
          (λ m.
            (lookup id m.by_id
              ≡ (if eq_bytes r.id id then some (stored_record now r) else lookup id s.by_id))
            × (elim (lookup r.key m.id_by_key) as (λ x. Option JobRecord) [
              | none ↦ none
              | some i ↦ lookup i m.by_id
            ]
                ≡ some (stored_record now r)))
          disk _ _ s (lookup-created s now r fresh id, found_by_key s now r fresh h))
  | inr (old, known) ↦ rw (known, create_job) tt
]
