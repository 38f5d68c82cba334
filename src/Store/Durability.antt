-- ===== src/Store/Durability.antt =====
-- Every call of the store, unless its fsync fails, leaves a journal that replays to what the store then holds.
use mathlib.Core.List.{append_assoc}
use printer_driver.Base.{
  ℕ, ◌<◌, if_holds, Bytes, Bool, true, false, none, List, [], ◌∷◌, ◌++◌, ◌≡◌, refl, ap, sym, ◌∙◌,
  inl, inr, arith, Option-cases,
}
use printer_driver.Journal.Fields.{newline, u64_mod}
use printer_driver.Journal.Files.{read_journal}
use printer_driver.Journal.Lines.{JobRecord, JournalEntry, job_line, state_line, token_line}
use printer_driver.Store.Replay.{
  IsDurable, job_part, full_state_entry, forget, forget_all, replay-behind, job_entry,
  read-state_line, read-token_line, read-job_line, read_nothing, Fits,
}
use printer_driver.Store.Tables.{
  lookup, update, map_values, map_values-append, lookup-map_values_none, update-map_values,
  update-append_new,
}
use printer_driver.Store.{
  Disk, taken, refused, unsynced, Maps, JobStore, evidence_of, ok, err, apply_entry, replay,
  full_state_line, stored_record, create_job, record_state, record_tokens, index_key, Result,
  append, with_state, with_tokens,
}
use printer_driver.Types.{JobState, ConfidenceLevel, FailureReason, JobEvidence}

-- New lines that replay to the step from the old maps to the new ones keep the journal durable.
IsDurable-append :
    (s : JobStore) (lines : Bytes) (m : Maps) (es : List JournalEntry)
    → IsDurable s
    → read_journal (lines ++ (newline ∷ [])) ≡ es
    → replay (forget_all s.maps) es ≡ forget_all m
    → IsDurable (record s { maps = m; journal = s.journal ++ (lines ++ (newline ∷ [])) })
IsDurable-append s lines m es v reads steps = record {
  body = s.journal ++ lines;
  closed = sym (append_assoc s.journal lines (newline ∷ []));
  replays =
      replay-behind s v (lines ++ (newline ∷ [])) ∙ ap (replay (forget_all s.maps)) reads ∙ steps;
}

-- What a call that succeeds leaves.
abbrev pub Ensures : (JobStore → Type 0) → Result → Type 0
Ensures P (ok t) = P t
Ensures P (err e t) = Unit

-- The store behind a call, also behind one that fails.
unfoldable pub after : Result → JobStore
after (ok t) = t
after (err e t) = t

-- No fsync fails.
abbrev pub is_synced : Disk → Bool
is_synced taken = true
is_synced refused = true
is_synced unsynced = false

append-IsDurable :
    (s : JobStore) (disk : Disk) (lines : Bytes) (m : Maps)
    → IsDurable s
    → s.persistent ≡ true
    → is_synced disk ≡ true
    → IsDurable (record s { maps = m; journal = s.journal ++ (lines ++ (newline ∷ [])) })
    → IsDurable (after (append disk lines m s))
unfolding append after
append-IsDurable s taken lines m u p synced v =
    if_holds (λ (r : Result). IsDurable (after r)) s.persistent _ _ (λ kept. v)
      (λ memory. ground (arith, memory, p))
append-IsDurable s refused lines m u p synced v =
    if_holds (λ (r : Result). IsDurable (after r)) s.persistent _ _ (λ kept. u)
      (λ memory. ground (arith, memory, p))
append-IsDurable s unsynced lines m u p synced v = ground (arith, synced)

-- An entry that changes one record replays to the change of that record in memory.
replay-update :
    (s : JobStore) (id : Bytes) (f : JobRecord → JobRecord) (e : JournalEntry)
    → ((v : JobRecord) → f (forget v) ≡ forget (f v))
    → ((m : Maps) → apply_entry m e ≡ record m { by_id = update id f m.by_id })
    → replay (forget_all s.maps) (e ∷ read_journal [])
      ≡ forget_all (record s.maps { by_id = update id f s.by_id })
unfolding replay
replay-update s id f e keeps applies =
    rw (read_nothing, replay, applies (forget_all s.maps))
      (ap (λ (by_id : List (Bytes × JobRecord)). record s.maps { by_id = by_id })
        (update-map_values forget id f s.by_id keeps))

-- A transition that the store has taken is on disk: the journal replays to the new state of the store.
pub record_state-IsDurable :
    (s : JobStore) (disk : Disk) (now : ℕ) (id : Bytes) (st : JobState) (c : ConfidenceLevel)
    (r : FailureReason) (e : JobEvidence)
    → IsDurable s
    → s.persistent ≡ true
    → now < u64_mod
    → is_synced disk ≡ true
    → IsDurable (after (record_state disk now id st c r e s))
unfolding record_state after
record_state-IsDurable s disk now id st c r e v p h synced =
    elim (Option-cases (lookup id s.by_id)) [
      | inl missing ↦ rw (missing, record_state) v
      | inr (old, found) ↦
          rw (found, record_state)
            (append-IsDurable s disk (state_line id st c r now e) _ v p synced (
              IsDurable-append s (state_line id st c r now e) _ _ v
                (read-state_line id st c r now e [] h)
                (replay-update s id (with_state st c r e now) _ (λ v. unfold with_state in refl)
                  (λ m. unfold apply_entry in refl))))
    ]

-- A pair of tokens that the store has taken is on disk with the job's record.
pub record_tokens-IsDurable :
    (s : JobStore) (disk : Disk) (id print_token cut_token : Bytes)
    → IsDurable s
    → s.persistent ≡ true
    → is_synced disk ≡ true
    → IsDurable (after (record_tokens disk id print_token cut_token s))
unfolding record_tokens after
record_tokens-IsDurable s disk id print_token cut_token v p synced =
    elim (Option-cases (lookup id s.by_id)) [
      | inl missing ↦ rw (missing, record_tokens) v
      | inr (old, found) ↦
          rw (found, record_tokens)
            (append-IsDurable s disk (token_line id print_token cut_token) _ v p synced (
              IsDurable-append s (token_line id print_token cut_token) _ _ v
                (read-token_line id print_token cut_token [])
                (replay-update s id (with_tokens print_token cut_token) _
                  (λ v. unfold with_tokens in refl) (λ m. unfold apply_entry in refl))))
    ]

-- The two lines of a new job replay to its record behind the others.
replay-create :
    (s : JobStore) (now : ℕ) (r : JobRecord)
    → lookup r.id s.by_id ≡ none
    → replay
        (forget_all s.maps)
        (job_entry (stored_record now r) ∷ full_state_entry (stored_record now r) ∷ [])
      ≡ forget_all (record {
        by_id = s.by_id ++ ((r.id, stored_record now r) ∷ []);
        order = s.order ++ (r.id ∷ []);
        id_by_key = index_key r.key r.id s.id_by_key;
      })
unfolding replay apply_entry stored_record with_state
replay-create s now r fresh =
    rw
      (
        lookup-map_values_none forget r.id s.by_id fresh,
        replay,
        apply_entry,
        update-append_new r.id
            (with_state JobState.queued ConfidenceLevel.transport_accepted FailureReason.none
              (evidence_of (stored_record now r)) (stored_record now r).updated_unix_ms)
            (job_part (stored_record now r)) (map_values forget s.by_id)
            (lookup-map_values_none forget r.id s.by_id fresh),
        map_values-append forget s.by_id ((r.id, stored_record now r) ∷ []),
      )
      refl

read-create :
    (r : JobRecord)
    → Fits r
    → read_journal ((job_line r ++ (newline ∷ full_state_line r)) ++ (newline ∷ []))
      ≡ job_entry r ∷ full_state_entry r ∷ []
read-create r h =
    ap read_journal (append_assoc (job_line r) (newline ∷ full_state_line r) (newline ∷ []))
    ∙ read-job_line r (full_state_line r ++ (newline ∷ [])) h
    ∙ ap (◌∷◌ (job_entry r)) (
        read-state_line r.id r.state r.confidence r.reason r.updated_unix_ms (evidence_of r) [] h.3
        ∙ ap (◌∷◌ (full_state_entry r)) read_nothing)

-- A job that the store has created is on disk, with its key and its place in the order.
pub create_job-IsDurable :
    (s : JobStore) (disk : Disk) (now : ℕ) (r : JobRecord)
    → IsDurable s
    → s.persistent ≡ true
    → Fits (stored_record now r)
    → is_synced disk ≡ true
    → IsDurable (after (create_job disk now r s))
unfolding create_job stored_record after
create_job-IsDurable s disk now r v p h synced = elim (Option-cases (lookup r.id s.by_id)) [
  | inl fresh ↦
      rw (fresh, create_job)
        (append-IsDurable s disk
          (job_line (stored_record now r) ++ (newline ∷ full_state_line (stored_record now r))) _ v
          p synced
          (IsDurable-append s _ _ _ v (read-create (stored_record now r) h)
            (replay-create s now r fresh)))
  | inr (old, known) ↦ rw (known, create_job) v
]
