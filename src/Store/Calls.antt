-- ===== src/Store/Calls.antt =====
-- Sequences of calls of a store, a process that dies after any of them, and the lookups.
use mathlib.Core.Option
use printer_driver.Base.{
  ℕ, ◌<◌, Bytes, true, List, [], ◌∷◌, ◌≡◌, refl, inl, inr, Option-cases, All, if_holds, Bool-cases,
  ap, ◌∙◌,
}
use printer_driver.Journal.Fields.{u64_mod}
use printer_driver.Journal.Lines.{JobRecord}
use printer_driver.Journal.Files.{read_journal}
use printer_driver.Journal.Lines.{parse_line}
use printer_driver.Store.Durability.{
  after, is_synced, create_job-IsDurable, record_state-IsDurable, record_tokens-IsDurable,
}
use printer_driver.Store.Recovery.{open_store-recovers}
use printer_driver.Store.Replay.{IsDurable, Fits, forget}
use printer_driver.Store.Tables.{lookup}
use printer_driver.Store.{
  Disk, taken, refused, unsynced, Maps, header, replay, load, recover_all, compact_lines, JobStore,
  Result, stored_record, create_job, record_state, record_tokens, append, open_store,
  recover_record, find_by_id,
}
use printer_driver.Types.{JobState, ConfidenceLevel, FailureReason, JobEvidence}

-- A call that changes the store, with the clock it reads and what the disk does with the write.
pub data Call : Type 0 where
  create : Disk → ℕ → JobRecord → Call
  transition : Disk → ℕ → Bytes → JobState → ConfidenceLevel → FailureReason → JobEvidence → Call
  pair : Disk → Bytes → Bytes → Bytes → Call

unfoldable pub call : Call → JobStore → Result
call (create disk now r) s = create_job disk now r s
call (transition disk now id st c r e) s = record_state disk now id st c r e s
call (pair disk id print_token cut_token) s = record_tokens disk id print_token cut_token s

abbrev pub disk_of : Call → Disk
disk_of (create disk now r) = disk
disk_of (transition disk now id st c r e) = disk
disk_of (pair disk id print_token cut_token) = disk

-- The fsync of the call does not fail.
abbrev pub IsSynced : Call → Type 0
IsSynced c = is_synced (disk_of c) ≡ true

-- The same call on a disk whose fsync does not fail.
abbrev sync : Disk → Disk
sync taken = taken
sync refused = refused
sync unsynced = taken

unfoldable pub synced : Call → Call
synced (create disk now r) = create (sync disk) now r
synced (transition disk now id st c r e) = transition (sync disk) now id st c r e
synced (pair disk id print_token cut_token) = pair (sync disk) id print_token cut_token

unfoldable pub run : List Call → JobStore → JobStore
unfolding call after
run [] s = s
run (c ∷ cs) s = run cs (after (call c s))

-- The numbers of a call fit the types of their parameters.
abbrev pub IsInRange : Call → Type 0
IsInRange (create disk now r) = Fits (stored_record now r)
IsInRange (transition disk now id st c r e) = now < u64_mod
IsInRange (pair disk id print_token cut_token) = Unit

append-persistent :
    (disk : Disk) (line : Bytes) (m : Maps) (s : JobStore)
    → (after (append disk line m s)).persistent ≡ s.persistent
unfolding append after
append-persistent taken line m s =
    if_holds (λ (r : Result). (after r).persistent ≡ s.persistent) s.persistent _ _ (λ kept. refl)
      (λ memory. refl)
append-persistent refused line m s =
    if_holds (λ (r : Result). (after r).persistent ≡ s.persistent) s.persistent _ _ (λ kept. refl)
      (λ memory. refl)
append-persistent unsynced line m s =
    if_holds (λ (r : Result). (after r).persistent ≡ s.persistent) s.persistent _ _ (λ kept. refl)
      (λ memory. refl)

call-persistent : (c : Call) (s : JobStore) → (after (call c s)).persistent ≡ s.persistent
unfolding call create_job record_state record_tokens after
call-persistent (create disk now r) s = elim (Option-cases (lookup r.id s.by_id)) [
  | inl fresh ↦ rw (fresh, create_job) (append-persistent disk _ _ s)
  | inr (old, known) ↦ rw (known, create_job) refl
]
call-persistent (transition disk now id st c r e) s = elim (Option-cases (lookup id s.by_id)) [
  | inl missing ↦ rw (missing, record_state) refl
  | inr (old, found) ↦ rw (found, record_state) (append-persistent disk _ _ s)
]
call-persistent (pair disk id print_token cut_token) s = elim (Option-cases (lookup id s.by_id)) [
  | inl missing ↦ rw (missing, record_tokens) refl
  | inr (old, found) ↦ rw (found, record_tokens) (append-persistent disk _ _ s)
]

call-IsDurable :
    (c : Call) (s : JobStore)
    → IsDurable s
    → s.persistent ≡ true
    → IsInRange c
    → IsSynced c
    → IsDurable (after (call c s))
unfolding call
call-IsDurable (create disk now r) s v p h synced = create_job-IsDurable s disk now r v p h synced
call-IsDurable (transition disk now id st c r e) s v p h synced =
    record_state-IsDurable s disk now id st c r e v p h synced
call-IsDurable (pair disk id a b) s v p h synced = record_tokens-IsDurable s disk id a b v p synced

-- A store with a directory whose journal replays to what it holds is such a store after any sequence of
-- calls in which no fsync fails; calls of unknown or of taken ids, and writes that the disk refuses
-- before any byte, are among them. The numbers in the calls fit the types of their parameters.
pub run-IsDurable :
    (cs : List Call) (s : JobStore)
    → IsDurable s
    → s.persistent ≡ true
    → All IsInRange cs
    → All IsSynced cs
    → IsDurable (run cs s)
unfolding run
run-IsDurable [] s v p h k = v
run-IsDurable (c ∷ cs) s v p h k =
    run-IsDurable cs (after (call c s)) (call-IsDurable c s v p h.0 k.0) (call-persistent c s ∙ p)
      h.1 k.1

run-persistent : (cs : List Call) (s : JobStore) → (run cs s).persistent ≡ s.persistent
unfolding run
run-persistent [] s = refl
run-persistent (c ∷ cs) s = run-persistent cs (after (call c s)) ∙ call-persistent c s

pub open_store-fresh : (now : ℕ) → IsDurable (open_store now [])
unfolding open_store load replay recover_all compact_lines read_journal parse_line
open_store-fresh now = record { body = header; closed = refl; replays = refl }

append-journal :
    (disk : Disk) (line : Bytes) (m : Maps) (s : JobStore)
    → (after (append disk line m s)).journal ≡ (after (append (sync disk) line m s)).journal
unfolding append after
append-journal taken line m s = refl
append-journal refused line m s = refl
append-journal unsynced line m s = elim (Bool-cases s.persistent) [
  | inl kept ↦ rw (kept, append) refl
  | inr memory ↦ rw (memory, append) refl
]

-- A call whose fsync fails leaves the journal as the call leaves it that succeeds.
call-journal :
    (c : Call) (s : JobStore) → (after (call c s)).journal ≡ (after (call (synced c) s)).journal
unfolding call synced create_job record_state record_tokens after
call-journal (create disk now r) s = elim (Option-cases (lookup r.id s.by_id)) [
  | inl fresh ↦ rw (fresh, create_job) (append-journal disk _ _ s)
  | inr (old, known) ↦ rw (known, create_job) refl
]
call-journal (transition disk now id st c r e) s = elim (Option-cases (lookup id s.by_id)) [
  | inl missing ↦ rw (missing, record_state) refl
  | inr (old, found) ↦ rw (found, record_state) (append-journal disk _ _ s)
]
call-journal (pair disk id print_token cut_token) s = elim (Option-cases (lookup id s.by_id)) [
  | inl missing ↦ rw (missing, record_tokens) refl
  | inr (old, found) ↦ rw (found, record_tokens) (append-journal disk _ _ s)
]

synced-IsSynced : (c : Call) → IsSynced (synced c)
unfolding synced
synced-IsSynced (create taken now r) = refl
synced-IsSynced (create refused now r) = refl
synced-IsSynced (create unsynced now r) = refl
synced-IsSynced (transition taken now id st c r e) = refl
synced-IsSynced (transition refused now id st c r e) = refl
synced-IsSynced (transition unsynced now id st c r e) = refl
synced-IsSynced (pair taken id a b) = refl
synced-IsSynced (pair refused id a b) = refl
synced-IsSynced (pair unsynced id a b) = refl

synced-IsInRange : (c : Call) → IsInRange c → IsInRange (synced c)
unfolding synced
synced-IsInRange (create disk now r) h = h
synced-IsInRange (transition disk now id st c r e) h = h
synced-IsInRange (pair disk id a b) h = h

-- A store that is opened on an empty journal takes a sequence of calls in which no fsync fails, then one
-- more call, and the process dies. Opening the store on the journal that is on disk then gives every
-- job as the calls left it, its mark of an earlier recovery aside, with recovery applied, and no other
-- job; and if it was the fsync of the last call that failed, every job as that call would have left
-- it had it succeeded. The numbers in the calls fit the types of their parameters, and a write that
-- the disk refuses leaves no byte.
pub run-recovers :
    (start now : ℕ) (cs : List Call) (last : Call) (id : Bytes)
    → All IsInRange cs
    → All IsSynced cs
    → IsInRange last
    → find_by_id id (open_store now (after (call last (run cs (open_store start [])))).journal)
      ≡ Option.map
          (λ r. recover_record now (forget r))
          (find_by_id id (after (call (synced last) (run cs (open_store start [])))))
run-recovers start now cs last id h k last_fits =
    let fresh = open_store start [] in
    let before = run cs fresh in
    let kept : fresh.persistent ≡ true = unfold open_store in refl in
    ap (λ (j : Bytes). find_by_id id (open_store now j)) (call-journal last before)
    ∙ open_store-recovers now (after (call (synced last) before)) id (
        call-IsDurable (synced last) before
          (run-IsDurable cs fresh (open_store-fresh start) kept h k)
          (run-persistent cs fresh ∙ kept) (synced-IsInRange last last_fits) (synced-IsSynced last))
