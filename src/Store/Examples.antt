-- ===== src/Store/Examples.antt =====
-- The theorems about the store at a job that a crash catches between its payload and its fence.
use mathlib.Core.Option
use printer_driver.Base.{codes, true, some, List, [], ◌∷◌, ◌≡◌, ◌∙◌, refl, arith, ap, All, eq_bytes}
use printer_driver.Journal.Lines.{JobRecord, default_record}
use printer_driver.Store.Calls.{
  Call, create, transition, call, run, IsSynced, synced, run-recovers, run-IsDurable, IsInRange,
  open_store-fresh,
}
use printer_driver.Store.Durability.{Ensures, after}
use printer_driver.Store.Lookup.{create_job-found}
use printer_driver.Store.Recovery.{open_store-terminal}
use printer_driver.Store.Replay.{forget, IsDurable}
use printer_driver.Store.{
  taken, unsynced, JobStore, create_job, record_state, append, load, compact, compact_lines,
  recover_all, replay, index_key, recovered_state, find_by_id, find_by_key, open_store,
  recover_record, stored_record, no_maps, with_state,
}
use printer_driver.Store.Tables.{lookup, update, assign}
use printer_driver.Journal.Files.{read_journal}
use printer_driver.Types.{JobState, ConfidenceLevel, FailureReason, is_terminal}
use printer_driver.Engine.{no_evidence}

abbrev ticket : JobRecord
ticket = record default_record {
  id = codes "j1";
  key = codes "order-7";
  printer_id = codes "bar";
  created_unix_ms = 1000;
  payload_bytes = 64;
}

-- The last call fails: the store knows no job of that id.
abbrev until_the_crash : List Call
until_the_crash =
    create taken 1000 ticket
    ∷ transition taken 1001 (codes "j1") JobState.send_started ConfidenceLevel.printer_healthy
        FailureReason.none no_evidence
    ∷ transition taken 1002 (codes "j2") JobState.unknown ConfidenceLevel.printer_healthy
        FailureReason.none no_evidence
    ∷ []

until_the_crash-IsInRange : All IsInRange until_the_crash
unfolding stored_record
until_the_crash-IsInRange =
    ((omega arith, omega arith, omega arith, omega arith), (omega arith, (omega arith, tt)))

abbrev sent : JobRecord
sent =
    with_state JobState.send_started ConfidenceLevel.printer_healthy FailureReason.none no_evidence
      1001 (stored_record 1000 ticket)

held_at_the_crash : find_by_id (codes "j1") (run until_the_crash (open_store 500 [])) ≡ some sent
unfolding run call after create_job record_state append find_by_id open_store load compact
    compact_lines recover_all replay read_journal lookup update index_key assign eq_bytes
    stored_record
held_at_the_crash = refl

-- The transition behind the crash, whose fsync fails.
abbrev last_transition : Call
last_transition =
    transition unsynced 1003 (codes "j1") JobState.bytes_sent ConfidenceLevel.printer_healthy
      FailureReason.none no_evidence

until_the_crash-IsSynced : All IsSynced until_the_crash
until_the_crash-IsSynced = (refl, (refl, (refl, tt)))

abbrev sent_whole : JobRecord
sent_whole =
    with_state JobState.bytes_sent ConfidenceLevel.printer_healthy FailureReason.none no_evidence
      1003 sent

run-recovers_example :
    find_by_id (codes "j1") (
      open_store 9000
        (after (call last_transition (run until_the_crash (open_store 500 [])))).journal)
    ≡ Option.map
        (λ r. recover_record 9000 (forget r))
        (find_by_id
          (codes "j1")
          (after (call (synced last_transition) (run until_the_crash (open_store 500 [])))))
run-recovers_example =
    run-recovers 500 9000 until_the_crash last_transition (codes "j1") until_the_crash-IsInRange
      until_the_crash-IsSynced (omega arith)

-- The journal has the transition that memory has not.
on_disk_at_the_crash :
    find_by_id
      (codes "j1")
      (after (call (synced last_transition) (run until_the_crash (open_store 500 []))))
    ≡ some sent_whole
unfolding run call synced after create_job record_state append find_by_id open_store load compact
    compact_lines recover_all replay read_journal lookup update index_key assign eq_bytes
    stored_record
on_disk_at_the_crash = refl

found_after_the_crash :
    find_by_id (codes "j1") (
      open_store 9000
        (after (call last_transition (run until_the_crash (open_store 500 [])))).journal)
    ≡ some (recover_record 9000 (forget sent_whole))
found_after_the_crash =
    run-recovers 500 9000 until_the_crash last_transition (codes "j1") until_the_crash-IsInRange
      until_the_crash-IsSynced (omega arith)
    ∙ ap (Option.map (λ r. recover_record 9000 (forget r))) on_disk_at_the_crash

-- Recovery calls the job that had started to send `Unknown`.
lost_is_unknown : (recover_record 9000 (forget sent_whole)).state ≡ JobState.unknown
unfolding recover_record recovered_state is_terminal with_state
lost_is_unknown = refl

open_store-terminal_example : is_terminal (recover_record 9000 (forget sent_whole)).state ≡ true
open_store-terminal_example =
    open_store-terminal 9000
      (after (call last_transition (run until_the_crash (open_store 500 [])))).journal (codes "j1")
      (recover_record 9000 (forget sent_whole)) found_after_the_crash

run-IsDurable_example : IsDurable (run until_the_crash (open_store 500 []))
run-IsDurable_example =
    run-IsDurable until_the_crash (open_store 500 []) (open_store-fresh 500)
      (unfold open_store in refl) until_the_crash-IsInRange until_the_crash-IsSynced

abbrev empty_store : JobStore
empty_store = record { maps = no_maps; persistent = true; journal = []; recovered_count = 0 }

create_job-found_example :
    Ensures
      (λ t.
        (find_by_id (codes "j1") t ≡ some (stored_record 1000 ticket))
        × (find_by_key (codes "order-7") t ≡ some (stored_record 1000 ticket)))
      (create_job taken 1000 ticket empty_store)
unfolding eq_bytes
create_job-found_example =
    create_job-found empty_store taken 1000 ticket (codes "j1") (λ h. ground (arith, h))

abbrev holding : JobStore
holding = run until_the_crash (open_store 500 [])
