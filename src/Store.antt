-- ===== src/Store.antt =====
-- `JobStore` of core/src/job_store.cpp. The file is the list of its bytes; the two hash maps are
-- association lists. Where the source throws, the model returns the error with the store that is left;
-- what the disk does with a write is an argument of the call, and so is the clock.
pub mod Tables
pub mod Recovery
pub mod Replay
pub mod Durability
pub mod Calls
pub mod Lookup
mod Examples
use printer_driver.Base.{
  ℕ, suc, ◌+◌, Bytes, codes, Bool, true, false, Option, none, some, List, [], ◌∷◌, ◌++◌,
  if◌then◌else◌, ◌==◌,
}
use printer_driver.Journal.Fields.{newline}
use printer_driver.Journal.Files.{read_journal}
use printer_driver.Journal.Lines.{
  JobRecord, JournalEntry, job, state, tokens, job_line, token_line, state_line,
}
use printer_driver.Types.{
  JobState, ConfidenceLevel, FailureReason, ConfidenceGrade, CompletionAuthority, JobEvidence,
  is_terminal,
}
use Tables.{lookup, update, assign}

-- What the store keeps in memory: `by_id_`, `order_` and `id_by_key_`.
pub record Maps : Type 0 where
  pub by_id : List (Bytes × JobRecord)
  pub order : List Bytes
  pub id_by_key : List (Bytes × Bytes)

pub record JobStore : Type 0 where
  pub maps : Maps
  pub open maps use *
  -- A store with a directory; one without keeps no journal.
  pub persistent : Bool
  pub journal : Bytes
  pub recovered_count : ℕ

pub data StoreError : Type 0 where
  duplicate_id unknown_id write_failed sync_failed : StoreError

-- What becomes of a write: it is taken, it is refused before any byte, or all of it is in the file and the
-- fsync behind it fails.
pub data Disk : Type 0 where
  taken refused unsynced : Disk

pub data Result : Type 0 where
  ok : JobStore → Result
  err : StoreError → JobStore → Result

unfoldable pub index_key : Bytes → Bytes → List (Bytes × Bytes) → List (Bytes × Bytes)
index_key [] id keys = keys
index_key (c ∷ key) id keys = assign (c ∷ key) id keys

abbrev pub evidence_of : JobRecord → JobEvidence
evidence_of r = record { grade = r.grade; authority = r.authority; method = r.method }

-- What a transition, and what a token record, writes into a job's record.
unfoldable pub with_state :
    JobState → ConfidenceLevel → FailureReason → JobEvidence → ℕ → JobRecord → JobRecord
with_state st c r e now old = record old {
  state = st;
  confidence = c;
  reason = r;
  grade = e.grade;
  authority = e.authority;
  method = e.method;
  updated_unix_ms = now;
}

unfoldable pub with_tokens : Bytes → Bytes → JobRecord → JobRecord
with_tokens print_token cut_token old = record old {
  print_token = print_token;
  cut_token = cut_token;
}

-- The first loop of `load`: one entry of the journal.
unfoldable pub apply_entry : Maps → JournalEntry → Maps
apply_entry m (job r) = elim (lookup r.id m.by_id) [
  | some old ↦ m
  | none ↦ record {
    by_id = m.by_id ++ ((r.id, r) ∷ []);
    order = m.order ++ (r.id ∷ []);
    id_by_key = index_key r.key r.id m.id_by_key;
  }
]
apply_entry m (tokens r) = record m {
  by_id = update r.id (with_tokens r.print_token r.cut_token) m.by_id;
}
apply_entry m (state r) = record m {
  by_id =
      update r.id (with_state r.state r.confidence r.reason (evidence_of r) r.updated_unix_ms)
        m.by_id;
}

unfoldable pub replay : Maps → List JournalEntry → Maps
replay m [] = m
replay m (e ∷ es) = replay (apply_entry m e) es

abbrev pub no_maps : Maps
no_maps = record { by_id = []; order = []; id_by_key = [] }

-- What recovery makes of a state that no process is left to finish.
unfoldable pub recovered_state : JobState → JobState
recovered_state JobState.send_started = JobState.unknown
recovered_state JobState.bytes_sent = JobState.unknown
recovered_state JobState.print_confirmed = JobState.unknown
recovered_state JobState.cut_command_processed = JobState.unknown
recovered_state _ = JobState.failed_known

unfoldable pub recover_record : ℕ → JobRecord → JobRecord
unfolding recovered_state
recover_record now r = if is_terminal r.state then r else record r {
  state = recovered_state r.state;
  reason = FailureReason.unknown;
  grade = ConfidenceGrade.e_transport_only;
  authority = CompletionAuthority.transport_only;
  method = codes "none";
  recovered = true;
  updated_unix_ms = now;
}

-- The second loop of `load`, over the jobs in order.
unfoldable pub recover_all : ℕ → List Bytes → List (Bytes × JobRecord) → List (Bytes × JobRecord)
recover_all now [] by_id = by_id
recover_all now (id ∷ ids) by_id = recover_all now ids (update id (recover_record now) by_id)

abbrev count_one : Option JobRecord → ℕ
count_one none = 0
count_one (some r) = if is_terminal r.state then 0 else 1

unfoldable pub count_recovered : List Bytes → List (Bytes × JobRecord) → ℕ
count_recovered [] by_id = 0
count_recovered (id ∷ ids) by_id = count_one (lookup id by_id) + count_recovered ids by_id

unfoldable pub load : ℕ → Bytes → Maps
load now journal =
    let m = replay no_maps (read_journal journal) in
    record m { by_id = recover_all now m.order m.by_id }

abbrev pub full_state_line : JobRecord → Bytes
full_state_line r = state_line r.id r.state r.confidence r.reason r.updated_unix_ms (evidence_of r)

abbrev header : Bytes
header = codes "#PDJOURNAL\t3"

-- One J line and one S line for each job in order.
unfoldable pub compact_lines : List Bytes → List (Bytes × JobRecord) → Bytes
compact_lines [] by_id = []
compact_lines (id ∷ ids) by_id = elim (lookup id by_id) [
  | none ↦ compact_lines ids by_id
  | some r ↦ job_line r ++ (newline ∷ (full_state_line r ++ (newline ∷ compact_lines ids by_id)))
]

unfoldable pub compact : Maps → Bytes
unfolding compact_lines
compact m = header ++ (newline ∷ compact_lines m.order m.by_id)

-- The constructor over a directory, on a disk that takes the compacted journal.
unfoldable pub open_store : ℕ → Bytes → JobStore
unfolding load compact
open_store now journal = record {
  maps = load now journal;
  persistent = true;
  journal = compact (load now journal);
  recovered_count =
      count_recovered (replay no_maps (read_journal journal)).order
        (replay no_maps (read_journal journal)).by_id;
}

abbrev with_line : Bytes → JobStore → JobStore
with_line line s = record s { journal = s.journal ++ (line ++ (newline ∷ [])) }

-- `append`, and the new maps once the line is on disk; when it throws, the maps are as they were. A store
-- in memory has no file to write.
unfoldable pub append : Disk → Bytes → Maps → JobStore → Result
append taken line m s =
    if s.persistent then ok (record (with_line line s) { maps = m }) else ok (record s { maps = m })
append refused line m s = if s.persistent then err write_failed s else ok (record s { maps = m })
append unsynced line m s =
    if s.persistent then err sync_failed (with_line line s) else ok (record s { maps = m })

-- The record that `createJob` stores.
unfoldable pub stored_record : ℕ → JobRecord → JobRecord
stored_record now r =
    let created = if r.created_unix_ms == 0 then now else r.created_unix_ms in
    record r {
      created_unix_ms = created;
      updated_unix_ms = created;
      state = JobState.queued;
      confidence = ConfidenceLevel.transport_accepted;
      reason = FailureReason.none;
      grade = ConfidenceGrade.e_transport_only;
      authority = CompletionAuthority.transport_only;
      method = codes "none";
      recovered = false;
    }

unfoldable pub create_job : Disk → ℕ → JobRecord → JobStore → Result
create_job disk now r s = elim (lookup r.id s.by_id) [
  | some old ↦ err duplicate_id s
  | none ↦
      let stored = stored_record now r in
      append disk (job_line stored ++ (newline ∷ full_state_line stored))
        (record {
          by_id = s.by_id ++ ((stored.id, stored) ∷ []);
          order = s.order ++ (stored.id ∷ []);
          id_by_key = index_key stored.key stored.id s.id_by_key;
        })
        s
]

unfoldable pub record_state :
    Disk → ℕ → Bytes → JobState → ConfidenceLevel → FailureReason → JobEvidence → JobStore → Result
record_state disk now id st c r e s = elim (lookup id s.by_id) [
  | none ↦ err unknown_id s
  | some old ↦
      append disk (state_line id st c r now e)
        (record s.maps { by_id = update id (with_state st c r e now) s.by_id }) s
]

unfoldable pub record_tokens : Disk → Bytes → Bytes → Bytes → JobStore → Result
record_tokens disk id print_token cut_token s = elim (lookup id s.by_id) [
  | none ↦ err unknown_id s
  | some old ↦
      append disk (token_line id print_token cut_token)
        (record s.maps { by_id = update id (with_tokens print_token cut_token) s.by_id }) s
]

unfoldable pub find_by_id : Bytes → JobStore → Option JobRecord
find_by_id id s = lookup id s.by_id

unfoldable pub find_by_key : Bytes → JobStore → Option JobRecord
unfolding find_by_id
find_by_key key s = elim (lookup key s.id_by_key) [ none ↦ none | some id ↦ find_by_id id s ]
