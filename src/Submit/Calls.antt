-- ===== src/Submit/Calls.antt =====
-- `submit`, `reserve` and `submitReserved`, with the guards in the order of the source.
use printer_driver.Base.{
  ℕ, ◌+◌, ◌%◌, ◌^◌, Bytes, codes, Bool, true, false, not, ◌&&◌, Option, none, some, List, [], ◌∷◌,
  ◌++◌, length, get_elem?, if◌then◌else◌,
}
use printer_driver.Engine.{no_evidence}
use printer_driver.Journal.Lines.{JobRecord, default_record, PayloadKind}
use printer_driver.Store.Tables.{lookup, assign, update}
use printer_driver.Store.{JobStore, ok, err, create_job, record_state}
use printer_driver.Submit.{
  Payload, kind, payload_input_bytes, JobOptions, default_options, PrintJob, JobEntry, Task, Driver,
  World, Outcome, returned, threw, update_at,
}
use printer_driver.Types.{JobState, ConfidenceLevel, FailureReason}

abbrev pub is_empty : Bytes → Bool
is_empty [] = true
is_empty (b ∷ bs) = false

abbrev is_failed_known : JobState → Bool
is_failed_known JobState.failed_known = true
is_failed_known _ = false

-- A job that has ended as `FailedKnown`.
abbrev pub known_failure : PrintJob → Bool
known_failure j = j.finished && is_failed_known j.state

-- `failed_and_finished` of the job that an entry points to.
abbrev pub failed_and_finished : List PrintJob → JobEntry → Bool
failed_and_finished jobs e = elim (get_elem? jobs e.job) [ none ↦ false | some j ↦ known_failure j ]

unfoldable pub find_entry : Bytes → Driver → Option JobEntry
find_entry key d = if is_empty key then none else lookup key d.by_key

abbrev pub auto_key : World → Bytes
auto_key w = codes "auto-" ++ w.auto_id

-- The key that the job gets.
abbrev pub effective_key : World → Bytes → Bytes
effective_key w key = if is_empty key then auto_key w else key

abbrev pub new_record : World → Bytes → Bytes → ℕ → PayloadKind → ℕ → JobRecord
new_record w printer key attempt payload_kind bytes = record default_record {
  id = w.job_id;
  key = key;
  printer_id = printer;
  attempt = attempt;
  payload_kind = payload_kind;
  payload_bytes = bytes;
}

-- A job after `emit(Queued)`.
abbrev pub new_job : World → Bytes → Bytes → ℕ → PrintJob
new_job w printer key attempt = record {
  id = w.job_id;
  key = key;
  printer_id = printer;
  attempt = attempt;
  state = JobState.queued;
  finished = false;
}

abbrev pub failed : PrintJob → PrintJob
failed j = record j { state = JobState.failed_known; finished = true }

-- `terminate` with `FailedKnown`: the transition is recorded, then published and finished.
unfoldable pub terminate_failed : World → ℕ → Bytes → Option ℕ → Driver → Outcome
terminate_failed w job id result d =
    elim (record_state w.end_disk w.end_now id JobState.failed_known
      ConfidenceLevel.transport_accepted FailureReason.transport_unreachable no_evidence d.store) [
        | err error s ↦ threw error (record d { store = s })
        | ok s ↦ returned result (record d { store = s; jobs = update_at job failed d.jobs })
      ]

-- The job is in the index; it is pushed unless the printer is being stopped.
unfoldable pub dispatch : World → ℕ → Bytes → Option ℕ → Task → Driver → Outcome
unfolding terminate_failed
dispatch w job id result task d =
    if w.stopping
    then terminate_failed w job id result d
    else returned result (record d { tasks = d.tasks ++ (task ∷ []) })

-- `createJob`, the job's object and its entry in the index.
unfoldable pub admit :
    World → Bytes → ℕ → Bytes → Option Payload → JobOptions → Driver → JobStore → Driver
admit w printer attempt key payload options d s = record d {
  store = s;
  jobs = d.jobs ++ (new_job w printer key attempt ∷ []);
  by_key =
      assign key
        (record {
          job = length d.jobs;
          printer_id = printer;
          payload = payload;
          options = options;
          attempt = attempt;
        })
        d.by_key;
}

-- The rest of `submit`, once the payload and the attempt are settled.
unfoldable pub submit_new :
    World → Bytes → Option Payload → JobOptions → ℕ → Bool → Driver → Outcome
unfolding admit dispatch
submit_new w printer none options attempt banner d = returned none d
submit_new w printer (some p) options attempt banner d =
    let key = effective_key w options.key in
    elim (create_job w.disk w.now
      (new_record w printer key attempt (kind p) (payload_input_bytes p)) d.store) [
        | err error s ↦ threw error (record d { store = s })
        | ok s ↦
            dispatch w (length d.jobs) w.job_id (some (length d.jobs))
              (record {
                job = length d.jobs;
                printer_id = printer;
                payload = p;
                options = options;
                attempt = attempt;
                banner = banner;
              })
              (admit w printer attempt key (some p) options d s)
      ]

abbrev pub or_else : Option Payload → Option Payload → Option Payload
or_else (some p) other = some p
or_else none other = other

abbrev pub next_attempt : ℕ → ℕ
next_attempt attempt = (attempt + 1) % 2 ^ 32

-- `submit` on the printer with the given id.
unfoldable pub submit : World → Bytes → Option Payload → JobOptions → Bool → Bool → Driver → Outcome
unfolding find_entry submit_new
submit w printer payload options reprint banner d = elim (find_entry options.key d) [
  | none ↦ submit_new w printer payload options 1 banner d
  | some e ↦
      if not reprint && not (failed_and_finished d.jobs e)
      then returned (some e.job) d
      else submit_new w printer (or_else payload e.payload) options (next_attempt e.attempt) banner
          d
]

-- `Printer::print`, and `Printer::forceReprint` without and with a payload.
unfoldable pub print : World → Bytes → Payload → JobOptions → Driver → Outcome
unfolding submit
print w printer payload options d = submit w printer (some payload) options false false d

unfoldable pub force_reprint :
    World → Bytes → Option Payload → Bytes → JobOptions → Bool → Driver → Outcome
unfolding submit
force_reprint w printer payload key options banner d =
    submit w printer payload (record options { key = key }) true banner d

-- `reserve`; whether a job was created is the second result.
unfoldable pub reserve : World → Bytes → Bytes → PayloadKind → ℕ → Driver → Outcome × Bool
unfolding find_entry admit
reserve w printer key payload_kind bytes d = elim (find_entry key d) [
  | some e ↦ (returned (some e.job) d, false)
  | none ↦
      elim (create_job w.disk w.now
        (new_record w printer (effective_key w key) 1 payload_kind bytes) d.store) [
          | err error s ↦ (threw error (record d { store = s }), false)
          | ok s ↦ (
            returned (some (length d.jobs))
                (admit w printer 1 (effective_key w key) none default_options d s),
            true,
          )
        ]
]

-- The entry of the job's key gets the payload, so that a reprint can reuse it.
abbrev pub fill : Payload → JobOptions → JobEntry → JobEntry
fill payload options e = record e { payload = some payload; options = options }

unfoldable pub submit_reserved : World → Bytes → ℕ → Payload → JobOptions → Driver → Outcome
unfolding dispatch
submit_reserved w printer job payload options d = elim (get_elem? d.jobs job) [
  | none ↦ returned none d
  | some j ↦
      if j.finished
      then returned none d
      else dispatch w job j.id none
          (record {
            job = job;
            printer_id = printer;
            payload = payload;
            options = options;
            attempt = 1;
            banner = false;
          })
          (record d { by_key = update j.key (fill payload options) d.by_key })
]
