-- ===== src/Submit/Examples.antt =====
-- A key that is printed, fails, and is printed again.
use printer_driver.Base.{
  ℕ, Bytes, codes, true, false, none, List, [], ◌∷◌, ◌≡◌, ◌≢◌, refl, arith, get_elem?, eq_bytes,
  eq_bytes_iff,
}
use printer_driver.Store.Tables.{lookup, assign}
use printer_driver.Store.{taken, JobStore, no_maps, create_job, append, stored_record}
use printer_driver.Submit.{JobOptions, default_options, Payload, PrintJob, World, new_driver}
use printer_driver.Submit.Calls.{auto_key, new_job}
use printer_driver.Submit.Steps.{Step, run}
use printer_driver.Submit.Unique.{run_unique}
use printer_driver.Types.{JobState}

abbrev memory_store : JobStore
memory_store = record { maps = no_maps; persistent = false; journal = []; recovered_count = 0 }

abbrev world : Bytes → World
world id = record {
  disk = taken;
  now = 1;
  end_disk = taken;
  end_now = 2;
  stopping = false;
  auto_id = id;
  job_id = id;
}

abbrev order : JobOptions
order = record default_options { key = codes "T1" }

-- Print, fail, print again, and two more that change nothing.
abbrev retry_steps : List Step
retry_steps =
    Step.prints (world (codes "a")) (codes "P") (Payload.raw (codes "x")) order
    ∷ Step.ends 0 JobState.failed_known
    ∷ Step.prints (world (codes "b")) (codes "P") (Payload.raw (codes "x")) order
    ∷ Step.prints (world (codes "c")) (codes "Q") (Payload.raw (codes "x")) order
    ∷ Step.ends 1 JobState.unknown
    ∷ Step.prints (world (codes "d")) (codes "P") (Payload.raw (codes "x")) order
    ∷ []

abbrev second_job : PrintJob
second_job = record (new_job (world (codes "b")) (codes "P") (codes "T1") 2) {
  state = JobState.unknown;
  finished = true;
}

generated : (id : Bytes) → auto_key (world id) ≢ codes "T1"
unfolding eq_bytes
generated id e = ground (arith, (eq_bytes_iff (auto_key (world id)) (codes "T1")).1 e)

-- The index of the second job.
abbrev retried : ℕ
retried = 1

run_unique_example : retried ≡ retried
unfolding run lookup create_job append assign eq_bytes stored_record
run_unique_example =
    run_unique memory_store retry_steps (codes "T1") retried retried second_job second_job
      (
        generated (codes "a"),
        (tt, (generated (codes "b"), (generated (codes "c"), (tt, (generated (codes "d"), tt))))),
      )
      refl refl refl refl refl refl

-- The second print is a new attempt, and the later ones make no third job.
two_jobs : get_elem? (run retry_steps (new_driver memory_store)).jobs 2 ≡ none
unfolding run lookup create_job append assign eq_bytes stored_record
two_jobs = refl
