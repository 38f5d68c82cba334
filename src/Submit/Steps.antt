-- ===== src/Submit/Steps.antt =====
-- Sequences of calls of a driver and of what its workers do to the jobs in between.
use printer_driver.Base.{ℕ, Bytes, Bool, true, false, Option, some, List, [], ◌∷◌, if◌then◌else◌}
use printer_driver.Journal.Lines.{PayloadKind}
use printer_driver.Submit.{Payload, JobOptions, PrintJob, Driver, World, driver_after, update_at}
use printer_driver.Submit.Calls.{submit, reserve, submit_reserved}
use printer_driver.Types.{JobState}

pub data Step : Type 0 where
  prints : World → Bytes → Payload → JobOptions → Step
  reprints : World → Bytes → Option Payload → JobOptions → Bool → Step
  reserves : World → Bytes → Bytes → PayloadKind → ℕ → Step
  submits_reserved : World → Bytes → ℕ → Payload → JobOptions → Step
  -- A run of a job publishes a state, and ends the job with one. An ended job's run is over.
  publishes ends : ℕ → JobState → Step

abbrev pub publish : JobState → PrintJob → PrintJob
publish state j = if j.finished then j else record j { state = state }

abbrev pub end_with : JobState → PrintJob → PrintJob
end_with state j = if j.finished then j else record j { state = state; finished = true }

unfoldable pub step : Step → Driver → Driver
unfolding submit reserve submit_reserved update_at
step (prints w printer payload options) d =
    driver_after (submit w printer (some payload) options false false d)
step (reprints w printer payload options banner) d =
    driver_after (submit w printer payload options true banner d)
step (reserves w printer key payload_kind bytes) d =
    driver_after (reserve w printer key payload_kind bytes d).0
step (submits_reserved w printer job payload options) d =
    driver_after (submit_reserved w printer job payload options d)
step (publishes job state) d = record d { jobs = update_at job (publish state) d.jobs }
step (ends job state) d = record d { jobs = update_at job (end_with state) d.jobs }

unfoldable pub run : List Step → Driver → Driver
unfolding step
run [] d = d
run (s ∷ ss) d = run ss (step s d)
