-- ===== src/Engine/Confidence.antt =====
-- The confidence that a run reports climbs the evidence ladder and stays under the profile's ceiling.
use printer_driver.Base.{ℕ, ◌≤◌, ◌≡◌, arith, Option}
use printer_driver.Engine.EscPos.{
  run_cutter_status, run_cut_ack, run_cut, run_print_ack, run_sent, run_fence, run_send,
  run_answers, run_preflight, run_connected, run_job, custom_method, no_tokens,
}
use printer_driver.Engine.Star.{
  run_star_cut, run_star_ack, run_star_fenceless, run_star_fenced, run_star_send, run_star_job,
}
use printer_driver.Engine.Trace.{Climbs}
use printer_driver.Engine.{Job, Link, CompletionMethod, TokenPair, payload_not_sent, effective_cut}
use printer_driver.Profile.{max_confidence_of, CompletionMechanism, CutVariant, max_confidence}
use printer_driver.Types.{ConfidenceLevel, rank, raise, clamp_to}
use printer_driver.Types.Order.{clamp_to-le, clamp_to-raise}

module _ (j : Job) (l : Link) where
  run_star_cut-Climbs :
      (cut : CutVariant) (c : ConfidenceLevel) (low : ℕ)
      → low ≤ rank (clamp_to c (max_confidence j.profile))
      → Climbs (rank (max_confidence j.profile)) low (run_star_cut j l cut c)
  unfolding run_star_cut
  run_star_cut-Climbs cut c low h = ground (
    arith,
    clamp_to-le c (max_confidence j.profile),
    clamp_to-le (raise c ConfidenceLevel.cut_processed) (max_confidence j.profile),
    clamp_to-raise c ConfidenceLevel.cut_processed (max_confidence j.profile),
  )

  run_star_ack-Climbs :
      (cut : CutVariant) (c : ConfidenceLevel) (low : ℕ)
      → low ≤ rank (clamp_to c (max_confidence j.profile))
      → Climbs (rank (max_confidence j.profile)) low (run_star_ack j l cut c)
  unfolding run_star_ack
  run_star_ack-Climbs cut c low h = ground (
    arith,
    clamp_to-le c (max_confidence j.profile),
    clamp_to-le (raise c ConfidenceLevel.print_confirmed) (max_confidence j.profile),
    clamp_to-raise c ConfidenceLevel.print_confirmed (max_confidence j.profile),
    run_star_cut-Climbs cut (raise c ConfidenceLevel.print_confirmed)
        (rank (clamp_to (raise c ConfidenceLevel.print_confirmed) (max_confidence j.profile))),
  )

  run_star_fenceless-Climbs :
      (cut : CutVariant) (c : ConfidenceLevel) (low : ℕ)
      → j.profile.completion ≡ CompletionMechanism.none
      → low ≤ rank (clamp_to c (max_confidence j.profile))
      → Climbs (rank (max_confidence j.profile)) low (run_star_fenceless j l cut c)
  unfolding run_star_fenceless clamp_to max_confidence_of
  run_star_fenceless-Climbs cut c low m h = ground arith

  run_star_fenced-Climbs :
      (cut : CutVariant) (c : ConfidenceLevel) (low : ℕ)
      → low ≤ rank (clamp_to c (max_confidence j.profile))
      → Climbs (rank (max_confidence j.profile)) low (run_star_fenced j l cut c)
  unfolding run_star_fenced
  run_star_fenced-Climbs cut c low h =
      ground (arith, clamp_to-le c (max_confidence j.profile), run_star_ack-Climbs cut c low)

  payload_not_sent-Climbs :
      (c : ConfidenceLevel) (low : ℕ)
      → low ≤ rank (clamp_to c (max_confidence j.profile))
      → Climbs
          (rank (max_confidence j.profile))
          low
          (payload_not_sent l.payload_sent (clamp_to c (max_confidence j.profile)))
  unfolding payload_not_sent
  payload_not_sent-Climbs c low h = ground (arith, clamp_to-le c (max_confidence j.profile))

  run_star_send-Climbs :
      (c : ConfidenceLevel) (low : ℕ)
      → low ≤ rank (clamp_to c (max_confidence j.profile))
      → Climbs (rank (max_confidence j.profile)) low (run_star_send j l c)
  unfolding run_star_send
  run_star_send-Climbs c low h = ground (
    arith,
    clamp_to-le c (max_confidence j.profile),
    run_star_fenceless-Climbs (effective_cut j.cut j.profile) c
        (rank (clamp_to c (max_confidence j.profile))),
    run_star_fenced-Climbs (effective_cut j.cut j.profile) c
        (rank (clamp_to c (max_confidence j.profile))),
    payload_not_sent-Climbs c (rank (clamp_to c (max_confidence j.profile))),
  )

  run_star_job-Climbs : Climbs (rank (max_confidence j.profile)) 0 (run_star_job j l)
  unfolding run_star_job
  run_star_job-Climbs = ground (
    arith,
    clamp_to-le ConfidenceLevel.transport_accepted (max_confidence j.profile),
    run_star_send-Climbs ConfidenceLevel.transport_accepted 0,
  )

  run_cutter_status-Climbs :
      (c : ConfidenceLevel) (low : ℕ)
      → low ≤ rank (clamp_to c (max_confidence j.profile))
      → Climbs (rank (max_confidence j.profile)) low (run_cutter_status j l c)
  unfolding run_cutter_status
  run_cutter_status-Climbs c low h = ground (
    arith,
    clamp_to-le c (max_confidence j.profile),
    clamp_to-le (raise c ConfidenceLevel.cut_fault_free) (max_confidence j.profile),
    clamp_to-raise c ConfidenceLevel.cut_fault_free (max_confidence j.profile),
  )

module _ (j : Job) (l : Link) (custom : Option CompletionMethod) where
  run_cut_ack-Climbs :
      (c : ConfidenceLevel) (low : ℕ)
      → low ≤ rank (clamp_to c (max_confidence j.profile))
      → Climbs (rank (max_confidence j.profile)) low (run_cut_ack j l custom c)
  unfolding run_cut_ack
  run_cut_ack-Climbs c low h = ground (
    arith,
    clamp_to-le c (max_confidence j.profile),
    clamp_to-le (raise c ConfidenceLevel.cut_processed) (max_confidence j.profile),
    clamp_to-raise c ConfidenceLevel.cut_processed (max_confidence j.profile),
    run_cutter_status-Climbs j l (raise c ConfidenceLevel.cut_processed)
        (rank (clamp_to (raise c ConfidenceLevel.cut_processed) (max_confidence j.profile))),
  )

  run_cut-Climbs :
      (tokens : TokenPair) (cut : CutVariant) (c : ConfidenceLevel) (low : ℕ)
      → low ≤ rank (clamp_to c (max_confidence j.profile))
      → Climbs (rank (max_confidence j.profile)) low (run_cut j l custom tokens cut c)
  unfolding run_cut
  run_cut-Climbs tokens cut c low h =
      ground (arith, clamp_to-le c (max_confidence j.profile), run_cut_ack-Climbs c low)

  run_print_ack-Climbs :
      (tokens : TokenPair) (cut : CutVariant) (c : ConfidenceLevel) (low : ℕ)
      → low ≤ rank (clamp_to c (max_confidence j.profile))
      → Climbs (rank (max_confidence j.profile)) low (run_print_ack j l custom tokens cut c)
  unfolding run_print_ack
  run_print_ack-Climbs tokens cut c low h = ground (
    arith,
    clamp_to-le c (max_confidence j.profile),
    clamp_to-le (raise c ConfidenceLevel.print_confirmed) (max_confidence j.profile),
    clamp_to-raise c ConfidenceLevel.print_confirmed (max_confidence j.profile),
    run_cut-Climbs tokens cut (raise c ConfidenceLevel.print_confirmed)
        (rank (clamp_to (raise c ConfidenceLevel.print_confirmed) (max_confidence j.profile))),
  )

  run_sent-Climbs :
      (tokens : TokenPair) (cut : CutVariant) (c : ConfidenceLevel) (low : ℕ)
      → low ≤ rank (clamp_to c (max_confidence j.profile))
      → Climbs (rank (max_confidence j.profile)) low (run_sent j l custom tokens cut c)
  unfolding run_sent clamp_to max_confidence_of
  run_sent-Climbs tokens cut c low h = ground (
    arith,
    clamp_to-le c (max_confidence j.profile),
    run_print_ack-Climbs tokens cut c (rank (clamp_to c (max_confidence j.profile))),
  )

  run_fence-Climbs :
      (tokens : TokenPair) (cut : CutVariant) (c : ConfidenceLevel) (low : ℕ)
      → low ≤ rank (clamp_to c (max_confidence j.profile))
      → Climbs (rank (max_confidence j.profile)) low (run_fence j l custom tokens cut c)
  unfolding run_fence
  run_fence-Climbs tokens cut c low h =
      ground (arith, clamp_to-le c (max_confidence j.profile), run_sent-Climbs tokens cut c low)

  run_send-Climbs :
      (c : ConfidenceLevel) (low : ℕ)
      → low ≤ rank (clamp_to c (max_confidence j.profile))
      → Climbs (rank (max_confidence j.profile)) low (run_send j l custom c)
  unfolding run_send
  run_send-Climbs c low h = ground (
    arith,
    clamp_to-le c (max_confidence j.profile),
    run_fence-Climbs l.tokens (effective_cut j.cut j.profile) c
        (rank (clamp_to c (max_confidence j.profile))),
    run_fence-Climbs no_tokens (effective_cut j.cut j.profile) c
        (rank (clamp_to c (max_confidence j.profile))),
    payload_not_sent-Climbs j l c (rank (clamp_to c (max_confidence j.profile))),
  )

  run_answers-Climbs :
      (c : ConfidenceLevel) (low : ℕ)
      → low ≤ rank (clamp_to c (max_confidence j.profile))
      → Climbs (rank (max_confidence j.profile)) low (run_answers j l custom c)
  unfolding run_answers
  run_answers-Climbs c low h = ground (
    arith,
    clamp_to-le c (max_confidence j.profile),
    clamp_to-le (raise c ConfidenceLevel.printer_healthy) (max_confidence j.profile),
    clamp_to-raise c ConfidenceLevel.printer_healthy (max_confidence j.profile),
    run_send-Climbs c low,
    run_send-Climbs (raise c ConfidenceLevel.printer_healthy)
        (rank (clamp_to (raise c ConfidenceLevel.printer_healthy) (max_confidence j.profile))),
  )

  run_preflight-Climbs :
      (c : ConfidenceLevel) (low : ℕ)
      → low ≤ rank (clamp_to c (max_confidence j.profile))
      → Climbs (rank (max_confidence j.profile)) low (run_preflight j l custom c)
  unfolding run_preflight
  run_preflight-Climbs c low h =
      ground (arith, clamp_to-le c (max_confidence j.profile), run_answers-Climbs c low)

  run_connected-Climbs : Climbs (rank (max_confidence j.profile)) 0 (run_connected j l custom)
  unfolding run_connected
  run_connected-Climbs = ground (
    arith,
    clamp_to-le ConfidenceLevel.transport_accepted (max_confidence j.profile),
    run_preflight-Climbs ConfidenceLevel.transport_accepted 0,
    run_send-Climbs ConfidenceLevel.transport_accepted 0,
  )

-- The confidence that a run journals, publishes and reports never falls from one step to the next, and
-- never passes the ceiling that the profile's completion mechanism allows.
pub run_job-Climbs : (j : Job) (l : Link) → Climbs (rank (max_confidence j.profile)) 0 (run_job j l)
unfolding run_job
run_job-Climbs j l = ground (
  arith,
  clamp_to-le ConfidenceLevel.transport_accepted (max_confidence j.profile),
  run_connected-Climbs j l (custom_method j),
  run_star_job-Climbs j l,
)
