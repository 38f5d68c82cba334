-- ===== src/Engine/Protocol.antt =====
-- Each piece of a run keeps to the order rules, so a whole run does.
use printer_driver.Base.{true, false, arith, Option}
use printer_driver.Engine.EscPos.{
  run_cutter_status, run_cut_ack, run_cut, run_print_ack, run_sent, run_fence, run_send,
  run_answers, run_preflight, run_connected, run_job, custom_method, no_tokens,
}
use printer_driver.Engine.Star.{
  run_star_cut, run_star_ack, run_star_fenceless, run_star_fenced, run_star_send, run_star_job,
}
use printer_driver.Engine.Trace.{Legal}
use printer_driver.Engine.{
  Job, Link, CompletionMethod, TokenPair, TransportResult, payload_not_sent, effective_cut,
}
use printer_driver.Profile.{CutVariant, max_confidence}
use printer_driver.Types.{ConfidenceLevel, raise, clamp_to}

payload_not_sent-Legal :
    (sent : TransportResult) (c : ConfidenceLevel) → Legal true (payload_not_sent sent c)
unfolding payload_not_sent
payload_not_sent-Legal sent c = ground arith

module _ (j : Job) (l : Link) where
  run_star_cut-Legal :
      (cut : CutVariant) (c : ConfidenceLevel) → Legal true (run_star_cut j l cut c)
  unfolding run_star_cut
  run_star_cut-Legal cut c = ground arith

  run_star_ack-Legal :
      (cut : CutVariant) (c : ConfidenceLevel) → Legal true (run_star_ack j l cut c)
  unfolding run_star_ack
  run_star_ack-Legal cut c =
      ground (arith, run_star_cut-Legal cut (raise c ConfidenceLevel.print_confirmed))

  run_star_fenceless-Legal :
      (cut : CutVariant) (c : ConfidenceLevel) → Legal true (run_star_fenceless j l cut c)
  unfolding run_star_fenceless
  run_star_fenceless-Legal cut c = ground arith

  run_star_fenced-Legal :
      (cut : CutVariant) (c : ConfidenceLevel) → Legal true (run_star_fenced j l cut c)
  unfolding run_star_fenced
  run_star_fenced-Legal cut c = ground (arith, run_star_ack-Legal cut c)

  run_star_send-Legal : (c : ConfidenceLevel) → Legal false (run_star_send j l c)
  unfolding run_star_send
  run_star_send-Legal c = ground (
    arith,
    run_star_fenceless-Legal (effective_cut j.cut j.profile) c,
    run_star_fenced-Legal (effective_cut j.cut j.profile) c,
    payload_not_sent-Legal l.payload_sent (clamp_to c (max_confidence j.profile)),
  )

  run_star_job-Legal : Legal false (run_star_job j l)
  unfolding run_star_job
  run_star_job-Legal = ground (arith, run_star_send-Legal ConfidenceLevel.transport_accepted)

  run_cutter_status-Legal : (c : ConfidenceLevel) → Legal true (run_cutter_status j l c)
  unfolding run_cutter_status
  run_cutter_status-Legal c = ground arith

module _ (j : Job) (l : Link) (custom : Option CompletionMethod) where
  run_cut_ack-Legal : (c : ConfidenceLevel) → Legal true (run_cut_ack j l custom c)
  unfolding run_cut_ack
  run_cut_ack-Legal c =
      ground (arith, run_cutter_status-Legal j l (raise c ConfidenceLevel.cut_processed))

  module _ (tokens : TokenPair) (cut : CutVariant) where
    run_cut-Legal : (c : ConfidenceLevel) → Legal true (run_cut j l custom tokens cut c)
    unfolding run_cut
    run_cut-Legal c = ground (arith, run_cut_ack-Legal c)

    run_print_ack-Legal : (c : ConfidenceLevel) → Legal true (run_print_ack j l custom tokens cut c)
    unfolding run_print_ack
    run_print_ack-Legal c = ground (arith, run_cut-Legal (raise c ConfidenceLevel.print_confirmed))

    run_sent-Legal : (c : ConfidenceLevel) → Legal true (run_sent j l custom tokens cut c)
    unfolding run_sent
    run_sent-Legal c = ground (arith, run_print_ack-Legal c)

    run_fence-Legal : (c : ConfidenceLevel) → Legal true (run_fence j l custom tokens cut c)
    unfolding run_fence
    run_fence-Legal c = ground (arith, run_sent-Legal c)

  run_send-Legal : (c : ConfidenceLevel) → Legal false (run_send j l custom c)
  unfolding run_send
  run_send-Legal c = ground (
    arith,
    run_fence-Legal l.tokens (effective_cut j.cut j.profile) c,
    run_fence-Legal no_tokens (effective_cut j.cut j.profile) c,
    payload_not_sent-Legal l.payload_sent (clamp_to c (max_confidence j.profile)),
  )

  run_answers-Legal : (c : ConfidenceLevel) → Legal false (run_answers j l custom c)
  unfolding run_answers
  run_answers-Legal c =
      ground (arith, run_send-Legal c, run_send-Legal (raise c ConfidenceLevel.printer_healthy))

  run_preflight-Legal : (c : ConfidenceLevel) → Legal false (run_preflight j l custom c)
  unfolding run_preflight
  run_preflight-Legal c = ground (arith, run_answers-Legal c)

  run_connected-Legal : Legal false (run_connected j l custom)
  unfolding run_connected
  run_connected-Legal = ground (
    arith,
    run_preflight-Legal ConfidenceLevel.transport_accepted,
    run_send-Legal ConfidenceLevel.transport_accepted,
  )

-- Whatever the job, its profile and the link's answers are, a run keeps to the order rules of `Legal`:
-- every transition is journaled before it is published, with the same state, confidence and reason;
-- no byte of the job is handed to the link before `SendStarted` is in the journal, which happens once,
-- and tokens are leased before it; and the run ends in one terminal record, its publication and one
-- result, which agree in outcome, confidence and reason, with nothing behind them.
pub run_job-Legal : (j : Job) (l : Link) → Legal false (run_job j l)
unfolding run_job
run_job-Legal j l =
    ground (arith, run_connected-Legal j l (custom_method j), run_star_job-Legal j l)
