-- ===== src/Engine/Star.antt =====
-- `PrinterRuntime::runStarJob` of core/src/driver.cpp, in the pieces that end in an early return.
use printer_driver.Base.{Bool, true, false, List, [], ◌∷◌, ◌++◌, if◌then◌else◌}
use printer_driver.Engine.{
  star_preamble, star_payload, star_fence, star_cut, begin_job_io, arm_star_fence, star_mode,
  print_fence, cut_fence, Action, sets_up, sends, awaits, Link, Job, effective_cut, cuts,
  no_evidence, job_done, job_failed, job_unknown, advance, terminate, no_answer, is_signalled,
  payload_not_sent,
}
use printer_driver.Profile.{CompletionMechanism, CutVariant, evidence, max_confidence}
use printer_driver.Types.{JobState, ConfidenceLevel, FailureReason, raise, clamp_to}

abbrev star_reached : Job → ConfidenceLevel → ConfidenceLevel
star_reached j confidence = clamp_to confidence (max_confidence j.profile)

abbrev is_star_etb : CompletionMechanism → Bool
is_star_etb CompletionMechanism.star_etb = true
is_star_etb _ = false

abbrev is_fenceless : CompletionMechanism → Bool
is_fenceless CompletionMechanism.none = true
is_fenceless _ = false

unfoldable pub run_star_cut : Job → Link → CutVariant → ConfidenceLevel → List Action
run_star_cut j l cut confidence =
    let higher = raise confidence ConfidenceLevel.cut_processed in
    sets_up arm_star_fence
    ∷ sends (star_cut cut true) l.cut_sent
    ∷ (if l.cut_sent.ok
        then awaits cut_fence l.cut_ack
          ∷ (if is_signalled l.cut_ack
              then advance JobState.cut_command_processed (star_reached j higher)
                ++ terminate JobState.done_software
                    (job_done (star_reached j higher) (evidence j.profile))
              else terminate JobState.unknown
                  (job_unknown (no_answer l.cut_ack) (star_reached j confidence)))
        else terminate JobState.unknown
            (job_unknown FailureReason.unknown (star_reached j confidence)))

unfoldable pub run_star_ack : Job → Link → CutVariant → ConfidenceLevel → List Action
run_star_ack j l cut confidence =
    let higher = raise confidence ConfidenceLevel.print_confirmed in
    advance JobState.bytes_sent (star_reached j confidence)
    ++ (awaits print_fence l.print_ack
        ∷ (if is_signalled l.print_ack
            then advance JobState.print_confirmed (star_reached j higher)
              ++ (if cuts cut
                  then run_star_cut j l cut higher
                  else terminate JobState.done_software
                      (job_done (star_reached j higher) (evidence j.profile)))
            else terminate JobState.unknown
                (job_unknown (no_answer l.print_ack) (star_reached j confidence))))

-- No fence: the cut goes out unacknowledged, whatever becomes of it.
unfoldable pub run_star_fenceless : Job → Link → CutVariant → ConfidenceLevel → List Action
run_star_fenceless j l cut confidence =
    (if cuts cut then sends (star_cut cut false) l.cut_sent ∷ [] else [])
    ++ (advance JobState.bytes_sent (star_reached j confidence)
        ++ terminate JobState.done_software
            (job_done (star_reached j ConfidenceLevel.transport_accepted) (evidence j.profile)))

unfoldable pub run_star_fenced : Job → Link → CutVariant → ConfidenceLevel → List Action
run_star_fenced j l cut confidence =
    sets_up arm_star_fence
    ∷ sends star_fence l.fence_sent
    ∷ (if l.fence_sent.ok
        then run_star_ack j l cut confidence
        else terminate JobState.unknown
            (job_unknown FailureReason.unknown (star_reached j confidence)))

unfoldable pub run_star_send : Job → Link → ConfidenceLevel → List Action
run_star_send j l confidence =
    let cut = effective_cut j.cut j.profile in
    advance JobState.send_started (star_reached j confidence)
    ++ (sends star_payload l.payload_sent
        ∷ (if l.payload_sent.ok
            then (if is_fenceless j.profile.completion
                then run_star_fenceless j l cut confidence
                else run_star_fenced j l cut confidence)
            else payload_not_sent l.payload_sent (star_reached j confidence)))

unfoldable pub run_star_job : Job → Link → List Action
run_star_job j l =
    let confidence = ConfidenceLevel.transport_accepted in
    let unreachable =
      terminate JobState.failed_known
        (job_failed FailureReason.transport_unreachable (star_reached j confidence) no_evidence) in
    if l.connected
    then sets_up begin_job_io
      ∷ sets_up star_mode
      ∷ (if is_star_etb j.profile.completion
          then sends star_preamble l.preamble_sent
            ∷ (if l.preamble_sent.ok then run_star_send j l confidence else unreachable)
          else run_star_send j l confidence)
    else unreachable
