-- ===== src/Engine/EscPos.antt =====
-- `PrinterRuntime::runJob` of core/src/driver.cpp, in the pieces that end in an early return.
use printer_driver.Base.{
  Bytes, Bool, true, false, not, ◌&&◌, ◌||◌, Option, some, none, List, [], ◌∷◌, ◌++◌, if◌then◌else◌,
  is_some, value_or,
}
use printer_driver.Engine.{
  PreflightMode, TokenPair, CompletionMethod, Wire, status_probe, cutter_probe, payload,
  process_id_marker, paper_status, cut_command, custom_fence, custom_cut, begin_job_io,
  clear_realtime, expect_queued, arm_custom_fence, set_custom_method, expect_realtime, preflight,
  print_fence, cut_fence, cutter_status, Action, leases, sets_up, sends, awaits, Link, Job,
  effective_cut, cuts, no_evidence, status_evidence, job_done, job_failed, job_unknown, advance,
  terminate, no_answer, is_signalled, is_link_down, payload_not_sent,
}
use printer_driver.Engine.Star.{run_star_job}
use printer_driver.Parser.Status.{
  StatusFlags, no_flags, printer_status, offline_cause, error_cause, paper_sensor,
}
use printer_driver.Profile.{
  CapabilityProfile, CompletionMechanism, CutVariant, evidence, max_confidence,
  drivable_by_escpos_engine, drivable_by_star_engine,
}
use printer_driver.Types.{JobState, ConfidenceLevel, FailureReason, JobEvidence, raise, clamp_to}

-- `confidence` clamped to the profile's ceiling.
abbrev pub reached : Job → ConfidenceLevel → ConfidenceLevel
reached j confidence = clamp_to confidence (max_confidence j.profile)

abbrev is_vendor_idle : CompletionMechanism → Bool
is_vendor_idle CompletionMechanism.vendor_idle = true
is_vendor_idle _ = false

abbrev is_gs_paren_h : CompletionMechanism → Bool
is_gs_paren_h CompletionMechanism.gs_paren_h = true
is_gs_paren_h _ = false

abbrev is_none : CompletionMechanism → Bool
is_none CompletionMechanism.none = true
is_none _ = false

abbrev is_empty : Bytes → Bool
is_empty [] = true
is_empty (x ∷ xs) = false

-- The registered method that a `VendorIdle` profile is bound to.
unfoldable pub custom_method : Job → Option CompletionMethod
custom_method j =
    if is_vendor_idle j.profile.completion && not (is_empty j.profile.completion_vendor_id)
    then j.registered j.profile.completion_vendor_id
    else none

unfoldable pub success_evidence : Job → Option CompletionMethod → JobEvidence
success_evidence j none = evidence j.profile
success_evidence j (some c) = record {
  grade = c.grade;
  authority = c.authority;
  method = c.method_name;
}

abbrev newer : Option Bool → Option Bool → Option Bool
newer none old = old
newer (some b) old = some b

merge_answer : StatusFlags → StatusFlags → StatusFlags
merge_answer merged answer = record merged {
  online = newer answer.online merged.online;
  cover_open = newer answer.cover_open merged.cover_open;
  paper_out = newer answer.paper_out merged.paper_out;
  paper_near_end = newer answer.paper_near_end merged.paper_near_end;
  cutter_error = newer answer.cutter_error merged.cutter_error;
  unrecoverable_error = newer answer.unrecoverable_error merged.unrecoverable_error;
}

unfoldable pub merge_answers : StatusFlags → List StatusFlags → StatusFlags
unfolding merge_answer
merge_answers merged [] = merged
merge_answers merged (answer ∷ answers) = merge_answers (merge_answer merged answer) answers

-- Why the merged answers forbid printing.
unfoldable pub refusal : StatusFlags → Option FailureReason
refusal merged =
    if value_or merged.cover_open false
    then some FailureReason.preflight_cover_open
    else if value_or merged.paper_out false
    then some FailureReason.preflight_paper_out
    else if value_or merged.unrecoverable_error false
        || (value_or merged.cutter_error false || not (value_or merged.online true))
    then some FailureReason.preflight_hardware_error
    else none

unfoldable pub any_cutter_error : List StatusFlags → Bool
any_cutter_error [] = false
any_cutter_error (answer ∷ answers) = value_or answer.cutter_error false || any_cutter_error answers

abbrev has_answers : List StatusFlags → Bool
has_answers [] = false
has_answers (answer ∷ answers) = true

-- The cutter's status, read after the cut's own fence.
unfoldable pub run_cutter_status : Job → Link → ConfidenceLevel → List Action
run_cutter_status j l confidence =
    let answers = if l.status_sent.ok then l.status_answers else [] in
    let waited = if l.status_sent.ok then awaits cutter_status l.status_wait ∷ [] else [] in
    let verdict =
      if any_cutter_error answers
      then terminate JobState.failed_known
          (job_failed FailureReason.cutter_fault (reached j confidence) status_evidence)
      else (let final =
            if has_answers answers
            then raise confidence ConfidenceLevel.cut_fault_free
            else confidence in
          terminate JobState.done_software (job_done (reached j final) (evidence j.profile))) in
    sets_up clear_realtime
    ∷ sets_up (expect_realtime error_cause)
    ∷ sends cutter_probe l.status_sent
    ∷ (waited ++ verdict)

-- The cut is acknowledged, or not.
unfoldable pub run_cut_ack : Job → Link → Option CompletionMethod → ConfidenceLevel → List Action
run_cut_ack j l custom confidence =
    let higher = raise confidence ConfidenceLevel.cut_processed in
    let checked =
      if is_gs_paren_h j.profile.completion
      then run_cutter_status j l higher
      else terminate JobState.done_software
          (job_done (reached j higher) (success_evidence j custom)) in
    awaits cut_fence l.cut_ack
    ∷ (if is_signalled l.cut_ack
        then advance JobState.cut_command_processed (reached j higher) ++ checked
        else terminate JobState.unknown (job_unknown (no_answer l.cut_ack) (reached j confidence)))

-- The cut command with its fence: what is set up before it, and the bytes.
unfoldable pub cut_setup : CapabilityProfile → Option CompletionMethod → List Action
cut_setup p (some c) = sets_up arm_custom_fence ∷ []
cut_setup p none = elim p.completion [
  | CompletionMechanism.gs_r1 ↦ sets_up expect_queued ∷ []
  | _ ↦ []
]

unfoldable pub cut_wire : Option CompletionMethod → CutVariant → TokenPair → Wire
cut_wire (some c) cut tokens = custom_cut cut tokens.cut_token (c.fence_bytes tokens.cut_token)
cut_wire none cut tokens = cut_command cut tokens.cut_token

unfoldable pub run_cut :
    Job → Link → Option CompletionMethod → TokenPair → CutVariant → ConfidenceLevel → List Action
unfolding cut_setup
run_cut j l custom tokens cut confidence =
    cut_setup j.profile custom
    ++ (sends (cut_wire custom cut tokens) l.cut_sent
        ∷ (if l.cut_sent.ok
            then run_cut_ack j l custom confidence
            else terminate JobState.unknown
                (job_unknown FailureReason.unknown (reached j confidence))))

-- The print fence is answered, or not.
unfoldable pub run_print_ack :
    Job → Link → Option CompletionMethod → TokenPair → CutVariant → ConfidenceLevel → List Action
run_print_ack j l custom tokens cut confidence =
    let higher = raise confidence ConfidenceLevel.print_confirmed in
    let rest =
      if cuts cut
      then run_cut j l custom tokens cut higher
      else terminate JobState.done_software
          (job_done (reached j higher) (success_evidence j custom)) in
    awaits print_fence l.print_ack
    ∷ (if is_signalled l.print_ack
        then advance JobState.print_confirmed (reached j higher) ++ rest
        else terminate JobState.unknown
            (job_unknown (no_answer l.print_ack) (reached j confidence)))

-- `BytesSent`, and the end for a printer that can say no more.
unfoldable pub run_sent :
    Job → Link → Option CompletionMethod → TokenPair → CutVariant → ConfidenceLevel → List Action
run_sent j l custom tokens cut confidence =
    advance JobState.bytes_sent (reached j confidence)
    ++ (if is_none j.profile.completion
        then terminate JobState.done_software
            (job_done (reached j ConfidenceLevel.transport_accepted) (evidence j.profile))
        else run_print_ack j l custom tokens cut confidence)

-- The fence behind the payload: what is set up before it, and the bytes, if there are any. With no
-- fence to wait for, the cut goes out with the payload.
unfoldable pub fence_setup : CapabilityProfile → Option CompletionMethod → List Action
fence_setup p (some c) = sets_up arm_custom_fence ∷ []
fence_setup p none = elim p.completion [
  | CompletionMechanism.gs_r1 ↦ sets_up expect_queued ∷ []
  | _ ↦ []
]

unfoldable pub fence_wire :
    CapabilityProfile → Option CompletionMethod → TokenPair → CutVariant → Option Wire
fence_wire p (some c) tokens cut =
    let fence = c.fence_bytes tokens.print_token in
    if is_empty fence then none else some (custom_fence fence)
fence_wire p none tokens cut = elim p.completion [
  | CompletionMechanism.gs_paren_h ↦ some (process_id_marker tokens.print_token)
  | CompletionMechanism.gs_r1 ↦ some paper_status
  | _ ↦ if cuts cut then some (cut_command cut tokens.print_token) else none
]

unfoldable pub run_fence :
    Job → Link → Option CompletionMethod → TokenPair → CutVariant → ConfidenceLevel → List Action
unfolding fence_setup
run_fence j l custom tokens cut confidence =
    let rest = run_sent j l custom tokens cut confidence in
    fence_setup j.profile custom ++ (elim (fence_wire j.profile custom tokens cut) [
      | none ↦ rest
      | some wire ↦
          sends wire l.fence_sent
          ∷ (if l.fence_sent.ok
              then rest
              else terminate JobState.unknown
                  (job_unknown FailureReason.unknown (reached j confidence)))
    ])

abbrev pub no_tokens : TokenPair
no_tokens = record { print_token = []; cut_token = [] }

-- The tokens are leased, `SendStarted` is durable, and then the payload goes out.
unfoldable pub run_send : Job → Link → Option CompletionMethod → ConfidenceLevel → List Action
run_send j l custom confidence =
    let leased = is_gs_paren_h j.profile.completion || is_some custom in
    let tokens = if leased then l.tokens else no_tokens in
    (if leased then leases l.tokens ∷ [] else [])
    ++ (advance JobState.send_started (reached j confidence)
        ++ (sends (payload tokens.print_token) l.payload_sent
            ∷ (if l.payload_sent.ok
                then run_fence j l custom tokens (effective_cut j.cut j.profile) confidence
                else payload_not_sent l.payload_sent (reached j confidence))))

abbrev preflight_setup : List Action
preflight_setup =
    sets_up (expect_realtime printer_status)
    ∷ sets_up (expect_realtime offline_cause)
    ∷ sets_up (expect_realtime error_cause)
    ∷ sets_up (expect_realtime paper_sensor)
    ∷ []

-- What the answers to the preflight queries decide.
unfoldable pub run_answers : Job → Link → Option CompletionMethod → ConfidenceLevel → List Action
unfolding refusal
run_answers j l custom confidence =
    let higher = raise confidence ConfidenceLevel.printer_healthy in
    let silent = run_send j l custom confidence in
    let healthy = advance JobState.preflight_ok (reached j higher) ++ run_send j l custom higher in
    sets_up clear_realtime ∷ (elim (refusal (merge_answers no_flags l.preflight_answers)) [
      | some reason ↦
          terminate JobState.failed_known (job_failed reason (reached j confidence) status_evidence)
      | none ↦ if has_answers l.preflight_answers then healthy else silent
    ])

unfoldable pub run_preflight : Job → Link → Option CompletionMethod → ConfidenceLevel → List Action
run_preflight j l custom confidence =
    let unreachable =
      terminate JobState.failed_known
        (job_failed FailureReason.transport_unreachable (reached j confidence) no_evidence) in
    preflight_setup
    ++ (sends status_probe l.preflight_sent
        ∷ (if l.preflight_sent.ok
            then awaits preflight l.preflight_wait
              ∷ (if is_link_down l.preflight_wait
                  then unreachable
                  else run_answers j l custom confidence)
            else unreachable))

abbrev is_strict : PreflightMode → Bool
is_strict PreflightMode.strict = true
is_strict PreflightMode.skip = false

-- A profile that this engine drives, from the connection on.
unfoldable pub run_connected : Job → Link → Option CompletionMethod → List Action
run_connected j l custom =
    let confidence = ConfidenceLevel.transport_accepted in
    if l.connected
    then sets_up begin_job_io
      ∷ sets_up (set_custom_method (is_some custom))
      ∷ (if is_strict j.preflight && j.profile.dle_eot
          then run_preflight j l custom confidence
          else run_send j l custom confidence)
    else terminate JobState.failed_known
        (job_failed FailureReason.transport_unreachable (reached j confidence) no_evidence)

unfoldable pub run_job : Job → Link → List Action
run_job j l =
    let custom = custom_method j in
    if drivable_by_escpos_engine j.profile || is_some custom
    then run_connected j l custom
    else if drivable_by_star_engine j.profile
    then run_star_job j l
    else terminate JobState.failed_known (
        job_failed FailureReason.unsupported (reached j ConfidenceLevel.transport_accepted)
          no_evidence)
