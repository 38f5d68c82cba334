-- ===== src/Engine.antt =====
-- The job path of core/src/driver.cpp: what one run of a job does to the journal, to the job's
-- observers and to the link. A run is the list of its actions, in order; what the link answers at each
-- point is a field of `Link`, so a run is a function of the job and of those answers.
pub mod EscPos
pub mod Star
pub mod Trace
pub mod Protocol
pub mod Verdict
pub mod Confidence
pub mod Markers
mod Examples
use printer_driver.Base.{
  ℕ, Bytes, codes, Bool, true, false, not, ◌&&◌, ◌||◌, Option, some, List, [], ◌∷◌, ◌++◌,
  if◌then◌else◌, ltb,
}
use printer_driver.Parser.Status.{StatusFlags, DleEotKind}
use printer_driver.Profile.{CapabilityProfile, CutVariant, CompletionMechanism, evidence_for}
use printer_driver.Types.{
  JobState, ConfidenceLevel, FailureReason, JobEvidence, JobResult, JobOutcome, ConfidenceGrade,
  CompletionAuthority, clamp_to,
}

pub data CutSetting : Type 0 where
  profile partial full none : CutSetting

pub data PreflightMode : Type 0 where
  strict skip : PreflightMode

pub data WaitOutcome : Type 0 where
  signalled link_down timeout aborted : WaitOutcome

-- `TransportResult`, less its error code and message.
pub record TransportResult : Type 0 where
  pub ok : Bool
  pub bytes_written : ℕ

-- `MarkerAllocator::Pair`.
pub record TokenPair : Type 0 where
  pub print_token : Bytes
  pub cut_token : Bytes

-- A registered completion method: its evidence, and its callback that builds the fence.
pub record CompletionMethod : Type 0 where
  pub grade : ConfidenceGrade
  pub authority : CompletionAuthority
  pub method_name : Bytes
  pub fence_bytes : Bytes → Bytes

-- The byte strings that a run hands to `sendPaced`, by what they are.
pub data Wire : Type 0 where
  -- The four DLE EOT queries before a job, and the one for the cutter after it.
  status_probe cutter_probe : Wire
  -- `buildPayload`, with the verification token that the receipt shows.
  payload : Bytes → Wire
  process_id_marker : Bytes → Wire
  paper_status : Wire
  -- `buildCut`, with the token of the fence behind it.
  cut_command : CutVariant → Bytes → Wire
  custom_fence : Bytes → Wire
  -- `buildCut` with a registered fence behind it.
  custom_cut : CutVariant → Bytes → Bytes → Wire
  star_preamble star_payload star_fence : Wire
  -- The Star cut; the flag says whether a fence is behind it.
  star_cut : CutVariant → Bool → Wire

-- What the run sets up before it waits for an answer.
pub data Setup : Type 0 where
  begin_job_io clear_realtime expect_queued arm_custom_fence arm_star_fence star_mode : Setup
  set_custom_method : Bool → Setup
  expect_realtime : DleEotKind → Setup

pub data Wait : Type 0 where
  preflight print_fence cut_fence cutter_status : Wait

pub data Action : Type 0 where
  -- `store_->recordState`, durable when it returns.
  records : JobState → ConfidenceLevel → FailureReason → JobEvidence → Action
  -- `job->emit`.
  publishes : JobState → ConfidenceLevel → Option FailureReason → Action
  -- `job->finish`.
  finishes : JobResult → Action
  -- `leaseTokens`: the tokens are set, journaled and indexed.
  leases : TokenPair → Action
  sets_up : Setup → Action
  sends : Wire → TransportResult → Action
  awaits : Wait → WaitOutcome → Action

-- What the world answers, by the place in the run that asks.
pub record Link : Type 0 where
  pub connected : Bool
  pub preflight_sent : TransportResult
  pub preflight_wait : WaitOutcome
  pub preflight_answers : List StatusFlags
  -- What `markers_->acquire()` hands out; that it throws is left out.
  pub tokens : TokenPair
  pub preamble_sent : TransportResult
  pub payload_sent : TransportResult
  pub fence_sent : TransportResult
  pub print_ack : WaitOutcome
  pub cut_sent : TransportResult
  pub cut_ack : WaitOutcome
  pub status_sent : TransportResult
  pub status_wait : WaitOutcome
  pub status_answers : List StatusFlags

-- A job with the profile that it runs under and the registry that it looks a method up in.
pub record Job : Type 0 where
  pub profile : CapabilityProfile
  pub cut : CutSetting
  pub preflight : PreflightMode
  pub registered : Bytes → Option CompletionMethod

unfoldable pub effective_cut : CutSetting → CapabilityProfile → CutVariant
effective_cut CutSetting.profile p = p.cut
effective_cut CutSetting.partial p = CutVariant.partial
effective_cut CutSetting.full p = CutVariant.full
effective_cut CutSetting.none p = CutVariant.none

abbrev pub cuts : CutVariant → Bool
cuts CutVariant.none = false
cuts CutVariant.partial = true
cuts CutVariant.full = true

abbrev pub no_evidence : JobEvidence
no_evidence = record {
  grade = ConfidenceGrade.e_transport_only;
  authority = CompletionAuthority.transport_only;
  method = codes "none";
}

abbrev pub status_evidence : JobEvidence
status_evidence = record {
  grade = ConfidenceGrade.c_device_status_around;
  authority = CompletionAuthority.physical_printer;
  method = codes "DLE EOT";
}

abbrev pub result_with : JobOutcome → ConfidenceLevel → FailureReason → JobEvidence → JobResult
result_with outcome confidence reason e = record {
  outcome = outcome;
  confidence = confidence;
  reason = reason;
  grade = e.grade;
  authority = e.authority;
  method = e.method;
}

abbrev pub job_done : ConfidenceLevel → JobEvidence → JobResult
job_done confidence = result_with JobOutcome.done confidence FailureReason.none

abbrev pub job_failed : FailureReason → ConfidenceLevel → JobEvidence → JobResult
job_failed reason reached = result_with JobOutcome.failed reached reason

-- `JobResult{Unknown, reached, reason}.with(transport_evidence)`.
abbrev pub job_unknown : FailureReason → ConfidenceLevel → JobResult
job_unknown reason reached =
    result_with JobOutcome.unknown reached reason (evidence_for CompletionMechanism.none)

-- `reason == None ? nullopt : reason`.
abbrev pub published_reason : FailureReason → Option FailureReason
published_reason FailureReason.none = Option.none
published_reason reason = some reason

abbrev pub advance_with : JobState → ConfidenceLevel → FailureReason → JobEvidence → List Action
advance_with state confidence reason e =
    records state confidence reason e ∷ publishes state confidence (published_reason reason) ∷ []

abbrev pub advance : JobState → ConfidenceLevel → List Action
advance state confidence = advance_with state confidence FailureReason.none no_evidence

abbrev pub terminate : JobState → JobResult → List Action
terminate state r =
    advance_with state r.confidence r.reason
      (record { grade = r.grade; authority = r.authority; method = r.method })
    ++ (finishes r ∷ [])

-- Bytes went out and no answer came back in time, or none can come.
abbrev pub no_answer : WaitOutcome → FailureReason
no_answer timeout = FailureReason.timeout_awaiting_completion
no_answer signalled = FailureReason.unknown
no_answer link_down = FailureReason.unknown
no_answer aborted = FailureReason.unknown

abbrev pub is_signalled : WaitOutcome → Bool
is_signalled signalled = true
is_signalled link_down = false
is_signalled timeout = false
is_signalled aborted = false

abbrev pub is_link_down : WaitOutcome → Bool
is_link_down link_down = true
is_link_down signalled = false
is_link_down timeout = false
is_link_down aborted = false

-- The payload was not sent whole: a known failure if not one byte left, and unknown otherwise.
unfoldable pub payload_not_sent : TransportResult → ConfidenceLevel → List Action
payload_not_sent sent reached =
    if ltb 0 sent.bytes_written
    then terminate JobState.unknown (job_unknown FailureReason.unknown reached)
    else terminate JobState.failed_known
        (job_failed FailureReason.transport_unreachable reached no_evidence)
