-- ===== src/Types/Names.antt =====
-- core/src/types.cpp: how each enumeration is spelled, and `parseEnum` of core/src/job_store.cpp,
-- which reads a spelling back from a journal field.
use printer_driver.Base.{
  Bytes, codes, eq_bytes, List, [], ◌∷◌, Option, none, some, if◌then◌else◌, ◌≡◌, refl,
}
use printer_driver.Types.{
  JobState, ConfidenceLevel, DeviceEvent, FailureReason, JobOutcome, ConfidenceGrade, Provenance,
  CompletionAuthority,
}

unfoldable pub state_name : JobState → Bytes
state_name JobState.queued = codes "Queued"
state_name JobState.preflight_ok = codes "PreflightOk"
state_name JobState.send_started = codes "SendStarted"
state_name JobState.bytes_sent = codes "BytesSent"
state_name JobState.print_confirmed = codes "PrintConfirmed"
state_name JobState.cut_command_processed = codes "CutCommandProcessed"
state_name JobState.done_software = codes "DoneSoftware"
state_name JobState.physically_verified = codes "PhysicallyVerified"
state_name JobState.failed_known = codes "FailedKnown"
state_name JobState.unknown = codes "Unknown"
state_name JobState.held_offline = codes "HeldOffline"

abbrev pub all_job_states : List JobState
all_job_states =
    JobState.queued ∷ JobState.preflight_ok ∷ JobState.send_started ∷ JobState.bytes_sent
    ∷ JobState.print_confirmed ∷ JobState.cut_command_processed ∷ JobState.done_software
    ∷ JobState.physically_verified ∷ JobState.failed_known ∷ JobState.unknown
    ∷ JobState.held_offline ∷ []

unfoldable pub confidence_name : ConfidenceLevel → Bytes
confidence_name ConfidenceLevel.transport_accepted = codes "TransportAccepted"
confidence_name ConfidenceLevel.printer_healthy = codes "PrinterHealthy"
confidence_name ConfidenceLevel.print_confirmed = codes "PrintConfirmed"
confidence_name ConfidenceLevel.cut_processed = codes "CutProcessed"
confidence_name ConfidenceLevel.cut_fault_free = codes "CutFaultFree"
confidence_name ConfidenceLevel.physically_verified = codes "PhysicallyVerified"

abbrev pub all_confidence_levels : List ConfidenceLevel
all_confidence_levels =
    ConfidenceLevel.transport_accepted ∷ ConfidenceLevel.printer_healthy
    ∷ ConfidenceLevel.print_confirmed ∷ ConfidenceLevel.cut_processed
    ∷ ConfidenceLevel.cut_fault_free ∷ ConfidenceLevel.physically_verified ∷ []

unfoldable pub event_name : DeviceEvent → Bytes
event_name DeviceEvent.online = codes "Online"
event_name DeviceEvent.offline = codes "Offline"
event_name DeviceEvent.cover_open = codes "CoverOpen"
event_name DeviceEvent.cover_closed = codes "CoverClosed"
event_name DeviceEvent.paper_out = codes "PaperOut"
event_name DeviceEvent.paper_near_end = codes "PaperNearEnd"
event_name DeviceEvent.paper_ok = codes "PaperOk"
event_name DeviceEvent.cutter_error = codes "CutterError"
event_name DeviceEvent.recoverable_error = codes "RecoverableError"
event_name DeviceEvent.unrecoverable_error = codes "UnrecoverableError"
event_name DeviceEvent.connection_lost = codes "ConnectionLost"
event_name DeviceEvent.connection_restored = codes "ConnectionRestored"
event_name DeviceEvent.foreign_writer_detected = codes "ForeignWriterDetected"

abbrev pub all_device_events : List DeviceEvent
all_device_events =
    DeviceEvent.online ∷ DeviceEvent.offline ∷ DeviceEvent.cover_open ∷ DeviceEvent.cover_closed
    ∷ DeviceEvent.paper_out ∷ DeviceEvent.paper_near_end ∷ DeviceEvent.paper_ok
    ∷ DeviceEvent.cutter_error ∷ DeviceEvent.recoverable_error ∷ DeviceEvent.unrecoverable_error
    ∷ DeviceEvent.connection_lost ∷ DeviceEvent.connection_restored
    ∷ DeviceEvent.foreign_writer_detected ∷ []

unfoldable pub reason_name : FailureReason → Bytes
reason_name FailureReason.none = codes "None"
reason_name FailureReason.transport_unreachable = codes "TransportUnreachable"
reason_name FailureReason.preflight_cover_open = codes "PreflightCoverOpen"
reason_name FailureReason.preflight_paper_out = codes "PreflightPaperOut"
reason_name FailureReason.preflight_hardware_error = codes "PreflightHardwareError"
reason_name FailureReason.timeout_awaiting_completion = codes "TimeoutAwaitingCompletion"
reason_name FailureReason.cutter_fault = codes "CutterFault"
reason_name FailureReason.unsupported = codes "Unsupported"
reason_name FailureReason.unknown = codes "Unknown"
reason_name FailureReason.expired = codes "Expired"
reason_name FailureReason.queue_overflow = codes "QueueOverflow"

abbrev pub all_failure_reasons : List FailureReason
all_failure_reasons =
    FailureReason.none ∷ FailureReason.transport_unreachable ∷ FailureReason.preflight_cover_open
    ∷ FailureReason.preflight_paper_out ∷ FailureReason.preflight_hardware_error
    ∷ FailureReason.timeout_awaiting_completion ∷ FailureReason.cutter_fault
    ∷ FailureReason.unsupported ∷ FailureReason.unknown ∷ FailureReason.expired
    ∷ FailureReason.queue_overflow ∷ []

unfoldable pub outcome_name : JobOutcome → Bytes
outcome_name JobOutcome.done = codes "Done"
outcome_name JobOutcome.failed = codes "Failed"
outcome_name JobOutcome.unknown = codes "Unknown"

abbrev pub all_job_outcomes : List JobOutcome
all_job_outcomes = JobOutcome.done ∷ JobOutcome.failed ∷ JobOutcome.unknown ∷ []

unfoldable pub grade_name : ConfidenceGrade → Bytes
grade_name ConfidenceGrade.a_plus_durable_queryable_job = codes "APlus_DurableQueryableJob"
grade_name ConfidenceGrade.a_job_level_confirmation = codes "A_JobLevelConfirmation"
grade_name ConfidenceGrade.b_ordered_device_response = codes "B_OrderedDeviceResponse"
grade_name ConfidenceGrade.c_device_status_around = codes "C_DeviceStatusAround"
grade_name ConfidenceGrade.d_spooler_completed = codes "D_SpoolerCompleted"
grade_name ConfidenceGrade.e_transport_only = codes "E_TransportOnly"

abbrev pub all_confidence_grades : List ConfidenceGrade
all_confidence_grades =
    ConfidenceGrade.a_plus_durable_queryable_job ∷ ConfidenceGrade.a_job_level_confirmation
    ∷ ConfidenceGrade.b_ordered_device_response ∷ ConfidenceGrade.c_device_status_around
    ∷ ConfidenceGrade.d_spooler_completed ∷ ConfidenceGrade.e_transport_only ∷ []

unfoldable pub grade_letter : ConfidenceGrade → Bytes
grade_letter ConfidenceGrade.a_plus_durable_queryable_job = codes "A+"
grade_letter ConfidenceGrade.a_job_level_confirmation = codes "A"
grade_letter ConfidenceGrade.b_ordered_device_response = codes "B"
grade_letter ConfidenceGrade.c_device_status_around = codes "C"
grade_letter ConfidenceGrade.d_spooler_completed = codes "D"
grade_letter ConfidenceGrade.e_transport_only = codes "E"

unfoldable pub authority_name : CompletionAuthority → Bytes
authority_name CompletionAuthority.physical_printer = codes "PhysicalPrinter"
authority_name CompletionAuthority.vendor_spooler = codes "VendorSpooler"
authority_name CompletionAuthority.pd_agent = codes "PdAgent"
authority_name CompletionAuthority.print_server = codes "PrintServer"
authority_name CompletionAuthority.transport_only = codes "TransportOnly"

abbrev pub all_completion_authorities : List CompletionAuthority
all_completion_authorities =
    CompletionAuthority.physical_printer ∷ CompletionAuthority.vendor_spooler
    ∷ CompletionAuthority.pd_agent ∷ CompletionAuthority.print_server
    ∷ CompletionAuthority.transport_only ∷ []

unfoldable pub provenance_name : Provenance → Bytes
provenance_name Provenance.documented = codes "Documented"
provenance_name Provenance.probed = codes "Probed"
provenance_name Provenance.unverified = codes "Unverified"

abbrev pub all_provenances : List Provenance
all_provenances = Provenance.documented ∷ Provenance.probed ∷ Provenance.unverified ∷ []

-- The first member of `all` that is spelled `text`.
unfoldable pub parse_enum {ℓ} : {A : Type ℓ} → (A → Bytes) → List A → Bytes → Option A
unfolding eq_bytes
parse_enum spell [] text = none
parse_enum spell (value ∷ all) text =
    if eq_bytes text (spell value) then some value else parse_enum spell all text

-- Every spelling reads back as the member it came from.
pub parse_enum-state_name :
    (x : JobState) → parse_enum state_name all_job_states (state_name x) ≡ some x
unfolding parse_enum state_name
parse_enum-state_name JobState.queued = refl
parse_enum-state_name _ = refl

pub parse_enum-confidence_name :
    (x : ConfidenceLevel)
    → parse_enum confidence_name all_confidence_levels (confidence_name x) ≡ some x
unfolding parse_enum confidence_name
parse_enum-confidence_name ConfidenceLevel.transport_accepted = refl
parse_enum-confidence_name _ = refl

pub parse_enum-reason_name :
    (x : FailureReason) → parse_enum reason_name all_failure_reasons (reason_name x) ≡ some x
unfolding parse_enum reason_name
parse_enum-reason_name FailureReason.none = refl
parse_enum-reason_name _ = refl

pub parse_enum-grade_name :
    (x : ConfidenceGrade) → parse_enum grade_name all_confidence_grades (grade_name x) ≡ some x
unfolding parse_enum grade_name
parse_enum-grade_name ConfidenceGrade.e_transport_only = refl
parse_enum-grade_name _ = refl

pub parse_enum-authority_name :
    (x : CompletionAuthority)
    → parse_enum authority_name all_completion_authorities (authority_name x) ≡ some x
unfolding parse_enum authority_name
parse_enum-authority_name CompletionAuthority.transport_only = refl
parse_enum-authority_name _ = refl
