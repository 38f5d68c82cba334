-- ===== src/Types.antt =====
-- The closed enumerations of core/include/printerdriver/types.hpp and the spelling that
-- core/src/types.cpp gives each member. `JobRecord` fields and journal lines use these spellings.
pub mod Names
pub mod Order
use printer_driver.Base.{ℕ, Bytes, Bool, true, false, ltb, if◌then◌else◌, Option}

pub data JobState : Type 0 where
  queued preflight_ok send_started bytes_sent print_confirmed cut_command_processed : JobState
  done_software physically_verified failed_known unknown held_offline : JobState

pub data ConfidenceLevel : Type 0 where
  transport_accepted printer_healthy print_confirmed cut_processed : ConfidenceLevel
  cut_fault_free physically_verified : ConfidenceLevel

pub data DeviceEvent : Type 0 where
  online offline cover_open cover_closed paper_out paper_near_end paper_ok : DeviceEvent
  cutter_error recoverable_error unrecoverable_error : DeviceEvent
  connection_lost connection_restored foreign_writer_detected : DeviceEvent

pub data FailureReason : Type 0 where
  none transport_unreachable preflight_cover_open preflight_paper_out : FailureReason
  preflight_hardware_error timeout_awaiting_completion cutter_fault : FailureReason
  unsupported unknown expired queue_overflow : FailureReason

pub data JobOutcome : Type 0 where
  done failed unknown : JobOutcome

pub data ConfidenceGrade : Type 0 where
  a_plus_durable_queryable_job a_job_level_confirmation : ConfidenceGrade
  b_ordered_device_response c_device_status_around : ConfidenceGrade
  d_spooler_completed e_transport_only : ConfidenceGrade

pub data Provenance : Type 0 where
  documented probed unverified : Provenance

pub data CompletionAuthority : Type 0 where
  physical_printer vendor_spooler pd_agent print_server transport_only : CompletionAuthority

-- `struct JobEvidence`.
pub record JobEvidence : Type 0 where
  pub grade : ConfidenceGrade
  pub authority : CompletionAuthority
  pub method : Bytes

-- `struct JobResult`.
pub record JobResult : Type 0 where
  pub outcome : JobOutcome
  pub confidence : ConfidenceLevel
  pub reason : FailureReason
  pub grade : ConfidenceGrade
  pub authority : CompletionAuthority
  pub method : Bytes

-- `JobRecord::isTerminal`, and the same test on a job's event in the queue and on a `PrintJob`.
unfoldable pub is_terminal : JobState → Bool
is_terminal JobState.done_software = true
is_terminal JobState.physically_verified = true
is_terminal JobState.failed_known = true
is_terminal JobState.unknown = true
is_terminal _ = false

-- `static_cast<int>(level)`.
unfoldable pub rank : ConfidenceLevel → ℕ
rank ConfidenceLevel.transport_accepted = 0
rank ConfidenceLevel.printer_healthy = 1
rank ConfidenceLevel.print_confirmed = 2
rank ConfidenceLevel.cut_processed = 3
rank ConfidenceLevel.cut_fault_free = 4
rank ConfidenceLevel.physically_verified = 5

unfoldable pub raise : ConfidenceLevel → ConfidenceLevel → ConfidenceLevel
unfolding rank
raise current candidate = if ltb (rank current) (rank candidate) then candidate else current

unfoldable pub clamp_to : ConfidenceLevel → ConfidenceLevel → ConfidenceLevel
unfolding rank
clamp_to value ceiling = if ltb (rank ceiling) (rank value) then ceiling else value
