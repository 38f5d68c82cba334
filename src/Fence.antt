-- ===== src/Fence.antt =====
-- The backchannel of core/src/driver.cpp: what the bytes that a printer sends back do to the fences that a
-- job waits for. `onBytes`, the arming of the fences and the waits are functions of the state that
-- `io_mutex_` guards. A wait is the state at the moment it ends.
pub mod StarResponses
pub mod Dispatch
pub mod Waits
pub mod Tokens
pub mod Stars
pub mod StarFences
mod Examples
use printer_driver.Base.{ℕ, Bytes, Bool, true, false, Option, none, some, List, []}
use printer_driver.Parser.{ParsedEvent, ResponseParser}
use printer_driver.Fence.StarResponses.{StarParser}

-- What a registered matcher says of the bytes received so far.
pub data CustomMatch : Type 0 where
  matched : Bytes → CustomMatch
  not_mine need_more : CustomMatch

pub record DeviceStatus : Type 0 where
  pub connected : Bool
  pub online : Option Bool
  pub cover_open : Option Bool
  pub paper_out : Option Bool
  pub paper_near_end : Option Bool
  pub cutter_error : Option Bool
  pub unrecoverable_error : Option Bool
  pub recoverable_error : Option Bool
  pub observed : Bool

pub record Io : Type 0 where
  pub parser : ResponseParser
  pub gsh_tokens : List Bytes
  pub queued_answers : ℕ
  pub queued_bytes : Bytes
  pub realtime_answers : List ParsedEvent
  pub link_down : Bool
  pub star_parser : StarParser
  pub star_mode : Bool
  pub star_fence_outstanding : Bool
  pub star_fence_signalled : Bool
  pub star_fence_is_etb : Bool
  pub star_expect_n1 : ℕ
  pub star_expect_n2 : ℕ
  pub star_expect_counter : ℕ
  pub star_counter : Option ℕ
  pub star_sequence : ℕ
  -- The matcher of the method that the active job is fenced by.
  pub custom_method : Option (Bytes → CustomMatch)
  pub custom_fence_outstanding : Bool
  pub custom_rx : Bytes
  pub custom_tokens : List Bytes
  pub status : DeviceStatus
  pub drawer_pin : Option Bool
