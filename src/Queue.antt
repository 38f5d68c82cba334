-- ===== src/Queue.antt =====
-- `PrintQueue` of queue/src/print_queue.cpp: the lanes, one to a printer, and every call that changes
-- them. What a call makes the driver and the jobs do is the list of its effects, in order. The clock,
-- the printer's last status and the outcome of `reserveJob` are arguments.
pub mod Select
pub mod Pump
pub mod Calls
pub mod Keys
pub mod Lanes
pub mod Depth
pub mod Blocking
pub mod Order
pub mod Draining
pub mod Distinct
pub mod Unknown
pub mod Places
pub mod Flight
mod Examples
use printer_driver.Base.{
  ℕ, suc, ◌+◌, ◌*◌, ◌%◌, ◌^◌, Bytes, Bool, true, false, not, ◌&&◌, ◌||◌, Option, some, none, List,
  [], if◌then◌else◌, value_or,
}
use printer_driver.Types.{JobState, DeviceEvent}

pub data DrainOrder : Type 0 where
  fifo priority : DrainOrder

pub record QueuePolicy : Type 0 where
  pub hold_while_offline : Bool
  pub default_ttl_ms : ℕ
  pub max_depth : ℕ
  pub drain_order : DrainOrder

-- A held job. `priority` is an `int32_t` plus 2 ^ 31, which keeps its order, and the deadline is there
-- if `has_deadline`.
pub record QueueItem : Type 0 where
  pub job : Bytes
  pub priority : ℕ
  pub seq : ℕ
  pub deadline : Option ℕ

pub record QueueLane : Type 0 where
  -- Has a job given the lane its printer?
  pub has_printer : Bool
  pub waiting : List QueueItem
  pub offline : Bool
  pub cover_open : Bool
  pub paper_out : Bool
  pub link_down : Bool
  pub blocked : Bool
  pub paused : Bool
  pub in_flight : Bool

pub record QueueCompletion : Type 0 where
  pub printer_id : Bytes
  pub state : JobState

pub record QueueState : Type 0 where
  pub lanes : List (Bytes × QueueLane)
  pub next_seq : ℕ
  pub expired : ℕ
  pub overflowed : ℕ
  pub drained : ℕ
  pub completions : List QueueCompletion
  pub device_events : List (Bytes × DeviceEvent)

-- The fields of `DeviceStatus` that seed a lane.
pub record DeviceStatus : Type 0 where
  pub observed : Bool
  pub online : Option Bool
  pub cover_open : Option Bool
  pub paper_out : Option Bool

pub data Effect : Type 0 where
  -- `holdLocked`, with the job.
  held : Bytes → Effect
  -- `finishLocked` for a full lane, and for a deadline that has passed.
  overflows expires : Bytes → Effect
  -- `startLocked`: the job goes to the printer's `submitReserved`.
  starts : Bytes → Bytes → Effect

abbrev pub u64_mod : ℕ
u64_mod = 2 ^ 64

-- A lane as the map makes it.
abbrev pub new_lane : QueueLane
new_lane = record {
  has_printer = false;
  waiting = [];
  offline = false;
  cover_open = false;
  paper_out = false;
  link_down = false;
  blocked = false;
  paused = false;
  in_flight = false;
}

unfoldable pub usable : QueueLane → Bool
usable lane =
    not lane.offline && (not lane.cover_open && (not lane.paper_out && not lane.link_down))

-- `laneLocked`, for the lane of the map.
unfoldable pub seeded : DeviceStatus → QueueLane → QueueLane
seeded status lane =
    if lane.has_printer
    then lane
    else if status.observed
    then record lane {
      has_printer = true;
      offline = not (value_or status.online true);
      cover_open = value_or status.cover_open false;
      paper_out = value_or status.paper_out false;
      link_down = false;
    }
    else record lane { has_printer = true; link_down = false }

unfoldable pub drainable : QueuePolicy → QueueLane → Bool
unfolding usable
drainable policy lane =
    if lane.paused || (lane.blocked || lane.in_flight)
    then false
    else not policy.hold_while_offline || usable lane

-- The queue as its constructor makes it.
abbrev pub empty_queue : QueueState
empty_queue = record {
  lanes = [];
  next_seq = 0;
  expired = 0;
  overflowed = 0;
  drained = 0;
  completions = [];
  device_events = [];
}
