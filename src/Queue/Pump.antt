-- ===== src/Queue/Pump.antt =====
-- `applyInboxLocked` and `pumpLocked`.
use printer_driver.Base.{
  ℕ, zero, suc, ◌+◌, Bytes, Bool, true, false, Option, some, none, List, [], ◌∷◌, ◌++◌,
  if◌then◌else◌, leb, ltb, length, map, get_elem?,
}
use printer_driver.Queue.Select.{select}
use printer_driver.Queue.{
  QueuePolicy, QueueItem, QueueLane, QueueCompletion, QueueState, Effect, expires, starts,
  drainable,
}
use printer_driver.Store.Tables.{update}
use printer_driver.Types.{JobState, DeviceEvent}

-- What an event of the device changes in its lane.
unfoldable pub latch : DeviceEvent → QueueLane → QueueLane
latch DeviceEvent.online lane = record lane { offline = false }
latch DeviceEvent.offline lane = record lane { offline = true }
latch DeviceEvent.cover_open lane = record lane { cover_open = true }
latch DeviceEvent.cover_closed lane = record lane { cover_open = false }
latch DeviceEvent.paper_out lane = record lane { paper_out = true }
latch DeviceEvent.paper_near_end lane = record lane { paper_out = false }
latch DeviceEvent.paper_ok lane = record lane { paper_out = false }
latch DeviceEvent.connection_lost lane = record lane { link_down = true }
latch DeviceEvent.connection_restored lane = record lane { link_down = false }
latch DeviceEvent.cutter_error lane = lane
latch DeviceEvent.recoverable_error lane = lane
latch DeviceEvent.unrecoverable_error lane = lane
latch DeviceEvent.foreign_writer_detected lane = lane

abbrev is_unknown : JobState → Bool
is_unknown JobState.unknown = true
is_unknown _ = false

-- A job of the lane has ended; one that ended `Unknown` blocks the lane.
unfoldable pub complete : JobState → QueueLane → QueueLane
complete state lane =
    if is_unknown state
    then record lane { in_flight = false; blocked = true }
    else record lane { in_flight = false }

unfoldable pub apply_events :
    List (Bytes × DeviceEvent) → List (Bytes × QueueLane) → List (Bytes × QueueLane)
apply_events [] lanes = lanes
apply_events ((id, event) ∷ events) lanes = apply_events events (update id (latch event) lanes)

unfoldable pub apply_completions :
    List QueueCompletion → List (Bytes × QueueLane) → List (Bytes × QueueLane)
apply_completions [] lanes = lanes
apply_completions (c ∷ cs) lanes =
    apply_completions cs (update c.printer_id (complete c.state) lanes)

unfoldable pub apply_inbox : QueueState → QueueState
unfolding apply_events apply_completions
apply_inbox q = record q {
  lanes = apply_completions q.completions (apply_events q.device_events q.lanes);
  completions = [];
  device_events = [];
}

unfoldable pub is_due : ℕ → QueueItem → Bool
is_due now item = elim item.deadline [ none ↦ false | some deadline ↦ leb deadline now ]

-- The expiry loop: the jobs that stay, and those that end.
unfoldable pub expire : ℕ → List QueueItem → List QueueItem × List QueueItem
unfolding is_due
expire now [] = ([], [])
expire now (item ∷ items) =
    let rest = expire now items in
    if is_due now item then (rest.0, item ∷ rest.1) else (item ∷ rest.0, rest.1)

-- `waiting.erase(waiting.begin() + index)`.
unfoldable pub erase : ℕ → List QueueItem → List QueueItem
erase i [] = []
erase zero (item ∷ items) = items
erase (suc i) (item ∷ items) = item ∷ erase i items

-- What a pass of the pump does to one lane.
pub record LanePass : Type 0 where
  pub lane : QueueLane
  pub ended : List QueueItem
  pub picked : Option QueueItem

unfoldable pub start_next : QueuePolicy → List QueueItem → QueueLane → LanePass
start_next policy ended lane =
    if drainable policy lane
    then (elim (get_elem? lane.waiting (select policy.drain_order lane.waiting)) [
      | none ↦ record { lane = lane; ended = ended; picked = none }
      | some item ↦ record {
        lane = record lane {
          waiting = erase (select policy.drain_order lane.waiting) lane.waiting;
          in_flight = true;
        };
        ended = ended;
        picked = some item;
      }
    ])
    else record { lane = lane; ended = ended; picked = none }

unfoldable pub pump_lane : QueuePolicy → ℕ → QueueLane → LanePass
unfolding expire start_next
pump_lane policy now lane =
    start_next policy (expire now lane.waiting).1
      (record lane { waiting = (expire now lane.waiting).0 })

abbrev pub expiries : List QueueItem → List Effect
expiries = map (λ (item : QueueItem). expires item.job)

abbrev pub picked_effect : Bytes → Option QueueItem → List Effect
picked_effect id none = []
picked_effect id (some item) = starts id item.job ∷ []

abbrev pub count_picked : Option QueueItem → ℕ
count_picked none = 0
count_picked (some item) = 1

-- The earlier of the deadline that the pump has so far, and an item's.
abbrev pub earlier : Option ℕ → Option ℕ → Option ℕ
earlier next none = next
earlier none (some deadline) = some deadline
earlier (some next) (some deadline) = if ltb deadline next then some deadline else some next

unfoldable pub next_deadline : Option ℕ → List QueueItem → Option ℕ
next_deadline next [] = next
next_deadline next (item ∷ items) = next_deadline (earlier next item.deadline) items

-- What a pass over all lanes gives.
pub record Pass : Type 0 where
  pub lanes : List (Bytes × QueueLane)
  pub effects : List Effect
  pub expired : ℕ
  pub drained : ℕ
  pub next : Option ℕ

unfoldable pub pump_lanes : QueuePolicy → ℕ → Option ℕ → List (Bytes × QueueLane) → Pass
unfolding pump_lane next_deadline
pump_lanes policy now next [] = record {
  lanes = [];
  effects = [];
  expired = 0;
  drained = 0;
  next = next;
}
pump_lanes policy now next ((id, lane) ∷ lanes) =
    let pass = pump_lane policy now lane in
    let rest = pump_lanes policy now (next_deadline next pass.lane.waiting) lanes in
    record {
      lanes = (id, pass.lane) ∷ rest.lanes;
      effects = expiries pass.ended ++ (picked_effect id pass.picked ++ rest.effects);
      expired = length pass.ended + rest.expired;
      drained = count_picked pass.picked + rest.drained;
      next = rest.next;
    }

-- `pumpLocked`; its result is the time that the queue's thread waits for.
unfoldable pub pump : QueuePolicy → ℕ → QueueState → QueueState × List Effect × Option ℕ
unfolding apply_inbox pump_lanes
pump policy now q =
    let current = apply_inbox q in
    let pass = pump_lanes policy now none current.lanes in
    (
      record current {
        lanes = pass.lanes;
        expired = current.expired + pass.expired;
        drained = current.drained + pass.drained;
      },
      pass.effects,
      pass.next,
    )
