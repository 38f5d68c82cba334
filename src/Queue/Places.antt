-- ===== src/Queue/Places.antt =====
-- The places that a printer's lanes have for a job in flight, and what each change of the lanes takes.
use printer_driver.Base.{
  ℕ, ◌+◌, ◌≤◌, Bytes, true, false, ◌&&◌, Option, some, none, List, [], ◌∷◌, ◌++◌, ◌≡◌, refl, ◌∙◌,
  arith, if◌then◌else◌, eq_bytes, eq_bytes_iff,
}
use printer_driver.Queue.Calls.{Op, job_event, lane_at}
use printer_driver.Queue.Lanes.{Lanes}
use printer_driver.Queue.Pump.{
  latch, complete, apply_events, apply_completions, apply_inbox, pump_lane, pump_lanes, start_next,
  expire, expiries, picked_effect, next_deadline,
}
use printer_driver.Queue.{
  QueuePolicy, QueueItem, QueueLane, QueueCompletion, QueueState, DeviceStatus, Effect, held,
  overflows, expires, starts, drainable, seeded,
}
use printer_driver.Store.Tables.{lookup, update, assign, lookup-update, lookup-assign}
use printer_driver.Types.{DeviceEvent, is_terminal}

-- How many jobs the effects start on the printer.
abbrev pub started : Bytes → Effect → ℕ
started id (starts k job) = if eq_bytes k id then 1 else 0
started id (held job) = 0
started id (overflows job) = 0
started id (expires job) = 0

abbrev pub count_starts : Bytes → List Effect → ℕ
count_starts id [] = 0
count_starts id (e ∷ es) = started id e + count_starts id es

-- How many ends of the printer's jobs the calls tell the queue of.
abbrev pub ends : Bytes → Op → ℕ
ends id (job_event k state) = if eq_bytes k id && is_terminal state then 1 else 0
ends id _ = 0

abbrev pub count_ends : Bytes → List Op → ℕ
count_ends id [] = 0
count_ends id (op ∷ ops) = ends id op + count_ends id ops

abbrev pub free_of : QueueLane → ℕ
free_of lane = if lane.in_flight then 0 else 1

-- The free places in the printer's lanes; a printer without one gets a free one.
abbrev pub places : Bytes → Lanes → ℕ
places id [] = 0
places id ((k, lane) ∷ lanes) = (if eq_bytes k id then free_of lane else 0) + places id lanes

abbrev pub unmade : Bytes → Lanes → ℕ
unmade id lanes = elim (lookup id lanes) [ none ↦ 1 | some lane ↦ 0 ]

abbrev pub pending : Bytes → List QueueCompletion → ℕ
pending id [] = 0
pending id (c ∷ cs) = (if eq_bytes c.printer_id id then 1 else 0) + pending id cs

-- How many jobs the queue can start on the printer before it is told of another end.
abbrev pub allowance : Bytes → QueueState → ℕ
allowance id q = places id q.lanes + (unmade id q.lanes + pending id q.completions)

pub count_starts-append :
    (id : Bytes) (xs ys : List Effect)
    → count_starts id (xs ++ ys) ≡ count_starts id xs + count_starts id ys
count_starts-append id [] ys = omega arith
count_starts-append id (e ∷ xs) ys = omega (arith, count_starts-append id xs ys)

pub pending-append :
    (id : Bytes) (xs ys : List QueueCompletion)
    → pending id (xs ++ ys) ≡ pending id xs + pending id ys
pending-append id [] ys = omega arith
pending-append id (c ∷ xs) ys = omega (arith, pending-append id xs ys)

count_starts-expiries : (id : Bytes) (items : List QueueItem) → count_starts id (expiries items) ≡ 0
count_starts-expiries id [] = refl
count_starts-expiries id (item ∷ items) = omega (arith, count_starts-expiries id items)

places-update :
    (id k : Bytes) (f : QueueLane → QueueLane) (lanes : Lanes)
    → places id (update k f lanes) ≤ places id lanes + (if eq_bytes k id then 1 else 0)
unfolding update
places-update id k f [] = omega arith
places-update id k f ((j, lane) ∷ lanes) = ground (
  arith,
  places-update id k f lanes,
  eq_bytes_iff j k,
  eq_bytes_iff j id,
  eq_bytes_iff k id,
  (f lane).in_flight,
)

pub places-update_same :
    (id k : Bytes) (f : QueueLane → QueueLane) (lanes : Lanes)
    → ((lane : QueueLane) → (f lane).in_flight ≡ lane.in_flight)
    → places id (update k f lanes) ≡ places id lanes
unfolding update
places-update_same id k f [] h = refl
places-update_same id k f ((j, lane) ∷ lanes) h =
    ground (arith, places-update_same id k f lanes h, h lane)

pub unmade-update :
    (id k : Bytes) (f : QueueLane → QueueLane) (lanes : Lanes)
    → unmade id (update k f lanes) ≡ unmade id lanes
unmade-update id k f lanes = ground (arith, lookup-update k id f lanes)

places-assign :
    (id k : Bytes) (new : QueueLane) (lanes : Lanes)
    → places id (assign k new lanes)
        + (if eq_bytes k id
            then elim (lookup k lanes) as (λ x. ℕ) [ none ↦ 0 | some old ↦ free_of old ]
            else 0)
      ≡ places id lanes + (if eq_bytes k id then free_of new else 0)
unfolding assign lookup
places-assign id k new [] = ground arith
places-assign id k new ((j, lane) ∷ lanes) =
    ground
      (arith, places-assign id k new lanes, eq_bytes_iff j k, eq_bytes_iff j id, eq_bytes_iff k id)

latch-in_flight :
    (event : DeviceEvent) (lane : QueueLane) → (latch event lane).in_flight ≡ lane.in_flight
unfolding latch
latch-in_flight DeviceEvent.online lane = refl
latch-in_flight DeviceEvent.offline lane = refl
latch-in_flight DeviceEvent.cover_open lane = refl
latch-in_flight DeviceEvent.cover_closed lane = refl
latch-in_flight DeviceEvent.paper_out lane = refl
latch-in_flight DeviceEvent.paper_near_end lane = refl
latch-in_flight DeviceEvent.paper_ok lane = refl
latch-in_flight DeviceEvent.cutter_error lane = refl
latch-in_flight DeviceEvent.recoverable_error lane = refl
latch-in_flight DeviceEvent.unrecoverable_error lane = refl
latch-in_flight DeviceEvent.connection_lost lane = refl
latch-in_flight DeviceEvent.connection_restored lane = refl
latch-in_flight DeviceEvent.foreign_writer_detected lane = refl

apply_events-places :
    (id : Bytes) (events : List (Bytes × DeviceEvent)) (lanes : Lanes)
    → (places id (apply_events events lanes) ≡ places id lanes)
      × (unmade id (apply_events events lanes) ≡ unmade id lanes)
unfolding apply_events
apply_events-places id [] lanes = (refl, refl)
apply_events-places id ((k, event) ∷ events) lanes =
    let rest = apply_events-places id events (update k (latch event) lanes) in
    (
      rest.0 ∙ places-update_same id k (latch event) lanes (latch-in_flight event),
      rest.1 ∙ unmade-update id k (latch event) lanes,
    )

apply_completions-places :
    (id : Bytes) (cs : List QueueCompletion) (lanes : Lanes)
    → (places id (apply_completions cs lanes) ≤ places id lanes + pending id cs)
      × (unmade id (apply_completions cs lanes) ≡ unmade id lanes)
unfolding apply_completions
apply_completions-places id [] lanes = (omega arith, refl)
apply_completions-places id (c ∷ cs) lanes =
    let rest = apply_completions-places id cs (update c.printer_id (complete c.state) lanes) in
    (
      omega (arith, rest.0, places-update id c.printer_id (complete c.state) lanes),
      rest.1 ∙ unmade-update id c.printer_id (complete c.state) lanes,
    )

pub apply_inbox-allowance :
    (id : Bytes) (q : QueueState)
    → places id (apply_inbox q).lanes + unmade id (apply_inbox q).lanes ≤ allowance id q
unfolding apply_inbox
apply_inbox-allowance id q =
    let events = apply_events-places id q.device_events q.lanes in
    let ended = apply_completions-places id q.completions (apply_events q.device_events q.lanes) in
    omega (arith, events.0, events.1, ended.0, ended.1)

pub inbox_empty : (id : Bytes) (q : QueueState) → pending id (apply_inbox q).completions ≡ 0
unfolding apply_inbox
inbox_empty id q = refl

pub drainable-free :
    (policy : QueuePolicy) (lane : QueueLane)
    → drainable policy lane ≡ true
    → lane.in_flight ≡ false
unfolding drainable
drainable-free policy lane h = ground (arith, h)

start_next-places :
    (policy : QueuePolicy) (id k : Bytes) (ended : List QueueItem) (lane : QueueLane)
    → count_starts id (picked_effect k (start_next policy ended lane).picked)
        + (if eq_bytes k id then free_of (start_next policy ended lane).lane else 0)
      ≤ (if eq_bytes k id then free_of lane else 0)
unfolding start_next
start_next-places policy id k ended lane = ground (arith, drainable-free policy lane)

pump_lane-places :
    (policy : QueuePolicy) (now : ℕ) (id k : Bytes) (lane : QueueLane)
    → count_starts id (picked_effect k (pump_lane policy now lane).picked)
        + (if eq_bytes k id then free_of (pump_lane policy now lane).lane else 0)
      ≤ (if eq_bytes k id then free_of lane else 0)
unfolding pump_lane
pump_lane-places policy now id k lane =
    start_next-places policy id k (expire now lane.waiting).1
      (record lane { waiting = (expire now lane.waiting).0 })

pub pump_lanes-places :
    (policy : QueuePolicy) (now : ℕ) (id : Bytes) (lanes : Lanes) (next : Option ℕ)
    → (count_starts id (pump_lanes policy now next lanes).effects
          + places id (pump_lanes policy now next lanes).lanes
        ≤ places id lanes)
      × (unmade id (pump_lanes policy now next lanes).lanes ≡ unmade id lanes)
unfolding pump_lanes lookup
pump_lanes-places policy now id [] next = (omega arith, refl)
pump_lanes-places policy now id ((k, lane) ∷ lanes) next =
    let pass = pump_lane policy now lane in
    let rest = pump_lanes-places policy now id lanes (next_deadline next pass.lane.waiting) in
    let rest_effects =
      (pump_lanes policy now (next_deadline next pass.lane.waiting) lanes).effects in
    (
      omega (
        arith,
        rest.0,
        pump_lane-places policy now id k lane,
        count_starts-append id (expiries pass.ended) (picked_effect k pass.picked ++ rest_effects),
        count_starts-append id (picked_effect k pass.picked) rest_effects,
        count_starts-expiries id pass.ended,
      ),
      ground (arith, rest.1),
    )

pub seeded-in_flight :
    (status : DeviceStatus) (lane : QueueLane) → (seeded status lane).in_flight ≡ lane.in_flight
unfolding seeded
seeded-in_flight status lane = ground arith

pub assign-allowance :
    (id k : Bytes) (new : QueueLane) (q : QueueState)
    → places id (assign k new q.lanes)
        + unmade id (assign k new q.lanes)
        + (if eq_bytes k id then free_of (lane_at k q) else 0)
      ≡ places id q.lanes + unmade id q.lanes + (if eq_bytes k id then free_of new else 0)
assign-allowance id k new q =
    ground
      (arith, places-assign id k new q.lanes, lookup-assign k id new q.lanes, eq_bytes_iff k id)
