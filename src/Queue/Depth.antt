-- ===== src/Queue/Depth.antt =====
-- How deep a lane gets: `max_depth` of `QueuePolicy`.
use printer_driver.Base.{
  ℕ, zero, suc, ◌≤◌, Bytes, false, not, ◌&&◌, List, [], ◌∷◌, ◌++◌, ◌≡◌, ◌≢◌, refl, arith, leb,
  length, length-append, ◌==◌, All, Option-cases, inl, inr,
}
use printer_driver.Queue.Calls.{
  Op, enqueues, pumps, unblocks, pauses, resumes, job_event, device_event, run, depth,
}
use printer_driver.Queue.Lanes.{Every, IsKept, Unblocks, run-Every, lookup-Every}
use printer_driver.Queue.Pump.{latch, complete, pump_lane, start_next, expire, erase}
use printer_driver.Queue.Select.{select}
use printer_driver.Queue.{QueuePolicy, QueueItem, QueueLane, QueueState, DeviceStatus, seeded}
use printer_driver.Store.Tables.{lookup}
use printer_driver.Types.{JobState, DeviceEvent}

length-expire : (now : ℕ) (items : List QueueItem) → length (expire now items).0 ≤ length items
unfolding expire
length-expire now [] = omega arith
length-expire now (item ∷ items) = ground (arith, length-expire now items)

length-erase : (i : ℕ) (items : List QueueItem) → length (erase i items) ≤ length items
unfolding erase
length-erase i [] = omega arith
length-erase zero (item ∷ items) = omega arith
length-erase (suc i) (item ∷ items) = omega (arith, length-erase i items)

start_next-waiting :
    (policy : QueuePolicy) (ended : List QueueItem) (lane : QueueLane)
    → length (start_next policy ended lane).lane.waiting ≤ length lane.waiting
unfolding start_next
start_next-waiting policy ended lane =
    ground (arith, length-erase (select policy.drain_order lane.waiting) lane.waiting)

pump_lane-waiting :
    (policy : QueuePolicy) (now : ℕ) (lane : QueueLane)
    → length (pump_lane policy now lane).lane.waiting ≤ length lane.waiting
unfolding pump_lane
pump_lane-waiting policy now lane = omega (
  arith,
  start_next-waiting policy (expire now lane.waiting).1
      (record lane { waiting = (expire now lane.waiting).0 }),
  length-expire now lane.waiting,
)

seeded-waiting :
    (status : DeviceStatus) (lane : QueueLane) → (seeded status lane).waiting ≡ lane.waiting
unfolding seeded
seeded-waiting status lane = ground arith

latch-waiting : (event : DeviceEvent) (lane : QueueLane) → (latch event lane).waiting ≡ lane.waiting
unfolding latch
latch-waiting DeviceEvent.online lane = refl
latch-waiting DeviceEvent.offline lane = refl
latch-waiting DeviceEvent.cover_open lane = refl
latch-waiting DeviceEvent.cover_closed lane = refl
latch-waiting DeviceEvent.paper_out lane = refl
latch-waiting DeviceEvent.paper_near_end lane = refl
latch-waiting DeviceEvent.paper_ok lane = refl
latch-waiting DeviceEvent.cutter_error lane = refl
latch-waiting DeviceEvent.recoverable_error lane = refl
latch-waiting DeviceEvent.unrecoverable_error lane = refl
latch-waiting DeviceEvent.connection_lost lane = refl
latch-waiting DeviceEvent.connection_restored lane = refl
latch-waiting DeviceEvent.foreign_writer_detected lane = refl

complete-waiting :
    (state : JobState) (lane : QueueLane) → (complete state lane).waiting ≡ lane.waiting
unfolding complete
complete-waiting state lane = ground arith

abbrev pub IsShort : QueuePolicy → Bytes → QueueLane → Type 0
IsShort policy id lane = length lane.waiting ≤ policy.max_depth

abbrev Anyone : Bytes → Type 0
Anyone id = Unit

waits-IsShort :
    (policy : QueuePolicy) (item : QueueItem) (lane : QueueLane)
    → policy.max_depth ≢ 0
    → (not (policy.max_depth == 0) && leb policy.max_depth (length lane.waiting)) ≡ false
    → length (lane.waiting ++ (item ∷ [])) ≤ policy.max_depth
waits-IsShort policy item lane h room = ground (arith, length-append lane.waiting (item ∷ []))

IsShort-IsKept :
    (policy : QueuePolicy) → policy.max_depth ≢ 0 → IsKept policy Anyone Anyone (IsShort policy)
IsShort-IsKept policy h = record {
  made = λ id u. omega arith;
  seeds = λ id status lane v. ground (arith, seeded-waiting status lane, v);
  latches = λ id event lane v. ground (arith, latch-waiting event lane, v);
  completes = λ id state lane v. ground (arith, complete-waiting state lane, v);
  pumps = λ id now lane v. omega (arith, pump_lane-waiting policy now lane, v);
  sent = λ id lane v. v;
  waits = λ id item lane room v. waits-IsShort policy item lane h room;
  unblocked = λ id lane u v. v;
  pause_set = λ id to lane v. v;
}

Anyone-Unblocks : (op : Op) → Unblocks Anyone op
Anyone-Unblocks (enqueues now r) = tt
Anyone-Unblocks (pumps now) = tt
Anyone-Unblocks (unblocks id) = tt
Anyone-Unblocks (pauses id) = tt
Anyone-Unblocks (resumes id) = tt
Anyone-Unblocks (job_event id state) = tt
Anyone-Unblocks (device_event id event) = tt

Anyone-All : (ops : List Op) → All (Unblocks Anyone) ops
Anyone-All [] = tt
Anyone-All (op ∷ ops) = (Anyone-Unblocks op, Anyone-All ops)

-- With a limit on the depth, in a queue whose lanes keep to it, no lane holds more jobs than the limit
-- after any sequence of calls.
pub depth-bounded :
    (policy : QueuePolicy) (ops : List Op) (q : QueueState) (id : Bytes)
    → policy.max_depth ≢ 0
    → Every (IsShort policy) q.lanes
    → depth id (run policy ops q).0 ≤ policy.max_depth
unfolding depth
depth-bounded policy ops q id h v =
    let short : Every (IsShort policy) (run policy ops q).0.lanes =
      run-Every policy Anyone Anyone (IsShort policy) (IsShort-IsKept policy h) ops q
        (Anyone-All ops) (λ k m. tt) v in
    elim (Option-cases (lookup id (run policy ops q).0.lanes)) [
      | inl missing ↦ rw (missing, depth) (omega arith)
      | inr (lane, found) ↦
          rw (found, depth)
            (lookup-Every (IsShort policy) id (run policy ops q).0.lanes short lane found)
    ]
