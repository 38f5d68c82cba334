-- ===== src/Queue/Blocking.antt =====
-- A lane that a job of unknown outcome has blocked, until the operator unblocks it.
use printer_driver.Base.{
  ℕ, Bytes, true, false, not, ◌&&◌, Option, some, none, List, [], ◌∷◌, ◌≡◌, refl, sym, ◌∙◌, arith,
  if_holds, ◌==◌, All, All-append, Option-cases, inl, inr, eq_bytes, eq_bytes_self, leb, length,
}
use mathlib.Core.Bool.{false≢true}
use printer_driver.Queue.Calls.{
  Request, Op, enqueues, pumps, unblocks, pauses, resumes, job_event, device_event, step, run,
  enqueue, admit, lane_at, blocked,
}
use printer_driver.Queue.Lanes.{
  Every, IsKept, Unblocks, MayMiss, run-Every, step-Every, lookup-Every, lane_at-Every,
  apply_inbox-Every,
}
use printer_driver.Queue.Keys.{step-Grows}
use printer_driver.Queue.Pump.{
  latch, complete, pump_lane, pump_lanes, pump, start_next, expire, expiries, picked_effect,
}
use printer_driver.Queue.{
  QueuePolicy, QueueItem, QueueLane, QueueState, DeviceStatus, Effect, held, overflows, expires,
  starts, drainable, seeded,
}
use printer_driver.Store.Tables.{lookup}
use printer_driver.Types.{JobState, DeviceEvent}

-- The lane of the printer `id` is blocked; nothing is said of the others.
abbrev pub IsBlocked : Bytes → Bytes → QueueLane → Type 0
IsBlocked id k lane = eq_bytes k id ≡ true → lane.blocked ≡ true

abbrev pub OtherThan : Bytes → Bytes → Type 0
OtherThan id k = eq_bytes k id ≡ false

-- The effect starts no job on the printer.
abbrev pub StartsNone : Bytes → Effect → Type 0
StartsNone id (starts k job) = eq_bytes k id ≡ false
StartsNone id (held job) = Unit
StartsNone id (overflows job) = Unit
StartsNone id (expires job) = Unit

drainable-blocked :
    (policy : QueuePolicy) (lane : QueueLane) → lane.blocked ≡ true → drainable policy lane ≡ false
unfolding drainable
drainable-blocked policy lane h = ground (arith, h)

pump_lane-blocked :
    (policy : QueuePolicy) (now : ℕ) (lane : QueueLane)
    → lane.blocked ≡ true
    → ((pump_lane policy now lane).lane.blocked ≡ true)
      × ((pump_lane policy now lane).picked ≡ none)
unfolding pump_lane start_next
pump_lane-blocked policy now lane h =
    rw (drainable-blocked policy (record lane { waiting = (expire now lane.waiting).0 }) h)
      (h, refl)

seeded-blocked :
    (status : DeviceStatus) (lane : QueueLane) → (seeded status lane).blocked ≡ lane.blocked
unfolding seeded
seeded-blocked status lane = ground arith

latch-blocked : (event : DeviceEvent) (lane : QueueLane) → (latch event lane).blocked ≡ lane.blocked
unfolding latch
latch-blocked DeviceEvent.online lane = refl
latch-blocked DeviceEvent.offline lane = refl
latch-blocked DeviceEvent.cover_open lane = refl
latch-blocked DeviceEvent.cover_closed lane = refl
latch-blocked DeviceEvent.paper_out lane = refl
latch-blocked DeviceEvent.paper_near_end lane = refl
latch-blocked DeviceEvent.paper_ok lane = refl
latch-blocked DeviceEvent.cutter_error lane = refl
latch-blocked DeviceEvent.recoverable_error lane = refl
latch-blocked DeviceEvent.unrecoverable_error lane = refl
latch-blocked DeviceEvent.connection_lost lane = refl
latch-blocked DeviceEvent.connection_restored lane = refl
latch-blocked DeviceEvent.foreign_writer_detected lane = refl

complete-blocked :
    (state : JobState) (lane : QueueLane)
    → lane.blocked ≡ true
    → (complete state lane).blocked ≡ true
unfolding complete
complete-blocked state lane h = ground (arith, h)

pub IsBlocked-IsKept :
    (policy : QueuePolicy) (id : Bytes) → IsKept policy (OtherThan id) (OtherThan id) (IsBlocked id)
IsBlocked-IsKept policy id = record {
  made = λ k u e. ground (arith, u, e);
  seeds = λ k status lane v e. seeded-blocked status lane ∙ v e;
  latches = λ k event lane v e. latch-blocked event lane ∙ v e;
  completes = λ k state lane v e. complete-blocked state lane (v e);
  pumps = λ k now lane v e. (pump_lane-blocked policy now lane (v e)).0;
  sent = λ k lane v. v;
  waits = λ k item lane room v. v;
  unblocked = λ k lane u v e. ground (arith, u, e);
  pause_set = λ k to lane v. v;
}

expiries-StartsNone : (id : Bytes) (items : List QueueItem) → All (StartsNone id) (expiries items)
expiries-StartsNone id [] = tt
expiries-StartsNone id (item ∷ items) = (tt, expiries-StartsNone id items)

picked_effect-StartsNone :
    (id k : Bytes) (x : Option QueueItem)
    → (eq_bytes k id ≡ true → x ≡ none)
    → All (StartsNone id) (picked_effect k x)
picked_effect-StartsNone id k none h = tt
picked_effect-StartsNone id k (some item) h = (ground (arith, h), tt)

picked-StartsNone :
    (policy : QueuePolicy) (now : ℕ) (id k : Bytes) (lane : QueueLane)
    → IsBlocked id k lane
    → All (StartsNone id) (picked_effect k (pump_lane policy now lane).picked)
picked-StartsNone policy now id k lane v =
    picked_effect-StartsNone id k (pump_lane policy now lane).picked
      (λ e. (pump_lane-blocked policy now lane (v e)).1)

pub pump_lanes-StartsNone :
    (policy : QueuePolicy) (now : ℕ) (id : Bytes) (lanes : List (Bytes × QueueLane))
    (next : Option ℕ)
    → Every (IsBlocked id) lanes
    → All (StartsNone id) (pump_lanes policy now next lanes).effects
unfolding pump_lanes
pump_lanes-StartsNone policy now id [] next v = tt
pump_lanes-StartsNone policy now id ((k, lane) ∷ lanes) next v =
    All-append (StartsNone id) (expiries (pump_lane policy now lane).ended) _
      (expiries-StartsNone id (pump_lane policy now lane).ended)
      (All-append (StartsNone id) (picked_effect k (pump_lane policy now lane).picked) _
        (picked-StartsNone policy now id k lane v.0)
        (pump_lanes-StartsNone policy now id lanes _ v.1))

admit-StartsNone :
    (policy : QueuePolicy) (now : ℕ) (id : Bytes) (r : Request) (job : Bytes) (lane : QueueLane)
    (q : QueueState)
    → IsBlocked id r.printer_id lane
    → All (StartsNone id) (admit policy now r job lane q).1
unfolding admit
admit-StartsNone policy now id r job lane q v =
    if_holds (λ (x : QueueState × List Effect). All (StartsNone id) x.1) (drainable policy lane) _ _
      (λ e. (ground (arith, v, drainable-blocked policy lane), tt))
      (λ e.
        if_holds (λ (x : QueueState × List Effect). All (StartsNone id) x.1)
          (not (policy.max_depth == 0) && leb policy.max_depth (length lane.waiting)) _ _
          (λ full. (tt, tt)) (λ room. (tt, tt)))

enqueue-StartsNone :
    (policy : QueuePolicy) (now : ℕ) (id : Bytes) (r : Request) (q : QueueState)
    → MayMiss (OtherThan id) q
    → Every (IsBlocked id) q.lanes
    → All (StartsNone id) (enqueue policy now r q).1
unfolding enqueue
enqueue-StartsNone policy now id r q n v =
    let good : IsBlocked id r.printer_id (seeded r.status (lane_at r.printer_id q)) =
      (IsBlocked-IsKept policy id).seeds r.printer_id r.status (lane_at r.printer_id q) (
        lane_at-Every (IsBlocked id) r.printer_id q
          (λ m. (IsBlocked-IsKept policy id).made r.printer_id (n r.printer_id m)) v) in
    elim r.reserved
      as (λ x. All (StartsNone id) (enqueue policy now (record r { reserved = x }) q).1) [
        | none ↦ tt
        | some (job, created) ↦
            if_holds (λ (x : QueueState × List Effect). All (StartsNone id) x.1) created _ _
              (λ e. admit-StartsNone policy now id _ job _ q good) (λ e. tt)
      ]

step-StartsNone :
    (policy : QueuePolicy) (id : Bytes) (op : Op) (q : QueueState)
    → MayMiss (OtherThan id) q
    → Every (IsBlocked id) q.lanes
    → All (StartsNone id) (step policy op q).1
unfolding step pump
step-StartsNone policy id (enqueues now r) q n v = enqueue-StartsNone policy now id r q n v
step-StartsNone policy id (pumps now) q n v = pump_lanes-StartsNone policy now id _ none (
    apply_inbox-Every policy (OtherThan id) (OtherThan id) (IsBlocked id)
      (IsBlocked-IsKept policy id) q v)
step-StartsNone policy id (unblocks k) q n v = tt
step-StartsNone policy id (pauses k) q n v = tt
step-StartsNone policy id (resumes k) q n v = tt
step-StartsNone policy id (job_event k state) q n v = tt
step-StartsNone policy id (device_event k event) q n v = tt

run-StartsNone :
    (policy : QueuePolicy) (id : Bytes) (ops : List Op) (q : QueueState)
    → All (Unblocks (OtherThan id)) ops
    → MayMiss (OtherThan id) q
    → Every (IsBlocked id) q.lanes
    → All (StartsNone id) (run policy ops q).1
unfolding run
run-StartsNone policy id [] q u n v = tt
run-StartsNone policy id (op ∷ ops) q u n v =
    All-append (StartsNone id) (step policy op q).1 _ (step-StartsNone policy id op q n v) (
      run-StartsNone policy id ops _ u.1 (λ k m. n k (step-Grows policy op q k m))
        (step-Every policy (OtherThan id) (OtherThan id) (IsBlocked id) (IsBlocked-IsKept policy id)
          op q u.0 n v))

run-MayMiss :
    (policy : QueuePolicy) (N : Bytes → Type 0) (ops : List Op) (q : QueueState)
    → MayMiss N q
    → MayMiss N (run policy ops q).0
unfolding run
run-MayMiss policy N [] q n = n
run-MayMiss policy N (op ∷ ops) q n =
    run-MayMiss policy N ops _ (λ k m. n k (step-Grows policy op q k m))

-- A queue in which the lane of `id` is there and blocked.
abbrev pub HasBlocked : Bytes → QueueState → Type 0
HasBlocked id q = MayMiss (OtherThan id) q × Every (IsBlocked id) q.lanes

-- Once a printer's lane is blocked, no sequence of calls that does not unblock that printer starts a
-- job on it, and the lane is still blocked behind it: not a new job, a tick, a device that comes back,
-- the end of another job, nor a pause that is lifted.
pub run-HasBlocked :
    (policy : QueuePolicy) (id : Bytes) (ops : List Op) (q : QueueState)
    → All (Unblocks (OtherThan id)) ops
    → HasBlocked id q
    → All (StartsNone id) (run policy ops q).1 × (blocked id (run policy ops q).0 ≡ true)
unfolding blocked
run-HasBlocked policy id ops q u h =
    let after : Every (IsBlocked id) (run policy ops q).0.lanes =
      run-Every policy (OtherThan id) (OtherThan id) (IsBlocked id) (IsBlocked-IsKept policy id) ops
        q u h.0 h.1 in
    (
      run-StartsNone policy id ops q u h.0 h.1,
      elim (Option-cases (lookup id (run policy ops q).0.lanes)) [
        | inl missing ↦ absurd (
            false≢true
              (sym (run-MayMiss policy (OtherThan id) ops q h.0 id missing) ∙ eq_bytes_self id))
        | inr (lane, found) ↦
            rw (found, blocked)
              (lookup-Every (IsBlocked id) id (run policy ops q).0.lanes after lane found
                (eq_bytes_self id))
      ],
    )
