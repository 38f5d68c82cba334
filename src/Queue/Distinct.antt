-- ===== src/Queue/Distinct.antt =====
-- No printer has two lanes, as in the source's map, whatever calls are made.
use printer_driver.Base.{
  ℕ, Bytes, not, ◌&&◌, Option, some, none, List, [], ◌∷◌, ◌≡◌, refl, arith, if_holds, ◌==◌, leb,
  length, eq_bytes, eq_bytes_iff,
}
use printer_driver.Queue.Calls.{
  Request, Op, enqueues, pumps, unblocks, pauses, resumes, job_event, device_event, step, run,
  enqueue, admit, unblock, pause, resume, on_job_event, on_device_event,
}
use printer_driver.Queue.Lanes.{Lanes}
use printer_driver.Queue.Pump.{
  latch, complete, apply_events, apply_completions, apply_inbox, pump_lane, pump_lanes, pump,
  next_deadline,
}
use printer_driver.Queue.{QueuePolicy, QueueLane, QueueCompletion, QueueState, Effect, drainable}
use printer_driver.Store.Tables.{lookup, update, assign, lookup-update, lookup-assign}
use printer_driver.Types.{DeviceEvent, is_terminal}

abbrev pub IsDistinct : Lanes → Type 0
IsDistinct [] = Unit
IsDistinct ((id, lane) ∷ lanes) = (lookup id lanes ≡ none) × IsDistinct lanes

pub update-IsDistinct :
    (k : Bytes) (f : QueueLane → QueueLane) (lanes : Lanes)
    → IsDistinct lanes
    → IsDistinct (update k f lanes)
unfolding update
update-IsDistinct k f [] v = tt
update-IsDistinct k f ((j, lane) ∷ lanes) v =
    if_holds IsDistinct (eq_bytes j k) _ _ (λ e. v)
      (λ e. (ground (arith, lookup-update k j f lanes, v.0), update-IsDistinct k f lanes v.1))

assign-IsDistinct :
    (k : Bytes) (new : QueueLane) (lanes : Lanes)
    → IsDistinct lanes
    → IsDistinct (assign k new lanes)
unfolding assign lookup
assign-IsDistinct k new [] v = (refl, tt)
assign-IsDistinct k new ((j, lane) ∷ lanes) v =
    if_holds IsDistinct (eq_bytes j k) _ _ (λ e. v)
      (λ e. (
        ground (arith, lookup-assign k j new lanes, v.0, e, eq_bytes_iff j k, eq_bytes_iff k j),
        assign-IsDistinct k new lanes v.1,
      ))

pub apply_events-IsDistinct :
    (events : List (Bytes × DeviceEvent)) (lanes : Lanes)
    → IsDistinct lanes
    → IsDistinct (apply_events events lanes)
unfolding apply_events
apply_events-IsDistinct [] lanes v = v
apply_events-IsDistinct ((k, event) ∷ events) lanes v =
    apply_events-IsDistinct events _ (update-IsDistinct k (latch event) lanes v)

apply_completions-IsDistinct :
    (cs : List QueueCompletion) (lanes : Lanes)
    → IsDistinct lanes
    → IsDistinct (apply_completions cs lanes)
unfolding apply_completions
apply_completions-IsDistinct [] lanes v = v
apply_completions-IsDistinct (c ∷ cs) lanes v =
    apply_completions-IsDistinct cs _ (update-IsDistinct c.printer_id (complete c.state) lanes v)

pump_lanes-absent :
    (policy : QueuePolicy) (now : ℕ) (id : Bytes) (lanes : Lanes) (next : Option ℕ)
    → lookup id lanes ≡ none
    → lookup id (pump_lanes policy now next lanes).lanes ≡ none
unfolding pump_lanes lookup
pump_lanes-absent policy now id [] next h = refl
pump_lanes-absent policy now id ((k, lane) ∷ lanes) next h = ground (
  arith,
  h,
  pump_lanes-absent policy now id lanes
      (next_deadline next (pump_lane policy now lane).lane.waiting),
)

pump_lanes-IsDistinct :
    (policy : QueuePolicy) (now : ℕ) (lanes : Lanes) (next : Option ℕ)
    → IsDistinct lanes
    → IsDistinct (pump_lanes policy now next lanes).lanes
unfolding pump_lanes
pump_lanes-IsDistinct policy now [] next v = tt
pump_lanes-IsDistinct policy now ((k, lane) ∷ lanes) next v =
    (pump_lanes-absent policy now k lanes _ v.0, pump_lanes-IsDistinct policy now lanes _ v.1)

admit-IsDistinct :
    (policy : QueuePolicy) (now : ℕ) (r : Request) (job : Bytes) (lane : QueueLane) (q : QueueState)
    → IsDistinct q.lanes
    → IsDistinct (admit policy now r job lane q).0.lanes
unfolding admit
admit-IsDistinct policy now r job lane q v =
    if_holds (λ (x : QueueState × List Effect). IsDistinct x.0.lanes) (drainable policy lane) _ _
      (λ e. assign-IsDistinct r.printer_id _ q.lanes v)
      (λ e.
        if_holds (λ (x : QueueState × List Effect). IsDistinct x.0.lanes)
          (not (policy.max_depth == 0) && leb policy.max_depth (length lane.waiting)) _ _
          (λ full. assign-IsDistinct r.printer_id lane q.lanes v)
          (λ room. assign-IsDistinct r.printer_id _ q.lanes v))

enqueue-IsDistinct :
    (policy : QueuePolicy) (now : ℕ) (r : Request) (q : QueueState)
    → IsDistinct q.lanes
    → IsDistinct (enqueue policy now r q).0.lanes
unfolding enqueue
enqueue-IsDistinct policy now r q v =
    elim r.reserved
      as (λ x. IsDistinct (enqueue policy now (record r { reserved = x }) q).0.lanes) [
        | none ↦ assign-IsDistinct r.printer_id _ q.lanes v
        | some (job, created) ↦
            if_holds (λ (x : QueueState × List Effect). IsDistinct x.0.lanes) created _ _
              (λ e. admit-IsDistinct policy now _ job _ q v)
              (λ e. assign-IsDistinct r.printer_id _ q.lanes v)
      ]

step-IsDistinct :
    (policy : QueuePolicy) (op : Op) (q : QueueState)
    → IsDistinct q.lanes
    → IsDistinct (step policy op q).0.lanes
unfolding step pump apply_inbox unblock pause resume on_job_event on_device_event
step-IsDistinct policy (enqueues now r) q v = enqueue-IsDistinct policy now r q v
step-IsDistinct policy (pumps now) q v = pump_lanes-IsDistinct policy now _ none (
    apply_completions-IsDistinct q.completions _
      (apply_events-IsDistinct q.device_events q.lanes v))
step-IsDistinct policy (unblocks id) q v = update-IsDistinct id _ q.lanes v
step-IsDistinct policy (pauses id) q v = assign-IsDistinct id _ q.lanes v
step-IsDistinct policy (resumes id) q v = update-IsDistinct id _ q.lanes v
step-IsDistinct policy (job_event id state) q v =
    if_holds (λ (x : QueueState). IsDistinct x.lanes) (is_terminal state) _ _ (λ e. v) (λ e. v)
step-IsDistinct policy (device_event id event) q v = v

pub run-IsDistinct :
    (policy : QueuePolicy) (ops : List Op) (q : QueueState)
    → IsDistinct q.lanes
    → IsDistinct (run policy ops q).0.lanes
unfolding run
run-IsDistinct policy [] q v = v
run-IsDistinct policy (op ∷ ops) q v = run-IsDistinct policy ops _ (step-IsDistinct policy op q v)
