-- ===== src/Queue/Keys.antt =====
-- No call takes a lane away: a printer without a lane after a call had none before it.
use printer_driver.Base.{
  if_holds, ℕ, Bytes, not, ◌&&◌, Option, some, none, List, [], ◌∷◌, ◌≡◌, refl, arith, leb, length,
  ◌==◌,
}
use printer_driver.Queue.Calls.{
  Request, Op, enqueues, pumps, unblocks, pauses, resumes, job_event, device_event, step, enqueue,
  admit, unblock, pause, resume, on_job_event, on_device_event,
}
use printer_driver.Queue.Pump.{
  latch, complete, apply_events, apply_completions, apply_inbox, pump_lane, pump_lanes, pump,
  next_deadline,
}
use printer_driver.Queue.{QueuePolicy, QueueLane, QueueCompletion, QueueState, Effect, drainable}
use printer_driver.Store.Tables.{lookup, update, assign, lookup-update, lookup-assign}
use printer_driver.Types.{DeviceEvent}

-- `new` has a lane for each printer that `old` has one for.
abbrev pub Grows : List (Bytes × QueueLane) → List (Bytes × QueueLane) → Type 0
Grows old new = (id : Bytes) → lookup id new ≡ none → lookup id old ≡ none

pub update-Grows :
    (k : Bytes) (f : QueueLane → QueueLane) (lanes : List (Bytes × QueueLane))
    → Grows lanes (update k f lanes)
update-Grows k f lanes id h = ground (arith, lookup-update k id f lanes, h)

assign-Grows :
    (k : Bytes) (lane : QueueLane) (lanes : List (Bytes × QueueLane))
    → Grows lanes (assign k lane lanes)
assign-Grows k lane lanes id h = ground (arith, lookup-assign k id lane lanes, h)

pub apply_events-Grows :
    (events : List (Bytes × DeviceEvent)) (lanes : List (Bytes × QueueLane))
    → Grows lanes (apply_events events lanes)
unfolding apply_events
apply_events-Grows [] lanes id h = h
apply_events-Grows ((k, event) ∷ events) lanes id h =
    update-Grows k (latch event) lanes id (apply_events-Grows events _ id h)

pub apply_completions-Grows :
    (cs : List QueueCompletion) (lanes : List (Bytes × QueueLane))
    → Grows lanes (apply_completions cs lanes)
unfolding apply_completions
apply_completions-Grows [] lanes id h = h
apply_completions-Grows (c ∷ cs) lanes id h =
    update-Grows c.printer_id (complete c.state) lanes id (apply_completions-Grows cs _ id h)

pub pump_lanes-Grows :
    (policy : QueuePolicy) (now : ℕ) (lanes : List (Bytes × QueueLane)) (next : Option ℕ)
    → Grows lanes (pump_lanes policy now next lanes).lanes
unfolding pump_lanes lookup
pump_lanes-Grows policy now [] next id h = refl
pump_lanes-Grows policy now ((k, lane) ∷ lanes) next id h = ground (
  arith,
  h,
  pump_lanes-Grows policy now lanes (next_deadline next (pump_lane policy now lane).lane.waiting)
      id,
)

admit-Grows :
    (policy : QueuePolicy) (now : ℕ) (r : Request) (job : Bytes) (lane : QueueLane) (q : QueueState)
    → Grows q.lanes (admit policy now r job lane q).0.lanes
unfolding admit
admit-Grows policy now r job lane q =
    if_holds (λ (x : QueueState × List Effect). Grows q.lanes x.0.lanes) (drainable policy lane) _ _
      (λ e. assign-Grows r.printer_id _ q.lanes)
      (λ e.
        if_holds (λ (x : QueueState × List Effect). Grows q.lanes x.0.lanes)
          (not (policy.max_depth == 0) && leb policy.max_depth (length lane.waiting)) _ _
          (λ full. assign-Grows r.printer_id lane q.lanes)
          (λ room. assign-Grows r.printer_id _ q.lanes))

enqueue-Grows :
    (policy : QueuePolicy) (now : ℕ) (r : Request) (q : QueueState)
    → Grows q.lanes (enqueue policy now r q).0.lanes
unfolding enqueue
enqueue-Grows policy now r q =
    elim r.reserved
      as (λ x. Grows q.lanes (enqueue policy now (record r { reserved = x }) q).0.lanes) [
        | none ↦ assign-Grows r.printer_id _ q.lanes
        | some (job, created) ↦
            if_holds (λ (x : QueueState × List Effect). Grows q.lanes x.0.lanes) created _ _
              (λ e. admit-Grows policy now _ job _ q) (λ e. assign-Grows r.printer_id _ q.lanes)
      ]

pub step-Grows :
    (policy : QueuePolicy) (op : Op) (q : QueueState) → Grows q.lanes (step policy op q).0.lanes
unfolding step pump apply_inbox unblock pause resume on_job_event on_device_event
step-Grows policy (enqueues now r) q id h = enqueue-Grows policy now r q id h
step-Grows policy (pumps now) q id h =
    apply_events-Grows q.device_events q.lanes id
      (apply_completions-Grows q.completions _ id (pump_lanes-Grows policy now _ none id h))
step-Grows policy (unblocks k) q id h = update-Grows k _ q.lanes id h
step-Grows policy (pauses k) q id h = assign-Grows k _ q.lanes id h
step-Grows policy (resumes k) q id h = update-Grows k _ q.lanes id h
step-Grows policy (job_event k state) q id h = ground (arith, h)
step-Grows policy (device_event k event) q id h = h
