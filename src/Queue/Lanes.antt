-- ===== src/Queue/Lanes.antt =====
-- What holds of every lane, whatever calls are made: it is enough that each change of one lane keeps it.
use printer_driver.Base.{
  if_holds, ℕ, Bytes, Bool, true, false, not, ◌&&◌, Option, some, none, List, [], ◌∷◌, ◌++◌, ◌≡◌,
  leb, length, ◌==◌, value_or, All, eq_bytes, eq_bytes_iff, sym, ap, Option-cases, inl, inr,
}
use mathlib.Core.Path.{subst}
use printer_driver.Queue.Calls.{
  Request, Op, enqueues, pumps, unblocks, pauses, resumes, job_event, device_event, step, run,
  enqueue, admit, lane_at, unblock, pause, resume, on_job_event, on_device_event,
}
use printer_driver.Queue.Keys.{step-Grows}
use printer_driver.Queue.Pump.{
  latch, complete, apply_events, apply_completions, apply_inbox, pump_lane, pump_lanes, pump,
}
use printer_driver.Queue.{
  QueuePolicy, QueueItem, QueueLane, QueueCompletion, QueueState, DeviceStatus, Effect, drainable,
  seeded, new_lane,
}
use printer_driver.Store.Tables.{lookup, update, assign}
use printer_driver.Types.{JobState, DeviceEvent, is_terminal}
use printer_driver.Base.{is_some}
use mathlib.Core.Bool.{false≢true}

abbrev pub Lanes : Type 0
Lanes = List (Bytes × QueueLane)

abbrev pub Every : (Bytes → QueueLane → Type 0) → Lanes → Type 0
Every P [] = Unit
Every P ((id, lane) ∷ lanes) = P id lane × Every P lanes

module _ (P : Bytes → QueueLane → Type 0) where
  pub update-Every :
      (id : Bytes) (f : QueueLane → QueueLane) (lanes : Lanes)
      → ((lane : QueueLane) → P id lane → P id (f lane))
      → Every P lanes
      → Every P (update id f lanes)
  unfolding update
  update-Every id f [] h v = tt
  update-Every id f ((k, lane) ∷ lanes) h v =
      if_holds (Every P) (eq_bytes k id) _ _
        (λ e.
          let same : k ≡ id = (eq_bytes_iff k id).0 e in
          (subst (λ i. P i (f lane)) (sym same) (h lane (subst (λ i. P i lane) same v.0)), v.1))
        (λ e. (v.0, update-Every id f lanes h v.1))

  pub assign-Every :
      (id : Bytes) (new : QueueLane) (lanes : Lanes)
      → P id new
      → Every P lanes
      → Every P (assign id new lanes)
  unfolding assign
  assign-Every id new [] h v = (h, tt)
  assign-Every id new ((k, lane) ∷ lanes) h v =
      if_holds (Every P) (eq_bytes k id) _ _
        (λ e. (subst (λ i. P i new) (sym ((eq_bytes_iff k id).0 e)) h, v.1))
        (λ e. (v.0, assign-Every id new lanes h v.1))

  pub lookup-Every :
      (id : Bytes) (lanes : Lanes)
      → Every P lanes
      → (lane : QueueLane) → lookup id lanes ≡ some lane
      → P id lane
  unfolding lookup
  lookup-Every id [] v lane = λ h. absurd (false≢true (ap is_some h))
  lookup-Every id ((k, first) ∷ lanes) v lane =
      if_holds (λ x. x ≡ some lane → P id lane) (eq_bytes k id) (some first) (lookup id lanes)
        (λ e h.
          subst (P id) (ap (λ x. value_or x first) h)
            (subst (λ i. P i first) ((eq_bytes_iff k id).0 e) v.0))
        (λ e h. lookup-Every id lanes v.1 lane h)

  pub lane_at-Every :
      (id : Bytes) (q : QueueState)
      → (lookup id q.lanes ≡ none → P id new_lane)
      → Every P q.lanes
      → P id (lane_at id q)
  lane_at-Every id q h v = elim (Option-cases (lookup id q.lanes)) [
    | inl missing ↦
        subst (λ (x : Option QueueLane). P id (value_or x new_lane)) (sym missing) (h missing)
    | inr (lane, found) ↦
        subst (λ (x : Option QueueLane). P id (value_or x new_lane)) (sym found)
          (lookup-Every id q.lanes v lane found)
  ]

-- Every change that the code makes to one lane keeps the property; an operator's `unblock` only has to
-- for the printers of `U`, and only the printers of `N` may get a new lane.
pub record IsKept (policy : QueuePolicy) (U N : Bytes → Type 0) (P : Bytes → QueueLane → Type 0)
    : Type 0 where
  pub made : (id : Bytes) → N id → P id new_lane
  pub seeds :
      (id : Bytes) (status : DeviceStatus) (lane : QueueLane)
      → P id lane
      → P id (seeded status lane)
  pub latches :
      (id : Bytes) (event : DeviceEvent) (lane : QueueLane) → P id lane → P id (latch event lane)
  pub completes :
      (id : Bytes) (state : JobState) (lane : QueueLane) → P id lane → P id (complete state lane)
  pub pumps :
      (id : Bytes) (now : ℕ) (lane : QueueLane) → P id lane → P id (pump_lane policy now lane).lane
  pub sent : (id : Bytes) (lane : QueueLane) → P id lane → P id (record lane { in_flight = true })
  pub waits :
      (id : Bytes) (item : QueueItem) (lane : QueueLane)
      → (not (policy.max_depth == 0) && leb policy.max_depth (length lane.waiting)) ≡ false
      → P id lane
      → P id (record lane { waiting = lane.waiting ++ (item ∷ []) })
  pub unblocked :
      (id : Bytes) (lane : QueueLane) → U id → P id lane → P id (record lane { blocked = false })
  pub pause_set :
      (id : Bytes) (to : Bool) (lane : QueueLane) → P id lane → P id (record lane { paused = to })

-- Only these printers may be without a lane.
abbrev pub MayMiss : (Bytes → Type 0) → QueueState → Type 0
MayMiss N q = (id : Bytes) → lookup id q.lanes ≡ none → N id

-- The printers that a call unblocks.
abbrev pub Unblocks : (Bytes → Type 0) → Op → Type 0
Unblocks U (unblocks id) = U id
Unblocks U _ = Unit

module _ (policy : QueuePolicy) (U N : Bytes → Type 0) (P : Bytes → QueueLane → Type 0)
    (h : IsKept policy U N P) where
  apply_events-Every :
      (events : List (Bytes × DeviceEvent)) (lanes : Lanes)
      → Every P lanes
      → Every P (apply_events events lanes)
  unfolding apply_events
  apply_events-Every [] lanes v = v
  apply_events-Every ((id, event) ∷ events) lanes v =
      apply_events-Every events _ (update-Every P id (latch event) lanes (h.latches id event) v)

  pub apply_completions-Every :
      (cs : List QueueCompletion) (lanes : Lanes)
      → Every P lanes
      → Every P (apply_completions cs lanes)
  unfolding apply_completions
  apply_completions-Every [] lanes v = v
  apply_completions-Every (c ∷ cs) lanes v =
      apply_completions-Every cs _
        (update-Every P c.printer_id (complete c.state) lanes (h.completes c.printer_id c.state) v)

  pub apply_inbox-Every : (q : QueueState) → Every P q.lanes → Every P (apply_inbox q).lanes
  unfolding apply_inbox
  apply_inbox-Every q v =
      apply_completions-Every q.completions _ (apply_events-Every q.device_events q.lanes v)

  pub pump_lanes-Every :
      (now : ℕ) (lanes : Lanes) (next : Option ℕ)
      → Every P lanes
      → Every P (pump_lanes policy now next lanes).lanes
  unfolding pump_lanes
  pump_lanes-Every now [] next v = tt
  pump_lanes-Every now ((id, lane) ∷ lanes) next v =
      (h.pumps id now lane v.0, pump_lanes-Every now lanes _ v.1)

  admit-Every :
      (now : ℕ) (r : Request) (job : Bytes) (lane : QueueLane) (q : QueueState)
      → P r.printer_id lane
      → Every P q.lanes
      → Every P (admit policy now r job lane q).0.lanes
  unfolding admit
  admit-Every now r job lane q hl v =
      if_holds (λ (x : QueueState × List Effect). Every P x.0.lanes) (drainable policy lane) _ _
        (λ e. assign-Every P r.printer_id _ q.lanes (h.sent r.printer_id lane hl) v)
        (λ e.
          if_holds (λ (x : QueueState × List Effect). Every P x.0.lanes)
            (not (policy.max_depth == 0) && leb policy.max_depth (length lane.waiting)) _ _
            (λ full. assign-Every P r.printer_id lane q.lanes hl v)
            (λ room. assign-Every P r.printer_id _ q.lanes (h.waits r.printer_id _ lane room hl) v))

  enqueue-Every :
      (now : ℕ) (r : Request) (q : QueueState)
      → MayMiss N q
      → Every P q.lanes
      → Every P (enqueue policy now r q).0.lanes
  unfolding enqueue
  enqueue-Every now r q n v =
      let good =
        h.seeds r.printer_id r.status _
          (lane_at-Every P r.printer_id q (λ m. h.made r.printer_id (n r.printer_id m)) v) in
      elim r.reserved as (λ x. Every P (enqueue policy now (record r { reserved = x }) q).0.lanes) [
        | none ↦ assign-Every P r.printer_id _ q.lanes good v
        | some (job, created) ↦
            if_holds (λ (x : QueueState × List Effect). Every P x.0.lanes) created _ _
              (λ e. admit-Every now _ job _ q good v)
              (λ e. assign-Every P r.printer_id _ q.lanes good v)
      ]

  pub step-Every :
      (op : Op) (q : QueueState)
      → Unblocks U op
      → MayMiss N q
      → Every P q.lanes
      → Every P (step policy op q).0.lanes
  unfolding step pump unblock pause resume on_job_event on_device_event
  step-Every (enqueues now r) q u n v = enqueue-Every now r q n v
  step-Every (pumps now) q u n v = pump_lanes-Every now _ none (apply_inbox-Every q v)
  step-Every (unblocks id) q u n v = update-Every P id _ q.lanes (λ lane. h.unblocked id lane u) v
  step-Every (pauses id) q u n v =
      assign-Every P id _ q.lanes
        (h.pause_set id true _ (lane_at-Every P id q (λ m. h.made id (n id m)) v)) v
  step-Every (resumes id) q u n v = update-Every P id _ q.lanes (h.pause_set id false) v
  step-Every (job_event id state) q u n v =
      if_holds (λ (x : QueueState). Every P x.lanes) (is_terminal state) _ _ (λ e. v) (λ e. v)
  step-Every (device_event id event) q u n v = v

  pub run-Every :
      (ops : List Op) (q : QueueState)
      → All (Unblocks U) ops
      → MayMiss N q
      → Every P q.lanes
      → Every P (run policy ops q).0.lanes
  unfolding run
  run-Every [] q u n v = v
  run-Every (op ∷ ops) q u n v =
      run-Every ops _ u.1 (λ id m. n id (step-Grows policy op q id m)) (step-Every op q u.0 n v)
