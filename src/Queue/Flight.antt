-- ===== src/Queue/Flight.antt =====
-- One drained job at a time: how many jobs a queue starts on a printer, and how many ends it is told of.
use printer_driver.Base.{
  ℕ, ◌+◌, ◌≤◌, Bytes, true, false, not, ◌&&◌, some, none, List, [], ◌∷◌, ◌++◌, ◌≡◌, refl, arith,
  if_holds, leb, length, ◌==◌,
}
use printer_driver.Queue.Calls.{
  Request, Op, enqueues, pumps, unblocks, pauses, resumes, job_event, device_event, step, run,
  enqueue, admit, lane_at, unblock, pause, resume, on_job_event, on_device_event, deadline_of,
}
use printer_driver.Queue.Pump.{apply_inbox, pump}
use printer_driver.Queue.{
  empty_queue, QueuePolicy, QueueLane, QueueState, Effect, drainable, seeded,
}
use printer_driver.Store.Tables.{lookup, assign}
use printer_driver.Queue.Places.{
  count_starts, count_ends, ends, allowance, count_starts-append, pending-append,
  places-update_same, unmade-update, drainable-free, seeded-in_flight, assign-allowance,
  pump_lanes-places, apply_inbox-allowance, inbox_empty,
}

-- What a call starts, and what it leaves to start, is no more than what there was and what it is told.
abbrev Spends : Bytes → ℕ → QueueState → QueueState × List Effect → Type 0
Spends id told q next = count_starts id next.1 + allowance id next.0 ≤ allowance id q + told

admit-Spends :
    (policy : QueuePolicy) (now : ℕ) (id : Bytes) (r : Request) (job : Bytes) (lane : QueueLane)
    (q : QueueState)
    → lane.in_flight ≡ (lane_at r.printer_id q).in_flight
    → Spends id 0 q (admit policy now r job lane q)
unfolding admit
admit-Spends policy now id r job lane q h =
    if_holds (Spends id 0 q) (drainable policy lane) _ _
      (λ e. ground (
        arith,
        h,
        drainable-free policy lane e,
        assign-allowance id r.printer_id (record lane { in_flight = true }) q,
      ))
      (λ e.
        if_holds (Spends id 0 q)
          (not (policy.max_depth == 0) && leb policy.max_depth (length lane.waiting)) _ _
          (λ full. ground (arith, h, assign-allowance id r.printer_id lane q))
          (λ room. ground (
            arith,
            h,
            assign-allowance id r.printer_id
                (record lane {
                  waiting =
                      lane.waiting
                      ++ (record {
                        job = job;
                        priority = r.priority;
                        seq = q.next_seq;
                        deadline = deadline_of policy now r;
                      }
                          ∷ []);
                })
                q,
          )))

enqueue-Spends :
    (policy : QueuePolicy) (now : ℕ) (id : Bytes) (r : Request) (q : QueueState)
    → Spends id 0 q (enqueue policy now r q)
unfolding enqueue
enqueue-Spends policy now id r q =
    let lane : QueueLane = seeded r.status (lane_at r.printer_id q) in
    let same : lane.in_flight ≡ (lane_at r.printer_id q).in_flight =
      seeded-in_flight r.status (lane_at r.printer_id q) in
    let touched : count_starts id []
          + allowance id (record q { lanes = assign r.printer_id lane q.lanes })
        ≤ allowance id q + 0 =
      ground (arith, same, assign-allowance id r.printer_id lane q) in
    elim r.reserved as (λ x. Spends id 0 q (enqueue policy now (record r { reserved = x }) q)) [
      | none ↦ touched
      | some (job, created) ↦
          if_holds (Spends id 0 q) created _ _ (λ e. admit-Spends policy now id _ job lane q same)
            (λ e. touched)
    ]

pump-Spends :
    (policy : QueuePolicy) (now : ℕ) (id : Bytes) (q : QueueState)
    → Spends id 0 q ((pump policy now q).0, (pump policy now q).1)
unfolding pump
pump-Spends policy now id q =
    let pass = pump_lanes-places policy now id (apply_inbox q).lanes none in
    omega (arith, pass.0, pass.1, apply_inbox-allowance id q, inbox_empty id q)

step-Spends :
    (policy : QueuePolicy) (id : Bytes) (op : Op) (q : QueueState)
    → Spends id (ends id op) q (step policy op q)
unfolding step unblock pause resume on_job_event on_device_event
step-Spends policy id (enqueues now r) q = enqueue-Spends policy now id r q
step-Spends policy id (pumps now) q = pump-Spends policy now id q
step-Spends policy id (unblocks k) q = omega (
  arith,
  places-update_same id k (λ lane. record lane { blocked = false }) q.lanes (λ lane. refl),
  unmade-update id k (λ lane. record lane { blocked = false }) q.lanes,
)
step-Spends policy id (pauses k) q =
    ground (arith, assign-allowance id k (record (lane_at k q) { paused = true }) q)
step-Spends policy id (resumes k) q = omega (
  arith,
  places-update_same id k (λ lane. record lane { paused = false }) q.lanes (λ lane. refl),
  unmade-update id k (λ lane. record lane { paused = false }) q.lanes,
)
step-Spends policy id (job_event k state) q =
    ground (arith, pending-append id q.completions (record { printer_id = k; state = state } ∷ []))
step-Spends policy id (device_event k event) q = omega arith

run-Spends :
    (policy : QueuePolicy) (id : Bytes) (ops : List Op) (q : QueueState)
    → Spends id (count_ends id ops) q (run policy ops q)
unfolding run
run-Spends policy id [] q = omega arith
run-Spends policy id (op ∷ ops) q =
    let next = step policy op q in
    omega (
      arith,
      step-Spends policy id op q,
      run-Spends policy id ops next.0,
      count_starts-append id next.1 (run policy ops next.0).1,
    )

-- From an empty queue, whatever calls are made and whatever the devices report, the jobs that the queue
-- has started on a printer are at most one more than the ends of that printer's jobs that it was told
-- of.
pub one_in_flight :
    (policy : QueuePolicy) (id : Bytes) (ops : List Op)
    → count_starts id (run policy ops empty_queue).1 ≤ 1 + count_ends id ops
unfolding lookup
one_in_flight policy id ops = omega (arith, run-Spends policy id ops empty_queue)
