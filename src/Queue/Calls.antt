-- ===== src/Queue/Calls.antt =====
-- `enqueue` and the calls of the operator, and the two callbacks that fill the inbox.
use printer_driver.Base.{
  ℕ, suc, ◌+◌, ◌%◌, Bytes, Bool, true, false, not, ◌&&◌, Option, some, none, List, [], ◌∷◌, ◌++◌,
  if◌then◌else◌, leb, length, ◌==◌, value_or,
}
use printer_driver.Queue.Pump.{pump}
use printer_driver.Queue.{
  QueuePolicy, QueueItem, QueueLane, QueueState, DeviceStatus, Effect, held, overflows, starts,
  drainable, seeded, new_lane, u64_mod,
}
use printer_driver.Store.Tables.{lookup, update, assign}
use printer_driver.Types.{JobState, DeviceEvent, is_terminal}

-- The arguments of `enqueue` that the queue reads, with what `reserveJob` answers: nothing, the job
-- that has the key already, or a new job.
pub record Request : Type 0 where
  pub printer_id : Bytes
  pub status : DeviceStatus
  pub reserved : Option (Bytes × Bool)
  pub ttl_ms : ℕ
  pub priority : ℕ

unfoldable pub deadline_of : QueuePolicy → ℕ → Request → Option ℕ
deadline_of policy now r =
    let ttl_ms = if r.ttl_ms == 0 then policy.default_ttl_ms else r.ttl_ms in
    if ttl_ms == 0 then none else some (now + ttl_ms)

-- `lanes[id]`.
abbrev pub lane_at : Bytes → QueueState → QueueLane
lane_at id q = value_or (lookup id q.lanes) new_lane

-- The new job goes to the printer, is refused, or waits.
unfoldable pub admit :
    QueuePolicy → ℕ → Request → Bytes → QueueLane → QueueState → QueueState × List Effect
admit policy now r job lane q =
    if drainable policy lane
    then (
      record q {
        lanes = assign r.printer_id (record lane { in_flight = true }) q.lanes;
        drained = suc q.drained;
      },
      starts r.printer_id job ∷ [],
    )
    else if not (policy.max_depth == 0) && leb policy.max_depth (length lane.waiting)
    then (
      record q { lanes = assign r.printer_id lane q.lanes; overflowed = suc q.overflowed },
      overflows job ∷ [],
    )
    else (let item : QueueItem = record {
      job = job;
      priority = r.priority;
      seq = q.next_seq;
      deadline = deadline_of policy now r;
    } in
        (
          record q {
            lanes =
                assign r.printer_id (record lane { waiting = lane.waiting ++ (item ∷ []) }) q.lanes;
            next_seq = suc q.next_seq % u64_mod;
          },
          held job ∷ [],
        ))

unfoldable pub enqueue : QueuePolicy → ℕ → Request → QueueState → QueueState × List Effect
unfolding admit
enqueue policy now r q =
    let lane = seeded r.status (lane_at r.printer_id q) in
    let touched = record q { lanes = assign r.printer_id lane q.lanes } in
    elim r.reserved [
      | none ↦ (touched, [])
      | some (job, created) ↦ if created then admit policy now r job lane q else (touched, [])
    ]

unfoldable pub unblock : Bytes → QueueState → QueueState
unblock id q = record q { lanes = update id (λ lane. record lane { blocked = false }) q.lanes }

unfoldable pub pause : Bytes → QueueState → QueueState
pause id q = record q { lanes = assign id (record (lane_at id q) { paused = true }) q.lanes }

unfoldable pub resume : Bytes → QueueState → QueueState
resume id q = record q { lanes = update id (λ lane. record lane { paused = false }) q.lanes }

unfoldable pub depth : Bytes → QueueState → ℕ
depth id q = elim (lookup id q.lanes) [ none ↦ 0 | some lane ↦ length lane.waiting ]

unfoldable pub blocked : Bytes → QueueState → Bool
blocked id q = elim (lookup id q.lanes) [ none ↦ false | some lane ↦ lane.blocked ]

unfoldable pub paused : Bytes → QueueState → Bool
paused id q = elim (lookup id q.lanes) [ none ↦ false | some lane ↦ lane.paused ]

-- The callback on the events of a job that the queue has started.
unfoldable pub on_job_event : Bytes → JobState → QueueState → QueueState
on_job_event id state q =
    if is_terminal state
    then record q {
      completions = q.completions ++ (record { printer_id = id; state = state } ∷ []);
    }
    else q

-- The callback on the driver's device events.
unfoldable pub on_device_event : Bytes → DeviceEvent → QueueState → QueueState
on_device_event id event q = record q { device_events = q.device_events ++ ((id, event) ∷ []) }

-- The calls that change the queue, as one type, and sequences of them.
pub data Op : Type 0 where
  enqueues : ℕ → Request → Op
  pumps : ℕ → Op
  unblocks pauses resumes : Bytes → Op
  job_event : Bytes → JobState → Op
  device_event : Bytes → DeviceEvent → Op

unfoldable pub step : QueuePolicy → Op → QueueState → QueueState × List Effect
step policy (enqueues now r) q = enqueue policy now r q
step policy (pumps now) q = ((pump policy now q).0, (pump policy now q).1)
step policy (unblocks id) q = (unblock id q, [])
step policy (pauses id) q = (pause id q, [])
step policy (resumes id) q = (resume id q, [])
step policy (job_event id state) q = (on_job_event id state q, [])
step policy (device_event id event) q = (on_device_event id event q, [])

unfoldable pub run : QueuePolicy → List Op → QueueState → QueueState × List Effect
unfolding step
run policy [] q = (q, [])
run policy (op ∷ ops) q =
    let next = step policy op q in let rest = run policy ops next.0 in (rest.0, next.1 ++ rest.1)
