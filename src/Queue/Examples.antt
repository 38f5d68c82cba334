-- ===== src/Queue/Examples.antt =====
-- The theorems about the queue at a lane that holds three tickets.
use printer_driver.Base.{
  false, ◌==◌, eq_bytes_sym, ℕ, ◌≤◌, Bytes, codes, Bool, true, Option, some, none, List, [], ◌∷◌,
  ◌≡◌, refl, arith, All,
}
use printer_driver.Queue.Blocking.{run-HasBlocked, HasBlocked, StartsNone}
use printer_driver.Queue.Calls.{
  Op, pumps, pauses, resumes, job_event, device_event, run, depth, blocked,
}
use printer_driver.Queue.Depth.{depth-bounded}
use printer_driver.Queue.Draining.{pump_lane-IsPass, IsPass}
use printer_driver.Queue.Order.{select-Finds, Finds}
use printer_driver.Queue.Flight.{one_in_flight}
use printer_driver.Queue.Places.{count_starts, count_ends}
use printer_driver.Base.{◌+◌, ◌≤◌}
use printer_driver.Queue.Calls.{Request, enqueues}
use printer_driver.Base.{eq_bytes}
use printer_driver.Queue.Calls.{step, enqueue, admit, on_job_event, deadline_of}
use printer_driver.Store.Tables.{assign}
use printer_driver.Types.{is_terminal}
use printer_driver.Queue.Unknown.{unknown_blocks}
use printer_driver.Base.{inl, false}
use printer_driver.Queue.Pump.{pump_lane}
use printer_driver.Queue.Select.{select}
use printer_driver.Queue.{
  empty_queue, seeded, drainable, usable, QueuePolicy, QueueItem, QueueLane, QueueState, DrainOrder,
  new_lane,
}
use printer_driver.Store.Tables.{lookup}
use printer_driver.Types.{JobState, DeviceEvent}

abbrev kitchen : Bytes
kitchen = codes "kitchen"

abbrev rushed : QueuePolicy
rushed = record {
  hold_while_offline = true;
  default_ttl_ms = 0;
  max_depth = 3;
  drain_order = DrainOrder.priority;
}

abbrev ticket : ℕ → ℕ → Option ℕ → QueueItem
ticket n priority deadline = record {
  job = n ∷ [];
  priority = priority;
  seq = n;
  deadline = deadline;
}

abbrev stale : QueueItem
stale = ticket 1 2147483648 (some 500)

abbrev plain : QueueItem
plain = ticket 2 2147483648 none

abbrev urgent : QueueItem
urgent = ticket 3 2147483658 none

abbrev busy_lane : QueueLane
busy_lane = record new_lane { has_printer = true; waiting = stale ∷ plain ∷ urgent ∷ [] }

abbrev held_up : QueueState
held_up = record {
  lanes = (kitchen, record busy_lane { blocked = true }) ∷ [];
  next_seq = 4;
  expired = 0;
  overflowed = 0;
  drained = 1;
  completions = [];
  device_events = [];
}

abbrev evening : List Op
evening =
    device_event kitchen DeviceEvent.online
    ∷ pauses kitchen
    ∷ resumes kitchen
    ∷ job_event kitchen JobState.done_software
    ∷ pumps 1000
    ∷ []

-- The jobs of the default priority.
abbrev is_plain : QueueItem → Bool
is_plain item = item.priority == 2147483648

select-Finds_example :
    Finds DrainOrder.priority
      (stale ∷ plain ∷ urgent ∷ [])
      (select DrainOrder.priority (stale ∷ plain ∷ urgent ∷ []))
select-Finds_example = select-Finds DrainOrder.priority stale (plain ∷ urgent ∷ [])

pump_lane-IsPass_example : IsPass rushed 1000 busy_lane is_plain (pump_lane rushed 1000 busy_lane)
pump_lane-IsPass_example = pump_lane-IsPass rushed 1000 busy_lane is_plain

depth-bounded_example : depth kitchen (run rushed evening held_up).0 ≤ 3
depth-bounded_example =
    depth-bounded rushed evening held_up kitchen (λ h. omega (arith, h)) (omega arith, tt)

held_up-HasBlocked : HasBlocked kitchen held_up
unfolding lookup
held_up-HasBlocked = ((λ k h. ground (arith, h, eq_bytes_sym kitchen k)), ((λ e. refl), tt))

run-HasBlocked_example :
    All (StartsNone kitchen) (run rushed evening held_up).1
    × (blocked kitchen (run rushed evening held_up).0 ≡ true)
run-HasBlocked_example =
    run-HasBlocked rushed kitchen evening held_up (tt, (tt, (tt, (tt, (tt, tt)))))
      held_up-HasBlocked

abbrev order_for : ℕ → Request
order_for n = record {
  printer_id = kitchen;
  status = record { observed = false; online = none; cover_open = none; paper_out = none };
  reserved = some (n ∷ [], true);
  ttl_ms = 0;
  priority = 2147483648;
}

-- Two tickets for an idle printer; the first goes out, and the second goes out when the first has ended.
abbrev two_tickets : List Op
two_tickets =
    enqueues 10 (order_for 1)
    ∷ enqueues 20 (order_for 2)
    ∷ job_event kitchen JobState.done_software
    ∷ pumps 30
    ∷ []

one_in_flight_example :
    count_starts kitchen (run rushed two_tickets empty_queue).1 ≤ 1 + count_ends kitchen two_tickets
one_in_flight_example = one_in_flight rushed kitchen two_tickets

-- The first ticket has ended `Unknown` while the second waits.
abbrev until_the_end : List Op
until_the_end =
    enqueues 10 (order_for 1) ∷ enqueues 20 (order_for 2) ∷ job_event kitchen JobState.unknown ∷ []

unknown_blocks_example :
    All
      (StartsNone kitchen)
      (run rushed (pumps 30 ∷ evening) (run rushed until_the_end empty_queue).0).1
    × (blocked kitchen (run rushed (pumps 30 ∷ evening) (run rushed until_the_end empty_queue).0).0
        ≡ true)
unfolding run step enqueue admit seeded drainable usable lookup assign on_job_event is_terminal
    eq_bytes deadline_of
unknown_blocks_example =
    unknown_blocks rushed until_the_end 30 kitchen evening refl (inl (refl, refl))
      (tt, (tt, (tt, (tt, (tt, tt)))))
