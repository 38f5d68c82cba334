-- ===== src/Queue/Draining.antt =====
-- What a pass of the pump does to one lane: which jobs end, which one starts, and which ones stay.
use printer_driver.Base.{
  ◌≤◌, leb, ℕ, zero, suc, ◌+◌, Bool, true, false, Option, some, none, List, [], ◌∷◌, ◌≡◌, ◌⊎◌, refl,
  ap, arith, if◌then◌else◌, if_holds, All, get_elem?, inl, inr, is_some, value_or,
}
use mathlib.Core.Bool.{false≢true}
use mathlib.Core.Path.{subst}
use printer_driver.Queue.Pump.{pump_lane, start_next, expire, erase, is_due, LanePass}
use printer_driver.Queue.Select.{select}
use printer_driver.Queue.{QueuePolicy, QueueItem, QueueLane, drainable, usable}
use printer_driver.Queue.Order.{IsFirst, select-Finds}

-- The deadline is there and has passed.
abbrev pub IsExpired : ℕ → Option ℕ → Type 0
IsExpired now none = ⊥
IsExpired now (some deadline) = deadline ≤ now

is_due-IsExpired :
    (now : ℕ) (item : QueueItem) → is_due now item ≡ true → IsExpired now item.deadline
unfolding is_due
is_due-IsExpired now item = go item.deadline
  where
    go :
        (deadline : Option ℕ)
        → elim deadline as (λ x. Bool) [ none ↦ false | some d ↦ leb d now ] ≡ true
        → IsExpired now deadline
    go none h = absurd (false≢true h)
    go (some d) h = ground (arith, h)

is_due-not_IsExpired :
    (now : ℕ) (item : QueueItem) → is_due now item ≡ false → ¬ IsExpired now item.deadline
unfolding is_due
is_due-not_IsExpired now item = go item.deadline
  where
    go :
        (deadline : Option ℕ)
        → elim deadline as (λ x. Bool) [ none ↦ false | some d ↦ leb d now ] ≡ false
        → ¬ IsExpired now deadline
    go none h = λ x. x
    go (some d) h = λ x. ground (arith, h, x)

-- How many jobs of a list pass a test.
abbrev pub count : (QueueItem → Bool) → List QueueItem → ℕ
count f [] = 0
count f (item ∷ items) = (if f item then 1 else 0) + count f items

abbrev pub count_some : (QueueItem → Bool) → Option QueueItem → ℕ
count_some f none = 0
count_some f (some item) = if f item then 1 else 0

count-expire :
    (f : QueueItem → Bool) (now : ℕ) (items : List QueueItem)
    → count f items ≡ count f (expire now items).1 + count f (expire now items).0
unfolding expire
count-expire f now [] = omega arith
count-expire f now (item ∷ items) = ground (arith, count-expire f now items)

expire-ended :
    (now : ℕ) (items : List QueueItem)
    → All (λ item. IsExpired now item.deadline) (expire now items).1
unfolding expire
expire-ended now [] = tt
expire-ended now (item ∷ items) =
    if_holds
      (λ (x : List QueueItem × List QueueItem). All (λ item. IsExpired now item.deadline) x.1)
      (is_due now item) _ _ (λ e. (is_due-IsExpired now item e, expire-ended now items))
      (λ e. expire-ended now items)

expire-kept :
    (now : ℕ) (items : List QueueItem)
    → All (λ item. ¬ IsExpired now item.deadline) (expire now items).0
unfolding expire
expire-kept now [] = tt
expire-kept now (item ∷ items) =
    if_holds
      (λ (x : List QueueItem × List QueueItem). All (λ item. ¬ IsExpired now item.deadline) x.0)
      (is_due now item) _ _ (λ e. expire-kept now items)
      (λ e. (is_due-not_IsExpired now item e, expire-kept now items))

erase-All :
    (P : QueueItem → Type 0) (i : ℕ) (items : List QueueItem) → All P items → All P (erase i items)
unfolding erase
erase-All P i [] v = tt
erase-All P zero (item ∷ items) v = v.1
erase-All P (suc i) (item ∷ items) v = (v.0, erase-All P i items v.1)

get_elem?-All :
    (P : QueueItem → Type 0) (items : List QueueItem) (i : ℕ) (item : QueueItem)
    → All P items
    → get_elem? items i ≡ some item
    → P item
get_elem?-All P [] i item v h = absurd (false≢true (ap is_some h))
get_elem?-All P (x ∷ items) zero item v h = subst P (ap (λ o. value_or o x) h) v.0
get_elem?-All P (x ∷ items) (suc i) item v h = get_elem?-All P items i item v.1 h

count-erase :
    (f : QueueItem → Bool) (items : List QueueItem) (i : ℕ) (item : QueueItem)
    → get_elem? items i ≡ some item
    → count f items ≡ count_some f (some item) + count f (erase i items)
unfolding erase
count-erase f [] i item h = absurd (false≢true (ap is_some h))
count-erase f (x ∷ items) zero item h =
    ap (λ o. count_some f (some (value_or o x)) + count f items) h
count-erase f (x ∷ items) (suc i) item h = omega (arith, count-erase f items i item h)

-- No one holds the lane up: neither the operator, nor a job of unknown outcome, nor a job in flight,
-- nor, if the policy holds jobs while the printer is away, anything that the printer has reported.
abbrev pub CanDrain : QueuePolicy → QueueLane → Type 0
CanDrain policy lane =
    (lane.paused ≡ false)
    × (lane.blocked ≡ false)
    × (lane.in_flight ≡ false)
    × ((policy.hold_while_offline ≡ false)
        ⊎ ((lane.offline ≡ false)
            × (lane.cover_open ≡ false)
            × (lane.paper_out ≡ false)
            × (lane.link_down ≡ false)))

drainable-CanDrain :
    (policy : QueuePolicy) (lane : QueueLane) → drainable policy lane ≡ true → CanDrain policy lane
unfolding drainable usable
drainable-CanDrain policy lane h = ground (arith, h)

drainable-not_CanDrain :
    (policy : QueuePolicy) (lane : QueueLane)
    → drainable policy lane ≡ false
    → ¬ CanDrain policy lane
unfolding drainable usable
drainable-not_CanDrain policy lane h = λ c. ground (arith, h, c)

-- What a pass does with the lane that it is given.
abbrev pub Picks : QueuePolicy → ℕ → QueueLane → Option QueueItem → List QueueItem → Type 0
Picks policy now lane none left = (¬ CanDrain policy lane) ⊎ (left ≡ [])
Picks policy now lane (some item) left =
    CanDrain policy lane × (¬ IsExpired now item.deadline) × IsFirst policy.drain_order item left

abbrev pub IsPass : QueuePolicy → ℕ → QueueLane → (QueueItem → Bool) → LanePass → Type 0
IsPass policy now lane f p =
    All (λ item. IsExpired now item.deadline) p.ended
    × All (λ item. ¬ IsExpired now item.deadline) p.lane.waiting
    × Picks policy now lane p.picked p.lane.waiting
    × (count f lane.waiting ≡ count f p.ended + (count_some f p.picked + count f p.lane.waiting))

drainable-waiting :
    (policy : QueuePolicy) (lane : QueueLane) (items : List QueueItem)
    → drainable policy (record lane { waiting = items }) ≡ drainable policy lane
unfolding drainable usable
drainable-waiting policy lane items = refl

start_next-IsPass :
    (policy : QueuePolicy) (now : ℕ) (lane : QueueLane) (f : QueueItem → Bool)
    (ended kept : List QueueItem)
    → All (λ item. IsExpired now item.deadline) ended
    → All (λ item. ¬ IsExpired now item.deadline) kept
    → count f lane.waiting ≡ count f ended + count f kept
    → IsPass policy now lane f (start_next policy ended (record lane { waiting = kept }))
unfolding start_next drainable
start_next-IsPass policy now lane f ended [] he hk hc =
    if_holds (IsPass policy now lane f) (drainable policy lane) _ _
      (λ ready. (he, tt, inr refl, omega (arith, hc)))
      (λ e. (he, tt, inl (drainable-not_CanDrain policy lane e), omega (arith, hc)))
start_next-IsPass policy now lane f ended (first ∷ rest) he hk hc =
    let best = select-Finds policy.drain_order first rest in
    if_holds (IsPass policy now lane f) (drainable policy lane) _ _
      (λ ready. rw (best.1) (
        he,
        erase-All _ (select policy.drain_order (first ∷ rest)) (first ∷ rest) hk,
        (
          drainable-CanDrain policy lane ready,
          get_elem?-All _ (first ∷ rest) (select policy.drain_order (first ∷ rest)) best.0 hk
              best.1,
          erase-All _ (select policy.drain_order (first ∷ rest)) (first ∷ rest) best.2,
        ),
        omega (
          arith,
          hc,
          count-erase f (first ∷ rest) (select policy.drain_order (first ∷ rest)) best.0 best.1,
        ),
      ))
      (λ e. (he, hk, inl (drainable-not_CanDrain policy lane e), omega (arith, hc)))

-- A pass of the pump over a lane ends just the waiting jobs whose deadline has passed; it starts one of
-- the others if the lane can be drained and there is one, and then it is one that no job left behind
-- goes before in the policy's order; and the jobs that end, the one that starts and the ones that stay
-- are the jobs that waited, whichever test they are counted by.
pub pump_lane-IsPass :
    (policy : QueuePolicy) (now : ℕ) (lane : QueueLane) (f : QueueItem → Bool)
    → IsPass policy now lane f (pump_lane policy now lane)
unfolding pump_lane
pump_lane-IsPass policy now lane f =
    start_next-IsPass policy now lane f (expire now lane.waiting).1 (expire now lane.waiting).0
      (expire-ended now lane.waiting) (expire-kept now lane.waiting)
      (count-expire f now lane.waiting)
