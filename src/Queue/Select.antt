-- ===== src/Queue/Select.antt =====
-- `selectLocked`: which waiting job a lane drains next.
use printer_driver.Base.{
  ℕ, suc, Bool, true, false, List, [], ◌∷◌, if◌then◌else◌, ltb, ◌==◌, not, ◌&&◌,
}
use printer_driver.Queue.{DrainOrder, QueueItem}

abbrev is_priority : DrainOrder → Bool
is_priority DrainOrder.priority = true
is_priority DrainOrder.fifo = false

-- Does the candidate take the incumbent's place?
unfoldable pub takes_over : DrainOrder → QueueItem → QueueItem → Bool
takes_over order candidate incumbent =
    if is_priority order && not (candidate.priority == incumbent.priority)
    then ltb incumbent.priority candidate.priority
    else ltb candidate.seq incumbent.seq

-- The loop from index `i` on, with the index of the best item before it and that item.
unfoldable pub select_loop : DrainOrder → ℕ → QueueItem → ℕ → List QueueItem → ℕ
select_loop order best incumbent i [] = best
select_loop order best incumbent i (candidate ∷ rest) =
    let taken = select_loop order i candidate (suc i) rest in
    let kept = select_loop order best incumbent (suc i) rest in
    if takes_over order candidate incumbent then taken else kept

unfoldable pub select : DrainOrder → List QueueItem → ℕ
unfolding select_loop
select order [] = 0
select order (first ∷ rest) = select_loop order 0 first 1 rest
