-- ===== src/Queue/Order.antt =====
-- The order in which a lane drains its waiting jobs, and that `select` finds the first.
use mathlib.Core.List.{append_assoc, append-nil}
use printer_driver.Base.{
  ◌<◌, ℕ, zero, suc, true, false, some, List, [], ◌∷◌, ◌++◌, ◌≡◌, ◌⊎◌, refl, sym, ap, arith,
  if_holds, All, All-append, get_elem?, length, length-append, is_some,
}
use mathlib.Core.Bool.{false≢true}
use mathlib.Core.Path.{subst}
use printer_driver.Queue.Select.{takes_over, select_loop, select}
use printer_driver.Queue.{QueueItem, DrainOrder}

-- Which of two jobs the drain order puts first.
abbrev pub GoesBefore : DrainOrder → QueueItem → QueueItem → Type 0
GoesBefore DrainOrder.fifo x y = x.seq < y.seq
GoesBefore DrainOrder.priority x y =
    (y.priority < x.priority) ⊎ ((x.priority ≡ y.priority) × (x.seq < y.seq))

-- No job of the list goes before the item.
abbrev pub IsFirst : DrainOrder → QueueItem → List QueueItem → Type 0
IsFirst order item = All (λ other. ¬ GoesBefore order other item)

-- What `select` has to find in a list: the index of a job that none goes before.
abbrev pub Finds : DrainOrder → List QueueItem → ℕ → Type 0
Finds order items index =
    (item : QueueItem) × (get_elem? items index ≡ some item) × IsFirst order item items

takes_over_trans :
    (order : DrainOrder) (x y z : QueueItem)
    → ¬ GoesBefore order x y
    → takes_over order z y ≡ true
    → ¬ GoesBefore order x z
unfolding takes_over
takes_over_trans DrainOrder.fifo x y z h k = λ g. ground (arith, h, k, g)
takes_over_trans DrainOrder.priority x y z h k = λ g. ground (arith, h, k, g)

takes_over_kept :
    (order : DrainOrder) (x y : QueueItem) → takes_over order x y ≡ false → ¬ GoesBefore order x y
unfolding takes_over
takes_over_kept DrainOrder.fifo x y h = λ g. ground (arith, h, g)
takes_over_kept DrainOrder.priority x y h = λ g. ground (arith, h, g)

takes_over_self : (order : DrainOrder) (x : QueueItem) → ¬ GoesBefore order x x
takes_over_self DrainOrder.fifo x = λ g. ground (arith, g)
takes_over_self DrainOrder.priority x = λ g. ground (arith, g)

IsFirst-trans :
    (order : DrainOrder) (y z : QueueItem) (items : List QueueItem)
    → takes_over order z y ≡ true
    → IsFirst order y items
    → IsFirst order z items
IsFirst-trans order y z [] k h = tt
IsFirst-trans order y z (x ∷ items) k h =
    (takes_over_trans order x y z h.0 k, IsFirst-trans order y z items k h.1)

get_elem?-append :
    {A : Type 0}
    → (xs ys : List A) (i : ℕ) (x : A) → get_elem? xs i ≡ some x
    → get_elem? (xs ++ ys) i ≡ some x
get_elem?-append [] ys i x h = absurd (false≢true (ap is_some h))
get_elem?-append (y ∷ xs) ys zero x h = h
get_elem?-append (y ∷ xs) ys (suc i) x h = get_elem?-append xs ys i x h

get_elem?-length :
    {A : Type 0} → (xs ys : List A) (x : A) → get_elem? (xs ++ (x ∷ ys)) (length xs) ≡ some x
get_elem?-length [] ys x = refl
get_elem?-length (y ∷ xs) ys x = get_elem?-length xs ys x

Finds-snoc :
    (order : DrainOrder) (before rest : List QueueItem) (best : ℕ) (c incumbent : QueueItem)
    → Finds order
        ((before ++ (c ∷ [])) ++ rest)
        (select_loop order best incumbent (length (before ++ (c ∷ []))) rest)
    → Finds order
        (before ++ (c ∷ rest))
        (select_loop order best incumbent (suc (length before)) rest)
Finds-snoc order before rest best c incumbent f =
    let longer : length (before ++ (c ∷ [])) ≡ suc (length before) =
      omega (arith, length-append before (c ∷ [])) in
    subst (λ i. Finds order (before ++ (c ∷ rest)) (select_loop order best incumbent i rest)) longer
      (subst
        (λ items.
          Finds order items (select_loop order best incumbent (length (before ++ (c ∷ []))) rest))
        (append_assoc before (c ∷ []) rest) f)

select_loop-Finds :
    (order : DrainOrder) (rest before : List QueueItem) (best : ℕ) (incumbent : QueueItem)
    → get_elem? before best ≡ some incumbent
    → IsFirst order incumbent before
    → Finds order (before ++ rest) (select_loop order best incumbent (length before) rest)
unfolding select_loop
select_loop-Finds order [] before best incumbent h v =
    subst (λ items. Finds order items best) (sym (append-nil before)) (incumbent, h, v)
select_loop-Finds order (c ∷ rest) before best incumbent h v =
    if_holds (Finds order (before ++ (c ∷ rest))) (takes_over order c incumbent) _ _
      (λ e. Finds-snoc order before rest (length before) c c (
        select_loop-Finds order rest (before ++ (c ∷ [])) (length before) c
          (get_elem?-length before [] c)
          (All-append _ before (c ∷ []) (IsFirst-trans order incumbent c before e v)
            (takes_over_self order c, tt))))
      (λ e. Finds-snoc order before rest best c incumbent (
        select_loop-Finds order rest (before ++ (c ∷ [])) best incumbent
          (get_elem?-append before (c ∷ []) best incumbent h)
          (All-append _ before (c ∷ []) v (takes_over_kept order c incumbent e, tt))))

-- In a lane with a waiting job, `select` gives the index of a waiting job that no other goes before:
-- for `Fifo` none has a smaller sequence number, and for `Priority` none has a higher priority, nor the
-- same priority and a smaller sequence number.
pub select-Finds :
    (order : DrainOrder) (first : QueueItem) (rest : List QueueItem)
    → Finds order (first ∷ rest) (select order (first ∷ rest))
unfolding select
select-Finds order first rest =
    select_loop-Finds order rest (first ∷ []) 0 first refl (takes_over_self order first, tt)
