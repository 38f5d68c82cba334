-- ===== src/Queue/Unknown.antt =====
-- A job that ends `Unknown` blocks its lane: `docs/sdk-spec.md` 12, rule 1.
use mathlib.Core.Path.{subst}
use printer_driver.Base.{
  is_some, ℕ, Bytes, true, none, List, [], ◌∷◌, ◌≡◌, ◌⊎◌, inl, inr, sym, arith, if_holds, All,
  All-append, eq_bytes, eq_bytes_iff,
}
use printer_driver.Queue.Blocking.{
  IsBlocked, OtherThan, StartsNone, HasBlocked, IsBlocked-IsKept, pump_lanes-StartsNone,
  run-HasBlocked,
}
use printer_driver.Queue.Calls.{Op, pumps, step, run, blocked}
use printer_driver.Queue.Distinct.{
  IsDistinct, update-IsDistinct, apply_events-IsDistinct, run-IsDistinct,
}
use printer_driver.Queue.Keys.{apply_events-Grows, apply_completions-Grows, pump_lanes-Grows}
use printer_driver.Queue.Lanes.{
  Lanes, Every, MayMiss, Unblocks, apply_completions-Every, pump_lanes-Every,
}
use printer_driver.Queue.Pump.{complete, apply_completions, apply_inbox, pump}
use printer_driver.Queue.{empty_queue, QueuePolicy, QueueCompletion, QueueState}
use printer_driver.Store.Tables.{lookup, update}
use printer_driver.Types.{JobState}

-- One of the completions says that a job of the printer ended `Unknown`.
abbrev pub TellsUnknown : Bytes → List QueueCompletion → Type 0
TellsUnknown id [] = ⊥
TellsUnknown id (c ∷ cs) = ((c.printer_id ≡ id) × (c.state ≡ JobState.unknown)) ⊎ TellsUnknown id cs

absent-IsBlocked :
    (id : Bytes) (lanes : Lanes) → lookup id lanes ≡ none → Every (IsBlocked id) lanes
unfolding lookup
absent-IsBlocked id [] h = tt
absent-IsBlocked id ((k, lane) ∷ lanes) h =
    ((λ e. ground (arith, h, e)), absent-IsBlocked id lanes (ground (arith, h)))

complete-IsBlocked :
    (id : Bytes) (state : JobState) (lanes : Lanes)
    → state ≡ JobState.unknown
    → IsDistinct lanes
    → Every (IsBlocked id) (update id (complete state) lanes)
unfolding update complete
complete-IsBlocked id state [] s v = tt
complete-IsBlocked id state ((k, lane) ∷ lanes) s v =
    if_holds (Every (IsBlocked id)) (eq_bytes k id) _ _
      (λ e. (
        (λ same. ground (arith, s)),
        absent-IsBlocked id lanes (ground (arith, v.0, eq_bytes_iff k id, e)),
      ))
      (λ e. ((λ same. ground (arith, same, e)), complete-IsBlocked id state lanes s v.1))

apply_completions-IsBlocked :
    (policy : QueuePolicy) (id : Bytes) (cs : List QueueCompletion) (lanes : Lanes)
    → TellsUnknown id cs
    → IsDistinct lanes
    → Every (IsBlocked id) (apply_completions cs lanes)
unfolding apply_completions
apply_completions-IsBlocked policy id [] lanes t v = absurd t
apply_completions-IsBlocked policy id (c ∷ cs) lanes (inl t) v =
    apply_completions-Every policy (OtherThan id) (OtherThan id) (IsBlocked id)
      (IsBlocked-IsKept policy id) cs _
      (subst (λ k. Every (IsBlocked id) (update k (complete c.state) lanes)) (sym t.0)
        (complete-IsBlocked id c.state lanes t.1 v))
apply_completions-IsBlocked policy id (c ∷ cs) lanes (inr t) v =
    apply_completions-IsBlocked policy id cs _ t
      (update-IsDistinct c.printer_id (complete c.state) lanes v)

apply_inbox-HasBlocked :
    (policy : QueuePolicy) (id : Bytes) (q : QueueState)
    → MayMiss (OtherThan id) q
    → IsDistinct q.lanes
    → TellsUnknown id q.completions
    → HasBlocked id (apply_inbox q)
unfolding apply_inbox
apply_inbox-HasBlocked policy id q n v t = (
  (λ k m.
      n k (
        apply_events-Grows q.device_events q.lanes k
          (apply_completions-Grows q.completions _ k m))),
  apply_completions-IsBlocked policy id q.completions _ t
      (apply_events-IsDistinct q.device_events q.lanes v),
)

present-MayMiss :
    (id : Bytes) (q : QueueState) → is_some (lookup id q.lanes) ≡ true → MayMiss (OtherThan id) q
present-MayMiss id q h k m = ground (arith, h, m, eq_bytes_iff k id)

-- After any calls from an empty queue, when the inbox tells of a job that ended `Unknown` on a printer
-- with a lane: the pump that reads it, and every call behind it up to an `unblock` of that printer, start
-- no job on the printer, and its lane is blocked from then on.
pub unknown_blocks :
    (policy : QueuePolicy) (before : List Op) (now : ℕ) (id : Bytes) (ops : List Op)
    → is_some (lookup id (run policy before empty_queue).0.lanes) ≡ true
    → TellsUnknown id (run policy before empty_queue).0.completions
    → All (Unblocks (OtherThan id)) ops
    → All (StartsNone id) (run policy (pumps now ∷ ops) (run policy before empty_queue).0).1
      × (blocked id (run policy (pumps now ∷ ops) (run policy before empty_queue).0).0 ≡ true)
unfolding run step pump
unknown_blocks policy before now id ops n t u =
    let q = (run policy before empty_queue).0 in
    let taken =
      apply_inbox-HasBlocked policy id q (present-MayMiss id q n)
        (run-IsDistinct policy before empty_queue tt) t in
    let pumped : HasBlocked id (pump policy now q).0 = (
      (λ k m. taken.0 k (pump_lanes-Grows policy now _ none k m)),
      pump_lanes-Every policy (OtherThan id) (OtherThan id) (IsBlocked id)
          (IsBlocked-IsKept policy id) now _ none taken.1,
    ) in
    let behind = run-HasBlocked policy id ops _ u pumped in
    (
      All-append (StartsNone id) _ _ (pump_lanes-StartsNone policy now id _ none taken.1) behind.0,
      behind.1,
    )
