-- ===== src/Submit/Unique.antt =====
-- A key has one job that has not ended as `FailedKnown`, whatever is submitted.
use printer_driver.Base.{
  ℕ, Bytes, Bool, true, false, not, ◌&&◌, Option, none, some, List, [], ◌∷◌, length, get_elem?,
  if_holds, All, ◌≡◌, ◌≢◌, inl, inr, refl, sym, ap, ◌∙◌, arith, Option-cases,
}
use mathlib.Core.Option.{some-injective}
use mathlib.Core.Path.{subst}
use printer_driver.Store.{JobStore, ok, err, create_job}
use printer_driver.Store.Tables.{lookup, update}
use printer_driver.Submit.{
  Payload, kind, payload_input_bytes, JobOptions, PrintJob, JobEntry, Driver, World, Outcome,
  returned, threw, new_driver, default_options,
}
use printer_driver.Types.{JobState}
use printer_driver.Submit.Calls.{
  known_failure, failed_and_finished, find_entry, auto_key, effective_key, new_record, new_job,
  dispatch, admit, submit_new, or_else, next_attempt, submit, reserve, submit_reserved, fill,
}
use printer_driver.Submit.Steps.{Step, step, run, publish, end_with}
use printer_driver.Journal.Lines.{PayloadKind}
use printer_driver.Submit.Covers.{
  Covered, Keeps, Replaces, Covered-update_at, Covered-new, Covered-fill, dispatch-Covered,
  CoversAfter,
}

-- The key that a new job gets is the key that was looked up, unless it was generated.
find_entry-effective :
    (w : World) (key k : Bytes) (d : Driver)
    → auto_key w ≢ k
    → effective_key w key ≡ k
    → (key ≡ k) × (find_entry key d ≡ lookup k d.by_key)
unfolding find_entry
find_entry-effective w [] k d auto is_k = absurd (auto is_k)
find_entry-effective w (b ∷ bs) k d auto is_k = (is_k, ap (λ x. lookup x d.by_key) is_k)

submit_new-Covered :
    (k : Bytes) (w : World) (printer : Bytes) (payload : Option Payload) (options : JobOptions)
    (attempt : ℕ) (banner : Bool) (d : Driver)
    → (effective_key w options.key ≡ k → Replaces k d.jobs d.by_key)
    → Covered k d.jobs d.by_key
    → CoversAfter k (submit_new w printer payload options attempt banner d)
unfolding submit_new admit
submit_new-Covered k w printer none options attempt banner d free c = c
submit_new-Covered k w printer (some p) options attempt banner d free c =
    let key = effective_key w options.key in
    elim (create_job w.disk w.now
        (new_record w printer key attempt (kind p) (payload_input_bytes p)) d.store)
      as (λ r. CoversAfter k (elim r as (λ x. Outcome) [
        | err error s ↦ threw error (record d { store = s })
        | ok s ↦
            dispatch w (length d.jobs) w.job_id (some (length d.jobs))
              (record {
                job = length d.jobs;
                printer_id = printer;
                payload = p;
                options = options;
                attempt = attempt;
                banner = banner;
              })
              (admit w printer attempt key (some p) options d s)
      ])) [
        | err error s ↦ c
        | ok s ↦
            dispatch-Covered k w (length d.jobs) w.job_id (some (length d.jobs)) _
              (admit w printer attempt key (some p) options d s)
              (Covered-new k d.jobs d.by_key (new_job w printer key attempt) _ refl free c)
      ]

same_entry : {A : Type 0} (o : Option A) (x y : A) → o ≡ some x → o ≡ some y → x ≡ y
same_entry o x y p q = some-injective x y (sym p ∙ q)

submit-Covered :
    (k : Bytes) (w : World) (printer : Bytes) (payload : Option Payload) (options : JobOptions)
    (reprint banner : Bool) (d : Driver)
    → auto_key w ≢ k
    → (reprint ≡ true → options.key ≢ k)
    → Covered k d.jobs d.by_key
    → CoversAfter k (submit w printer payload options reprint banner d)
unfolding submit Replaces
submit-Covered k w printer payload options reprint banner d auto no_reprint c =
    elim (Option-cases (find_entry options.key d)) [
      | inl missing ↦
          rw (missing, submit)
            (submit_new-Covered k w printer payload options 1 banner d
              (λ is_k e entry.
                let (key, looked_up) = find_entry-effective w options.key k d auto is_k in
                ground (arith, missing, looked_up, entry))
              c)
      | inr (e, found) ↦
          rw (found, submit)
            (if_holds (CoversAfter k) (not reprint && not (failed_and_finished d.jobs e))
              (returned (some e.job) d)
              (submit_new w printer (or_else payload e.payload) options (next_attempt e.attempt)
                banner d)
              (λ kept. c)
              (λ retried.
                submit_new-Covered k w printer (or_else payload e.payload) options
                  (next_attempt e.attempt) banner d
                  (λ is_k e' entry.
                    let (key, looked_up) = find_entry-effective w options.key k d auto is_k in
                    let same : e ≡ e' =
                      same_entry (lookup k d.by_key) e e' (sym looked_up ∙ found) entry in
                    subst (λ x. failed_and_finished d.jobs x ≡ true) same
                      (ground (arith, retried, λ (r : reprint ≡ true). no_reprint r key)))
                  c))
    ]

reserve-Covered :
    (k : Bytes) (w : World) (printer key : Bytes) (payload_kind : PayloadKind) (bytes : ℕ)
    (d : Driver)
    → auto_key w ≢ k
    → Covered k d.jobs d.by_key
    → CoversAfter k (reserve w printer key payload_kind bytes d).0
unfolding reserve admit Replaces
reserve-Covered k w printer key payload_kind bytes d auto c =
    elim (Option-cases (find_entry key d)) [
      | inr (e, found) ↦ rw (found, reserve) c
      | inl missing ↦
          rw (missing, reserve)
            (elim (create_job w.disk w.now
                (new_record w printer (effective_key w key) 1 payload_kind bytes) d.store)
              as (λ r.
                CoversAfter k
                  (elim r as (λ x. Outcome × Bool) [
                    | err error s ↦ (threw error (record d { store = s }), false)
                    | ok s ↦ (
                      returned (some (length d.jobs))
                          (admit w printer 1 (effective_key w key) none default_options d s),
                      true,
                    )
                  ]).0) [
                    | err error s ↦ c
                    | ok s ↦
                        Covered-new k d.jobs d.by_key (new_job w printer (effective_key w key) 1) _
                          refl
                          (λ is_k e entry.
                            let (same, looked_up) = find_entry-effective w key k d auto is_k in
                            ground (arith, missing, looked_up, entry))
                          c
                  ])
    ]

submit_reserved-Covered :
    (k : Bytes) (w : World) (printer : Bytes) (job : ℕ) (payload : Payload) (options : JobOptions)
    (d : Driver)
    → Covered k d.jobs d.by_key
    → CoversAfter k (submit_reserved w printer job payload options d)
unfolding submit_reserved
submit_reserved-Covered k w printer job payload options d c =
    elim (Option-cases (get_elem? d.jobs job)) [
      | inl dangling ↦ rw (dangling, submit_reserved) c
      | inr (j, found) ↦
          rw (found, submit_reserved)
            (if_holds (CoversAfter k) j.finished (returned none d) _ (λ over. c)
              (λ live.
                dispatch-Covered k w job j.id none _
                  (record d { by_key = update j.key (fill payload options) d.by_key })
                  (Covered-fill k j.key payload options d.jobs d.by_key c)))
    ]

-- No step reprints the key by force, and no generated key is the key.
abbrev pub Respects : Bytes → Step → Type 0
Respects k (Step.prints w printer payload options) = auto_key w ≢ k
Respects k (Step.reprints w printer payload options banner) = (auto_key w ≢ k) × (options.key ≢ k)
Respects k (Step.reserves w printer key payload_kind bytes) = auto_key w ≢ k
Respects k _ = Unit

publish-Keeps : (state : JobState) → Keeps (publish state)
unfolding Keeps
publish-Keeps state j = ground arith

end_with-Keeps : (state : JobState) → Keeps (end_with state)
unfolding Keeps
end_with-Keeps state j = ground arith

step-Covered :
    (k : Bytes) (s : Step) (d : Driver)
    → Respects k s
    → Covered k d.jobs d.by_key
    → Covered k (step s d).jobs (step s d).by_key
unfolding step
step-Covered k (Step.prints w printer payload options) d r c =
    submit-Covered k w printer (some payload) options false false d r
      (λ never. ground (arith, never)) c
step-Covered k (Step.reprints w printer payload options banner) d r c =
    submit-Covered k w printer payload options true banner d r.0 (λ always. r.1) c
step-Covered k (Step.reserves w printer key payload_kind bytes) d r c =
    reserve-Covered k w printer key payload_kind bytes d r c
step-Covered k (Step.submits_reserved w printer job payload options) d r c =
    submit_reserved-Covered k w printer job payload options d c
step-Covered k (Step.publishes job state) d r c =
    Covered-update_at k job (publish state) d.jobs d.by_key (publish-Keeps state) c
step-Covered k (Step.ends job state) d r c =
    Covered-update_at k job (end_with state) d.jobs d.by_key (end_with-Keeps state) c

run-Covered :
    (k : Bytes) (ss : List Step) (d : Driver)
    → All (Respects k) ss
    → Covered k d.jobs d.by_key
    → Covered k (run ss d).jobs (run ss d).by_key
unfolding run
run-Covered k [] d r c = c
run-Covered k (s ∷ ss) d r c = run-Covered k ss (step s d) r.1 (step-Covered k s d r.0 c)

-- Whatever is printed, reserved and released, on any printer, while jobs progress and end in any way, a
-- key has at most one job that has not ended as `FailedKnown`: of two jobs of the key neither of which
-- has, both are the same. No step reprints the key by force, and the key is none that the random
-- generator makes.
pub run_unique :
    (store : JobStore) (ss : List Step) (k : Bytes) (a b : ℕ) (j l : PrintJob)
    → All (Respects k) ss
    → get_elem? (run ss (new_driver store)).jobs a ≡ some j
    → get_elem? (run ss (new_driver store)).jobs b ≡ some l
    → j.key ≡ k
    → l.key ≡ k
    → known_failure j ≡ false
    → known_failure l ≡ false
    → a ≡ b
unfolding Covered
run_unique store ss k a b j l r at_a at_b key_j key_l live_j live_l =
    let c = run-Covered k ss (new_driver store) r (λ i x found is_k. ground (arith, found)) in
    elim (c a j at_a key_j) [
      | inl over ↦ ground (arith, over, live_j)
      | inr (e, (entry, points)) ↦ elim (c b l at_b key_l) [
        | inl over ↦ ground (arith, over, live_l)
        | inr (f, (other, points_too)) ↦
            sym points
            ∙ ap (λ (x : JobEntry). x.job)
                (same_entry (lookup k (run ss (new_driver store)).by_key) e f entry other)
            ∙ points_too
      ]
    ]
