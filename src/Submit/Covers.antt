-- ===== src/Submit/Covers.antt =====
-- Every job of a key but the one in the index is a known failure: what keeps it so.
use printer_driver.Base.{
  ℕ, zero, suc, Bytes, Bool, true, false, Option, none, some, List, [], ◌∷◌, ◌++◌, length,
  get_elem?, if_holds, ◌≡◌, ◌⊎◌, inl, inr, refl, sym, ap, ◌∙◌, arith, eq_bytes, eq_bytes_iff,
  Bool-cases,
}
use mathlib.Core.Option.{some-injective}
use mathlib.Core.Path.{subst}
use printer_driver.Store.{ok, err, record_state}
use printer_driver.Store.Tables.{lookup, assign, update, lookup-assign, lookup-update}
use printer_driver.Submit.{
  Payload, JobOptions, PrintJob, JobEntry, Driver, World, Task, Outcome, returned, threw,
  driver_after, update_at,
}
use printer_driver.Engine.{no_evidence}
use printer_driver.Types.{JobState, ConfidenceLevel, FailureReason}
use printer_driver.Submit.Calls.{
  known_failure, failed_and_finished, failed, terminate_failed, dispatch, fill,
}

get-append :
    {A : Type 0} (xs : List A) (y : A) (i : ℕ) (a : A)
    → get_elem? (xs ++ (y ∷ [])) i ≡ some a
    → (get_elem? xs i ≡ some a) ⊎ ((i ≡ length xs) × (a ≡ y))
get-append [] y zero a h = inr (refl, sym (some-injective _ _ h))
get-append [] y (suc i) a h = ground (arith, h)
get-append (x ∷ xs) y zero a h = inl h
get-append (x ∷ xs) y (suc i) a h = elim (get-append xs y i a h) [
  | inl old ↦ inl old
  | inr (e, f) ↦ inr (ap suc e, f)
]

get-update_at :
    {A : Type 0} (n : ℕ) (f : A → A) (xs : List A) (i : ℕ) (a : A)
    → get_elem? (update_at n f xs) i ≡ some a
    → (x : A) × ((get_elem? xs i ≡ some x) × ((a ≡ x) ⊎ (a ≡ f x)))
unfolding update_at
get-update_at n f [] i a h = ground (arith, h)
get-update_at zero f (x ∷ xs) zero a h = (x, (refl, inr (sym (some-injective _ _ h))))
get-update_at zero f (x ∷ xs) (suc i) a h = (a, (h, inl refl))
get-update_at (suc n) f (x ∷ xs) zero a h = (a, (h, inl refl))
get-update_at (suc n) f (x ∷ xs) (suc i) a h = get-update_at n f xs i a h

-- Every job of the key is a known failure or the one that the index has.
unfoldable pub Covered : Bytes → List PrintJob → List (Bytes × JobEntry) → Type 0
Covered k jobs by_key =
    (i : ℕ) (j : PrintJob)
    → get_elem? jobs i ≡ some j
    → j.key ≡ k
    → (known_failure j ≡ true) ⊎ ((e : JobEntry) × ((lookup k by_key ≡ some e) × (e.job ≡ i)))

-- Changes of jobs that keep keys and known failures.
unfoldable pub Keeps : (PrintJob → PrintJob) → Type 0
Keeps f =
    (j : PrintJob) → ((f j).key ≡ j.key) × (known_failure j ≡ true → known_failure (f j) ≡ true)

pub Covered-update_at :
    (k : Bytes) (n : ℕ) (f : PrintJob → PrintJob) (jobs : List PrintJob)
    (m : List (Bytes × JobEntry))
    → Keeps f
    → Covered k jobs m
    → Covered k (update_at n f jobs) m
unfolding Covered Keeps
Covered-update_at k n f jobs m keeps c i j found is_k =
    let (x, rest) = get-update_at n f jobs i j found in
    elim rest.1 [
      | inl same ↦ elim (c i x rest.0 (ap (λ (y : PrintJob). y.key) (sym same) ∙ is_k)) [
        | inl over ↦ inl (subst (λ y. known_failure y ≡ true) (sym same) over)
        | inr entry ↦ inr entry
      ]
      | inr changed ↦
          elim (c i x rest.0
            (sym (keeps x).0 ∙ ap (λ (y : PrintJob). y.key) (sym changed) ∙ is_k)) [
              | inl over ↦
                  inl (subst (λ y. known_failure y ≡ true) (sym changed) ((keeps x).1 over))
              | inr entry ↦ inr entry
            ]
    ]

-- The entry that a new job replaces, if it has the job's key, is that of a known failure.
unfoldable pub Replaces : Bytes → List PrintJob → List (Bytes × JobEntry) → Type 0
Replaces k jobs m = (e : JobEntry) → lookup k m ≡ some e → failed_and_finished jobs e ≡ true

failed_and_finished-at :
    (jobs : List PrintJob) (e : JobEntry) (i : ℕ) (j : PrintJob)
    → get_elem? jobs i ≡ some j
    → e.job ≡ i
    → failed_and_finished jobs e ≡ true
    → known_failure j ≡ true
failed_and_finished-at jobs e i j found same over =
    let at : get_elem? jobs e.job ≡ some j = ap (get_elem? jobs) same ∙ found in
    subst
      (λ (o : Option PrintJob).
        elim o as (λ x. Bool) [ none ↦ false | some y ↦ known_failure y ] ≡ true)
      at over

lookup-other :
    (key k : Bytes) (e : JobEntry) (m : List (Bytes × JobEntry))
    → eq_bytes key k ≡ false
    → lookup k (assign key e m) ≡ lookup k m
lookup-other key k e m h = lookup-assign key k e m ∙ rw h refl

pub Covered-new :
    (k : Bytes) (jobs : List PrintJob) (m : List (Bytes × JobEntry)) (j : PrintJob) (e : JobEntry)
    → e.job ≡ length jobs
    → (j.key ≡ k → Replaces k jobs m)
    → Covered k jobs m
    → Covered k (jobs ++ (j ∷ [])) (assign j.key e m)
unfolding Covered Replaces
Covered-new k jobs m j e at free c i x found is_k = elim (get-append jobs j i x found) [
  | inr (last, same) ↦
      let key : j.key ≡ k = ap (λ (y : PrintJob). y.key) (sym same) ∙ is_k in
      let is_k : eq_bytes j.key k ≡ true = (eq_bytes_iff j.key k).1 key in
      inr (e, (lookup-assign j.key k e m ∙ rw is_k refl, at ∙ sym last))
  | inl old ↦ elim (c i x old is_k) [
    | inl over ↦ inl over
    | inr (e0, (entry, points)) ↦ elim (Bool-cases (eq_bytes j.key k)) [
      | inl same ↦ inl (
          failed_and_finished-at jobs e0 i x old points
            (free ((eq_bytes_iff j.key k).0 same) e0 entry))
      | inr other ↦ inr (e0, (lookup-other j.key k e m other ∙ entry, points))
    ]
  ]
]

pub Covered-fill :
    (k key : Bytes) (p : Payload) (options : JobOptions) (jobs : List PrintJob)
    (m : List (Bytes × JobEntry))
    → Covered k jobs m
    → Covered k jobs (update key (fill p options) m)
unfolding Covered
Covered-fill k key p options jobs m c i j found is_k = elim (c i j found is_k) [
  | inl over ↦ inl over
  | inr (e, (entry, points)) ↦ elim (Bool-cases (eq_bytes key k)) [
    | inl same ↦
        inr (
          fill p options e,
          (lookup-update key k (fill p options) m ∙ rw (same, entry) refl, points),
        )
    | inr other ↦ inr (e, (lookup-update key k (fill p options) m ∙ rw (other, entry) refl, points))
  ]
]

abbrev pub CoversAfter : Bytes → Outcome → Type 0
CoversAfter k o = Covered k (driver_after o).jobs (driver_after o).by_key

failed-Keeps : Keeps failed
unfolding Keeps
failed-Keeps j = (refl, λ over. refl)

terminated-Covered :
    (k : Bytes) (w : World) (job : ℕ) (id : Bytes) (result : Option ℕ) (d : Driver)
    → Covered k d.jobs d.by_key
    → CoversAfter k (terminate_failed w job id result d)
unfolding terminate_failed
terminated-Covered k w job id result d c =
    elim (record_state w.end_disk w.end_now id JobState.failed_known
        ConfidenceLevel.transport_accepted FailureReason.transport_unreachable no_evidence d.store)
      as (λ r. CoversAfter k (elim r as (λ x. Outcome) [
        | err error s ↦ threw error (record d { store = s })
        | ok s ↦ returned result (record d { store = s; jobs = update_at job failed d.jobs })
      ])) [ err error s ↦ c | ok s ↦ Covered-update_at k job failed d.jobs d.by_key failed-Keeps c ]

pub dispatch-Covered :
    (k : Bytes) (w : World) (job : ℕ) (id : Bytes) (result : Option ℕ) (task : Task) (d : Driver)
    → Covered k d.jobs d.by_key
    → CoversAfter k (dispatch w job id result task d)
unfolding dispatch terminate_failed
dispatch-Covered k w job id result task d c =
    if_holds (CoversAfter k) w.stopping (terminate_failed w job id result d) _
      (λ stopped. terminated-Covered k w job id result d c) (λ live. c)
