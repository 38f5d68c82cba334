-- ===== src/Store/Recovery.antt =====
-- What `load` makes of a journal: the jobs a crash left behind, each in a terminal state.
use mathlib.Core.Option
use printer_driver.Base.{
  ℕ, Bytes, Bool, true, false, Option, none, some, List, [], ◌∷◌, ◌++◌, ◌≡◌, refl, ap, sym, ◌∙◌,
  inl, inr, arith, Option-cases, if◌then◌else◌, eq_bytes, is_some, Bool-cases,
}
use mathlib.Core.Bool.{false≢true}
use printer_driver.Base.{value_or}
use printer_driver.Journal.Files.{read_journal}
use printer_driver.Journal.Lines.{JobRecord, JournalEntry, job, state, tokens}
use printer_driver.Store.Replay.{IsDurable, forget}
use printer_driver.Store.Tables.{lookup, update, lookup-update, lookup-append_new, map_values}
use printer_driver.Store.{
  Maps, JobStore, apply_entry, replay, no_maps, recovered_state, recover_record, recover_all, load,
  open_store, find_by_id,
}
use printer_driver.Types.{JobState, is_terminal}

-- Is the name on the list?
unfoldable pub listed : Bytes → List Bytes → Bool
listed id [] = false
listed id (x ∷ xs) = if eq_bytes x id then true else listed id xs

listed-append_one :
    (id x : Bytes) (xs : List Bytes)
    → listed id (xs ++ (x ∷ [])) ≡ (if eq_bytes x id then true else listed id xs)
unfolding listed
listed-append_one id x [] = refl
listed-append_one id x (y ∷ xs) = ground (arith, listed-append_one id x xs)

-- `load` finds every job of the table through the order.
abbrev IsListed : Maps → Type 0
IsListed m = (id : Bytes) → is_some (lookup id m.by_id) ≡ true → listed id m.order ≡ true

is_some-map : {A : Type 0} → (f : A → A) (x : Option A) → is_some (Option.map f x) ≡ is_some x
is_some-map f none = refl
is_some-map f (some x) = refl

update-IsListed :
    (k : Bytes) (f : JobRecord → JobRecord) (m : Maps)
    → IsListed m
    → IsListed (record m { by_id = update k f m.by_id })
update-IsListed k f m v id h =
    v id (ground (arith, lookup-update k id f m.by_id, is_some-map f (lookup id m.by_id)))

apply_entry-IsListed : (m : Maps) (e : JournalEntry) → IsListed m → IsListed (apply_entry m e)
unfolding apply_entry
apply_entry-IsListed m (job r) v = elim (Option-cases (lookup r.id m.by_id)) [
  | inr (old, taken) ↦ rw (taken, apply_entry) v
  | inl fresh ↦
      rw (fresh, apply_entry)
        (λ id h.
          listed-append_one id r.id m.order
          ∙ ground (arith, v id, lookup-append_new r.id id r m.by_id fresh))
]
apply_entry-IsListed m (tokens r) v = update-IsListed r.id _ m v
apply_entry-IsListed m (state r) v = update-IsListed r.id _ m v

replay-IsListed : (m : Maps) (es : List JournalEntry) → IsListed m → IsListed (replay m es)
unfolding replay
replay-IsListed m [] v = v
replay-IsListed m (e ∷ es) v = replay-IsListed (apply_entry m e) es (apply_entry-IsListed m e v)

journal-IsListed : (journal : Bytes) → IsListed (replay no_maps (read_journal journal))
journal-IsListed journal =
    replay-IsListed no_maps (read_journal journal) (λ id h. unfold lookup in ground (arith, h))

recovered_state-terminal : (s : JobState) → is_terminal (recovered_state s) ≡ true
unfolding recovered_state is_terminal
recovered_state-terminal JobState.queued = refl
recovered_state-terminal JobState.preflight_ok = refl
recovered_state-terminal JobState.send_started = refl
recovered_state-terminal JobState.bytes_sent = refl
recovered_state-terminal JobState.print_confirmed = refl
recovered_state-terminal JobState.cut_command_processed = refl
recovered_state-terminal JobState.done_software = refl
recovered_state-terminal JobState.physically_verified = refl
recovered_state-terminal JobState.failed_known = refl
recovered_state-terminal JobState.unknown = refl
recovered_state-terminal JobState.held_offline = refl

recover_record-terminal :
    (now : ℕ) (r : JobRecord) → is_terminal (recover_record now r).state ≡ true
unfolding recover_record
recover_record-terminal now r =
    ground (arith, recovered_state-terminal r.state, Bool-cases (is_terminal r.state))

if_kept : {A : Type 0} → (b : Bool) (x y : A) → b ≡ true → (if b then x else y) ≡ x
if_kept b x y h = ground arith

recover_record-twice :
    (now : ℕ) (r : JobRecord) → recover_record now (recover_record now r) ≡ recover_record now r
unfolding recover_record
recover_record-twice now r =
    if_kept (is_terminal (recover_record now r).state) _ _ (recover_record-terminal now r)

map-map :
    {A B C : Type 0}
    → (g : B → C) (f : A → B) (x : Option A)
    → Option.map g (Option.map f x) ≡ Option.map (λ a. g (f a)) x
map-map g f none = refl
map-map g f (some x) = refl

recover-twice :
    (now : ℕ) (x : Option JobRecord)
    → Option.map (recover_record now) (Option.map (recover_record now) x)
      ≡ Option.map (recover_record now) x
recover-twice now none = refl
recover-twice now (some r) = ap some (recover_record-twice now r)

lookup-recover_all :
    (now : ℕ) (id : Bytes) (ids : List Bytes) (by_id : List (Bytes × JobRecord))
    → lookup id (recover_all now ids by_id) ≡ (
        if listed id ids
        then Option.map (recover_record now) (lookup id by_id)
        else lookup id by_id)
unfolding recover_all listed
lookup-recover_all now id [] by_id = refl
lookup-recover_all now id (x ∷ ids) by_id = ground (
  arith,
  lookup-recover_all now id ids (update x (recover_record now) by_id),
  lookup-update x id (recover_record now) by_id,
  recover-twice now (lookup id by_id),
)

-- Loading a journal looks up each job of the replay, recovered.
lookup-load :
    (now : ℕ) (id journal : Bytes)
    → lookup id (load now journal).by_id
      ≡ Option.map (recover_record now) (lookup id (replay no_maps (read_journal journal)).by_id)
unfolding load
lookup-load now id journal = ground (
  arith,
  lookup-recover_all now id (replay no_maps (read_journal journal)).order
      (replay no_maps (read_journal journal)).by_id,
  journal-IsListed journal id,
  Option-cases (lookup id (replay no_maps (read_journal journal)).by_id),
)

terminal_of :
    (now : ℕ) (old r : JobRecord)
    → some (recover_record now old) ≡ some r
    → is_terminal r.state ≡ true
terminal_of now old r h =
    ap (λ (x : Option JobRecord). is_terminal (value_or x old).state) (sym h)
    ∙ recover_record-terminal now old

-- Whatever bytes the journal holds, cut off or corrupt, every job of the opened store is in a terminal
-- state: no job is left in a state that waits for a process which has gone.
pub open_store-terminal :
    (now : ℕ) (journal id : Bytes) (r : JobRecord)
    → find_by_id id (open_store now journal) ≡ some r
    → is_terminal r.state ≡ true
unfolding find_by_id open_store
open_store-terminal now journal id r h =
    elim (Option-cases (lookup id (replay no_maps (read_journal journal)).by_id)) [
      | inl missing ↦ absurd (
          false≢true (
            ap is_some (
              sym (ap (Option.map (recover_record now)) missing)
              ∙ sym (lookup-load now id journal)
              ∙ h)))
      | inr (old, found) ↦
          terminal_of now old r (
            sym (ap (Option.map (recover_record now)) found) ∙ sym (lookup-load now id journal) ∙ h)
    ]

lookup-map_values :
    (g : JobRecord → JobRecord) (k : Bytes) (m : List (Bytes × JobRecord))
    → lookup k (map_values g m) ≡ Option.map g (lookup k m)
unfolding lookup
lookup-map_values g k [] = refl
lookup-map_values g k ((j, v) ∷ m) = ground (arith, lookup-map_values g k m)

-- After a crash of the process, opening the store on the journal of a durable store gives every job
-- as that store held it, with recovery applied, and no other job.
pub open_store-recovers :
    (now : ℕ) (s : JobStore) (id : Bytes)
    → IsDurable s
    → find_by_id id (open_store now s.journal)
      ≡ Option.map (λ r. recover_record now (forget r)) (find_by_id id s)
unfolding find_by_id open_store
open_store-recovers now s id v =
    lookup-load now id s.journal
    ∙ ap (λ (m : Maps). Option.map (recover_record now) (lookup id m.by_id)) v.replays
    ∙ ap (Option.map (recover_record now)) (lookup-map_values forget id s.by_id)
    ∙ map-map (recover_record now) forget (lookup id s.by_id)
