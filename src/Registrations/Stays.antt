-- ===== src/Registrations/Stays.antt =====
-- What was registered stays: no call changes or hides an entry.
use printer_driver.Base.{
  Bytes, Bool, false, not, ◌&&◌, Option, none, some, List, [], ◌∷◌, ◌++◌, if◌then◌else◌, if_holds,
  eq_bytes, eq_bytes_self, is_some, ◌≡◌, refl, sym, ap, ◌∙◌, arith,
}
use mathlib.Core.List.{append-nil}
use printer_driver.Registrations.{
  is_valid_registration_id, is_non_printing_request, CompletionMethod, ProbeStep, DrawerKickEntry,
  is_empty, FormatterReg, BlockHandlerReg, Registrations, id_taken, find_entry, named,
  add_completion_method, completion_method, add_probe_step, add_drawer_kick, drawer_kick_of,
  add_formatter, add_block_handler, Call, adds_completion_method, adds_probe_step, adds_drawer_kick,
  adds_formatter, adds_block_handler, call, run, format, render_block, kick_of, apply_formatter,
  apply_handler,
}

module _ {A : Type 0} (id_of : A → Bytes) where
  find_entry-append :
      (xs more : List A) (entry : A) (id : Bytes)
      → find_entry id_of xs id ≡ some entry
      → find_entry id_of (xs ++ more) id ≡ some entry
  unfolding find_entry
  find_entry-append [] more entry id h = ground (arith, h)
  find_entry-append (x ∷ xs) more entry id h =
      if_holds
        (λ (o : Option A).
          o ≡ some entry
          → (if eq_bytes (id_of x) id then some x else find_entry id_of (xs ++ more) id)
            ≡ some entry)
        (eq_bytes (id_of x) id) (some x) (find_entry id_of xs id) (λ same f. rw same f)
        (λ other f. rw other (find_entry-append xs more entry id f)) h

  -- A free id is found at the end.
  find_entry-fresh :
      (xs : List A) (y : A)
      → id_taken id_of xs (id_of y) ≡ false
      → find_entry id_of (xs ++ (y ∷ [])) (id_of y) ≡ some y
  unfolding find_entry id_taken
  find_entry-fresh [] y h = ground (arith, eq_bytes_self (id_of y))
  find_entry-fresh (x ∷ xs) y h =
      let free : id_taken id_of xs (id_of y) ≡ false = ground (arith, h) in
      ground (arith, h, find_entry-fresh xs y free)

-- One list goes on where the other ends.
abbrev Grows : {A : Type 0} → List A → List A → Type 0
Grows {A} xs ys = (more : List A) × (ys ≡ xs ++ more)

Grows-refl : {A : Type 0} (xs : List A) → Grows xs xs
Grows-refl xs = ([], sym (append-nil xs))

find_entry-Grows :
    {A : Type 0} (id_of : A → Bytes) (xs ys : List A) (entry : A) (id : Bytes)
    → Grows xs ys
    → find_entry id_of xs id ≡ some entry
    → find_entry id_of ys id ≡ some entry
find_entry-Grows id_of xs ys entry id (more, longer) h =
    ap (λ l. find_entry id_of l id) longer ∙ find_entry-append id_of xs more entry id h

record Extends (r s : Registrations) : Type 0 where
  completions : Grows r.completions s.completions
  probe_steps : Grows r.probe_steps s.probe_steps
  drawer_kicks : Grows r.drawer_kicks s.drawer_kicks
  formatters : Grows r.formatters s.formatters
  block_handlers : Grows r.block_handlers s.block_handlers

Extends-refl : (r : Registrations) → Extends r r
Extends-refl r = record {
  completions = Grows-refl r.completions;
  probe_steps = Grows-refl r.probe_steps;
  drawer_kicks = Grows-refl r.drawer_kicks;
  formatters = Grows-refl r.formatters;
  block_handlers = Grows-refl r.block_handlers;
}

-- The registries hold what the call adds.
Holds : Call → Registrations → Type 0
Holds (adds_completion_method method) r = completion_method r method.id ≡ some (named method)
Holds (adds_probe_step step) r =
    find_entry (λ (s : ProbeStep). s.id) r.probe_steps step.id ≡ some step
Holds (adds_drawer_kick entry) r =
    find_entry (λ (k : DrawerKickEntry). k.id) r.drawer_kicks entry.id ≡ some entry
Holds (adds_formatter formatter) r =
    find_entry (λ (f : FormatterReg). f.name) r.formatters formatter.name ≡ some formatter
Holds (adds_block_handler handler) r =
    find_entry (λ (h : BlockHandlerReg). h.kind) r.block_handlers handler.kind ≡ some handler

Holds-Extends : (c : Call) (r s : Registrations) → Extends r s → Holds c r → Holds c s
unfolding Holds completion_method
Holds-Extends (adds_completion_method method) r s e h =
    find_entry-Grows (λ (m : CompletionMethod). m.id) _ _ _ _ e.completions h
Holds-Extends (adds_probe_step step) r s e h =
    find_entry-Grows (λ (x : ProbeStep). x.id) _ _ _ _ e.probe_steps h
Holds-Extends (adds_drawer_kick entry) r s e h =
    find_entry-Grows (λ (k : DrawerKickEntry). k.id) _ _ _ _ e.drawer_kicks h
Holds-Extends (adds_formatter formatter) r s e h =
    find_entry-Grows (λ (f : FormatterReg). f.name) _ _ _ _ e.formatters h
Holds-Extends (adds_block_handler handler) r s e h =
    find_entry-Grows (λ (x : BlockHandlerReg). x.kind) _ _ _ _ e.block_handlers h

-- A call extends the registries, and one that succeeds leaves what it adds in them.
Goes : Call → Registrations → Registrations × Option Bytes → Type 0
Goes c r p = Extends r p.0 × (p.1 ≡ none → Holds c p.0)

-- A test that fails the call, ahead of the rest of it.
tested :
    (c : Call) (r : Registrations) (failed : Bool) (error : Bytes)
    (rest : Registrations × Option Bytes)
    → (failed ≡ false → Goes c r rest)
    → Goes c r (if failed then (r, some error) else rest)
unfolding Goes
tested c r failed error rest goes_on =
    if_holds (Goes c r) failed (r, some error) rest
      (λ fails. (Extends-refl r, (λ e. ground (arith, e)))) goes_on

added : (c : Call) (r s : Registrations) → Extends r s → Holds c s → Goes c r (s, none)
unfolding Goes
added c r s e h = (e, (λ done. h))

call-Goes : (c : Call) (r : Registrations) → Goes c r (call c r)
unfolding call add_completion_method add_probe_step add_drawer_kick add_formatter add_block_handler
    Holds completion_method
call-Goes (adds_completion_method method) r =
    let c = adds_completion_method method in
    tested c r (not (is_valid_registration_id method.id)) _ _ (λ valid.
      tested c r (not (is_some method.fence_bytes && is_some method.matcher)) _ _ (λ called.
        tested c r (id_taken (λ (x : CompletionMethod). x.id) r.completions method.id) _ _ (λ free.
          added c r _
            (record {
              completions = (named method ∷ [], refl);
              probe_steps = Grows-refl r.probe_steps;
              drawer_kicks = Grows-refl r.drawer_kicks;
              formatters = Grows-refl r.formatters;
              block_handlers = Grows-refl r.block_handlers;
            })
            (find_entry-fresh (λ (x : CompletionMethod). x.id) r.completions (named method) free))))
call-Goes (adds_probe_step step) r =
    let c = adds_probe_step step in
    tested c r (not (is_valid_registration_id step.id)) _ _ (λ valid.
      tested c r (not (is_some step.classify)) _ _ (λ called.
        tested c r (not (is_non_printing_request step.request_bytes)) _ _ (λ silent.
          tested c r (id_taken (λ (x : ProbeStep). x.id) r.probe_steps step.id) _ _ (λ free.
            added c r _
              (record {
                completions = Grows-refl r.completions;
                probe_steps = (step ∷ [], refl);
                drawer_kicks = Grows-refl r.drawer_kicks;
                formatters = Grows-refl r.formatters;
                block_handlers = Grows-refl r.block_handlers;
              })
              (find_entry-fresh (λ (x : ProbeStep). x.id) r.probe_steps step free)))))
call-Goes (adds_drawer_kick entry) r =
    let c = adds_drawer_kick entry in
    tested c r (not (is_valid_registration_id entry.id)) _ _ (λ valid.
      tested c r (not (is_some entry.kick)) _ _ (λ called.
        tested c r (id_taken (λ (x : DrawerKickEntry). x.id) r.drawer_kicks entry.id) _ _ (λ free.
          added c r _
            (record {
              completions = Grows-refl r.completions;
              probe_steps = Grows-refl r.probe_steps;
              drawer_kicks = (entry ∷ [], refl);
              formatters = Grows-refl r.formatters;
              block_handlers = Grows-refl r.block_handlers;
            })
            (find_entry-fresh (λ (x : DrawerKickEntry). x.id) r.drawer_kicks entry free))))
call-Goes (adds_formatter formatter) r =
    let c = adds_formatter formatter in
    tested c r (is_empty formatter.name) _ _ (λ valid.
      tested c r (not (is_some formatter.fn)) _ _ (λ called.
        tested c r (id_taken (λ (x : FormatterReg). x.name) r.formatters formatter.name) _ _
          (λ free.
            added c r _
              (record {
                completions = Grows-refl r.completions;
                probe_steps = Grows-refl r.probe_steps;
                drawer_kicks = Grows-refl r.drawer_kicks;
                formatters = (formatter ∷ [], refl);
                block_handlers = Grows-refl r.block_handlers;
              })
              (find_entry-fresh (λ (x : FormatterReg). x.name) r.formatters formatter free))))
call-Goes (adds_block_handler handler) r =
    let c = adds_block_handler handler in
    tested c r (is_empty handler.kind) _ _ (λ valid.
      tested c r (not (is_some handler.fn)) _ _ (λ called.
        tested c r (id_taken (λ (x : BlockHandlerReg). x.kind) r.block_handlers handler.kind) _ _
          (λ free.
            added c r _
              (record {
                completions = Grows-refl r.completions;
                probe_steps = Grows-refl r.probe_steps;
                drawer_kicks = Grows-refl r.drawer_kicks;
                formatters = Grows-refl r.formatters;
                block_handlers = (handler ∷ [], refl);
              })
              (find_entry-fresh (λ (x : BlockHandlerReg). x.kind) r.block_handlers handler free))))

Holds-run : (c : Call) (cs : List Call) (r : Registrations) → Holds c r → Holds c (run cs r)
unfolding run Goes
Holds-run c [] r h = h
Holds-run c (d ∷ cs) r h =
    Holds-run c cs (call d r).0 (Holds-Extends c r (call d r).0 (call-Goes d r).0 h)

call-Holds : (c : Call) (r : Registrations) → (call c r).1 ≡ none → Holds c (call c r).0
unfolding Goes
call-Holds c r accepted = (call-Goes c r).1 accepted

-- What the registries answer where the entry of the call is in use.
unfoldable pub Answers : Call → Registrations → Type 0
Answers (adds_completion_method method) r = completion_method r method.id ≡ some (named method)
Answers (adds_probe_step step) r =
    find_entry (λ (s : ProbeStep). s.id) r.probe_steps step.id ≡ some step
Answers (adds_drawer_kick entry) r = drawer_kick_of r entry.id ≡ entry.kick
Answers (adds_formatter formatter) r =
    (value args locale : Bytes)
    → format r formatter.name value args locale ≡ apply_formatter (some formatter) value args locale
Answers (adds_block_handler handler) r =
    (block_json profile_json : Bytes)
    → render_block r handler.kind block_json profile_json
      ≡ apply_handler (some handler) block_json profile_json

Holds-Answers : (c : Call) (r : Registrations) → Holds c r → Answers c r
unfolding Holds Answers completion_method drawer_kick_of format render_block
Holds-Answers (adds_completion_method method) r h = h
Holds-Answers (adds_probe_step step) r h = h
Holds-Answers (adds_drawer_kick entry) r h = ap kick_of h
Holds-Answers (adds_formatter formatter) r h =
    λ value args locale. ap (λ o. apply_formatter o value args locale) h
Holds-Answers (adds_block_handler handler) r h =
    λ block_json profile_json. ap (λ o. apply_handler o block_json profile_json) h

-- A registration that succeeds is what its id or name answers with from then on, whatever is registered,
-- or refused, behind it: the lookup of a completion method, of a probe step and of a kick returns it, and
-- a value is formatted, or a block rendered, by its callback.
pub entry_stays :
    (c : Call) (r : Registrations) (cs : List Call)
    → (call c r).1 ≡ none
    → Answers c (run cs (call c r).0)
entry_stays c r cs accepted =
    Holds-Answers c (run cs (call c r).0) (Holds-run c cs (call c r).0 (call-Holds c r accepted))
