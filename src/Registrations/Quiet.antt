-- ===== src/Registrations/Quiet.antt =====
-- No probe step that was registered prints.
use printer_driver.Base.{
  ℕ, ◌<◌, Bytes, Bool, true, false, not, ◌&&◌, Option, none, some, List, [], ◌∷◌, if◌then◌else◌,
  if_holds, All, All-append, is_some, ◌≡◌, ◌≢◌, ◌⊎◌, refl, sym, arith,
}
use mathlib.Core.Path.{subst}
use printer_driver.Registrations.{
  is_valid_registration_id, is_non_printing_request, is_empty, CompletionMethod, DrawerKickEntry,
  FormatterReg, BlockHandlerReg, ProbeStep, Registrations, id_taken, add_completion_method,
  add_probe_step, add_drawer_kick, add_formatter, add_block_handler, Call, adds_completion_method,
  adds_probe_step, adds_drawer_kick, adds_formatter, adds_block_handler, call, run,
}

-- The byte is neither a line feed nor in the printable run.
abbrev pub IsSilent : ℕ → Type 0
IsSilent b = (b ≢ 10) × ((b < 32) ⊎ (126 < b))

abbrev pub IsQuiet : ProbeStep → Type 0
IsQuiet step = All IsSilent step.request_bytes

is_non_printing_request-All :
    (bytes : Bytes) → is_non_printing_request bytes ≡ true → All IsSilent bytes
unfolding is_non_printing_request
is_non_printing_request-All [] h = tt
is_non_printing_request-All (b ∷ bytes) h = (
  (λ e. ground (arith, h, e), ground (arith, h)),
  is_non_printing_request-All bytes (ground (arith, h)),
)

AllQuiet : Registrations × Option Bytes → Type 0
AllQuiet p = All IsQuiet p.0.probe_steps

refused :
    (r : Registrations) (failed : Bool) (error : Bytes) (rest : Registrations × Option Bytes)
    → All IsQuiet r.probe_steps
    → (failed ≡ false → AllQuiet rest)
    → AllQuiet (if failed then (r, some error) else rest)
unfolding AllQuiet
refused r failed error rest h goes_on =
    if_holds AllQuiet failed (r, some error) rest (λ fails. h) goes_on

added : (s : Registrations) → All IsQuiet s.probe_steps → AllQuiet (s, none)
unfolding AllQuiet
added s h = h

-- A call on another registry, with its three tests.
unmoved :
    (a b c : Bool) (r s : Registrations) (e f g : Bytes)
    → s.probe_steps ≡ r.probe_steps
    → All IsQuiet r.probe_steps
    → AllQuiet
        (if a then (r, some e) else if b then (r, some f) else if c then (r, some g) else (s, none))
unfolding AllQuiet
unmoved a b c r s e f g same h =
    refused r a e _ h
      (λ x. refused r b f _ h (λ y. refused r c g _ h (λ z. subst (All IsQuiet) (sym same) h)))

call-AllQuiet : (c : Call) (r : Registrations) → All IsQuiet r.probe_steps → AllQuiet (call c r)
unfolding call add_completion_method add_probe_step add_drawer_kick add_formatter add_block_handler
call-AllQuiet (adds_completion_method m) r h =
    unmoved (not (is_valid_registration_id m.id)) (not (is_some m.fence_bytes && is_some m.matcher))
      (id_taken (λ (x : CompletionMethod). x.id) r.completions m.id) r _ _ _ _ refl h
call-AllQuiet (adds_probe_step step) r h =
    refused r (not (is_valid_registration_id step.id)) _ _ h (λ valid.
      refused r (not (is_some step.classify)) _ _ h (λ called.
        refused r (not (is_non_printing_request step.request_bytes)) _ _ h (λ silent.
          refused r (id_taken (λ (x : ProbeStep). x.id) r.probe_steps step.id) _ _ h (λ free.
            added _ (
              All-append IsQuiet r.probe_steps (step ∷ []) h
                (is_non_printing_request-All step.request_bytes (ground (arith, silent)), tt))))))
call-AllQuiet (adds_drawer_kick m) r h =
    unmoved (not (is_valid_registration_id m.id)) (not (is_some m.kick))
      (id_taken (λ (x : DrawerKickEntry). x.id) r.drawer_kicks m.id) r _ _ _ _ refl h
call-AllQuiet (adds_formatter m) r h =
    unmoved (is_empty m.name) (not (is_some m.fn))
      (id_taken (λ (x : FormatterReg). x.name) r.formatters m.name) r _ _ _ _ refl h
call-AllQuiet (adds_block_handler m) r h =
    unmoved (is_empty m.kind) (not (is_some m.fn))
      (id_taken (λ (x : BlockHandlerReg). x.kind) r.block_handlers m.kind) r _ _ _ _ refl h

-- Every probe step of registries whose probe steps print nothing prints nothing after any sequence of
-- registrations: its request has no line feed and no byte from 0x20 to 0x7E.
pub run-IsQuiet :
    (cs : List Call) (r : Registrations)
    → All IsQuiet r.probe_steps
    → All IsQuiet (run cs r).probe_steps
unfolding run AllQuiet
run-IsQuiet [] r h = h
run-IsQuiet (c ∷ cs) r h = run-IsQuiet cs (call c r).0 (call-AllQuiet c r h)
