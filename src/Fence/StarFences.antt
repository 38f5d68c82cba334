-- ===== src/Fence/StarFences.antt =====
-- A Star fence is signalled by its own answer and by nothing else.
use printer_driver.Base.{
  ℕ, Bytes, Bool, true, false, ◌||◌, Option, none, some, List, [], ◌∷◌, ◌++◌, if_holds, ◌≡◌, ◌↔◌,
  inr, refl, sym, ap, ◌∙◌, arith, value_or,
}
use mathlib.Core.Path.{subst}
use printer_driver.Engine.{signalled}
use printer_driver.Fence.{Io}
use printer_driver.Fence.Dispatch.{on_star_bytes, on_bytes, receive, eq_counter}
use printer_driver.Fence.StarResponses.{StarEvent, StarParser, next_etb_counter}
use printer_driver.Fence.StarResponses
use printer_driver.Fence.Stars.{
  star_events, answers, any_answers, IsOut, Moves, answers-same, any_answers-same, or_assoc,
  on_star_events-Moves,
}
use printer_driver.Fence.Waits.{outcome, arm_star_fence, await_star_fence, is_etb}
use printer_driver.Profile.{CompletionMechanism}
use printer_driver.Types.{DeviceEvent}

any_answers-append :
    (io : Io) (es fs : List StarEvent)
    → any_answers io (es ++ fs) ≡ any_answers io es || any_answers io fs
unfolding any_answers
any_answers-append io [] fs = refl
any_answers-append io (e ∷ es) fs =
    ap (λ b. answers io e || b) (any_answers-append io es fs)
    ∙ sym (or_assoc (answers io e) (any_answers io es) (any_answers io fs))

on_bytes-star :
    (nonce bytes : Bytes) (io : Io)
    → io.star_mode ≡ true
    → on_bytes nonce bytes io ≡ on_star_bytes bytes io
unfolding on_bytes
on_bytes-star nonce bytes io star =
    if_holds (λ (r : Io × List DeviceEvent). r ≡ on_star_bytes bytes io) io.star_mode _ _
      (λ yes. refl) (λ no. absurd (ground (arith, star, no)))

receive-signal-from :
    (nonce : Bytes) (chunk : Bytes) (chunks : List Bytes) (io after : Io)
    → ((x : Io)
        → IsOut x
        → (receive nonce chunks x).star_fence_signalled
          ≡ x.star_fence_signalled || any_answers x (star_events x.star_parser chunks))
    → let fed = StarResponses.feed io.star_parser chunk in
      Moves
        (record io { star_parser = fed.0 })
        after
        (any_answers (record io { star_parser = fed.0 }) fed.1)
      → (receive nonce chunks after).star_fence_signalled
        ≡ io.star_fence_signalled || any_answers io (fed.1 ++ star_events fed.0 chunks)
receive-signal-from nonce chunk chunks io after ih m =
    let (p, es) = StarResponses.feed io.star_parser chunk in
    let start = record io { star_parser = p } in
    let later = star_events p chunks in
    let as_io = (λ (e : StarEvent). answers-same io start e refl refl (refl, refl)) in
    ih after m.is_out
    ∙ ap (λ q. after.star_fence_signalled || any_answers after (star_events q chunks)) m.parser
    ∙ ap (λ b. after.star_fence_signalled || b)
        (any_answers-same start after later m.same ∙ any_answers-same io start later as_io)
    ∙ ap (λ b. b || any_answers io later)
        (m.signal ∙ ap (λ b. io.star_fence_signalled || b) (any_answers-same io start es as_io))
    ∙ or_assoc io.star_fence_signalled (any_answers io es) (any_answers io later)
    ∙ ap (λ b. io.star_fence_signalled || b) (sym (any_answers-append io es later))

receive-signal :
    (nonce : Bytes) (chunks : List Bytes) (io : Io)
    → IsOut io
    → (receive nonce chunks io).star_fence_signalled
      ≡ io.star_fence_signalled || any_answers io (star_events io.star_parser chunks)
unfolding receive star_events any_answers on_star_bytes
receive-signal nonce [] io o = ground arith
receive-signal nonce (chunk ∷ chunks) io o =
    let fed = StarResponses.feed io.star_parser chunk in
    let start = record io { star_parser = fed.0 } in
    let out : IsOut start = record { star = o.star; out = o.out; fresh = o.fresh } in
    receive-signal-from nonce chunk chunks io (on_bytes nonce chunk io).0
      (receive-signal nonce chunks)
      (subst (λ (r : Io × List DeviceEvent). Moves start r.0 (any_answers start fed.1))
        (sym (on_bytes-star nonce chunk io o.star)) (on_star_events-Moves fed.1 start out))

next-differs :
    (counter : Option ℕ) → eq_counter counter (next_etb_counter (value_or counter 0)) ≡ false
unfolding next_etb_counter
next-differs none = refl
next-differs (some c) = ground arith

arm-IsOut :
    (completion : CompletionMechanism) (io : Io)
    → io.star_mode ≡ true
    → IsOut (arm_star_fence completion io).1
unfolding arm_star_fence
arm-IsOut completion io star =
    if_holds (λ (r : Bytes × Io). IsOut r.1) (is_etb completion) _ _
      (λ etb. record { star = star; out = refl; fresh = inr (next-differs io.star_counter) })
      (λ etx. record { star = star; out = refl; fresh = inr refl })

arm-unsignalled :
    (completion : CompletionMechanism) (io : Io)
    → ((arm_star_fence completion io).1.star_fence_signalled ≡ false)
      × ((arm_star_fence completion io).1.star_parser ≡ io.star_parser)
unfolding arm_star_fence
arm-unsignalled completion io =
    if_holds
      (λ (r : Bytes × Io). (r.1.star_fence_signalled ≡ false) × (r.1.star_parser ≡ io.star_parser))
      (is_etb completion) _ _ (λ etb. (refl, refl)) (λ etx. (refl, refl))

outcome-signalled :
    (answered down stopping : Bool)
    → (outcome answered down stopping ≡ signalled) ↔ (answered ≡ true)
unfolding outcome
outcome-signalled answered down stopping = ground arith

-- A Star fence that is armed is signalled, after whatever chunks have come, if and only if one of the
-- events in them answers it: an ESC GS ETX answer with both correlation bytes of the fence, or, for an
-- ETB fence, a status block with the counter value behind the last one that was seen.
pub await_star_fence_iff :
    (nonce : Bytes) (completion : CompletionMechanism) (chunks : List Bytes) (stopping : Bool)
    (io : Io)
    → io.star_mode ≡ true
    → ((await_star_fence stopping (receive nonce chunks (arm_star_fence completion io).1)).0
        ≡ signalled)
      ↔ (any_answers (arm_star_fence completion io).1 (star_events io.star_parser chunks) ≡ true)
unfolding await_star_fence
await_star_fence_iff nonce completion chunks stopping io star =
    let armed = (arm_star_fence completion io).1 in
    let after = receive nonce chunks armed in
    let fresh = arm-unsignalled completion io in
    let signal : after.star_fence_signalled
        ≡ any_answers armed (star_events io.star_parser chunks) =
      receive-signal nonce chunks armed (arm-IsOut completion io star)
      ∙ ap (λ b. b || any_answers armed (star_events armed.star_parser chunks)) fresh.0
      ∙ ap (λ p. any_answers armed (star_events p chunks)) fresh.1 in
    subst (λ b. ((await_star_fence stopping after).0 ≡ signalled) ↔ (b ≡ true)) signal
      (outcome-signalled after.star_fence_signalled after.link_down stopping)

-- No fence is out.
record IsIdle (io : Io) : Type 0 where
  star : io.star_mode ≡ true
  out : io.star_fence_outstanding ≡ false
  signal : io.star_fence_signalled ≡ false
