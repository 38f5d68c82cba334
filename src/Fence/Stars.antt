-- ===== src/Fence/Stars.antt =====
-- What the events of the Star parser do to a fence that is out.
use printer_driver.Base.{
  ℕ, Bytes, Bool, true, false, not, ◌&&◌, ◌||◌, Option, none, some, List, [], ◌∷◌, ◌++◌, if_holds,
  ◌≡◌, ◌⊎◌, inl, inr, refl, ap, ◌∙◌, arith, ◌==◌,
}
use printer_driver.Fence.{Io}
use printer_driver.Fence.Dispatch.{on_star_event, on_star_events, eq_counter}
use printer_driver.Fence.StarResponses.{
  StarEvent, etx_ack, asb_status, unknown_byte, StarParser, next_etb_counter,
}
use printer_driver.Fence.StarResponses
use printer_driver.Types.{DeviceEvent}

-- The events of the chunks, one after the other.
unfoldable pub star_events : StarParser → List Bytes → List StarEvent
star_events p [] = []
star_events p (chunk ∷ chunks) =
    let fed = StarResponses.feed p chunk in fed.1 ++ star_events fed.0 chunks

-- An answer to the fence that is out.
unfoldable pub answers : Io → StarEvent → Bool
answers io (etx_ack n1 n2 counter) =
    not io.star_fence_is_etb && ((n1 == io.star_expect_n1) && (n2 == io.star_expect_n2))
answers io (asb_status frame counter) = io.star_fence_is_etb && (counter == io.star_expect_counter)
answers io (unknown_byte byte) = false

unfoldable pub any_answers : Io → List StarEvent → Bool
unfolding answers
any_answers io [] = false
any_answers io (e ∷ es) = answers io e || any_answers io es

-- A fence that is out, whose counter has not come yet unless it is signalled.
pub record IsOut (io : Io) : Type 0 where
  pub star : io.star_mode ≡ true
  pub out : io.star_fence_outstanding ≡ true
  pub fresh :
      (io.star_fence_signalled ≡ true)
      ⊎ (io.star_fence_is_etb && eq_counter io.star_counter io.star_expect_counter ≡ false)

-- An event leaves the fence as it is, but for the signal, which its answer raises.
pub record Moves (io after : Io) (answered : Bool) : Type 0 where
  pub is_out : IsOut after
  pub signal : after.star_fence_signalled ≡ io.star_fence_signalled || answered
  pub same : (e : StarEvent) → answers after e ≡ answers io e
  pub parser : after.star_parser ≡ io.star_parser

-- Whether an event answers depends on what the fence expects only.
pub answers-same :
    (io after : Io) (e : StarEvent)
    → after.star_fence_is_etb ≡ io.star_fence_is_etb
    → after.star_expect_counter ≡ io.star_expect_counter
    → (after.star_expect_n1 ≡ io.star_expect_n1) × (after.star_expect_n2 ≡ io.star_expect_n2)
    → answers after e ≡ answers io e
unfolding answers
answers-same io after (etx_ack n1 n2 counter) etb counted (m1, m2) = rw (etb, m1, m2) refl
answers-same io after (asb_status frame counter) etb counted m = rw (etb, counted) refl
answers-same io after (unknown_byte byte) etb counted m = refl

pub any_answers-same :
    (io after : Io) (es : List StarEvent)
    → ((e : StarEvent) → answers after e ≡ answers io e)
    → any_answers after es ≡ any_answers io es
unfolding any_answers
any_answers-same io after [] same = refl
any_answers-same io after (e ∷ es) same = rw (same e, any_answers-same io after es same) refl

pub or_assoc : (a b c : Bool) → (a || b) || c ≡ a || (b || c)
or_assoc a b c = ground arith

-- A counter that was seen before is no answer, unless the answer has come.
seen_signal :
    (old : Option ℕ) (signal etb : Bool) (counter expected : ℕ)
    → eq_counter old counter ≡ true
    → (signal ≡ true) ⊎ (etb && eq_counter old expected ≡ false)
    → signal ≡ signal || (etb && (counter == expected))
seen_signal none signal etb counter expected seen fresh = ground (arith, seen)
seen_signal (some c) signal etb counter expected seen (inl came) = ground (arith, came)
seen_signal (some c) signal etb counter expected seen (inr stale) = ground (arith, seen, stale)

on_star_event-Moves :
    (e : StarEvent) (io : Io) → IsOut io → Moves io (on_star_event e io).0 (answers io e)
unfolding on_star_event answers
on_star_event-Moves (etx_ack n1 n2 counter) io o =
    let mine =
      not io.star_fence_is_etb && ((n1 == io.star_expect_n1) && (n2 == io.star_expect_n2)) in
    if_holds (λ (r : Io × List DeviceEvent). Moves io r.0 mine) (io.star_fence_outstanding && mine)
      _ _
      (λ yes. record {
        is_out = record { star = o.star; out = o.out; fresh = inl refl };
        signal = ground (arith, yes);
        same = λ e.
            answers-same io (record io { star_fence_signalled = true }) e refl refl (refl, refl);
        parser = refl;
      })
      (λ no. record {
        is_out = o;
        signal = ground (arith, no, o.out);
        same = λ e. refl;
        parser = refl;
      })
on_star_event-Moves (asb_status frame counter) io o =
    let mine = io.star_fence_is_etb && (counter == io.star_expect_counter) in
    let counted = record io { star_counter = some counter } in
    if_holds (λ (r : Io × List DeviceEvent). Moves io r.0 mine) (eq_counter io.star_counter counter)
      (io, []) _
      (λ seen. record {
        is_out = o;
        signal =
            seen_signal io.star_counter io.star_fence_signalled io.star_fence_is_etb counter
              io.star_expect_counter seen o.fresh;
        same = λ e. refl;
        parser = refl;
      })
      (λ new.
        if_holds (λ (r : Io × List DeviceEvent). Moves io r.0 mine)
          (io.star_fence_outstanding && mine) _ _
          (λ yes. record {
            is_out = record { star = o.star; out = o.out; fresh = inl refl };
            signal = ground (arith, yes);
            same = λ e.
                answers-same io (record counted { star_fence_signalled = true }) e refl refl
                  (refl, refl);
            parser = refl;
          })
          (λ no. record {
            is_out = record { star = o.star; out = o.out; fresh = inr (ground (arith, no, o.out)) };
            signal = ground (arith, no, o.out);
            same = λ e. answers-same io counted e refl refl (refl, refl);
            parser = refl;
          }))
on_star_event-Moves (unknown_byte byte) io o = record {
  is_out = o;
  signal = ground arith;
  same = λ e. refl;
  parser = refl;
}

pub on_star_events-Moves :
    (es : List StarEvent) (io : Io)
    → IsOut io
    → Moves io (on_star_events es io).0 (any_answers io es)
unfolding on_star_events any_answers
on_star_events-Moves [] io o = record {
  is_out = o;
  signal = ground arith;
  same = λ e. refl;
  parser = refl;
}
on_star_events-Moves (e ∷ es) io o =
    let first = on_star_event-Moves e io o in
    let rest = on_star_events-Moves es (on_star_event e io).0 first.is_out in
    record {
      is_out = rest.is_out;
      signal =
          rest.signal
          ∙ ap (λ b. b || any_answers (on_star_event e io).0 es) first.signal
          ∙ ap (λ b. (io.star_fence_signalled || answers io e) || b)
              (any_answers-same io (on_star_event e io).0 es first.same)
          ∙ or_assoc io.star_fence_signalled (answers io e) (any_answers io es);
      same = λ x. rest.same x ∙ first.same x;
      parser = rest.parser ∙ first.parser;
    }
