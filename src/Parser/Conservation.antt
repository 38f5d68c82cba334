-- ===== src/Parser/Conservation.antt =====
-- No byte is dropped, made up or reordered on the way from the stream to the events.
use mathlib.Core.List.{append_assoc}
use printer_driver.Base.{
  ℕ, ◌≤◌, ◌<◌, Bytes, Bool, false, List, [], ◌∷◌, ◌++◌, ◌≡◌, refl, ap, ◌∙◌, arith, length, take,
  drop, length-append,
}
use printer_driver.Parser.Drain.{drain_rule}
use printer_driver.Parser.Frames.{gs_h_shape, take-append-drop}
use printer_driver.Parser.{
  ParsedEvent, gs_h_ack, asb_status, realtime_status, queued_status, unknown_byte, ResponseParser,
  Step, emitted, need_more, empty, step_queued, step_realtime, step_asb, step_gs_h, step_on, step,
  drain_fuel, drain, feed,
}
use printer_driver.Parser.Status.{DleEotKind}

-- The bytes of the stream that an event stands for.
abbrev pub event_bytes : ParsedEvent → Bytes
event_bytes (gs_h_ack token) = 0x37 ∷ 0x22 ∷ (token ++ (0x00 ∷ []))
event_bytes (asb_status frame flags) = frame
event_bytes (realtime_status byte kind flags) = byte ∷ []
event_bytes (queued_status byte) = byte ∷ []
event_bytes (unknown_byte byte) = byte ∷ []

abbrev pub stream : List ParsedEvent → Bytes
stream [] = []
stream (e ∷ es) = event_bytes e ++ stream es

abbrev Splits : Bytes → Step → Type 0
Splits b (emitted e q) = (event_bytes e ++ q.buffer ≡ b) × (1 ≤ length (event_bytes e))
Splits b need_more = Unit
Splits b empty = Unit

step_queued-Splits :
    (first : ℕ) (rest : Bytes) (p : ResponseParser)
    → Splits (first ∷ rest) (step_queued first rest p)
unfolding step_queued
step_queued-Splits first rest p = ground arith

step_realtime-Splits :
    (kinds : List DleEotKind) (first : ℕ) (rest : Bytes) (p : ResponseParser)
    → Splits (first ∷ rest) (step_realtime kinds first rest p)
unfolding step_realtime
step_realtime-Splits [] first rest p = step_queued-Splits first rest p
step_realtime-Splits (k ∷ ks) first rest p = ground (arith, step_queued-Splits first rest p)

step_asb-Splits :
    (first : ℕ) (rest : Bytes) (p : ResponseParser) (force : Bool)
    → p.buffer ≡ first ∷ rest
    → Splits (first ∷ rest) (step_asb first rest p force)
unfolding step_asb
step_asb-Splits first rest p force s =
    ground (arith, step_realtime-Splits p.realtime first rest p, take-append-drop 4 p.buffer)

step_gs_h-Splits :
    (first : ℕ) (rest : Bytes) (p : ResponseParser) (force : Bool)
    → p.buffer ≡ first ∷ rest
    → Splits (first ∷ rest) (step_gs_h first rest p force)
unfolding step_gs_h
step_gs_h-Splits first rest p force s = ground (
  arith,
  step_asb-Splits first rest p force s,
  gs_h_shape p.buffer rest,
  append_assoc (take 4 (drop 2 p.buffer)) (0x00 ∷ []) (drop 7 p.buffer),
)

step_on-Splits :
    (b : Bytes) (p : ResponseParser) (force : Bool) → p.buffer ≡ b → Splits b (step_on b p force)
unfolding step_on
step_on-Splits [] p force s = tt
step_on-Splits (first ∷ rest) p force s = step_gs_h-Splits first rest p force s

pub step-stream :
    (p : ResponseParser) {q : ResponseParser} {e : ParsedEvent} (force : Bool)
    → step p force ≡ emitted e q
    → (event_bytes e ++ q.buffer ≡ p.buffer) × (1 ≤ length (event_bytes e))
unfolding step
step-stream p force h = rw h at (step_on-Splits p.buffer p force refl)

-- Each event takes a byte at least.
pub step-progress :
    (p : ResponseParser) {q : ResponseParser} {e : ParsedEvent} (force : Bool)
    → step p force ≡ emitted e q
    → length q.buffer < length p.buffer
step-progress p {q} {e} force h = omega (
  arith,
  (step-stream p force h).1,
  ap length (step-stream p force h).0,
  length-append (event_bytes e) q.buffer,
)

pub drain_fuel-stream :
    (force : Bool) (fuel : ℕ) (p : ResponseParser)
    → stream (drain_fuel fuel p force).1 ++ (drain_fuel fuel p force).0.buffer ≡ p.buffer
drain_fuel-stream force =
    drain_rule (λ p out. stream out.1 ++ out.0.buffer ≡ p.buffer) force (λ p. refl)
      λ p q e out h ih.
        append_assoc (event_bytes e) _ _ ∙ ap (◌++◌ (event_bytes e)) ih ∙ (step-stream p force h).0

-- Whatever bytes arrive, the events that `feed` reports and the bytes it still holds spell, in order,
-- what was held before followed by what arrived: nothing is dropped, invented or reordered.
pub feed-stream :
    (p : ResponseParser) (bytes : Bytes)
    → stream (feed p bytes).1 ++ (feed p bytes).0.buffer ≡ p.buffer ++ bytes
unfolding feed drain
feed-stream p bytes = drain_fuel-stream false _ _
