-- ===== src/Parser/Chunks.antt =====
-- How the stream is cut into reads does not matter, and the loop of `drain` ends by itself.
use mathlib.Core.List.{append_assoc}
use printer_driver.Base.{
  ℕ, ◌≤◌, Bytes, true, false, List, [], ◌∷◌, ◌++◌, ◌≡◌, refl, ap, sym, ◌∙◌, arith, length,
  length-append, take, drop,
}
use printer_driver.Parser.{
  ParsedEvent, ResponseParser, Step, emitted, need_more, empty, gs_h_disqualified, asb_disqualified,
  step_queued, step_realtime, step_asb, step_gs_h, step_on, step, drain_fuel, drain, feed,
}
use printer_driver.Parser.Drain.{drain_rule}
use printer_driver.Parser.Termination.{drain-emitted}
use printer_driver.Parser.Status.{DleEotKind}

-- The parser with more bytes behind those that it holds.
abbrev pub extend : Bytes → ResponseParser → ResponseParser
extend d p = record p { buffer = p.buffer ++ d }

-- An event that the shorter buffer yields is the one that the longer buffer yields.
abbrev Extends : Bytes → Step → Step → Type 0
Extends d (emitted e q) s = s ≡ emitted e (extend d q)
Extends d need_more s = Unit
Extends d empty s = Unit

step_queued-extend :
    (d : Bytes) (first : ℕ) (rest : Bytes) (p : ResponseParser)
    → Extends d (step_queued first rest p) (step_queued first (rest ++ d) (extend d p))
unfolding step_queued
step_queued-extend d first rest p = ground arith

step_realtime-extend :
    (d : Bytes) (kinds : List DleEotKind) (first : ℕ) (rest : Bytes) (p : ResponseParser)
    → Extends d
        (step_realtime kinds first rest p)
        (step_realtime kinds first (rest ++ d) (extend d p))
unfolding step_realtime
step_realtime-extend d [] first rest p = step_queued-extend d first rest p
step_realtime-extend d (k ∷ ks) first rest p = ground (arith, step_queued-extend d first rest p)

-- The frame tests look at a fixed number of bytes, and more bytes never rescue a frame.
asb_disqualified-extend :
    (d b : Bytes)
    → ((asb_disqualified b ≡ true) → asb_disqualified (b ++ d) ≡ true)
      × (4 ≤ length b
          → (asb_disqualified (b ++ d) ≡ asb_disqualified b)
            × (take 4 (b ++ d) ≡ take 4 b)
            × (drop 4 (b ++ d) ≡ drop 4 b ++ d))
unfolding asb_disqualified
asb_disqualified-extend d (x ∷ y ∷ z ∷ w ∷ b) = ground arith
asb_disqualified-extend d [] = (λ h. ground arith, λ n. absurd (omega arith))
asb_disqualified-extend d (x ∷ []) = (λ h. ground arith, λ n. absurd (omega arith))
asb_disqualified-extend d (x ∷ y ∷ []) = (λ h. ground arith, λ n. absurd (omega arith))
asb_disqualified-extend d (x ∷ y ∷ z ∷ []) = (λ h. ground arith, λ n. absurd (omega arith))

step_asb-extend :
    (d : Bytes) (first : ℕ) (rest : Bytes) (p : ResponseParser)
    → p.buffer ≡ first ∷ rest
    → Extends d (step_asb first rest p false) (step_asb first (rest ++ d) (extend d p) false)
unfolding step_asb
step_asb-extend d first rest p s = ground (
  arith,
  step_realtime-extend d p.realtime first rest p,
  asb_disqualified-extend d p.buffer,
  length-append p.buffer d,
)

gs_h_disqualified-extend :
    (d b : Bytes)
    → ((gs_h_disqualified b ≡ true) → gs_h_disqualified (b ++ d) ≡ true)
      × (7 ≤ length b
          → (gs_h_disqualified (b ++ d) ≡ gs_h_disqualified b)
            × (take 4 (drop 2 (b ++ d)) ≡ take 4 (drop 2 b))
            × (drop 7 (b ++ d) ≡ drop 7 b ++ d))
unfolding gs_h_disqualified
gs_h_disqualified-extend d (x ∷ y ∷ z ∷ w ∷ u ∷ v ∷ t ∷ b) = ground arith
gs_h_disqualified-extend d [] = (λ h. ground arith, λ n. absurd (omega arith))
gs_h_disqualified-extend d (x ∷ []) = (λ h. ground arith, λ n. absurd (omega arith))
gs_h_disqualified-extend d (x ∷ y ∷ []) = (λ h. ground arith, λ n. absurd (omega arith))
gs_h_disqualified-extend d (x ∷ y ∷ z ∷ []) = (λ h. ground arith, λ n. absurd (omega arith))
gs_h_disqualified-extend d (x ∷ y ∷ z ∷ w ∷ []) = (λ h. ground arith, λ n. absurd (omega arith))
gs_h_disqualified-extend d (x ∷ y ∷ z ∷ w ∷ u ∷ []) = (λ h. ground arith, λ n. absurd (omega arith))
gs_h_disqualified-extend d (x ∷ y ∷ z ∷ w ∷ u ∷ v ∷ []) =
    (λ h. ground arith, λ n. absurd (omega arith))

step_gs_h-extend :
    (d : Bytes) (first : ℕ) (rest : Bytes) (p : ResponseParser)
    → p.buffer ≡ first ∷ rest
    → Extends d (step_gs_h first rest p false) (step_gs_h first (rest ++ d) (extend d p) false)
unfolding step_gs_h
step_gs_h-extend d first rest p s = ground (
  arith,
  step_asb-extend d first rest p s,
  gs_h_disqualified-extend d p.buffer,
  length-append p.buffer d,
)

step_on-extend :
    (d b : Bytes) (p : ResponseParser)
    → p.buffer ≡ b
    → Extends d (step_on b p false) (step_on (b ++ d) (extend d p) false)
unfolding step_on
step_on-extend d [] p s = tt
step_on-extend d (first ∷ rest) p s = step_gs_h-extend d first rest p s

step-extend :
    (d : Bytes) (p : ResponseParser) {q : ResponseParser} {e : ParsedEvent}
    → step p false ≡ emitted e q
    → step (extend d p) false ≡ emitted e (extend d q)
unfolding step
step-extend d p h = rw h at (step_on-extend d p.buffer p refl)

drain-extend :
    (d : Bytes) (fuel : ℕ) (p : ResponseParser)
    → let (q, es) = drain_fuel fuel p false in
      drain (extend d p) false ≡ ((drain (extend d q) false).0, es ++ (drain (extend d q) false).1)
drain-extend d =
    drain_rule
      (λ p out.
        drain (extend d p) false
        ≡ ((drain (extend d out.0) false).0, out.1 ++ (drain (extend d out.0) false).1))
      false (λ p. refl)
      λ p q e out h ih.
        drain-emitted false (extend d p) (extend d q) e (step-extend d p h)
        ∙ ap (λ (r : ResponseParser × List ParsedEvent). (r.0, e ∷ r.1)) ih

-- Reading the stream in two pieces gives the events of the pieces one after the other, and the same
-- parser, as reading it whole, wherever the stream is cut, inside a frame too.
pub feed-append :
    (p : ResponseParser) (a b : Bytes)
    → feed p (a ++ b) ≡ ((feed (feed p a).0 b).0, (feed p a).1 ++ (feed (feed p a).0 b).1)
unfolding feed drain
feed-append p a b =
    ap (λ (c : Bytes). drain (record p { buffer = c }) false) (sym (append_assoc p.buffer a b))
    ∙ drain-extend b _ (extend a p)
