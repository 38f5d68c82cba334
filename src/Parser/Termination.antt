-- ===== src/Parser/Termination.antt =====
-- `drain` ends by itself, however full the buffer is, and what it leaves behind.
use mathlib.Core.List.{append-nil}
use printer_driver.Base.{
  ℕ, zero, suc, ◌≤◌, Bytes, Bool, true, false, List, [], ◌∷◌, ◌++◌, ◌≡◌, refl, ap, sym, ◌∙◌, arith,
  length, if◌then◌else◌,
}
use printer_driver.Parser.{
  ParsedEvent, ResponseParser, Step, emitted, need_more, empty, step_queued, step_realtime,
  step_asb, step_gs_h, step_on, step, drain_fuel, drain, feed, flush,
}
use printer_driver.Parser.Conservation.{stream, step-progress, drain_fuel-stream}
use printer_driver.Parser.Drain.{Stops}
use printer_driver.Parser.Status.{DleEotKind}

-- Enough fuel is as good as any.
drain_fuel-enough :
    (force : Bool) (m n : ℕ) (p : ResponseParser)
    → length p.buffer ≤ m
    → length p.buffer ≤ n
    → drain_fuel m p force ≡ drain_fuel n p force
unfolding drain_fuel
drain_fuel-enough force zero zero p hm hn = refl
drain_fuel-enough force zero (suc n) p hm hn = go (step p force) refl
  where
    go : (s : Step) → step p force ≡ s → drain_fuel 0 p force ≡ drain_fuel (suc n) p force
    go (emitted e q) h = absurd (omega (arith, step-progress p force h))
    go need_more h = rw (h, drain_fuel) refl
    go empty h = rw (h, drain_fuel) refl
drain_fuel-enough force (suc m) zero p hm hn = go (step p force) refl
  where
    go : (s : Step) → step p force ≡ s → drain_fuel (suc m) p force ≡ drain_fuel 0 p force
    go (emitted e q) h = absurd (omega (arith, step-progress p force h))
    go need_more h = rw (h, drain_fuel) refl
    go empty h = rw (h, drain_fuel) refl
drain_fuel-enough force (suc m) (suc n) p hm hn =
    go (drain_fuel-enough force m n) (step p force) refl
  where
    go :
        ((q : ResponseParser)
          → length q.buffer ≤ m
          → length q.buffer ≤ n
          → drain_fuel m q force ≡ drain_fuel n q force)
        → (s : Step) → step p force ≡ s
        → drain_fuel (suc m) p force ≡ drain_fuel (suc n) p force
    go ih (emitted e q) h =
        let less = step-progress p force h in
        rw (h, drain_fuel)
          (ap (λ (r : ResponseParser × List ParsedEvent). (r.0, e ∷ r.1))
            (ih q (omega (arith, less)) (omega (arith, less))))
    go ih need_more h = rw (h, drain_fuel) refl
    go ih empty h = rw (h, drain_fuel) refl

-- One turn of the loop that yields an event.
pub drain-emitted :
    (force : Bool) (p q : ResponseParser) (e : ParsedEvent)
    → step p force ≡ emitted e q
    → drain p force ≡ ((drain q force).0, e ∷ (drain q force).1)
unfolding drain
drain-emitted force p q e h =
    let less = step-progress p force h in
    drain_fuel-enough force _ (suc (length p.buffer)) p (omega arith) (omega arith)
    ∙ (unfold drain_fuel in
        rw (h, drain_fuel)
          (ap (λ (r : ResponseParser × List ParsedEvent). (r.0, e ∷ r.1))
            (drain_fuel-enough force _ (length q.buffer) q (omega (arith, less)) (omega arith))))

drain_fuel-Stops :
    (force : Bool) (fuel : ℕ) (p : ResponseParser)
    → length p.buffer ≤ fuel
    → Stops (step (drain_fuel fuel p force).0 force)
unfolding drain_fuel
drain_fuel-Stops force zero p n = go (step p force) refl
  where
    go : (s : Step) → step p force ≡ s → Stops (step p force)
    go (emitted e q) h = absurd (omega (arith, step-progress p force h))
    go need_more h = rw h tt
    go empty h = rw h tt
drain_fuel-Stops force (suc fuel) p n = go (drain_fuel-Stops force fuel) (step p force) refl
  where
    go :
        ((q : ResponseParser)
          → length q.buffer ≤ fuel
          → Stops (step (drain_fuel fuel q force).0 force))
        → (s : Step) → step p force ≡ s
        → Stops (step (drain_fuel (suc fuel) p force).0 force)
    go ih (emitted e q) h = rw (h, drain_fuel) (ih q (omega (arith, step-progress p force h)))
    go ih need_more h = rw (h, drain_fuel) (rw h tt)
    go ih empty h = rw (h, drain_fuel) (rw h tt)

-- What an idle parser holds: under force nothing, otherwise less than a frame.
abbrev HoldsAtMost : ℕ → Bytes → Step → Type 0
HoldsAtMost n b (emitted e q) = Unit
HoldsAtMost n b need_more = length b ≤ n
HoldsAtMost n b empty = length b ≤ n

step_realtime-HoldsAtMost :
    (n : ℕ) (b : Bytes) (kinds : List DleEotKind) (first : ℕ) (rest : Bytes) (p : ResponseParser)
    → HoldsAtMost n b (step_realtime kinds first rest p)
unfolding step_realtime step_queued
step_realtime-HoldsAtMost n b [] first rest p = ground arith
step_realtime-HoldsAtMost n b (k ∷ ks) first rest p = ground arith

step-HoldsAtMost :
    (p : ResponseParser) (force : Bool)
    → HoldsAtMost (if force then 0 else 6) p.buffer (step p force)
unfolding step
step-HoldsAtMost p force = go p.buffer refl
  where
    go : (b : Bytes) → p.buffer ≡ b → HoldsAtMost (if force then 0 else 6) b (step_on b p force)
    go [] s = unfold step_on in ground arith
    go (first ∷ rest) s =
        unfold step_on step_gs_h step_asb in
        ground (
          arith,
          step_realtime-HoldsAtMost (if force then 0 else 6) (first ∷ rest) p.realtime first rest p,
        )

idle-HoldsAtMost :
    (p : ResponseParser) (force : Bool)
    → Stops (step p force)
    → length p.buffer ≤ (if force then 0 else 6)
idle-HoldsAtMost p force stops = go (step p force) stops (step-HoldsAtMost p force)
  where
    go :
        (s : Step)
        → Stops s
        → HoldsAtMost (if force then 0 else 6) p.buffer s
        → length p.buffer ≤ (if force then 0 else 6)
    go (emitted e q) h b = absurd h
    go need_more h b = b
    go empty h b = b

-- `feed` runs until the parser can classify nothing more, and then holds six bytes at most.
pub feed_bounded :
    (p : ResponseParser) (bytes : Bytes)
    → Stops (step (feed p bytes).0 false) × (length (feed p bytes).0.buffer ≤ 6)
unfolding feed drain
feed_bounded p bytes =
    let stops = drain_fuel-Stops false _ (record p { buffer = p.buffer ++ bytes }) (omega arith) in
    (stops, idle-HoldsAtMost _ false stops)

nil_of_length : (b : Bytes) → length b ≤ 0 → b ≡ []
nil_of_length [] h = refl
nil_of_length (x ∷ b) h = absurd (omega arith)

-- `flush` classifies every byte that is held: the buffer is empty afterwards, and the events spell it.
pub flush-stream :
    (p : ResponseParser) → ((flush p).0.buffer ≡ []) × (stream (flush p).1 ≡ p.buffer)
unfolding flush drain
flush-stream p =
    let stops = drain_fuel-Stops true (length p.buffer) p (omega arith) in
    let gone = nil_of_length _ (idle-HoldsAtMost _ true stops) in
    (
      gone,
      sym (append-nil _)
          ∙ ap (◌++◌ (stream (flush p).1)) (sym gone)
          ∙ drain_fuel-stream true (length p.buffer) p,
    )
