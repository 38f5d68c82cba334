-- ===== src/Parser/Drain.antt =====
-- `ResponseParser::drain` of core/src/response_parser.cpp: the induction rule of its loop.
use printer_driver.Base.{ℕ, zero, suc, Bool, List, [], ◌∷◌, ◌≡◌, refl}
use printer_driver.Parser.{
  ParsedEvent, ResponseParser, Step, emitted, need_more, empty, step, drain_fuel,
}

module _ {κ} (P : ResponseParser → ResponseParser × List ParsedEvent → Type κ) (force : Bool)
    (stop : (p : ResponseParser) → P p (p, []))
    (more : (p q : ResponseParser) (e : ParsedEvent) (out : ResponseParser × List ParsedEvent)
      → step p force ≡ emitted e q
      → P q out
      → P p (out.0, e ∷ out.1)) where
  -- What holds where the loop stops, and is carried back over each event, holds of the whole loop.
  pub drain_rule : (fuel : ℕ) (p : ResponseParser) → P p (drain_fuel fuel p force)
  unfolding drain_fuel
  drain_rule zero p = stop p
  drain_rule (suc fuel) p = go (drain_rule fuel) (step p force) refl
    where
      go :
          ((q : ResponseParser) → P q (drain_fuel fuel q force))
          → (s : Step) → step p force ≡ s
          → P p (drain_fuel (suc fuel) p force)
      go rest (emitted e q) h = rw (h, drain_fuel) (more p q e _ h (rest q))
      go rest need_more h = rw (h, drain_fuel) (stop p)
      go rest empty h = rw (h, drain_fuel) (stop p)

abbrev pub Stops : Step → Type 0
Stops (emitted e q) = ⊥
Stops need_more = Unit
Stops empty = Unit
