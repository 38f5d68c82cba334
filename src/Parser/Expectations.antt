-- ===== src/Parser/Expectations.antt =====
-- What the caller has announced by `expectRealtime` and `expectQueued`, and what the answers use up.
use mathlib.Core.List.{append_assoc}
use printer_driver.Base.{
  ℕ, ◌+◌, ◌≤◌, Bytes, Bool, true, false, List, [], ◌∷◌, ◌++◌, ◌≡◌, refl, ap, ◌∙◌, arith, length,
  take, drop, all, All,
}
use printer_driver.Parser.Drain.{drain_rule}
use printer_driver.Parser.Frames.{gs_h_shape}
use printer_driver.Parser.{
  ParsedEvent, gs_h_ack, asb_status, realtime_status, queued_status, unknown_byte, ResponseParser,
  Step, emitted, need_more, empty, is_printable_ascii, asb_disqualified, step_queued, step_realtime,
  step_asb, step_gs_h, step_on, step, drain_fuel, drain, feed,
}
use printer_driver.Parser.Status.{
  DleEotKind, looks_like_realtime_byte, looks_like_asb_byte, decode_realtime, decode_asb,
}

-- The real-time expectations that an event uses up, and the number of queued ones.
abbrev pub kinds_of : ParsedEvent → List DleEotKind
kinds_of (realtime_status byte kind flags) = kind ∷ []
kinds_of (gs_h_ack token) = []
kinds_of (asb_status frame flags) = []
kinds_of (queued_status byte) = []
kinds_of (unknown_byte byte) = []

abbrev pub queued_of : ParsedEvent → ℕ
queued_of (queued_status byte) = 1
queued_of (gs_h_ack token) = 0
queued_of (asb_status frame flags) = 0
queued_of (realtime_status byte kind flags) = 0
queued_of (unknown_byte byte) = 0

abbrev pub all_kinds : List ParsedEvent → List DleEotKind
all_kinds [] = []
all_kinds (e ∷ es) = kinds_of e ++ all_kinds es

abbrev pub all_queued : List ParsedEvent → ℕ
all_queued [] = 0
all_queued (e ∷ es) = queued_of e + all_queued es

-- An event carries what its kind of frame promises: a token is four printable bytes, a real-time
-- answer has Epson's fixed bits and its decoded flags, an automatic status is a decoded frame.
abbrev pub IsWellFormed : ParsedEvent → Type 0
IsWellFormed (gs_h_ack token) = (length token ≡ 4) × (all is_printable_ascii token ≡ true)
IsWellFormed (asb_status frame flags) =
    (length frame ≡ 4) × (all looks_like_asb_byte frame ≡ true) × (flags ≡ decode_asb frame)
IsWellFormed (realtime_status byte kind flags) =
    (looks_like_realtime_byte byte ≡ true) × (flags ≡ decode_realtime kind byte)
IsWellFormed (queued_status byte) = Unit
IsWellFormed (unknown_byte byte) = Unit

abbrev Accounts : ResponseParser → Step → Type 0
Accounts p (emitted e q) =
    (kinds_of e ++ q.realtime ≡ p.realtime) × (queued_of e + q.queued ≡ p.queued) × IsWellFormed e
Accounts p need_more = Unit
Accounts p empty = Unit

step_queued-Accounts :
    (first : ℕ) (rest : Bytes) (p : ResponseParser) → Accounts p (step_queued first rest p)
unfolding step_queued
step_queued-Accounts first rest p = ground arith

step_realtime-Accounts :
    (kinds : List DleEotKind) (first : ℕ) (rest : Bytes) (p : ResponseParser)
    → p.realtime ≡ kinds
    → Accounts p (step_realtime kinds first rest p)
unfolding step_realtime
step_realtime-Accounts [] first rest p s = step_queued-Accounts first rest p
step_realtime-Accounts (k ∷ ks) first rest p s = ground (arith, step_queued-Accounts first rest p)

asb_shape :
    (b rest : Bytes) (first : ℕ)
    → b ≡ first ∷ rest
    → looks_like_asb_byte first ≡ true
    → all looks_like_asb_byte (take 3 (drop 1 b)) ≡ true
    → 4 ≤ length b
    → (length (take 4 b) ≡ 4) × (all looks_like_asb_byte (take 4 b) ≡ true)
asb_shape (x ∷ y ∷ z ∷ w ∷ b) rest first s h q n = ground arith
asb_shape [] rest first s h q n = absurd (omega arith)
asb_shape (x ∷ []) rest first s h q n = absurd (omega arith)
asb_shape (x ∷ y ∷ []) rest first s h q n = absurd (omega arith)
asb_shape (x ∷ y ∷ z ∷ []) rest first s h q n = absurd (omega arith)

step_asb-Accounts :
    (first : ℕ) (rest : Bytes) (p : ResponseParser) (force : Bool)
    → p.buffer ≡ first ∷ rest
    → Accounts p (step_asb first rest p force)
unfolding step_asb asb_disqualified
step_asb-Accounts first rest p force s =
    ground
      (arith, step_realtime-Accounts p.realtime first rest p refl, asb_shape p.buffer rest first s)

step_gs_h-Accounts :
    (first : ℕ) (rest : Bytes) (p : ResponseParser) (force : Bool)
    → p.buffer ≡ first ∷ rest
    → Accounts p (step_gs_h first rest p force)
unfolding step_gs_h
step_gs_h-Accounts first rest p force s =
    ground (arith, step_asb-Accounts first rest p force s, gs_h_shape p.buffer rest)

step_on-Accounts :
    (b : Bytes) (p : ResponseParser) (force : Bool) → p.buffer ≡ b → Accounts p (step_on b p force)
unfolding step_on
step_on-Accounts [] p force s = tt
step_on-Accounts (first ∷ rest) p force s = step_gs_h-Accounts first rest p force s

step-Accounts :
    (p : ResponseParser) {q : ResponseParser} {e : ParsedEvent} (force : Bool)
    → step p force ≡ emitted e q
    → Accounts p (emitted e q)
unfolding step
step-Accounts p force h = rw h at (step_on-Accounts p.buffer p force refl)

abbrev Balanced : ResponseParser → ResponseParser × List ParsedEvent → Type 0
Balanced p (q, es) =
    (all_kinds es ++ q.realtime ≡ p.realtime)
    × (all_queued es + q.queued ≡ p.queued)
    × All IsWellFormed es

drain_fuel-Balanced :
    (force : Bool) (fuel : ℕ) (p : ResponseParser) → Balanced p (drain_fuel fuel p force)
drain_fuel-Balanced force =
    drain_rule Balanced force (λ p. (refl, omega arith, tt))
      λ p q e out h ih.
        let a = step-Accounts p force h in
        (
          append_assoc (kinds_of e) _ _ ∙ ap (◌++◌ (kinds_of e)) ih.0 ∙ a.0,
          omega (arith, a.1, ih.1),
          (a.2, ih.2),
        )

-- Whatever bytes arrive, real-time answers use up the announced kinds oldest first and queued answers
-- use up announced ones only; and every event is well formed: an acknowledgement's token is four
-- printable bytes, and the status flags are decoded from the event's own bytes.
pub feed_balanced :
    (p : ResponseParser) (bytes : Bytes)
    → (all_kinds (feed p bytes).1 ++ (feed p bytes).0.realtime ≡ p.realtime)
      × (all_queued (feed p bytes).1 + (feed p bytes).0.queued ≡ p.queued)
      × All IsWellFormed (feed p bytes).1
unfolding feed drain
feed_balanced p bytes = drain_fuel-Balanced false _ (record p { buffer = p.buffer ++ bytes })
