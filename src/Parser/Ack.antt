-- ===== src/Parser/Ack.antt =====
-- The acknowledgement frame of `GS ( H`, from the printer's side of the wire.
use printer_driver.Base.{Bytes, true, false, [], ◌∷◌, ◌++◌, ◌≡◌, refl, arith, length, all}
use printer_driver.Parser.Termination.{drain-emitted}
use printer_driver.Parser.{
  ResponseParser, gs_h_ack, is_printable_ascii, gs_h_disqualified, emitted, step_gs_h, step_on,
  step, feed,
}

-- `37 22 d1 d2 d3 d4 00`.
abbrev pub ack_frame : Bytes → Bytes
ack_frame token = 0x37 ∷ 0x22 ∷ (token ++ (0x00 ∷ []))

step-ack :
    (p : ResponseParser) (token rest : Bytes)
    → length token ≡ 4
    → all is_printable_ascii token ≡ true
    → p.buffer ≡ ack_frame token ++ rest
    → step p false ≡ emitted (gs_h_ack token) (record p { buffer = rest })
unfolding step step_on step_gs_h gs_h_disqualified
step-ack p (a ∷ b ∷ c ∷ d ∷ []) rest n h s = ground arith
step-ack p [] rest n h s = absurd (omega arith)
step-ack p (a ∷ []) rest n h s = absurd (omega arith)
step-ack p (a ∷ b ∷ []) rest n h s = absurd (omega arith)
step-ack p (a ∷ b ∷ c ∷ []) rest n h s = absurd (omega arith)
step-ack p (a ∷ b ∷ c ∷ d ∷ e ∷ t) rest n h s = absurd (omega arith)

-- A parser that holds nothing reports a whole acknowledgement frame for a token of four printable
-- bytes as exactly that acknowledgement, and goes on with the bytes behind it; no expectation has to
-- be outstanding, and none is used up.
pub feed_ack :
    (p : ResponseParser) (token rest : Bytes)
    → p.buffer ≡ []
    → length token ≡ 4
    → all is_printable_ascii token ≡ true
    → feed p (ack_frame token ++ rest) ≡ ((feed p rest).0, gs_h_ack token ∷ (feed p rest).1)
unfolding feed
feed_ack p token rest held n h =
    drain-emitted false (record p { buffer = p.buffer ++ (ack_frame token ++ rest) })
      (record p { buffer = p.buffer ++ rest }) (gs_h_ack token)
      (rw held (step-ack _ token rest n h refl))
