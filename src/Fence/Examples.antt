-- ===== src/Fence/Examples.antt =====
-- Fences on short streams.
use printer_driver.Base.{
  eq_bytes, Bytes, codes, true, false, none, some, List, [], ◌∷◌, ◌++◌, ◌≡◌, ◌↔◌, refl,
}
use printer_driver.Engine.{signalled, aborted}
use printer_driver.Fence.{DeviceStatus, Io}
use printer_driver.Fence.Dispatch.{receive}
use printer_driver.Fence.StarFences.{await_star_fence_iff}
use printer_driver.Fence.StarResponses.{StarParser}
use printer_driver.Fence.Stars.{star_events, any_answers}
use printer_driver.Fence.Tokens.{own_acks, await_token_iff}
use printer_driver.Fence.Waits.{
  begin_job_io, contains, await_token, arm_star_fence, await_star_fence,
}
use printer_driver.Parser.{feed, ResponseParser}
use printer_driver.Parser
use printer_driver.Fence.StarResponses
use printer_driver.Profile.{CompletionMechanism}

abbrev unknown_status : DeviceStatus
unknown_status = record {
  connected = true;
  online = none;
  cover_open = none;
  paper_out = none;
  paper_near_end = none;
  cutter_error = none;
  unrecoverable_error = none;
  recoverable_error = none;
  observed = false;
}

abbrev escpos_io : Io
escpos_io = record {
  parser = record { buffer = 5 ∷ []; realtime = []; queued = 0 };
  gsh_tokens = codes "ABzz" ∷ [];
  queued_answers = 0;
  queued_bytes = [];
  realtime_answers = [];
  link_down = false;
  star_parser = record { buffer = []; asb_block_bytes = 8 };
  star_mode = false;
  star_fence_outstanding = false;
  star_fence_signalled = false;
  star_fence_is_etb = false;
  star_expect_n1 = 0;
  star_expect_n2 = 0;
  star_expect_counter = 0;
  star_counter = some 31;
  star_sequence = 0;
  custom_method = none;
  custom_fence_outstanding = false;
  custom_rx = [];
  custom_tokens = [];
  status = unknown_status;
  drawer_pin = none;
}

abbrev star_io : Io
star_io = record escpos_io { star_mode = true }

-- One acknowledgement, cut inside the token.
abbrev ack_chunks : List Bytes
ack_chunks = (0x37 ∷ 0x22 ∷ codes "A") ∷ (codes "Bxy" ++ (0 ∷ [])) ∷ []

await_token_iff_example :
    (await_token (codes "ABxy") false (receive (codes "AB") ack_chunks (begin_job_io escpos_io))
      ≡ signalled)
    ↔ (contains (codes "ABxy") (
          own_acks
            (codes "AB")
            (feed (Parser.reset escpos_io.parser) (0x37 ∷ 0x22 ∷ (codes "ABxy" ++ (0 ∷ [])))).1)
        ≡ true)
await_token_iff_example = await_token_iff (codes "AB") (codes "ABxy") ack_chunks false escpos_io

ack_signals :
    await_token (codes "ABxy") false (receive (codes "AB") ack_chunks (begin_job_io escpos_io))
    ≡ signalled
unfolding await_token receive begin_job_io feed Parser.drain Parser.drain_fuel Parser.reset
    Parser.step Parser.step_gs_h Parser.gs_h_disqualified Parser.is_printable_ascii eq_bytes
ack_signals = refl

-- Somebody else's token confirms nothing.
foreign_ack :
    await_token (codes "ABxy") true (receive (codes "CD") ack_chunks (begin_job_io escpos_io))
    ≡ aborted
unfolding await_token receive begin_job_io feed Parser.drain Parser.drain_fuel Parser.reset
    Parser.step Parser.step_gs_h Parser.gs_h_disqualified Parser.is_printable_ascii eq_bytes
foreign_ack = refl

abbrev etx_answer : List Bytes
etx_answer = (0x1B ∷ 0x1D ∷ 3 ∷ []) ∷ (1 ∷ 0 ∷ 1 ∷ 9 ∷ 0 ∷ []) ∷ []

await_star_fence_iff_example :
    ((await_star_fence false (
        receive
          (codes "AB")
          etx_answer
          (arm_star_fence CompletionMechanism.star_esc_gs_etx star_io).1)).0
      ≡ signalled)
    ↔ (any_answers
          (arm_star_fence CompletionMechanism.star_esc_gs_etx star_io).1
          (star_events star_io.star_parser etx_answer)
        ≡ true)
await_star_fence_iff_example =
    await_star_fence_iff (codes "AB") CompletionMechanism.star_esc_gs_etx etx_answer false star_io
      refl

etx_signals :
    (await_star_fence false (
      receive
        (codes "AB")
        etx_answer
        (arm_star_fence CompletionMechanism.star_esc_gs_etx star_io).1)).0
    ≡ signalled
unfolding await_star_fence receive arm_star_fence StarResponses.feed
etx_signals = refl

-- The counter wraps from 31 to 0: a status block with counter 0 answers.
etb_wraps :
    (await_star_fence false (
      receive
        (codes "AB")
        ((0x23 ∷ 0 ∷ 0 ∷ 0 ∷ 0 ∷ 0 ∷ 0 ∷ 0 ∷ []) ∷ [])
        (arm_star_fence CompletionMechanism.star_etb star_io).1)).0
    ≡ signalled
unfolding await_star_fence receive arm_star_fence StarResponses.feed
etb_wraps = refl
