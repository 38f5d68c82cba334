-- ===== src/Fence/Waits.antt =====
-- The start of a job, the arming of the fences, and the waits.
use printer_driver.Base.{
  ℕ, ◌+◌, ◌-◌, ◌%◌, Bytes, Bool, true, false, Option, none, some, List, [], ◌∷◌, if◌then◌else◌, ltb,
  leb, eq_bytes, drop, length, value_or, low_byte, high_byte,
}
use printer_driver.Engine.{WaitOutcome, signalled, link_down, timeout, aborted}
use printer_driver.Fence.{CustomMatch, Io}
use printer_driver.Fence.StarResponses.{etb_fence, next_etb_counter, esc_gs_etx_fence}
use printer_driver.Fence.StarResponses
use printer_driver.Parser.{ParsedEvent}
use printer_driver.Parser
use printer_driver.Profile.{CompletionMechanism}
use printer_driver.Types.{DeviceEvent}

unfoldable pub begin_job_io : Io → Io
begin_job_io io = record io {
  parser = Parser.reset io.parser;
  gsh_tokens = [];
  queued_answers = 0;
  queued_bytes = [];
  realtime_answers = [];
  link_down = false;
  star_parser = StarResponses.reset io.star_parser;
  star_mode = false;
  star_fence_outstanding = false;
  star_fence_signalled = false;
  custom_method = none;
  custom_fence_outstanding = false;
  custom_rx = [];
  custom_tokens = [];
}

abbrev has_realtime {ℓ} : {A : Type ℓ} → List A → Bool
has_realtime [] = false
has_realtime (x ∷ xs) = true

unfoldable pub clear_realtime : Io → Io
clear_realtime io = record io {
  realtime_answers = [];
  parser = if has_realtime io.parser.realtime then Parser.reset io.parser else io.parser;
}

unfoldable pub set_custom_method : Option (Bytes → CustomMatch) → Io → Io
set_custom_method method io = record io {
  custom_method = method;
  custom_fence_outstanding = false;
  custom_rx = [];
  custom_tokens = [];
}

unfoldable pub arm_custom_fence : Io → Io
arm_custom_fence io = record io { custom_fence_outstanding = true; custom_rx = [] }

-- With the events that it dispatches.
unfoldable pub on_disconnected : Io → Io × List DeviceEvent
on_disconnected io = (
  record io { link_down = true; status = record io.status { connected = false } },
  DeviceEvent.connection_lost ∷ [],
)

-- What a wait reports, by whether the answer is there, the link is down and the driver is stopping.
unfoldable pub outcome : Bool → Bool → Bool → WaitOutcome
outcome answered down stopping =
    if answered
    then signalled
    else if down
    then link_down
    else if stopping
    then aborted
    else timeout

unfoldable pub contains : Bytes → List Bytes → Bool
contains token [] = false
contains token (t ∷ ts) = if eq_bytes t token then true else contains token ts

unfoldable pub await_token : Bytes → Bool → Io → WaitOutcome
unfolding outcome contains
await_token token stopping io = outcome (contains token io.gsh_tokens) io.link_down stopping

unfoldable pub await_custom_token : Bytes → Bool → Io → WaitOutcome × Io
unfolding outcome contains
await_custom_token token stopping io = (
  outcome (contains token io.custom_tokens) io.link_down stopping,
  record io { custom_fence_outstanding = false },
)

abbrev front : Bytes → Option ℕ
front [] = none
front (b ∷ bs) = some b

-- The second result is what is written to `out_byte`.
unfoldable pub await_queued : Bool → Io → WaitOutcome × Option ℕ × Io
unfolding outcome
await_queued stopping io =
    if ltb 0 io.queued_answers
    then (
      signalled,
      front io.queued_bytes,
      record io { queued_answers = io.queued_answers - 1; queued_bytes = drop 1 io.queued_bytes },
    )
    else (outcome false io.link_down stopping, none, io)

unfoldable pub await_realtime : ℕ → Bool → Io → WaitOutcome × List ParsedEvent
unfolding outcome
await_realtime count stopping io =
    (outcome (leb count (length io.realtime_answers)) io.link_down stopping, io.realtime_answers)

abbrev pub is_etb : CompletionMechanism → Bool
is_etb CompletionMechanism.star_etb = true
is_etb _ = false

-- The fence's bytes and the state with the fence out.
unfoldable pub arm_star_fence : CompletionMechanism → Io → Bytes × Io
unfolding next_etb_counter
arm_star_fence completion io =
    let armed = record io { star_fence_signalled = false; star_fence_outstanding = true } in
    let sequence = (io.star_sequence + 1) % 65536 in
    if is_etb completion
    then (
      etb_fence,
      record armed {
        star_fence_is_etb = true;
        star_expect_counter = next_etb_counter (value_or io.star_counter 0);
      },
    )
    else (
      esc_gs_etx_fence (high_byte sequence) (low_byte sequence),
      record armed {
        star_fence_is_etb = false;
        star_sequence = sequence;
        star_expect_n1 = high_byte sequence;
        star_expect_n2 = low_byte sequence;
      },
    )

unfoldable pub await_star_fence : Bool → Io → WaitOutcome × Io
unfolding outcome
await_star_fence stopping io = (
  outcome io.star_fence_signalled io.link_down stopping,
  record io { star_fence_outstanding = false; star_fence_signalled = false },
)
