-- ===== src/Fence/Dispatch.antt =====
-- `onBytes`: the events of the parsers against the fences that are out.
use printer_driver.Base.{
  ℕ, ◌+◌, Bytes, Bool, true, false, not, ◌&&◌, Option, none, some, List, [], ◌∷◌, ◌++◌,
  if◌then◌else◌, ◌==◌, length, take, eq_bytes,
}
use printer_driver.Fence.{CustomMatch, matched, not_mine, need_more, Io}
use printer_driver.Fence.StarResponses.{StarEvent, etx_ack, asb_status, unknown_byte}
use printer_driver.Fence.StarResponses
use printer_driver.Parser.{ParsedEvent, gs_h_ack, queued_status, realtime_status, feed}
use printer_driver.Parser.Status.{StatusFlags, to_device_events}
use printer_driver.Types.{DeviceEvent}

-- `MarkerAllocator::isOurs`: a token of four characters that starts with the nonce.
unfoldable pub is_ours : Bytes → Bytes → Bool
is_ours nonce token = (length token == 4) && eq_bytes (take 2 token) nonce

abbrev pub newer : Option Bool → Option Bool → Option Bool
newer none old = old
newer (some b) old = some b

unfoldable pub merge_status : StatusFlags → Io → Io
merge_status flags io = record io {
  status = record io.status {
    online = newer flags.online io.status.online;
    cover_open = newer flags.cover_open io.status.cover_open;
    paper_out = newer flags.paper_out io.status.paper_out;
    paper_near_end = newer flags.paper_near_end io.status.paper_near_end;
    cutter_error = newer flags.cutter_error io.status.cutter_error;
    unrecoverable_error = newer flags.unrecoverable_error io.status.unrecoverable_error;
    recoverable_error = newer flags.auto_recoverable_error io.status.recoverable_error;
    observed = true;
  };
  drawer_pin = newer flags.drawer_pin_high io.drawer_pin;
}

abbrev foreign : Io → Io × List DeviceEvent
foreign io = (io, DeviceEvent.foreign_writer_detected ∷ [])

-- One event of the ESC/POS parser, for a driver with the given nonce.
unfoldable pub on_event : Bytes → ParsedEvent → Io → Io × List DeviceEvent
unfolding is_ours merge_status to_device_events
on_event nonce (gs_h_ack token) io =
    if is_ours nonce token
    then (record io { gsh_tokens = io.gsh_tokens ++ (token ∷ []) }, [])
    else foreign io
on_event nonce (queued_status byte) io = (
  record io {
    queued_answers = io.queued_answers + 1;
    queued_bytes = io.queued_bytes ++ (byte ∷ []);
  },
  [],
)
on_event nonce (realtime_status byte kind flags) io = (
  let merged = merge_status flags io in
      record merged {
        realtime_answers = io.realtime_answers ++ (realtime_status byte kind flags ∷ []);
      },
  to_device_events flags,
)
on_event nonce (ParsedEvent.asb_status frame flags) io =
    (merge_status flags io, to_device_events flags)
on_event nonce (ParsedEvent.unknown_byte byte) io = (io, [])

unfoldable pub on_events : Bytes → List ParsedEvent → Io → Io × List DeviceEvent
unfolding on_event
on_events nonce [] io = (io, [])
on_events nonce (e ∷ es) io =
    let first = on_event nonce e io in
    let rest = on_events nonce es first.0 in (rest.0, first.1 ++ rest.1)

abbrev pub eq_counter : Option ℕ → ℕ → Bool
eq_counter none counter = false
eq_counter (some c) counter = counter == c

-- One event of the Star parser.
unfoldable pub on_star_event : StarEvent → Io → Io × List DeviceEvent
on_star_event (etx_ack n1 n2 counter) io =
    if io.star_fence_outstanding
      && (not io.star_fence_is_etb && ((n1 == io.star_expect_n1) && (n2 == io.star_expect_n2)))
    then (record io { star_fence_signalled = true }, [])
    else foreign io
on_star_event (asb_status frame counter) io =
    if eq_counter io.star_counter counter
    then (io, [])
    else (let counted = record io { star_counter = some counter } in
        if io.star_fence_outstanding
          && (io.star_fence_is_etb && (counter == io.star_expect_counter))
        then (record counted { star_fence_signalled = true }, [])
        else foreign counted)
on_star_event (unknown_byte byte) io = (io, [])

unfoldable pub on_star_events : List StarEvent → Io → Io × List DeviceEvent
unfolding on_star_event
on_star_events [] io = (io, [])
on_star_events (e ∷ es) io =
    let first = on_star_event e io in
    let rest = on_star_events es first.0 in (rest.0, first.1 ++ rest.1)

-- What the registered matcher said, of bytes that are kept until it settles.
unfoldable pub on_match : Bytes → CustomMatch → Io → Io × List DeviceEvent
unfolding is_ours
on_match nonce (matched token) io =
    if is_ours nonce token
    then (record io { custom_tokens = io.custom_tokens ++ (token ∷ []); custom_rx = [] }, [])
    else foreign (record io { custom_rx = [] })
on_match nonce not_mine io = (record io { custom_rx = [] }, [])
on_match nonce need_more io = (io, [])

unfoldable pub ask_matcher :
    Bytes → Option (Bytes → CustomMatch) → Bytes → Io → Io × List DeviceEvent
unfolding on_match
ask_matcher nonce none bytes io = (io, [])
ask_matcher nonce (some matcher) bytes io =
    let received = record io { custom_rx = io.custom_rx ++ bytes } in
    if io.custom_fence_outstanding
    then on_match nonce (matcher received.custom_rx) received
    else (io, [])

unfoldable pub on_escpos_bytes : Bytes → Bytes → Io → Io × List DeviceEvent
unfolding on_events ask_matcher
on_escpos_bytes nonce bytes io =
    let fed = feed io.parser bytes in
    let read = on_events nonce fed.1 (record io { parser = fed.0 }) in
    let asked = ask_matcher nonce read.0.custom_method bytes read.0 in (asked.0, read.1 ++ asked.1)

unfoldable pub on_star_bytes : Bytes → Io → Io × List DeviceEvent
unfolding on_star_events
on_star_bytes bytes io =
    let fed = StarResponses.feed io.star_parser bytes in
    on_star_events fed.1 (record io { star_parser = fed.0 })

-- `onBytes`, when no probe owns the conversation.
unfoldable pub on_bytes : Bytes → Bytes → Io → Io × List DeviceEvent
unfolding on_escpos_bytes on_star_bytes
on_bytes nonce bytes io =
    if io.star_mode then on_star_bytes bytes io else on_escpos_bytes nonce bytes io

-- The chunks that arrive, one after the other.
unfoldable pub receive : Bytes → List Bytes → Io → Io
unfolding on_bytes
receive nonce [] io = io
receive nonce (chunk ∷ chunks) io = receive nonce chunks (on_bytes nonce chunk io).0
