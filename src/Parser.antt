-- ===== src/Parser.antt =====
-- core/include/printerdriver/response_parser.hpp and core/src/response_parser.cpp: the incremental
-- parser of the stream that a printer sends back. `std::deque<uint8_t>` is a list of bytes with the
-- oldest first; the `out` vector that `step` appends to is the event that `Step.emitted` carries.
pub mod Status
pub mod Frames
pub mod Drain
pub mod Termination
pub mod Chunks
pub mod Ack
pub mod Expectations
mod Examples
pub mod Conservation
use Prim.Native.Nat.{bit_and}
use Status.{
  StatusFlags, DleEotKind, looks_like_asb_byte, looks_like_realtime_byte, decode_asb,
  decode_realtime,
}
use printer_driver.Base.{
  ℕ, zero, suc, ◌+◌, ◌-◌, Bytes, Bool, true, false, not, ◌&&◌, ◌||◌, List, [], ◌∷◌, ◌++◌, leb, ltb,
  ◌==◌, if◌then◌else◌, length, get_or, take, drop, all, min,
}

pub data ParsedEvent : Type 0 where
  gs_h_ack : Bytes → ParsedEvent
  asb_status : Bytes → StatusFlags → ParsedEvent
  realtime_status : ℕ → DleEotKind → StatusFlags → ParsedEvent
  queued_status : ℕ → ParsedEvent
  unknown_byte : ℕ → ParsedEvent

pub record ResponseParser : Type 0 where
  pub buffer : Bytes
  pub realtime : List DleEotKind
  pub queued : ℕ

abbrev pub gs_h_header0 : ℕ
gs_h_header0 = 0x37

abbrev pub gs_h_header1 : ℕ
gs_h_header1 = 0x22

abbrev pub gs_h_terminator : ℕ
gs_h_terminator = 0x00

abbrev pub gs_h_frame_size : ℕ
gs_h_frame_size = 7

abbrev pub asb_frame_size : ℕ
asb_frame_size = 4

unfoldable pub is_printable_ascii : ℕ → Bool
is_printable_ascii value = leb 0x20 value && leb value 0x7E

unfoldable pub expect_realtime : DleEotKind → ResponseParser → ResponseParser
expect_realtime kind p = record p { realtime = p.realtime ++ (kind ∷ []) }

unfoldable pub expect_queued : ResponseParser → ResponseParser
expect_queued p = record p { queued = p.queued + 1 }

unfoldable pub reset : ResponseParser → ResponseParser
reset p = record p { buffer = []; realtime = []; queued = 0 }

-- What `step` reports: an event and the parser behind it, or that it waits, or that nothing is held.
pub data Step : Type 0 where
  emitted : ParsedEvent → ResponseParser → Step
  need_more empty : Step

-- The bytes in hand cannot be the start of a `GS ( H` frame. The loop over i = 2 … 5 reads the four
-- token bytes as far as they have arrived.
unfoldable pub gs_h_disqualified : Bytes → Bool
gs_h_disqualified buffer =
    let available = min (length buffer) gs_h_frame_size in
    (leb 2 available && not (get_or buffer 1 0 == gs_h_header1))
    || not (all is_printable_ascii (take 4 (drop 2 buffer)))
    || (available == gs_h_frame_size && not (get_or buffer 6 0 == gs_h_terminator))

-- The loop over i = 1 … 3, as far as the bytes have arrived.
unfoldable pub asb_disqualified : Bytes → Bool
asb_disqualified buffer = not (all looks_like_asb_byte (take 3 (drop 1 buffer)))

-- Precedence 3 and 4: the oldest queued expectation, or a byte that nothing explains.
unfoldable pub step_queued : ℕ → Bytes → ResponseParser → Step
step_queued first rest p =
    if ltb 0 p.queued
    then emitted (queued_status first) (record p { buffer = rest; queued = p.queued - 1 })
    else emitted (unknown_byte first) (record p { buffer = rest })

-- Precedence 2: a real-time answer, against the oldest outstanding expectation.
unfoldable pub step_realtime : List DleEotKind → ℕ → Bytes → ResponseParser → Step
step_realtime [] first rest p = step_queued first rest p
step_realtime (kind ∷ kinds) first rest p =
    if looks_like_realtime_byte first
    then emitted (realtime_status first kind (decode_realtime kind first))
        (record p { buffer = rest; realtime = kinds })
    else step_queued first rest p

-- Precedence 1b: an automatic-status frame.
unfoldable pub step_asb : ℕ → Bytes → ResponseParser → Bool → Step
step_asb first rest p force =
    let single = step_realtime p.realtime first rest p in
    if looks_like_asb_byte first && not (asb_disqualified p.buffer)
    then (if leb asb_frame_size (length p.buffer)
        then emitted (asb_status (take 4 p.buffer) (decode_asb (take 4 p.buffer)))
            (record p { buffer = drop 4 p.buffer })
        else (if force then single else need_more))
    else single

-- Precedence 1a: the self-delimiting frame; otherwise 1b.
unfoldable pub step_gs_h : ℕ → Bytes → ResponseParser → Bool → Step
step_gs_h first rest p force =
    let other = step_asb first rest p force in
    if first == gs_h_header0 && not (gs_h_disqualified p.buffer)
    then (if leb gs_h_frame_size (length p.buffer)
        then emitted (gs_h_ack (take 4 (drop 2 p.buffer))) (record p { buffer = drop 7 p.buffer })
        else (if force then other else need_more))
    else other

step_on : Bytes → ResponseParser → Bool → Step
step_on [] p force = empty
step_on (first ∷ rest) p force = step_gs_h first rest p force

unfoldable pub step : ResponseParser → Bool → Step
unfolding step_on
step p force = step_on p.buffer p force

-- `while (step(out, force) == Emitted) {}`. Each event takes a byte at least, so the length of the
-- buffer is fuel enough.
unfoldable pub drain_fuel : ℕ → ResponseParser → Bool → ResponseParser × List ParsedEvent
drain_fuel zero p force = (p, [])
drain_fuel (suc fuel) p force = elim (step p force) [
  | emitted e q ↦ let (r, es) = drain_fuel fuel q force in (r, e ∷ es)
  | need_more ↦ (p, [])
  | empty ↦ (p, [])
]

unfoldable pub drain : ResponseParser → Bool → ResponseParser × List ParsedEvent
drain p force = drain_fuel (length p.buffer) p force

unfoldable pub feed : ResponseParser → Bytes → ResponseParser × List ParsedEvent
feed p bytes = drain (record p { buffer = p.buffer ++ bytes }) false

unfoldable pub flush : ResponseParser → ResponseParser × List ParsedEvent
flush p = drain p true
