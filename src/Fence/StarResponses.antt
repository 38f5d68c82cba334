-- ===== src/Fence/StarResponses.antt =====
-- The fence primitives and `ResponseParser` of core/src/star.cpp.
use Prim.Native.Nat.{bit_and, bit_or}
use printer_driver.Base.{
  ℕ, zero, suc, ◌+◌, ◌/◌, ◌%◌, Bytes, Bool, true, false, not, List, [], ◌∷◌, ◌++◌, if◌then◌else◌,
  ltb, ◌==◌, length, get_or, take, drop, ◌&&◌,
}

abbrev pub etb_fence : Bytes
etb_fence = 0x17 ∷ []

-- `((status_byte & 0x60) >> 2) | ((status_byte & 0x0E) >> 1)`
unfoldable pub etb_counter : ℕ → ℕ
etb_counter status_byte = bit_or (bit_and status_byte 0x60 / 4) (bit_and status_byte 0x0E / 2)

-- `(counter + 1) & 0x1F`.
unfoldable pub next_etb_counter : ℕ → ℕ
next_etb_counter counter = (counter + 1) % 32

abbrev pub esc_gs_etx_fence : ℕ → ℕ → Bytes
esc_gs_etx_fence n1 n2 = 0x1B ∷ 0x1D ∷ 0x03 ∷ 0x01 ∷ n1 ∷ n2 ∷ []

abbrev pub esc_gs_etx_response_bytes : ℕ
esc_gs_etx_response_bytes = 8

pub data StarEvent : Type 0 where
  -- The echoed correlation bytes and the print-end counter.
  etx_ack : ℕ → ℕ → ℕ → StarEvent
  -- The block, and the counter in it.
  asb_status : Bytes → ℕ → StarEvent
  unknown_byte : ℕ → StarEvent

pub record StarParser : Type 0 where
  pub buffer : Bytes
  pub asb_block_bytes : ℕ

pub data StarStep : Type 0 where
  emitted : StarEvent → StarParser → StarStep
  need_more empty : StarStep

-- Do the bytes that have come agree with the prefix 1B 1D 03 01?
unfoldable pub agrees : Bytes → Bytes → Bool
agrees [] prefix = true
agrees (b ∷ bs) [] = true
agrees (b ∷ bs) (p ∷ prefix) = (b == p) && agrees bs prefix

abbrev pub etx_prefix : Bytes
etx_prefix = 0x1B ∷ 0x1D ∷ 0x03 ∷ 0x01 ∷ []

abbrev unknown_front : ℕ → Bytes → StarParser → StarStep
unknown_front first rest p = emitted (unknown_byte first) (record p { buffer = rest })

-- A buffer that starts with ESC.
unfoldable pub step_etx : ℕ → Bytes → StarParser → Bool → StarStep
unfolding agrees
step_etx first rest p force =
    if not (agrees p.buffer etx_prefix)
    then unknown_front first rest p
    else if ltb (length p.buffer) esc_gs_etx_response_bytes
    then (if force then unknown_front first rest p else need_more)
    else emitted (etx_ack (get_or p.buffer 4 0) (get_or p.buffer 5 0) (get_or p.buffer 6 0))
        (record p { buffer = drop 8 p.buffer })

unfoldable block_counter : Bytes → ℕ
unfolding etb_counter
block_counter frame = if ltb 7 (length frame) then etb_counter (get_or frame 7 0) else 0

unfoldable pub step_block : ℕ → Bytes → StarParser → Bool → StarStep
unfolding block_counter
step_block first rest p force =
    let frame = take p.asb_block_bytes p.buffer in
    if ltb 0 p.asb_block_bytes
    then (if ltb (length p.buffer) p.asb_block_bytes
        then (if force then unknown_front first rest p else need_more)
        else emitted (asb_status frame (block_counter frame))
            (record p { buffer = drop p.asb_block_bytes p.buffer }))
    else unknown_front first rest p

step_on : Bytes → StarParser → Bool → StarStep
unfolding step_etx step_block
step_on [] p force = empty
step_on (first ∷ rest) p force =
    if first == 0x1B then step_etx first rest p force else step_block first rest p force

unfoldable pub step : StarParser → Bool → StarStep
unfolding step_on
step p force = step_on p.buffer p force

-- The loop over `step`. Each event takes a byte at least, so the length of the buffer is fuel enough.
unfoldable pub drain_fuel : ℕ → StarParser → Bool → StarParser × List StarEvent
unfolding step
drain_fuel zero p force = (p, [])
drain_fuel (suc fuel) p force = elim (step p force) [
  | emitted e q ↦ let (r, es) = drain_fuel fuel q force in (r, e ∷ es)
  | need_more ↦ (p, [])
  | empty ↦ (p, [])
]

unfoldable pub feed : StarParser → Bytes → StarParser × List StarEvent
unfolding drain_fuel
feed p bytes =
    drain_fuel (length (p.buffer ++ bytes)) (record p { buffer = p.buffer ++ bytes }) false

unfoldable pub flush : StarParser → StarParser × List StarEvent
unfolding drain_fuel
flush p = drain_fuel (length p.buffer) p true

abbrev pub reset : StarParser → StarParser
reset p = record p { buffer = [] }
