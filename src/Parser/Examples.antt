-- ===== src/Parser/Examples.antt =====
-- The theorems about the response parser at concrete streams.
use printer_driver.Base.{◌+◌, ◌≤◌, Bytes, codes, false, [], ◌∷◌, ◌++◌, ◌≡◌, refl, length, All}
use printer_driver.Parser.Ack.{ack_frame, feed_ack}
use printer_driver.Parser.Chunks.{feed-append}
use printer_driver.Parser.Termination.{feed_bounded, flush-stream}
use printer_driver.Parser.Conservation.{stream, feed-stream}
use printer_driver.Parser.Expectations.{all_kinds, all_queued, IsWellFormed, feed_balanced}
use printer_driver.Parser.Drain.{Stops}
use printer_driver.Parser.Status.{
  printer_status, decode_realtime, looks_like_asb_byte, looks_like_realtime_byte,
}
use printer_driver.Parser.{
  ResponseParser, gs_h_ack, realtime_status, queued_status, feed, flush, step, drain, drain_fuel,
  step_on, step_gs_h, step_asb, step_realtime, step_queued, gs_h_disqualified, asb_disqualified,
  is_printable_ascii,
}

-- One real-time and one queued answer are outstanding, and the first half of a frame is held.
abbrev waiting : ResponseParser
waiting = record { buffer = 0x37 ∷ 0x22 ∷ b'A' ∷ []; realtime = printer_status ∷ []; queued = 1 }

abbrev arriving : Bytes
arriving = codes "B01" ++ (0x00 ∷ 0x16 ∷ 0x05 ∷ [])

feed-arriving :
    (feed waiting arriving).1
    ≡ gs_h_ack (codes "AB01")
      ∷ realtime_status 0x16 printer_status (decode_realtime printer_status 0x16)
      ∷ queued_status 0x05
      ∷ []
unfolding feed drain drain_fuel step step_on step_gs_h step_asb step_realtime step_queued
    gs_h_disqualified asb_disqualified is_printable_ascii looks_like_asb_byte
    looks_like_realtime_byte
feed-arriving = refl

feed-stream_example :
    stream (feed waiting arriving).1 ++ (feed waiting arriving).0.buffer
    ≡ 0x37 ∷ 0x22 ∷ (codes "AB01" ++ (0x00 ∷ 0x16 ∷ 0x05 ∷ []))
feed-stream_example = feed-stream waiting arriving

feed-append_example : feed waiting (arriving ++ (0x37 ∷ [])) ≡ (
  (feed (feed waiting arriving).0 (0x37 ∷ [])).0,
  (feed waiting arriving).1 ++ (feed (feed waiting arriving).0 (0x37 ∷ [])).1,
)
feed-append_example = feed-append waiting arriving (0x37 ∷ [])

feed_bounded_example :
    Stops (step (feed waiting arriving).0 false) × (length (feed waiting arriving).0.buffer ≤ 6)
feed_bounded_example = feed_bounded waiting arriving

flush-stream_example :
    ((flush waiting).0.buffer ≡ []) × (stream (flush waiting).1 ≡ 0x37 ∷ 0x22 ∷ b'A' ∷ [])
flush-stream_example = flush-stream waiting

feed_balanced_example :
    (all_kinds (feed waiting arriving).1 ++ (feed waiting arriving).0.realtime
      ≡ printer_status ∷ [])
    × (all_queued (feed waiting arriving).1 + (feed waiting arriving).0.queued ≡ 1)
    × All IsWellFormed (feed waiting arriving).1
feed_balanced_example = feed_balanced waiting arriving

feed_ack_example : feed (record waiting { buffer = [] }) (ack_frame (codes "AB01") ++ arriving) ≡ (
  (feed (record waiting { buffer = [] }) arriving).0,
  gs_h_ack (codes "AB01") ∷ (feed (record waiting { buffer = [] }) arriving).1,
)
unfolding is_printable_ascii
feed_ack_example = feed_ack (record waiting { buffer = [] }) (codes "AB01") arriving refl refl refl
