-- ===== src/Parser/Status.antt =====
-- The status bits of core/src/response_parser.cpp: Epson's fixed-bit signatures, the decoders of the
-- two status families and their lowering to device events.
use Prim.Native.Nat.{bit_and}
use printer_driver.Base.{
  ℕ, ◌^◌, Bytes, Bool, true, false, not, Option, none, some, List, [], ◌∷◌, ◌++◌, ◌==◌,
  if◌then◌else◌, value_or, is_some, get_or,
}
use printer_driver.Types.{DeviceEvent}

-- `DleEotKind` of core/include/printerdriver/escpos_encoder.hpp.
pub data DleEotKind : Type 0 where
  printer_status offline_cause error_cause paper_sensor : DleEotKind

pub record StatusFlags : Type 0 where
  pub online : Option Bool
  pub cover_open : Option Bool
  pub paper_out : Option Bool
  pub paper_near_end : Option Bool
  pub cutter_error : Option Bool
  pub unrecoverable_error : Option Bool
  pub auto_recoverable_error : Option Bool
  pub error : Option Bool
  pub drawer_pin_high : Option Bool
  pub paper_feed_button : Option Bool
  pub waiting_online_recovery : Option Bool
  pub paper_being_fed : Option Bool

abbrev pub no_flags : StatusFlags
no_flags = record {
  online = none;
  cover_open = none;
  paper_out = none;
  paper_near_end = none;
  cutter_error = none;
  unrecoverable_error = none;
  auto_recoverable_error = none;
  error = none;
  drawer_pin_high = none;
  paper_feed_button = none;
  waiting_online_recovery = none;
  paper_being_fed = none;
}

-- `(value & (1u << index)) != 0`.
unfoldable pub bit : ℕ → ℕ → Bool
bit value index = not (bit_and value (2 ^ index) == 0)

abbrev pub fixed_bit_mask : ℕ
fixed_bit_mask = 0x93

unfoldable pub looks_like_asb_byte : ℕ → Bool
looks_like_asb_byte value = bit_and value fixed_bit_mask == 0x10

unfoldable pub looks_like_realtime_byte : ℕ → Bool
looks_like_realtime_byte value = bit_and value fixed_bit_mask == 0x12

unfoldable pub decode_asb : Bytes → StatusFlags
unfolding bit
decode_asb frame =
    let b0 = get_or frame 0 0 in
    let b1 = get_or frame 1 0 in
    let b2 = get_or frame 2 0 in
    let b3 = get_or frame 3 0 in
    record {
      online = some (not (bit b0 3));
      cover_open = some (bit b1 2);
      paper_out = some (bit b3 5);
      paper_near_end = some (bit b3 2);
      cutter_error = some (bit b2 3);
      unrecoverable_error = some (bit b2 5);
      auto_recoverable_error = some (bit b2 6);
      error = some (bit b1 6);
      drawer_pin_high = some (bit b0 2);
      paper_feed_button = some (bit b0 6);
      waiting_online_recovery = some (bit b0 5);
      paper_being_fed = some (bit b1 3);
    }

unfoldable pub decode_realtime : DleEotKind → ℕ → StatusFlags
unfolding bit
decode_realtime printer_status value = record no_flags {
  drawer_pin_high = some (bit value 2);
  online = some (not (bit value 3));
  waiting_online_recovery = some (bit value 5);
  paper_feed_button = some (bit value 6);
}
decode_realtime offline_cause value = record no_flags {
  cover_open = some (bit value 2);
  paper_being_fed = some (bit value 3);
  paper_out = some (bit value 5);
  error = some (bit value 6);
}
decode_realtime error_cause value = record no_flags {
  cutter_error = some (bit value 3);
  unrecoverable_error = some (bit value 5);
  auto_recoverable_error = some (bit value 6);
}
decode_realtime paper_sensor value = record no_flags {
  paper_near_end = some (bit value 2);
  paper_out = some (bit value 5);
}

abbrev when : Bool → DeviceEvent → List DeviceEvent
when true e = e ∷ []
when false e = []

-- `if (o.has_value()) push_back(*o ? yes : no)`.
abbrev either : Option Bool → DeviceEvent → DeviceEvent → List DeviceEvent
either none set unset = []
either (some b) set unset = (if b then set else unset) ∷ []

abbrev paper_events : StatusFlags → List DeviceEvent
paper_events flags =
    if value_or flags.paper_out false
    then DeviceEvent.paper_out ∷ []
    else if value_or flags.paper_near_end false
    then DeviceEvent.paper_near_end ∷ []
    else when (is_some flags.paper_out) DeviceEvent.paper_ok

unfoldable pub to_device_events : StatusFlags → List DeviceEvent
to_device_events flags =
    either flags.online DeviceEvent.online DeviceEvent.offline
    ++ (either flags.cover_open DeviceEvent.cover_open DeviceEvent.cover_closed
        ++ (paper_events flags
            ++ (when (value_or flags.cutter_error false) DeviceEvent.cutter_error
                ++ (when (value_or flags.unrecoverable_error false) DeviceEvent.unrecoverable_error
                    ++ when (value_or flags.auto_recoverable_error false)
                        DeviceEvent.recoverable_error))))
