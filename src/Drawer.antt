-- ===== src/Drawer.antt =====
-- core/include/printerdriver/cash_drawer.hpp and core/src/cash_drawer.cpp: what a drawer port allows, the
-- pulse that it gets, and what its switch says.
pub mod Polarity
pub mod Polling
pub mod Opening
pub mod Verified
pub mod Pulse
mod Examples
use printer_driver.Base.{
  ℕ, ◌-◌, ◌%◌, Bytes, codes, Bool, true, false, not, ◌&&◌, if◌then◌else◌, ltb, ◌==◌,
}

pub data DrawerState : Type 0 where
  closed opened opening kick_sent_unverified open_verified failed_to_open no_sensor : DrawerState
  unknown : DrawerState

pub data DrawerPortStandard : Type 0 where
  epson24_v6_p6_c star24_v6_p6_c generic12_v6_p6_c unknown : DrawerPortStandard

pub data DrawerKickMethod : Type 0 where
  epson_esc_p epson_epos star_prnt bixolon_sdk citizen_esc_p snbc_esc_p vendor : DrawerKickMethod
  unsupported : DrawerKickMethod

pub data DrawerStatusMethod : Type 0 where
  gs_r2 asb star_signal vendor_sdk none : DrawerStatusMethod

unfoldable pub drawer_state_name : DrawerState → Bytes
drawer_state_name DrawerState.closed = codes "Closed"
drawer_state_name DrawerState.opened = codes "Open"
drawer_state_name DrawerState.opening = codes "Opening"
drawer_state_name DrawerState.kick_sent_unverified = codes "KickSentUnverified"
drawer_state_name DrawerState.open_verified = codes "OpenVerified"
drawer_state_name DrawerState.failed_to_open = codes "FailedToOpen"
drawer_state_name DrawerState.no_sensor = codes "NoSensor"
drawer_state_name DrawerState.unknown = codes "Unknown"

pub record DrawerPolarity : Type 0 where
  pub calibrated : Bool
  pub high_means_open : Bool

-- `DrawerCapabilities`, flat: the fields that the engine reads.
pub record DrawerCapabilities : Type 0 where
  pub present : Bool
  pub standard : DrawerPortStandard
  pub channel_count : ℕ
  pub kick_method : DrawerKickMethod
  pub vendor_id : Bytes
  pub default_pulse_ms : ℕ
  pub max_pulse_ms : ℕ
  pub status_available : Bool
  pub status_method : DrawerStatusMethod
  pub polarity : DrawerPolarity

unfoldable pub electrical_known : DrawerCapabilities → Bool
electrical_known caps = elim caps.standard [
  | DrawerPortStandard.unknown ↦ false
  | DrawerPortStandard.epson24_v6_p6_c ↦ true
  | DrawerPortStandard.star24_v6_p6_c ↦ true
  | DrawerPortStandard.generic12_v6_p6_c ↦ true
]

abbrev is_esc_p : DrawerKickMethod → Bool
is_esc_p DrawerKickMethod.epson_esc_p = true
is_esc_p DrawerKickMethod.citizen_esc_p = true
is_esc_p DrawerKickMethod.snbc_esc_p = true
is_esc_p DrawerKickMethod.epson_epos = false
is_esc_p DrawerKickMethod.star_prnt = false
is_esc_p DrawerKickMethod.bixolon_sdk = false
is_esc_p DrawerKickMethod.vendor = false
is_esc_p DrawerKickMethod.unsupported = false

abbrev is_unsupported : DrawerKickMethod → Bool
is_unsupported DrawerKickMethod.unsupported = true
is_unsupported _ = false

unfoldable pub kickable : DrawerCapabilities → Bool
unfolding electrical_known
kickable caps =
    if not caps.present
    then false
    else if is_unsupported caps.kick_method
    then false
    else if not (electrical_known caps)
    then false
    else is_esc_p caps.kick_method

abbrev is_gs_r2 : DrawerStatusMethod → Bool
is_gs_r2 DrawerStatusMethod.gs_r2 = true
is_gs_r2 _ = false

unfoldable pub sensor_readable : DrawerCapabilities → Bool
sensor_readable caps = caps.present && (caps.status_available && is_gs_r2 caps.status_method)

unfoldable pub pulse_for : DrawerCapabilities → ℕ → ℕ
pulse_for caps requested_ms =
    let wanted = if requested_ms == 0 then caps.default_pulse_ms else requested_ms in
    let clamped =
      if not (caps.max_pulse_ms == 0) && ltb caps.max_pulse_ms wanted
      then caps.max_pulse_ms
      else wanted in
    let even = clamped - clamped % 2 in if ltb even 2 then 2 else even

unfoldable pub channel_for : DrawerCapabilities → ℕ → ℕ
channel_for caps requested =
    let channels = if caps.channel_count == 0 then 1 else caps.channel_count in
    let channel = if requested == 0 then 1 else requested in
    if ltb channels channel then channels else channel

-- `(answer & 1) != 0`.
abbrev pub drawer_pin_high : ℕ → Bool
drawer_pin_high gs_r2_answer = gs_r2_answer % 2 == 1

unfoldable pub drawer_state_from : Bool → DrawerPolarity → DrawerState
drawer_state_from pin_high polarity =
    let is_open = if polarity.high_means_open then pin_high else not pin_high in
    if not polarity.calibrated
    then DrawerState.unknown
    else if is_open
    then DrawerState.opened
    else DrawerState.closed
