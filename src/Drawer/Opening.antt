-- ===== src/Drawer/Opening.antt =====
-- `openDrawer` and `runDrawerSequence` of core/src/driver.cpp. The sleeps between pulses and between polls
-- change nothing and are left out.
use printer_driver.Base.{
  ℕ, Bytes, Bool, true, false, not, ◌&&◌, ◌||◌, Option, none, some, List, [], ◌∷◌, ◌++◌,
  if◌then◌else◌, is_some,
}
use printer_driver.Drawer.{
  DrawerState, DrawerKickMethod, DrawerPolarity, DrawerCapabilities, electrical_known, kickable,
  sensor_readable, pulse_for, channel_for, drawer_state_from,
}
use printer_driver.Encoder.Commands.{drawer_kick}
use printer_driver.Fence.{Io}
use printer_driver.Fence.Waits.{begin_job_io}
use printer_driver.Drawer.Polling.{DrawerKickReg, reader_of, Poll, poll_drawer_pin}

pub data Action : Type 0 where
  -- The level that was read before the pulse, and one that was seen behind it.
  reads watches : Option Bool → Action
  -- The bytes of the pulse, and whether the link took them.
  pulses : Bytes → Bool → Action

pub record DrawerOpenResult : Type 0 where
  pub state : DrawerState
  pub previous_state : DrawerState
  pub channel : ℕ
  pub pulse_ms : ℕ
  pub elapsed_ms : ℕ

-- A run of the sequence; it has no result where the encoder throws.
pub record Run : Type 0 where
  pub trace : List Action
  pub result : Option DrawerOpenResult
  pub io : Io

abbrev pub eq_bool : Bool → Bool → Bool
eq_bool true b = b
eq_bool false b = not b

-- Does the level say that the drawer opened?
unfoldable pub opened : DrawerPolarity → Bool → Bool → Bool
opened polarity before level =
    if polarity.calibrated
    then eq_bool level polarity.high_means_open
    else not (eq_bool level before)

pub record Watch : Type 0 where
  pub trace : List Action
  pub verified : Bool
  pub answered : Bool
  pub io : Io

abbrev pub or_else : Option Bool → Option Bool → Option Bool
or_else (some b) other = some b
or_else none other = other

abbrev pub shows : DrawerPolarity → Bool → Option Bool → Bool
shows polarity before none = false
shows polarity before (some level) = opened polarity before level

-- The loop that watches the switch, over this poll and those that follow.
unfoldable pub watch :
    Bytes
    → Option (Bytes × (Bytes → Option Bool))
    → DrawerPolarity
    → Bool
    → Bool
    → Poll
    → List Poll
    → Io
    → Watch
unfolding poll_drawer_pin
watch nonce reader polarity before answered p [] io =
    let polled = poll_drawer_pin nonce reader p io in
    let level = or_else polled.0 polled.1.drawer_pin in
    record {
      trace = watches level ∷ [];
      verified = shows polarity before level;
      answered = answered || is_some level;
      io = polled.1;
    }
watch nonce reader polarity before answered p (q ∷ qs) io =
    let polled = poll_drawer_pin nonce reader p io in
    let level = or_else polled.0 polled.1.drawer_pin in
    let rest = watch nonce reader polarity before (answered || is_some level) q qs polled.1 in
    if shows polarity before level || p.gives_up
    then record {
      trace = watches level ∷ [];
      verified = shows polarity before level;
      answered = answered || is_some level;
      io = polled.1;
    }
    else record rest { trace = watches level ∷ rest.trace }

-- What the world does to the sequence.
pub record DrawerWorld : Type 0 where
  pub connected : Bool
  pub first : Poll
  pub kick_sent : Bool
  pub next : Poll
  pub polls : List Poll
  pub elapsed_ms : ℕ

-- The state that the watching ends in.
unfoldable pub final_state : DrawerPolarity → Watch → DrawerState
final_state polarity seen =
    if seen.verified
    then DrawerState.open_verified
    else if not seen.answered
    then DrawerState.kick_sent_unverified
    else if polarity.calibrated
    then DrawerState.failed_to_open
    else DrawerState.kick_sent_unverified

-- The pulse was sent; `before` is the level ahead of it.
unfoldable pub after_pulse :
    Bytes
    → Option DrawerKickReg
    → DrawerCapabilities
    → DrawerWorld
    → Option Bool
    → List Action
    → DrawerOpenResult
    → Io
    → Run
unfolding watch final_state
after_pulse nonce vendor caps w none trace r io = record {
  trace = trace;
  result = some (record r { state = DrawerState.kick_sent_unverified });
  io = io;
}
after_pulse nonce vendor caps w (some before) trace r io =
    let seen = watch nonce (reader_of vendor) caps.polarity before false w.next w.polls io in
    record {
      trace = trace ++ seen.trace;
      result =
          some (record r { state = final_state caps.polarity seen; elapsed_ms = w.elapsed_ms });
      io = seen.io;
    }

abbrev pub pulse_bytes : Option DrawerKickReg → ℕ → ℕ → Option Bytes
pulse_bytes none channel pulse_ms = drawer_kick channel pulse_ms
pulse_bytes (some vendor) channel pulse_ms = some (vendor.kick_bytes channel pulse_ms)

-- The pulse, unless the encoder throws.
unfoldable pub kick :
    Bytes
    → Option DrawerKickReg
    → DrawerCapabilities
    → DrawerWorld
    → Option Bool
    → List Action
    → DrawerOpenResult
    → Io
    → Option Bytes
    → Run
unfolding after_pulse
kick nonce vendor caps w before trace r io none = record { trace = trace; result = none; io = io }
kick nonce vendor caps w before trace r io (some bytes) =
    let sent = trace ++ (pulses bytes w.kick_sent ∷ []) in
    if w.kick_sent
    then after_pulse nonce vendor caps w before sent r io
    else record { trace = sent; result = some (record r { state = DrawerState.unknown }); io = io }

abbrev pub is_open : DrawerState → Bool
is_open DrawerState.opened = true
is_open _ = false

abbrev pub previous : Bool → DrawerPolarity → Option Bool → DrawerState
previous sensor polarity none = if sensor then DrawerState.unknown else DrawerState.no_sensor
previous sensor polarity (some level) = drawer_state_from level polarity

unfoldable pub run_drawer_sequence :
    Bytes → Option DrawerKickReg → DrawerCapabilities → ℕ → ℕ → DrawerWorld → Io → Run
unfolding kick poll_drawer_pin
run_drawer_sequence nonce vendor caps channel pulse_ms w io =
    let base : DrawerOpenResult = record {
      state = DrawerState.unknown;
      previous_state = DrawerState.unknown;
      channel = channel_for caps channel;
      pulse_ms = pulse_for caps pulse_ms;
      elapsed_ms = 0;
    } in
    let sensor = sensor_readable caps || is_some (reader_of vendor) in
    let start = begin_job_io io in
    let polled =
      if sensor then poll_drawer_pin nonce (reader_of vendor) w.first start else (none, start) in
    let before = polled.0 in
    let trace = if sensor then reads before ∷ [] else [] in
    let known : DrawerOpenResult = record base {
      previous_state = previous sensor caps.polarity before;
    } in
    if not w.connected
    then record { trace = []; result = some (record base { pulse_ms = 0 }); io = io }
    else if is_open known.previous_state
    then record {
      trace = trace;
      result = some (record known { pulse_ms = 0; state = DrawerState.opened });
      io = polled.1;
    }
    else kick nonce vendor caps w before trace known polled.1
        (pulse_bytes vendor known.channel known.pulse_ms)

abbrev is_vendor : DrawerKickMethod → Bool
is_vendor DrawerKickMethod.vendor = true
is_vendor _ = false

-- May the port be energised? `vendor` is the registered kick that the profile names, if it names one.
unfoldable pub may_kick : Option DrawerKickReg → DrawerCapabilities → Bool → Bool → Bool
may_kick vendor caps drivable stopping =
    let vendor_drivable =
      caps.present && (electrical_known caps && (is_vendor caps.kick_method && is_some vendor)) in
    not ((not (kickable caps) && not vendor_drivable) || (not drivable || stopping))

abbrev is_empty : Bytes → Bool
is_empty [] = true
is_empty (b ∷ bs) = false

-- `vendorDrawerKick`, over what the registry has under an id.
unfoldable pub vendor_drawer_kick :
    (Bytes → Option DrawerKickReg) → DrawerCapabilities → Option DrawerKickReg
vendor_drawer_kick registered caps =
    if is_vendor caps.kick_method && not (is_empty caps.vendor_id)
    then registered caps.vendor_id
    else none

-- `openDrawer`, with the task that it waits for run by the worker.
unfoldable pub open_drawer :
    Bytes
    → (Bytes → Option DrawerKickReg)
    → DrawerCapabilities
    → Bool
    → Bool
    → ℕ
    → ℕ
    → DrawerWorld
    → Io
    → Run
unfolding may_kick run_drawer_sequence vendor_drawer_kick
open_drawer nonce registered caps drivable stopping channel pulse_ms w io =
    let vendor = vendor_drawer_kick registered caps in
    if may_kick vendor caps drivable stopping
    then run_drawer_sequence nonce vendor caps channel pulse_ms w io
    else record {
      trace = [];
      result = some (record {
        state = DrawerState.unknown;
        previous_state = DrawerState.unknown;
        channel = channel_for caps channel;
        pulse_ms = 0;
        elapsed_ms = 0;
      });
      io = io;
    }
