-- ===== src/Drawer/Pulse.antt =====
-- What a drawer port is given: at most one pulse, only where the port may be energised, and within its limits.
use printer_driver.Base.{
  ◌+◌, ◌≤◌, ◌/◌, min, ℕ, Bytes, Bool, true, false, not, ◌&&◌, ◌||◌, Option, none, some, List, [],
  ◌∷◌, ◌++◌, if◌then◌else◌, if_holds, is_some, ◌≡◌, ◌∙◌, refl, sym, arith, suc,
}
use mathlib.Core.Path.{subst}
use printer_driver.Drawer.{
  DrawerPolarity, DrawerCapabilities, DrawerKickMethod, electrical_known, kickable, sensor_readable,
}
use printer_driver.Drawer.Opening.{
  Action, reads, watches, pulses, DrawerOpenResult, Run, Watch, watch, DrawerWorld, after_pulse,
  kick, is_open, run_drawer_sequence, may_kick, vendor_drawer_kick, open_drawer, or_else, shows,
  previous,
}
use printer_driver.Drawer.Polling.{DrawerKickReg, reader_of, Poll, poll_drawer_pin}
use printer_driver.Fence.{Io}
use printer_driver.Fence.Waits.{begin_job_io}

-- The number of pulses in a trace.
unfoldable pub pulse_count : List Action → ℕ
pulse_count [] = 0
pulse_count (pulses bytes sent ∷ trace) = suc (pulse_count trace)
pulse_count (reads level ∷ trace) = pulse_count trace
pulse_count (watches level ∷ trace) = pulse_count trace

watch-pulse_count :
    (nonce : Bytes) (reader : Option (Bytes × (Bytes → Option Bool))) (polarity : DrawerPolarity)
    (before answered : Bool) (p : Poll) (qs : List Poll) (io : Io)
    → pulse_count (watch nonce reader polarity before answered p qs io).trace ≡ 0
unfolding watch pulse_count
watch-pulse_count nonce reader polarity before answered p [] io = refl
watch-pulse_count nonce reader polarity before answered p (q ∷ qs) io =
    let polled = poll_drawer_pin nonce reader p io in
    let level = or_else polled.0 polled.1.drawer_pin in
    if_holds (λ (s : Watch). pulse_count s.trace ≡ 0) (shows polarity before level || p.gives_up) _
      _ (λ ended. refl)
      (λ goes_on.
        watch-pulse_count nonce reader polarity before (answered || is_some level) q qs polled.1)

pulse_count-append : (t u : List Action) → pulse_count (t ++ u) ≡ pulse_count t + pulse_count u
unfolding pulse_count
pulse_count-append [] u = omega arith
pulse_count-append (pulses bytes sent ∷ t) u = omega (arith, pulse_count-append t u)
pulse_count-append (reads level ∷ t) u = pulse_count-append t u
pulse_count-append (watches level ∷ t) u = pulse_count-append t u

one_pulse : (bytes : Bytes) (sent : Bool) → pulse_count (pulses bytes sent ∷ []) ≡ 1
unfolding pulse_count
one_pulse bytes sent = refl

after_pulse-pulse_count :
    (nonce : Bytes) (vendor : Option DrawerKickReg) (caps : DrawerCapabilities) (w : DrawerWorld)
    (before : Option Bool) (trace : List Action) (r : DrawerOpenResult) (io : Io)
    → pulse_count trace ≤ 1
    → pulse_count (after_pulse nonce vendor caps w before trace r io).trace ≤ 1
unfolding after_pulse
after_pulse-pulse_count nonce vendor caps w none trace r io h = h
after_pulse-pulse_count nonce vendor caps w (some before) trace r io h = omega (
  arith,
  h,
  pulse_count-append trace
      (watch nonce (reader_of vendor) caps.polarity before false w.next w.polls io).trace,
  watch-pulse_count nonce (reader_of vendor) caps.polarity before false w.next w.polls io,
)

kick-pulse_count :
    (nonce : Bytes) (vendor : Option DrawerKickReg) (caps : DrawerCapabilities) (w : DrawerWorld)
    (before : Option Bool) (trace : List Action) (r : DrawerOpenResult) (io : Io)
    (bytes : Option Bytes)
    → pulse_count trace ≡ 0
    → pulse_count (kick nonce vendor caps w before trace r io bytes).trace ≤ 1
unfolding kick
kick-pulse_count nonce vendor caps w before trace r io none h = omega (arith, h)
kick-pulse_count nonce vendor caps w before trace r io (some bytes) h =
    let one : pulse_count (trace ++ (pulses bytes w.kick_sent ∷ [])) ≤ 1 = omega (
      arith,
      h,
      pulse_count-append trace (pulses bytes w.kick_sent ∷ []),
      one_pulse bytes w.kick_sent,
    ) in
    if_holds (λ (x : Run). pulse_count x.trace ≤ 1) w.kick_sent _ _
      (λ sent. after_pulse-pulse_count nonce vendor caps w before _ r io one) (λ refused. one)

at_most_one : (n : ℕ) (c : Bool) → not c ≡ false → n ≤ 1 → n ≤ (if c then 1 else 0)
at_most_one n c up h = ground (arith, up, h)

run_drawer_sequence-pulse_count :
    (nonce : Bytes) (vendor : Option DrawerKickReg) (caps : DrawerCapabilities)
    (channel pulse_ms : ℕ) (w : DrawerWorld) (io : Io)
    → pulse_count (run_drawer_sequence nonce vendor caps channel pulse_ms w io).trace
      ≤ (if w.connected then 1 else 0)
unfolding run_drawer_sequence
run_drawer_sequence-pulse_count nonce vendor caps channel pulse_ms w io =
    let sensor = sensor_readable caps || is_some (reader_of vendor) in
    let start = begin_job_io io in
    let polled : Option Bool × Io =
      if sensor then poll_drawer_pin nonce (reader_of vendor) w.first start else (none, start) in
    let none_yet : (before : Option Bool)
        → pulse_count (if sensor then reads before ∷ [] else []) ≡ 0 =
      (λ before.
        if_holds (λ (l : List Action). pulse_count l ≡ 0) sensor _ _
          (λ on. unfold pulse_count in refl) (λ off. unfold pulse_count in refl)) in
    if_holds (λ (x : Run). pulse_count x.trace ≤ (if w.connected then 1 else 0)) (not w.connected) _
      _ (λ down. unfold pulse_count in omega arith)
      (λ up. at_most_one _ w.connected up (
        if_holds (λ (x : Run). pulse_count x.trace ≤ 1)
          (is_open (previous sensor caps.polarity polled.0)) _ _
          (λ out. omega (arith, none_yet polled.0))
          (λ shut.
            kick-pulse_count nonce vendor caps w polled.0 _ _ polled.1 _ (none_yet polled.0))))

-- The methods that the engine puts on a wire: ESC p in its three forms, and a vendor's that is registered.
abbrev pub drives : Option DrawerKickReg → DrawerKickMethod → Bool
drives vendor DrawerKickMethod.epson_esc_p = true
drives vendor DrawerKickMethod.citizen_esc_p = true
drives vendor DrawerKickMethod.snbc_esc_p = true
drives (some registered) DrawerKickMethod.vendor = true
drives _ _ = false

-- The port is there and classified, its kick method is one that the engine drives, the engine drives the
-- printer, and the printer is not being stopped.
abbrev pub allowed : Option DrawerKickReg → DrawerCapabilities → Bool → Bool → Bool
allowed vendor caps drivable stopping =
    caps.present
    && (electrical_known caps && (drives vendor caps.kick_method && (drivable && not stopping)))

may_kick-allowed :
    (vendor : Option DrawerKickReg) (caps : DrawerCapabilities) (drivable stopping : Bool)
    → may_kick vendor caps drivable stopping ≡ allowed vendor caps drivable stopping
unfolding may_kick kickable
may_kick-allowed vendor caps drivable stopping = ground arith

-- The port may be energised, and the link is up.
abbrev pub may_pulse :
    (Bytes → Option DrawerKickReg) → DrawerCapabilities → Bool → Bool → DrawerWorld → Bool
may_pulse registered caps drivable stopping w =
    allowed (vendor_drawer_kick registered caps) caps drivable stopping && w.connected

-- Opening a drawer sends one pulse at most, and none to a port that is absent or of an unknown electrical
-- standard, whose kick method is neither an ESC p one nor a registered vendor's, to a printer that the
-- engine does not drive, that is being stopped, or that cannot be reached.
pub open_drawer-pulse_count :
    (nonce : Bytes) (registered : Bytes → Option DrawerKickReg) (caps : DrawerCapabilities)
    (drivable stopping : Bool) (channel pulse_ms : ℕ) (w : DrawerWorld) (io : Io)
    → pulse_count (open_drawer nonce registered caps drivable stopping channel pulse_ms w io).trace
      ≤ (if may_pulse registered caps drivable stopping w then 1 else 0)
unfolding open_drawer
open_drawer-pulse_count nonce registered caps drivable stopping channel pulse_ms w io =
    let vendor = vendor_drawer_kick registered caps in
    if_holds
      (λ (x : Run).
        pulse_count x.trace ≤ (if may_pulse registered caps drivable stopping w then 1 else 0))
      (may_kick vendor caps drivable stopping) _ _
      (λ kicks.
        subst
          (λ b.
            pulse_count (run_drawer_sequence nonce vendor caps channel pulse_ms w io).trace
            ≤ (if b && w.connected then 1 else 0))
          (sym (sym (may_kick-allowed vendor caps drivable stopping) ∙ kicks))
          (run_drawer_sequence-pulse_count nonce vendor caps channel pulse_ms w io))
      (λ refused. unfold pulse_count in ground arith)

-- The on time of the command, in units of 2 ms.
abbrev pub on_time : ℕ → ℕ
on_time pulse_ms = min (pulse_ms / 2) 255
