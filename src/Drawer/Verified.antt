-- ===== src/Drawer/Verified.antt =====
-- A drawer is reported open only on the switch's word, and it is pulsed only where it may be.
use printer_driver.Base.{
  Bool-cases, ℕ, Bytes, Bool, true, false, not, ◌||◌, Option, none, some, List, [], ◌∷◌, ◌++◌,
  if◌then◌else◌, if_holds, is_some, ◌≡◌, ◌≢◌, refl, ap, ◌∙◌, arith, inl, inr,
}
use mathlib.Core.Path.{subst}
use mathlib.Core.Option.{some-injective}
use printer_driver.Drawer.{
  DrawerState, DrawerPolarity, DrawerCapabilities, sensor_readable, drawer_state_from,
}
use printer_driver.Drawer.Opening.{
  Action, reads, watches, pulses, DrawerOpenResult, Run, opened, Watch, watch, DrawerWorld,
  final_state, after_pulse, kick, is_open, run_drawer_sequence, may_kick, vendor_drawer_kick,
  open_drawer, or_else, shows, previous,
}
use printer_driver.Drawer.Polling.{DrawerKickReg, reader_of, Poll, poll_drawer_pin}
use printer_driver.Fence.{Io}
use printer_driver.Fence.Waits.{begin_job_io}

-- The last level that was seen says that the drawer opened.
EndsOpened : DrawerPolarity → Bool → List Action → Type 0
EndsOpened polarity before trace =
    (ws : List Action) × ((level : Bool) × ((trace ≡ ws ++ (watches (some level) ∷ []))
        × (opened polarity before level ≡ true)))

-- A level that shows the drawer open ends a trace of it alone.
shows-EndsOpened :
    (polarity : DrawerPolarity) (before : Bool) (level : Option Bool)
    → shows polarity before level ≡ true
    → EndsOpened polarity before (watches level ∷ [])
unfolding EndsOpened
shows-EndsOpened polarity before none t = ground (arith, t)
shows-EndsOpened polarity before (some level) t = ([], (level, (refl, t)))

EndsOpened-cons :
    (polarity : DrawerPolarity) (before : Bool) (a : Action) (trace : List Action)
    → EndsOpened polarity before trace
    → EndsOpened polarity before (a ∷ trace)
unfolding EndsOpened
EndsOpened-cons polarity before a trace (ws, (level, (whole, shown))) =
    (a ∷ ws, (level, (ap (λ l. a ∷ l) whole, shown)))

watch-EndsOpened :
    (nonce : Bytes) (reader : Option (Bytes × (Bytes → Option Bool))) (polarity : DrawerPolarity)
    (before answered : Bool) (p : Poll) (qs : List Poll) (io : Io)
    → (watch nonce reader polarity before answered p qs io).verified ≡ true
    → EndsOpened polarity before (watch nonce reader polarity before answered p qs io).trace
unfolding watch
watch-EndsOpened nonce reader polarity before answered p [] io =
    λ t. shows-EndsOpened polarity before _ t
watch-EndsOpened nonce reader polarity before answered p (q ∷ qs) io =
    let polled = poll_drawer_pin nonce reader p io in
    let level = or_else polled.0 polled.1.drawer_pin in
    if_holds (λ (s : Watch). s.verified ≡ true → EndsOpened polarity before s.trace)
      (shows polarity before level || p.gives_up) _ _
      (λ ended t. shows-EndsOpened polarity before level t)
      (λ goes_on t.
        EndsOpened-cons polarity before (watches level) _ (
          watch-EndsOpened nonce reader polarity before (answered || is_some level) q qs polled.1
            t))

-- What stands behind a result that says `OpenVerified`.
Backed : DrawerCapabilities → Run → Type 0
Backed caps run =
    (r : DrawerOpenResult)
    → run.result ≡ some r
    → r.state ≡ DrawerState.open_verified
    → (before : Bool) × ((bytes : Bytes) × ((ws : List Action) × ((level : Bool) × ((run.trace
                ≡ reads (some before) ∷ pulses bytes true ∷ (ws ++ (watches (some level) ∷ [])))
              × ((opened caps.polarity before level ≡ true)
                  × (is_open (drawer_state_from before caps.polarity) ≡ false))))))

-- A result in another state needs nothing behind it.
other-Backed :
    (caps : DrawerCapabilities) (trace : List Action) (r : DrawerOpenResult) (io : Io)
    → r.state ≢ DrawerState.open_verified
    → Backed caps (record { trace = trace; result = some r; io = io })
unfolding Backed
other-Backed caps trace r io other s same verified =
    absurd (other (ap (λ (x : DrawerOpenResult). x.state) (some-injective r s same) ∙ verified))

final_state-verified :
    (polarity : DrawerPolarity) (seen : Watch)
    → final_state polarity seen ≡ DrawerState.open_verified
    → seen.verified ≡ true
unfolding final_state
final_state-verified polarity seen = ground arith

-- The trace up to the pulse holds the level that was read before it, which does not show an open drawer.
record Read (caps : DrawerCapabilities) (before : Option Bool) (trace : List Action) : Type 0 where
  read : is_some before ≡ true → trace ≡ reads before ∷ []
  closed : (b : Bool) → before ≡ some b → is_open (drawer_state_from b caps.polarity) ≡ false

after_pulse-Backed :
    (nonce : Bytes) (vendor : Option DrawerKickReg) (caps : DrawerCapabilities) (w : DrawerWorld)
    (before : Option Bool) (bytes : Bytes) (trace : List Action) (r : DrawerOpenResult) (io : Io)
    → Read caps before trace
    → Backed caps (after_pulse nonce vendor caps w before (trace ++ (pulses bytes true ∷ [])) r io)
unfolding after_pulse Backed EndsOpened
after_pulse-Backed nonce vendor caps w none bytes trace r io h =
    other-Backed caps _ _ io (λ e. ground (arith, e))
after_pulse-Backed nonce vendor caps w (some before) bytes trace r io h = λ s same verified.
    let seen = watch nonce (reader_of vendor) caps.polarity before false w.next w.polls io in
    let state : final_state caps.polarity seen ≡ DrawerState.open_verified =
      ap (λ (x : DrawerOpenResult). x.state) (some-injective _ s same) ∙ verified in
    let (ws, (level, (whole, shown))) =
      watch-EndsOpened nonce (reader_of vendor) caps.polarity before false w.next w.polls io
        (final_state-verified caps.polarity seen state) in
    (
      before,
      (
        bytes,
        (
          ws,
          (
            level,
            (
              ap (λ l. (l ++ (pulses bytes true ∷ [])) ++ seen.trace) (h.read refl)
                  ∙ ap (λ l. reads (some before) ∷ pulses bytes true ∷ l) whole,
              (shown, h.closed before refl),
            ),
          ),
        ),
      ),
    )

kick-Backed :
    (nonce : Bytes) (vendor : Option DrawerKickReg) (caps : DrawerCapabilities) (w : DrawerWorld)
    (before : Option Bool) (trace : List Action) (r : DrawerOpenResult) (io : Io)
    (bytes : Option Bytes)
    → Read caps before trace
    → Backed caps (kick nonce vendor caps w before trace r io bytes)
unfolding kick Backed
kick-Backed nonce vendor caps w before trace r io none h = λ s same verified. ground (arith, same)
kick-Backed nonce vendor caps w before trace r io (some bytes) h = elim (Bool-cases w.kick_sent) [
  | inl sent ↦ rw (sent, kick) (after_pulse-Backed nonce vendor caps w before bytes trace r io h)
  | inr refused ↦ rw (refused, kick) (other-Backed caps _ _ io (λ e. ground (arith, e)))
]

unread :
    (sensor : Bool) (polled before : Option Bool)
    → before ≡ (if sensor then polled else none)
    → sensor ≡ false
    → is_some before ≡ true
    → ⊥
unread true polled before from off known = ground (arith, off)
unread false polled before from off known =
    ground (arith, ap (λ (o : Option Bool). is_some o) from, known)

before-Read :
    (sensor : Bool) (caps : DrawerCapabilities) (polled before : Option Bool)
    → before ≡ (if sensor then polled else none)
    → is_open (previous sensor caps.polarity before) ≡ false
    → Read caps before (if sensor then reads before ∷ [] else [])
before-Read sensor caps polled before from closed = record {
  read = λ known.
      if_holds (λ (l : List Action). l ≡ reads before ∷ []) sensor _ _ (λ on. refl)
        (λ off. absurd (unread sensor polled before from off known));
  closed = λ b level. subst (λ o. is_open (previous sensor caps.polarity o) ≡ false) level closed;
}

run_drawer_sequence-Backed :
    (nonce : Bytes) (vendor : Option DrawerKickReg) (caps : DrawerCapabilities)
    (channel pulse_ms : ℕ) (w : DrawerWorld) (io : Io)
    → Backed caps (run_drawer_sequence nonce vendor caps channel pulse_ms w io)
unfolding run_drawer_sequence
run_drawer_sequence-Backed nonce vendor caps channel pulse_ms w io =
    let sensor = sensor_readable caps || is_some (reader_of vendor) in
    let start = begin_job_io io in
    let polled : Option Bool × Io =
      if sensor then poll_drawer_pin nonce (reader_of vendor) w.first start else (none, start) in
    let before = polled.0 in
    if_holds (Backed caps) (not w.connected) _ _
      (λ down. other-Backed caps _ _ io (λ e. ground (arith, e)))
      (λ up.
        if_holds (Backed caps) (is_open (previous sensor caps.polarity before)) _ _
          (λ out. other-Backed caps _ _ polled.1 (λ e. ground (arith, e)))
          (λ shut. kick-Backed nonce vendor caps w before _ _ polled.1 _ (
            before-Read sensor caps (poll_drawer_pin nonce (reader_of vendor) w.first start).0
              before
              (if_holds
                (λ (r : Option Bool × Io). r.0 ≡ (
                  if sensor
                  then (poll_drawer_pin nonce (reader_of vendor) w.first start).0
                  else none))
                sensor _ _ (λ on. rw on refl) (λ off. rw off refl))
              shut)))

-- The record of a switch that says that the drawer opened: a level was read before the pulse that does
-- not show an open drawer, one pulse was sent whole, and the last level behind it shows it open.
abbrev pub SwitchSaysOpen : DrawerCapabilities → List Action → Type 0
SwitchSaysOpen caps trace =
    (before : Bool) × ((bytes : Bytes) × ((ws : List Action) × ((level : Bool) × ((trace
              ≡ reads (some before) ∷ pulses bytes true ∷ (ws ++ (watches (some level) ∷ [])))
            × ((opened caps.polarity before level ≡ true)
                × (is_open (drawer_state_from before caps.polarity) ≡ false))))))

-- A drawer is reported as verified open only on the word of its switch: a level was read before the
-- pulse that does not show an open drawer, the pulse was sent whole, and the last level that was seen behind
-- it shows the drawer open, or, uncalibrated, differs from the first.
pub open_verified_backed :
    (nonce : Bytes) (registered : Bytes → Option DrawerKickReg) (caps : DrawerCapabilities)
    (drivable stopping : Bool) (channel pulse_ms : ℕ) (w : DrawerWorld) (io : Io)
    (r : DrawerOpenResult)
    → (open_drawer nonce registered caps drivable stopping channel pulse_ms w io).result ≡ some r
    → r.state ≡ DrawerState.open_verified
    → SwitchSaysOpen caps
        (open_drawer nonce registered caps drivable stopping channel pulse_ms w io).trace
unfolding open_drawer Backed
open_verified_backed nonce registered caps drivable stopping channel pulse_ms w io =
    let vendor = vendor_drawer_kick registered caps in
    if_holds (Backed caps) (may_kick vendor caps drivable stopping) _ _
      (λ allowed. run_drawer_sequence-Backed nonce vendor caps channel pulse_ms w io)
      (λ refused. other-Backed caps _ _ io (λ e. ground (arith, e)))
