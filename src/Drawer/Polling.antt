-- ===== src/Drawer/Polling.antt =====
-- `pollDrawerPin` of core/src/driver.cpp: one question to the switch of a drawer. The bytes of the question
-- are left out; what comes back is not.
use printer_driver.Base.{
  ℕ, Bytes, Bool, true, not, Option, none, some, List, [], ◌∷◌, if◌then◌else◌, ltb,
}
use printer_driver.Drawer.{drawer_pin_high}
use printer_driver.Engine.{is_signalled}
use printer_driver.Fence.{Io}
use printer_driver.Fence.Dispatch.{receive}
use printer_driver.Fence.Waits.{await_queued}
use printer_driver.Parser

-- A registered vendor kick; `reader` is its request for the switch with its parser of the answer.
pub record DrawerKickReg : Type 0 where
  pub kick_bytes : ℕ → ℕ → Bytes
  pub reader : Option (Bytes × (Bytes → Option Bool))

abbrev pub reader_of : Option DrawerKickReg → Option (Bytes × (Bytes → Option Bool))
reader_of none = none
reader_of (some vendor) = vendor.reader

-- What one poll of the switch meets: whether the request is sent, the chunks that come before the wait
-- ends, whether the driver is stopping then, and whether the poller gives up behind it.
pub record Poll : Type 0 where
  pub sent : Bool
  pub chunks : List Bytes
  pub stopping : Bool
  pub gives_up : Bool

-- The level in the byte that came.
unfoldable pub level_of : Option (Bytes × (Bytes → Option Bool)) → Option ℕ → Option Bool
level_of reader none = none
level_of none (some answer) = some (drawer_pin_high answer)
level_of (some (request, parse)) (some answer) = parse (answer ∷ [])

abbrev pub forget : Io → Io
forget io = record io {
  parser = if ltb 0 io.parser.queued then Parser.reset io.parser else io.parser;
  queued_answers = 0;
  queued_bytes = [];
}

abbrev pub keep_level : Option Bool → Io → Io
keep_level none io = io
keep_level (some high) io = record io {
  status = record io.status { observed = true };
  drawer_pin = some high;
}

unfoldable pub poll_drawer_pin :
    Bytes → Option (Bytes × (Bytes → Option Bool)) → Poll → Io → Option Bool × Io
unfolding level_of
poll_drawer_pin nonce reader p io =
    let asked = record io { parser = Parser.expect_queued io.parser } in
    let (outcome, answer, after) = await_queued p.stopping (receive nonce p.chunks asked) in
    let level = level_of reader answer in
    if not p.sent
    then (none, forget asked)
    else if is_signalled outcome
    then (level, keep_level level after)
    else (none, forget after)
