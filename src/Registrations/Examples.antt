-- ===== src/Registrations/Examples.antt =====
-- Registrations that meet.
use printer_driver.Base.{All, true, eq_bytes, codes, none, some, [], ◌∷◌, ◌≡◌, refl}
use printer_driver.Drawer.Polling.{DrawerKickReg}
use printer_driver.Registrations.{
  DrawerKickEntry, FormatterReg, Registrations, adds_drawer_kick, adds_formatter, call,
  drawer_kick_of, run, add_drawer_kick, ProbeStep, adds_probe_step, add_probe_step,
  is_valid_registration_id, is_non_printing_request, id_taken,
}
use printer_driver.Registrations.Quiet.{IsQuiet, run-IsQuiet}
use printer_driver.Registrations.Stays.{Answers, entry_stays}

abbrev nothing_registered : Registrations
nothing_registered = record {
  completions = [];
  probe_steps = [];
  drawer_kicks = [];
  formatters = [];
  block_handlers = [];
}

abbrev acme_kick : DrawerKickReg
acme_kick = record { kick_bytes = λ channel pulse_ms. 27 ∷ 7 ∷ channel ∷ []; reader = none }

abbrev other_kick : DrawerKickReg
other_kick = record { kick_bytes = λ channel pulse_ms. []; reader = none }

abbrev acme : DrawerKickEntry
acme = record { id = codes "acme.kick"; kick = some acme_kick }

abbrev upper : FormatterReg
upper = record { name = codes "upper"; fn = some (λ value args locale. some value) }

-- A second kick under the same id is refused, and a formatter is added.
entry_stays_example :
    drawer_kick_of
      (run
        (adds_drawer_kick (record acme { kick = some other_kick }) ∷ adds_formatter upper ∷ [])
        (call (adds_drawer_kick acme) nothing_registered).0)
      (codes "acme.kick")
    ≡ some acme_kick
unfolding Answers call add_drawer_kick
entry_stays_example =
    entry_stays (adds_drawer_kick acme) nothing_registered
      (adds_drawer_kick (record acme { kick = some other_kick }) ∷ adds_formatter upper ∷ []) refl

-- A request that prints nothing, and a request with a line feed, which is refused.
abbrev asks_quietly : ProbeStep
asks_quietly = record {
  id = codes "acme.ask";
  request_bytes = 27 ∷ 7 ∷ [];
  classify = some (λ response. record { answered = true; label = response });
}

abbrev prints_a_line : ProbeStep
prints_a_line = record asks_quietly { id = codes "acme.print"; request_bytes = 27 ∷ 10 ∷ [] }

run-IsQuiet_example :
    All IsQuiet
      (run
        (adds_probe_step asks_quietly ∷ adds_probe_step prints_a_line ∷ [])
        nothing_registered).probe_steps
run-IsQuiet_example =
    run-IsQuiet (adds_probe_step asks_quietly ∷ adds_probe_step prints_a_line ∷ [])
      nothing_registered tt

kept_steps :
    (run
      (adds_probe_step asks_quietly ∷ adds_probe_step prints_a_line ∷ [])
      nothing_registered).probe_steps
    ≡ asks_quietly ∷ []
unfolding run call add_probe_step is_valid_registration_id is_non_printing_request id_taken eq_bytes
kept_steps = refl
