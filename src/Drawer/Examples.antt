-- ===== src/Drawer/Examples.antt =====
-- Drawers that open.
use printer_driver.Base.{
  ℕ, Bytes, codes, true, false, Option, none, some, List, [], ◌∷◌, eq_bytes, ◌≡◌, refl, ◌≤◌,
}
use printer_driver.Drawer.{
  DrawerState, DrawerPortStandard, DrawerKickMethod, DrawerStatusMethod, DrawerPolarity,
  DrawerCapabilities, pulse_for, channel_for,
}
use printer_driver.Drawer.Opening.{DrawerWorld, DrawerOpenResult, open_drawer, run_drawer_sequence}
use printer_driver.Drawer.Polling.{poll_drawer_pin, Poll, DrawerKickReg}
use printer_driver.Drawer.Polarity.{Record, find, load, flush, save, find-save}
use printer_driver.Drawer.Pulse.{pulse_count, open_drawer-pulse_count}
use printer_driver.Drawer.Verified.{SwitchSaysOpen, open_verified_backed}
use printer_driver.Encoder.Commands.{drawer_kick}
use printer_driver.Fence.Waits.{begin_job_io}
use printer_driver.Fence.{DeviceStatus, Io}

abbrev polarity : DrawerPolarity
polarity = record { calibrated = true; high_means_open = true }

abbrev caps : DrawerCapabilities
caps = record {
  present = true;
  standard = DrawerPortStandard.epson24_v6_p6_c;
  channel_count = 2;
  kick_method = DrawerKickMethod.epson_esc_p;
  vendor_id = [];
  default_pulse_ms = 200;
  max_pulse_ms = 510;
  status_available = true;
  status_method = DrawerStatusMethod.gs_r2;
  polarity = polarity;
}

abbrev unregistered : Bytes → Option DrawerKickReg
unregistered id = none

abbrev quiet_io : Io
quiet_io = record {
  parser = record { buffer = []; realtime = []; queued = 0 };
  gsh_tokens = [];
  queued_answers = 0;
  queued_bytes = [];
  realtime_answers = [];
  link_down = false;
  star_parser = record { buffer = []; asb_block_bytes = 8 };
  star_mode = false;
  star_fence_outstanding = false;
  star_fence_signalled = false;
  star_fence_is_etb = false;
  star_expect_n1 = 0;
  star_expect_n2 = 0;
  star_expect_counter = 0;
  star_counter = none;
  star_sequence = 0;
  custom_method = none;
  custom_fence_outstanding = false;
  custom_rx = [];
  custom_tokens = [];
  status = record {
    connected = true;
    online = none;
    cover_open = none;
    paper_out = none;
    paper_near_end = none;
    cutter_error = none;
    unrecoverable_error = none;
    recoverable_error = none;
    observed = false;
  };
  drawer_pin = none;
}

abbrev answered : ℕ → Poll
answered level = record {
  sent = true;
  chunks = (level ∷ []) ∷ [];
  stopping = false;
  gives_up = false;
}

-- The first poll behind the pulse still shows it closed.
abbrev opens : DrawerWorld
opens = record {
  connected = true;
  first = answered 0;
  kick_sent = true;
  next = answered 0;
  polls = answered 1 ∷ [];
  elapsed_ms = 120;
}

abbrev opened_result : DrawerOpenResult
opened_result = record {
  state = DrawerState.open_verified;
  previous_state = DrawerState.closed;
  channel = 2;
  pulse_ms = 510;
  elapsed_ms = 120;
}

opens_result :
    (open_drawer (codes "AB") unregistered caps true false 7 999 opens quiet_io).result
    ≡ some opened_result
unfolding open_drawer printer_driver.Drawer.kickable printer_driver.Drawer.sensor_readable
    printer_driver.Fence.Waits.await_queued printer_driver.Fence.Dispatch.receive
    printer_driver.Fence.Waits.begin_job_io printer_driver.Parser.feed printer_driver.Parser.drain
    printer_driver.Parser.drain_fuel printer_driver.Parser.expect_queued printer_driver.Parser.reset
    printer_driver.Parser.step printer_driver.Parser.step_gs_h printer_driver.Parser.step_asb
    printer_driver.Parser.Status.looks_like_asb_byte printer_driver.Parser.step_realtime
    printer_driver.Parser.step_queued printer_driver.Drawer.drawer_state_from eq_bytes
    printer_driver.Drawer.Opening.after_pulse printer_driver.Drawer.Opening.final_state
    printer_driver.Drawer.Opening.kick printer_driver.Drawer.Polling.level_of
    printer_driver.Drawer.Opening.may_kick printer_driver.Drawer.Opening.opened
    printer_driver.Drawer.Polling.poll_drawer_pin printer_driver.Drawer.Opening.run_drawer_sequence
    printer_driver.Drawer.Opening.vendor_drawer_kick printer_driver.Drawer.Opening.watch channel_for
    printer_driver.Drawer.electrical_known pulse_for drawer_kick
    printer_driver.Fence.Dispatch.on_bytes printer_driver.Fence.Dispatch.on_escpos_bytes
    printer_driver.Fence.Dispatch.on_event printer_driver.Fence.Dispatch.on_events
    printer_driver.Parser.is_printable_ascii
opens_result = refl

open_verified_backed_example :
    SwitchSaysOpen caps
      (open_drawer (codes "AB") unregistered caps true false 7 999 opens quiet_io).trace
open_verified_backed_example =
    open_verified_backed (codes "AB") unregistered caps true false 7 999 opens quiet_io
      opened_result opens_result refl

open_drawer-pulse_count_example :
    pulse_count (open_drawer (codes "AB") unregistered caps true false 7 999 opens quiet_io).trace
    ≤ 1
unfolding pulse_count printer_driver.Drawer.electrical_known
open_drawer-pulse_count_example =
    open_drawer-pulse_count (codes "AB") unregistered caps true false 7 999 opens quiet_io

abbrev calibrated : List Record
calibrated =
    record { printer_id = codes "front bar"; high_means_open = false }
    ∷ record { printer_id = codes "kitchen"; high_means_open = true }
    ∷ []

find-save_example :
    find (codes "kitchen") (load (flush (save (codes "front bar") true calibrated))) ≡ some true
unfolding eq_bytes find
find-save_example = find-save (codes "front bar") (codes "kitchen") true calibrated refl refl refl
