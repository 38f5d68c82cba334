-- ===== src/Engine/Examples.antt =====
-- The theorems about the job path at a receipt that is printed and cut, and whose cutter then jams.
use printer_driver.Base.{Bytes, codes, true, false, Option, some, none, [], ◌∷◌}
use printer_driver.Engine.Confidence.{run_job-Climbs}
use printer_driver.Engine.EscPos.{run_job}
use printer_driver.Base.{eq_bytes, ◌≡◌}
use printer_driver.Engine.Markers.{
  MarkerAllocator, acquire, release, is_outstanding, Leases, acquire-Leases, release-outstanding,
}
use printer_driver.Engine.Protocol.{run_job-Legal}
use printer_driver.Engine.Trace.{Legal, Verdict, Climbs}
use printer_driver.Engine.{
  CutSetting, PreflightMode, signalled, TransportResult, CompletionMethod, Job, Link,
}
use printer_driver.Parser.Status.{no_flags}
use printer_driver.Profile.{CompletionMechanism, CommandLanguage, CutVariant, max_confidence}
use printer_driver.Types.{rank}

abbrev taken : TransportResult
taken = record { ok = true; bytes_written = 12 }

abbrev nothing_registered : Bytes → Option CompletionMethod
nothing_registered id = none

abbrev receipt : Job
receipt = record {
  profile = record {
    language = CommandLanguage.esc_pos;
    completion = CompletionMechanism.gs_paren_h;
    completion_vendor_id = [];
    cut = CutVariant.partial;
    dle_eot = true;
    exclusive_single_session = false;
  };
  cut = CutSetting.profile;
  preflight = PreflightMode.strict;
  registered = nothing_registered;
}

abbrev jams_after_the_cut : Link
jams_after_the_cut = record {
  connected = true;
  preflight_sent = taken;
  preflight_wait = signalled;
  preflight_answers = record no_flags { online = some true } ∷ [];
  tokens = record { print_token = codes "AAAA"; cut_token = codes "AAAB" };
  preamble_sent = taken;
  payload_sent = taken;
  fence_sent = taken;
  print_ack = signalled;
  cut_sent = taken;
  cut_ack = signalled;
  status_sent = taken;
  status_wait = signalled;
  status_answers = record no_flags { cutter_error = some true } ∷ [];
}

run_job-Legal_example : Legal false (run_job receipt jams_after_the_cut)
run_job-Legal_example = run_job-Legal receipt jams_after_the_cut

run_job-Climbs_example :
    Climbs (rank (max_confidence receipt.profile)) 0 (run_job receipt jams_after_the_cut)
run_job-Climbs_example = run_job-Climbs receipt jams_after_the_cut

-- The first slot is taken.
abbrev busy : MarkerAllocator
busy = record { nonce = codes "Zz"; next = 0; in_use = codes "Zz!!" ∷ codes "Zz!\"" ∷ [] }

acquire-Leases_example : Leases 4418 busy (acquire busy)
acquire-Leases_example = acquire-Leases busy

release-outstanding_example :
    is_outstanding
      (codes "Zz!!")
      (release (record { print_token = codes "Zz!!"; cut_token = codes "Zz!\"" }) busy).in_use
    ≡ false
unfolding eq_bytes
release-outstanding_example =
    release-outstanding (record { print_token = codes "Zz!!"; cut_token = codes "Zz!\"" }) busy
      (codes "Zz!!")
