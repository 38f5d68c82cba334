-- ===== src/Engine/Verdict.antt =====
-- What the result of a run claims is backed by what the link answered in that run.
use printer_driver.Base.{false, Option, List}
use printer_driver.Engine.Trace.{Verdict, shows_fault}
use printer_driver.Engine.{Action, Job, Link, CompletionMethod, effective_cut}

module _ (j : Job) (l : Link) (custom : Option CompletionMethod) where
  -- What the pieces before the payload leave to show.
  abbrev Backed : List Action → Type 0
  Backed =
      Verdict j.profile.completion (effective_cut j.cut j.profile) (shows_fault l.status_answers)
        false false false false
