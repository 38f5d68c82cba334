-- ===== src/Engine/Trace.antt =====
-- What a list of actions of the engine can be checked for, action by action, with no reference to the
-- code that produced it.
use printer_driver.Base.{
  ℕ, ◌≤◌, Bool, true, false, not, ◌&&◌, ◌||◌, List, [], ◌∷◌, ◌≡◌, ◌⊎◌, ltb, Option, some, none,
  if◌then◌else◌,
}
use printer_driver.Engine.{
  Wire, status_probe, cutter_probe, payload, process_id_marker, paper_status, cut_command,
  custom_fence, custom_cut, star_preamble, star_payload, star_fence, star_cut, Action, records,
  publishes, finishes, leases, sets_up, sends, awaits, Wait, print_fence, cut_fence, cutter_status,
  published_reason, cuts, is_signalled,
}
use printer_driver.Parser.Status.{StatusFlags}
use printer_driver.Profile.{CompletionMechanism, CutVariant}
use printer_driver.Types.{JobState, ConfidenceLevel, FailureReason, JobOutcome, rank}

-- Bytes of the job itself: all but the status queries and the Star counter preamble.
abbrev pub is_job_bytes : Wire → Bool
is_job_bytes status_probe = false
is_job_bytes cutter_probe = false
is_job_bytes star_preamble = false
is_job_bytes (payload token) = true
is_job_bytes (process_id_marker token) = true
is_job_bytes paper_status = true
is_job_bytes (cut_command cut token) = true
is_job_bytes (custom_fence fence) = true
is_job_bytes (custom_cut cut token fence) = true
is_job_bytes star_payload = true
is_job_bytes star_fence = true
is_job_bytes (star_cut cut fenced) = true

-- The outcome that a terminal state stands for.
abbrev pub Matches : JobState → JobOutcome → Type 0
Matches JobState.done_software JobOutcome.done = Unit
Matches JobState.failed_known JobOutcome.failed = Unit
Matches JobState.unknown JobOutcome.unknown = Unit
Matches _ _ = ⊥

-- The run ends here, with the result that the terminal record has announced.
abbrev pub Ends : JobState → ConfidenceLevel → FailureReason → List Action → Type 0
Ends s c r (finishes res ∷ []) = Matches s res.outcome × (res.confidence ≡ c) × (res.reason ≡ r)
Ends s c r _ = ⊥

-- What has to stand behind a record: something for a terminal state, something for `SendStarted`,
-- something for any other.
abbrev Behind : JobState → Type 0 → Type 0 → Type 0 → Type 0
Behind JobState.done_software terminal start other = terminal
Behind JobState.physically_verified terminal start other = terminal
Behind JobState.failed_known terminal start other = terminal
Behind JobState.unknown terminal start other = terminal
Behind JobState.send_started terminal start other = start
Behind _ terminal start other = other

-- The order rules of a run; the flag says whether `SendStarted` is in the journal. Each record is
-- followed at once by its own publication, and nothing is published or finished without one; tokens
-- are leased, and bytes of the job sent, on the right side of `SendStarted`; one terminal record, then
-- one result that agrees with it, and nothing behind it.
abbrev pub Legal : Bool → List Action → Type 0
Legal started [] = ⊥
Legal started (records s c r e ∷ publishes s' c' r' ∷ rest) =
    (s' ≡ s)
    × (c' ≡ c)
    × (r' ≡ published_reason r)
    × Behind s (Ends s c r rest) ((started ≡ false) × Legal true rest) (Legal started rest)
Legal started (leases tokens ∷ rest) = (started ≡ false) × Legal started rest
Legal started (sets_up setup ∷ rest) = Legal started rest
Legal started (awaits wait outcome ∷ rest) = Legal started rest
Legal started (sends wire result ∷ rest) =
    ((is_job_bytes wire && not started) ≡ false) × Legal started rest
Legal started _ = ⊥

abbrev is_fault : Option Bool → Bool
is_fault none = false
is_fault (some b) = b

-- One of the answers says that the cutter has an error.
unfoldable pub shows_fault : List StatusFlags → Bool
shows_fault [] = false
shows_fault (answer ∷ answers) =
    let later = shows_fault answers in if is_fault answer.cutter_error then true else later

-- What a result may claim, from the link's answers alone: `handed` says that the link took a byte of
-- the job, `printed` and `cut_done` that the print fence and the cut fence were answered, `faulty` that
-- the cutter's status was asked for behind them and an answer has the error.
abbrev pub Justified :
    CompletionMechanism
    → CutVariant
    → Bool
    → Bool
    → Bool
    → Bool
    → JobOutcome
    → FailureReason
    → Type 0
Justified mechanism cut handed printed cut_done faulty JobOutcome.done reason =
    (faulty ≡ false)
    × ((mechanism ≡ CompletionMechanism.none)
        ⊎ ((printed ≡ true) × ((cuts cut ≡ false) ⊎ (cut_done ≡ true))))
Justified mechanism cut handed printed cut_done faulty JobOutcome.failed reason =
    (handed ≡ false)
    ⊎ ((reason ≡ FailureReason.cutter_fault)
        × (printed ≡ true)
        × (cut_done ≡ true)
        × (faulty ≡ true))
Justified mechanism cut handed printed cut_done faulty JobOutcome.unknown reason = handed ≡ true

abbrev is_print_fence : Wait → Bool
is_print_fence print_fence = true
is_print_fence _ = false

abbrev is_cut_fence : Wait → Bool
is_cut_fence cut_fence = true
is_cut_fence _ = false

abbrev is_cutter_status : Wait → Bool
is_cutter_status cutter_status = true
is_cutter_status _ = false

-- `fault` says whether the link's answers to the query of the cutter's status have the error; they count
-- from the wait for them on.
abbrev pub Verdict :
    CompletionMechanism → CutVariant → Bool → Bool → Bool → Bool → Bool → List Action → Type 0
Verdict mechanism cut fault handed printed cut_done faulty [] = ⊥
Verdict mechanism cut fault handed printed cut_done faulty (finishes res ∷ rest) =
    Justified mechanism cut handed printed cut_done faulty res.outcome res.reason
Verdict mechanism cut fault handed printed cut_done faulty (sends wire result ∷ rest) =
    Verdict mechanism cut fault
      (handed || (is_job_bytes wire && (result.ok || ltb 0 result.bytes_written))) printed cut_done
      faulty rest
Verdict mechanism cut fault handed printed cut_done faulty (awaits wait outcome ∷ rest) =
    Verdict mechanism cut fault handed (printed || (is_print_fence wait && is_signalled outcome))
      (cut_done || (is_cut_fence wait && is_signalled outcome))
      (faulty || (is_cutter_status wait && fault)) rest
Verdict mechanism cut fault handed printed cut_done faulty (_ ∷ rest) =
    Verdict mechanism cut fault handed printed cut_done faulty rest

-- The confidence that a run reports never falls, starting from `low`, and never passes `ceiling`.
abbrev pub Climbs : ℕ → ℕ → List Action → Type 0
Climbs ceiling low [] = Unit
Climbs ceiling low (records s c r e ∷ rest) =
    (low ≤ rank c) × (rank c ≤ ceiling) × Climbs ceiling (rank c) rest
Climbs ceiling low (publishes s c r ∷ rest) =
    (low ≤ rank c) × (rank c ≤ ceiling) × Climbs ceiling (rank c) rest
Climbs ceiling low (finishes res ∷ rest) =
    (low ≤ rank res.confidence)
    × (rank res.confidence ≤ ceiling)
    × Climbs ceiling (rank res.confidence) rest
Climbs ceiling low (_ ∷ rest) = Climbs ceiling low rest
