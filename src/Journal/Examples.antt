-- ===== src/Journal/Examples.antt =====
-- The theorems about the journal's lines at texts that hold tabs, newlines and backslashes.
use printer_driver.Base.{Bytes, codes, some, [], ◌∷◌, ◌++◌, ◌≡◌, arith}
use printer_driver.Journal.Escape.{unescape_field-escape_field}
use printer_driver.Journal.Fields.{escape_field, unescape_field, newline}
use printer_driver.Journal.Files.{read_journal, read_journal-append}
use printer_driver.Journal.Lines.{
  JobRecord, job, state, default_record, parse_line, job_line, state_line,
}
use printer_driver.Journal.RoundTrip.{parse_line-state_line, parse_line-job_line}
use printer_driver.Types.{
  JobState, ConfidenceLevel, FailureReason, JobEvidence, ConfidenceGrade, CompletionAuthority,
}

abbrev awkward : Bytes
awkward = codes "a\tb\\c\nd"

abbrev spooled : JobEvidence
spooled = record {
  grade = ConfidenceGrade.a_plus_durable_queryable_job;
  authority = CompletionAuthority.vendor_spooler;
  method = awkward;
}

abbrev order : JobRecord
order = record default_record {
  id = awkward;
  key = codes "table 4";
  printer_id = codes "kitchen";
  created_unix_ms = 1700000000000;
  attempt = 2;
  payload_bytes = 512;
}

unescape_field-escape_field_example : unescape_field (escape_field awkward) ≡ awkward
unescape_field-escape_field_example = unescape_field-escape_field awkward

parse_line-state_line_example :
    parse_line (
      state_line awkward JobState.unknown ConfidenceLevel.print_confirmed
        FailureReason.timeout_awaiting_completion 1700000000001 spooled)
    ≡ some (
        state (record default_record {
          id = awkward;
          state = JobState.unknown;
          confidence = ConfidenceLevel.print_confirmed;
          reason = FailureReason.timeout_awaiting_completion;
          updated_unix_ms = 1700000000001;
          grade = spooled.grade;
          authority = spooled.authority;
          method = awkward;
        }))
parse_line-state_line_example =
    parse_line-state_line awkward JobState.unknown ConfidenceLevel.print_confirmed
      FailureReason.timeout_awaiting_completion 1700000000001 spooled (omega arith)

parse_line-job_line_example : parse_line (job_line order) ≡ some (job order)
parse_line-job_line_example = parse_line-job_line order (omega arith) (omega arith) (omega arith)

-- The second line is cut off in the middle.
read_journal-append_example :
    read_journal ((codes "T\tj1\tAAAA\tAAAB" ++ (newline ∷ [])) ++ codes "S\tj1\tUnk")
    ≡ read_journal (codes "T\tj1\tAAAA\tAAAB" ++ (newline ∷ []))
      ++ read_journal (codes "S\tj1\tUnk")
read_journal-append_example = read_journal-append (codes "T\tj1\tAAAA\tAAAB") (codes "S\tj1\tUnk")
