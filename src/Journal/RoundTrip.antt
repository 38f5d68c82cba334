-- ===== src/Journal/RoundTrip.antt =====
-- What the store writes on a line is what it reads back from it.
use printer_driver.Base.{ℕ, ◌<◌, ◌%◌, Bytes, some, ◌≡◌, ◌∙◌, ap, arith}
use printer_driver.Journal.Escape.{unescape_field-escape_field}
use printer_driver.Journal.Fields.{u64_mod, u32_mod}
use printer_driver.Journal.Lines.{
  JobRecord, default_record, job, state, tokens, job_line, token_line, state_line, line_evidence,
  parse_fields, parse_line,
}
use printer_driver.Journal.Splitting.{
  split_tabs-job_line, split_tabs-token_line, split_tabs-state_line, parse_enum-payload_kind_name,
}
use printer_driver.Journal.Numbers.{parse_uint-decimal}
use printer_driver.Types.Names.{
  parse_enum-state_name, parse_enum-confidence_name, parse_enum-reason_name, parse_enum-grade_name,
  parse_enum-authority_name,
}
use printer_driver.Types.{JobState, ConfidenceLevel, FailureReason, JobEvidence}

-- The tokens of a job come back as they were written.
pub parse_line-token_line :
    (id print_token cut_token : Bytes)
    → parse_line (token_line id print_token cut_token)
      ≡ some (
          tokens
            (record default_record { id = id; print_token = print_token; cut_token = cut_token }))
unfolding parse_line token_line
parse_line-token_line id print_token cut_token =
    ap parse_fields (split_tabs-token_line id print_token cut_token)
    ∙ (unfold parse_fields in
        rw (
          unescape_field-escape_field id,
          unescape_field-escape_field print_token,
          unescape_field-escape_field cut_token,
        ))

-- A transition comes back as it was written, with its evidence, whatever bytes the job's id and the
-- method hold, as long as the time fits 64 bits.
pub parse_line-state_line :
    (id : Bytes) (s : JobState) (c : ConfidenceLevel) (r : FailureReason) (at_ms : ℕ)
    (e : JobEvidence)
    → at_ms < u64_mod
    → parse_line (state_line id s c r at_ms e)
      ≡ some (
          state (record default_record {
            id = id;
            state = s;
            confidence = c;
            reason = r;
            updated_unix_ms = at_ms;
            grade = e.grade;
            authority = e.authority;
            method = e.method;
          }))
unfolding parse_line state_line
parse_line-state_line id s c r at_ms e h =
    ap parse_fields (split_tabs-state_line id s c r at_ms e)
    ∙ (unfold parse_fields line_evidence in
        rw (
          parse_enum-state_name s,
          parse_enum-confidence_name c,
          parse_enum-reason_name r,
          parse_uint-decimal at_ms h,
          parse_enum-grade_name e.grade,
          parse_enum-authority_name e.authority,
          unescape_field-escape_field id,
          unescape_field-escape_field e.method,
        ))

-- The creation record of a job comes back as it was written, whatever bytes its texts hold, as long as
-- its numbers fit the types of their fields; what a creation line does not carry has its initial value.
pub parse_line-job_line :
    (r : JobRecord)
    → r.created_unix_ms < u64_mod
    → r.attempt < u32_mod
    → r.payload_bytes < u64_mod
    → parse_line (job_line r)
      ≡ some (
          job (record default_record {
            id = r.id;
            key = r.key;
            printer_id = r.printer_id;
            created_unix_ms = r.created_unix_ms;
            attempt = r.attempt;
            payload_kind = r.payload_kind;
            payload_bytes = r.payload_bytes;
            print_token = r.print_token;
            cut_token = r.cut_token;
          }))
unfolding parse_line job_line
parse_line-job_line r hc ha hp =
    let wrap : r.attempt % u32_mod ≡ r.attempt = omega arith in
    ap parse_fields (split_tabs-job_line r)
    ∙ (unfold parse_fields in
        rw (
          parse_uint-decimal r.created_unix_ms hc,
          parse_uint-decimal r.attempt (omega arith),
          parse_uint-decimal r.payload_bytes hp,
          parse_enum-payload_kind_name r.payload_kind,
          wrap,
          unescape_field-escape_field r.id,
          unescape_field-escape_field r.key,
          unescape_field-escape_field r.printer_id,
          unescape_field-escape_field r.print_token,
          unescape_field-escape_field r.cut_token,
        ))
