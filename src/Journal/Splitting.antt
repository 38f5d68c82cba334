-- ===== src/Journal/Splitting.antt =====
-- How a written line falls apart into its fields.
use printer_driver.Base.{ℕ, Bytes, some, [], ◌∷◌, ◌≡◌, refl, arith}
use printer_driver.Journal.Escape.{IsPlain, escape_field-IsPlain, split_tabs-last, split_tabs-field}
use printer_driver.Journal.Fields.{escape_field, split_tabs, decimal}
use printer_driver.Journal.Lines.{
  PayloadKind, payload_kind_name, all_payload_kinds, JobRecord, job_line, token_line, state_line,
}
use printer_driver.Journal.Numbers.{decimal-IsPlain}
use printer_driver.Types.Names.{
  state_name, confidence_name, reason_name, grade_name, authority_name, parse_enum,
}
use printer_driver.Types.{
  JobState, ConfidenceLevel, FailureReason, ConfidenceGrade, CompletionAuthority, JobEvidence,
}

pub state_name-IsPlain : (x : JobState) → IsPlain (state_name x)
unfolding state_name
state_name-IsPlain JobState.queued = omega arith
state_name-IsPlain _ = omega arith

pub confidence_name-IsPlain : (x : ConfidenceLevel) → IsPlain (confidence_name x)
unfolding confidence_name
confidence_name-IsPlain ConfidenceLevel.transport_accepted = omega arith
confidence_name-IsPlain _ = omega arith

pub reason_name-IsPlain : (x : FailureReason) → IsPlain (reason_name x)
unfolding reason_name
reason_name-IsPlain FailureReason.none = omega arith
reason_name-IsPlain _ = omega arith

pub grade_name-IsPlain : (x : ConfidenceGrade) → IsPlain (grade_name x)
unfolding grade_name
grade_name-IsPlain ConfidenceGrade.e_transport_only = omega arith
grade_name-IsPlain _ = omega arith

pub authority_name-IsPlain : (x : CompletionAuthority) → IsPlain (authority_name x)
unfolding authority_name
authority_name-IsPlain CompletionAuthority.transport_only = omega arith
authority_name-IsPlain _ = omega arith

pub payload_kind_name-IsPlain : (x : PayloadKind) → IsPlain (payload_kind_name x)
unfolding payload_kind_name
payload_kind_name-IsPlain PayloadKind.raw = omega arith
payload_kind_name-IsPlain _ = omega arith

pub parse_enum-payload_kind_name :
    (x : PayloadKind)
    → parse_enum payload_kind_name all_payload_kinds (payload_kind_name x) ≡ some x
unfolding parse_enum payload_kind_name
parse_enum-payload_kind_name PayloadKind.raw = refl
parse_enum-payload_kind_name _ = refl

pub split_tabs-token_line :
    (id print_token cut_token : Bytes)
    → split_tabs (token_line id print_token cut_token)
      ≡ (b'T' ∷ []) ∷ escape_field id ∷ escape_field print_token ∷ escape_field cut_token ∷ []
unfolding token_line
split_tabs-token_line id print_token cut_token = split_tabs-field (b'T' ∷ []) _ (omega arith) (
    split_tabs-field _ _ (escape_field-IsPlain id) (
      split_tabs-field _ _ (escape_field-IsPlain print_token)
        (split_tabs-last _ (escape_field-IsPlain cut_token))))

pub split_tabs-state_line :
    (id : Bytes) (s : JobState) (c : ConfidenceLevel) (r : FailureReason) (at_ms : ℕ)
    (e : JobEvidence)
    → split_tabs (state_line id s c r at_ms e)
      ≡ (b'S' ∷ [])
        ∷ escape_field id
        ∷ state_name s
        ∷ confidence_name c
        ∷ reason_name r
        ∷ decimal at_ms
        ∷ grade_name e.grade
        ∷ authority_name e.authority
        ∷ escape_field e.method
        ∷ []
unfolding state_line
split_tabs-state_line id s c r at_ms e = split_tabs-field (b'S' ∷ []) _ (omega arith) (
    split_tabs-field _ _ (escape_field-IsPlain id) (
      split_tabs-field _ _ (state_name-IsPlain s) (
        split_tabs-field _ _ (confidence_name-IsPlain c) (
          split_tabs-field _ _ (reason_name-IsPlain r) (
            split_tabs-field _ _ (decimal-IsPlain at_ms) (
              split_tabs-field _ _ (grade_name-IsPlain e.grade) (
                split_tabs-field _ _ (authority_name-IsPlain e.authority)
                  (split_tabs-last _ (escape_field-IsPlain e.method)))))))))

pub split_tabs-job_line :
    (r : JobRecord)
    → split_tabs (job_line r)
      ≡ (b'J' ∷ [])
        ∷ escape_field r.id
        ∷ escape_field r.key
        ∷ escape_field r.printer_id
        ∷ decimal r.created_unix_ms
        ∷ decimal r.attempt
        ∷ payload_kind_name r.payload_kind
        ∷ decimal r.payload_bytes
        ∷ escape_field r.print_token
        ∷ escape_field r.cut_token
        ∷ []
unfolding job_line
split_tabs-job_line r = split_tabs-field (b'J' ∷ []) _ (omega arith) (
    split_tabs-field _ _ (escape_field-IsPlain r.id) (
      split_tabs-field _ _ (escape_field-IsPlain r.key) (
        split_tabs-field _ _ (escape_field-IsPlain r.printer_id) (
          split_tabs-field _ _ (decimal-IsPlain r.created_unix_ms) (
            split_tabs-field _ _ (decimal-IsPlain r.attempt) (
              split_tabs-field _ _ (payload_kind_name-IsPlain r.payload_kind) (
                split_tabs-field _ _ (decimal-IsPlain r.payload_bytes) (
                  split_tabs-field _ _ (escape_field-IsPlain r.print_token)
                    (split_tabs-last _ (escape_field-IsPlain r.cut_token))))))))))
