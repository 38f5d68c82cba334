-- ===== src/Journal/Lines.antt =====
-- Journal lines of core/src/job_store.cpp: the records that they hold, how they are written, and how
-- they are read back, lines of older versions included.
use printer_driver.Base.{
  ℕ, ◌%◌, Bytes, codes, Bool, true, false, ◌&&◌, Option, none, some, List, [], ◌∷◌, ◌++◌, leb, ltb,
  ◌==◌, if◌then◌else◌, length, get_or, ◌>>=◌,
}
use printer_driver.Journal.Fields.{
  tab, escape_field, unescape_field, split_tabs, decimal, parse_uint, u32_mod,
}
use printer_driver.Types.Names.{
  state_name, confidence_name, reason_name, grade_name, authority_name, parse_enum, all_job_states,
  all_confidence_levels, all_failure_reasons, all_confidence_grades, all_completion_authorities,
}
use printer_driver.Types.{
  JobState, ConfidenceLevel, FailureReason, ConfidenceGrade, CompletionAuthority, JobEvidence, rank,
}

pub data PayloadKind : Type 0 where
  raster document raw : PayloadKind

unfoldable pub payload_kind_name : PayloadKind → Bytes
payload_kind_name PayloadKind.raster = codes "Raster"
payload_kind_name PayloadKind.document = codes "Document"
payload_kind_name PayloadKind.raw = codes "Raw"

abbrev pub all_payload_kinds : List PayloadKind
all_payload_kinds = PayloadKind.raster ∷ PayloadKind.document ∷ PayloadKind.raw ∷ []

pub record JobRecord : Type 0 where
  pub id : Bytes
  pub key : Bytes
  pub printer_id : Bytes
  pub created_unix_ms : ℕ
  pub attempt : ℕ
  pub payload_kind : PayloadKind
  pub payload_bytes : ℕ
  pub print_token : Bytes
  pub cut_token : Bytes
  pub state : JobState
  pub confidence : ConfidenceLevel
  pub reason : FailureReason
  pub grade : ConfidenceGrade
  pub authority : CompletionAuthority
  pub method : Bytes
  pub updated_unix_ms : ℕ
  pub recovered : Bool

-- The initialisers of `JobRecord`.
abbrev pub default_record : JobRecord
default_record = record {
  id = [];
  key = [];
  printer_id = [];
  created_unix_ms = 0;
  attempt = 1;
  payload_kind = PayloadKind.raw;
  payload_bytes = 0;
  print_token = [];
  cut_token = [];
  state = JobState.queued;
  confidence = ConfidenceLevel.transport_accepted;
  reason = FailureReason.none;
  grade = ConfidenceGrade.e_transport_only;
  authority = CompletionAuthority.transport_only;
  method = codes "none";
  updated_unix_ms = 0;
  recovered = false;
}

-- `JournalEntry`, by its kind.
pub data JournalEntry : Type 0 where
  job state tokens : JobRecord → JournalEntry

unfoldable pub job_line : JobRecord → Bytes
job_line r =
    b'J'
    ∷ tab
    ∷ (escape_field r.id
        ++ (tab
            ∷ (escape_field r.key
                ++ (tab
                    ∷ (escape_field r.printer_id
                        ++ (tab
                            ∷ (decimal r.created_unix_ms
                                ++ (tab
                                    ∷ (decimal r.attempt
                                        ++ (tab
                                            ∷ (payload_kind_name r.payload_kind
                                                ++ (tab
                                                    ∷ (decimal r.payload_bytes
                                                        ++ (tab
                                                            ∷ (escape_field r.print_token
                                                            ++ (tab
                                                            ∷ escape_field
                                                            r.cut_token))))))))))))))))

unfoldable pub token_line : Bytes → Bytes → Bytes → Bytes
token_line id print_token cut_token =
    b'T'
    ∷ tab
    ∷ (escape_field id ++ (tab ∷ (escape_field print_token ++ (tab ∷ escape_field cut_token))))

unfoldable pub state_line :
    Bytes → JobState → ConfidenceLevel → FailureReason → ℕ → JobEvidence → Bytes
state_line id s c r at_ms e =
    b'S'
    ∷ tab
    ∷ (escape_field id
        ++ (tab
            ∷ (state_name s
                ++ (tab
                    ∷ (confidence_name c
                        ++ (tab
                            ∷ (reason_name r
                                ++ (tab
                                    ∷ (decimal at_ms
                                        ++ (tab
                                            ∷ (grade_name e.grade
                                                ++ (tab
                                                    ∷ (authority_name e.authority
                                                        ++ (tab
                                                            ∷ escape_field e.method))))))))))))))

abbrev at : List Bytes → ℕ → Bytes
at fields i = get_or fields i []

unfoldable pub parse_job_fields : List Bytes → Option JournalEntry
parse_job_fields fields = if ltb (length fields) 8 then none else do
  created ← parse_uint (at fields 4)
  attempt ← parse_uint (at fields 5)
  payload_bytes ← parse_uint (at fields 7)
  kind ← parse_enum payload_kind_name all_payload_kinds (at fields 6)
  let has_tokens = leb 10 (length fields)
  some (
      job (record default_record {
        id = unescape_field (at fields 1);
        key = unescape_field (at fields 2);
        printer_id = unescape_field (at fields 3);
        created_unix_ms = created;
        attempt = attempt % u32_mod;
        payload_kind = kind;
        payload_bytes = payload_bytes;
        print_token = if has_tokens then unescape_field (at fields 8) else [];
        cut_token = if has_tokens then unescape_field (at fields 9) else [];
      }))

unfoldable pub parse_token_fields : List Bytes → Option JournalEntry
parse_token_fields fields =
    if ltb (length fields) 4
    then none
    else some (
        tokens (record default_record {
          id = unescape_field (at fields 1);
          print_token = unescape_field (at fields 2);
          cut_token = unescape_field (at fields 3);
        }))

unfoldable pub at_least_print_confirmed : ConfidenceLevel → Bool
unfolding rank
at_least_print_confirmed c = leb (rank ConfidenceLevel.print_confirmed) (rank c)

abbrev pub is_completed : JobState → Bool
is_completed JobState.done_software = true
is_completed JobState.physically_verified = true
is_completed _ = false

-- The evidence of a state line with no readable version-2 fields.
unfoldable pub legacy_evidence : JobState → ConfidenceLevel → JobEvidence
unfolding at_least_print_confirmed
legacy_evidence s c =
    if at_least_print_confirmed c && is_completed s
    then record {
      grade = ConfidenceGrade.b_ordered_device_response;
      authority = CompletionAuthority.physical_printer;
      method = codes "journal-legacy";
    }
    else record {
      grade = ConfidenceGrade.e_transport_only;
      authority = CompletionAuthority.transport_only;
      method = codes "none";
    }

-- `parseEnum` writes the grade into the record also where the authority behind it does not parse; the
-- derivation for a legacy line then overwrites it, or leaves it standing.
unfoldable pub line_evidence : List Bytes → JobState → ConfidenceLevel → JobEvidence
unfolding legacy_evidence
line_evidence fields s c =
    let legacy = legacy_evidence s c in
    if leb 9 (length fields)
    then (elim (parse_enum grade_name all_confidence_grades (at fields 6)) [
      | none ↦ legacy
      | some grade ↦ elim (parse_enum authority_name all_completion_authorities (at fields 7)) [
        | none ↦
            if at_least_print_confirmed c && is_completed s
            then legacy
            else record legacy { grade = grade }
        | some authority ↦ record {
          grade = grade;
          authority = authority;
          method = unescape_field (at fields 8);
        }
      ]
    ])
    else legacy

unfoldable pub parse_state_fields : List Bytes → Option JournalEntry
parse_state_fields fields = if ltb (length fields) 6 then none else do
  s ← parse_enum state_name all_job_states (at fields 2)
  c ← parse_enum confidence_name all_confidence_levels (at fields 3)
  r ← parse_enum reason_name all_failure_reasons (at fields 4)
  at_ms ← parse_uint (at fields 5)
  let e = line_evidence fields s c
  some (
      state (record default_record {
        id = unescape_field (at fields 1);
        state = s;
        confidence = c;
        reason = r;
        updated_unix_ms = at_ms;
        grade = e.grade;
        authority = e.authority;
        method = e.method;
      }))

-- The record type: the only byte of the first field.
unfoldable pub parse_fields : List Bytes → Option JournalEntry
unfolding parse_job_fields parse_token_fields parse_state_fields
parse_fields [] = none
parse_fields ((kind ∷ []) ∷ field ∷ fields) =
    let all = (kind ∷ []) ∷ field ∷ fields in
    if kind == b'J'
    then parse_job_fields all
    else if kind == b'T'
    then parse_token_fields all
    else if kind == b'S'
    then parse_state_fields all
    else none
parse_fields _ = none

unfoldable pub parse_line : Bytes → Option JournalEntry
parse_line [] = none
parse_line (c ∷ cs) = if c == b'#' then none else parse_fields (split_tabs (c ∷ cs))
