-- ===== src/Journal/Files.antt =====
-- `readJournal` of core/src/job_store.cpp: the lines of the journal file, and the entries on them.
use printer_driver.Base.{
  ℕ, Bytes, true, false, none, some, List, [], ◌∷◌, ◌++◌, ◌≡◌, ◌≢◌, refl, ◌∙◌, ap, arith, ◌==◌,
  if◌then◌else◌, All, All-append,
}
use mathlib.Core.List.{append-nil, append_assoc}
use printer_driver.Journal.Escape.{IsPlain, escape_field-IsPlain}
use printer_driver.Journal.Fields.{tab, newline, return, escape_field}
use printer_driver.Journal.Lines.{
  JobRecord, JournalEntry, job_line, token_line, state_line, parse_line,
}
use printer_driver.Journal.Numbers.{decimal-IsPlain}
use printer_driver.Journal.Splitting.{
  state_name-IsPlain, confidence_name-IsPlain, reason_name-IsPlain, grade_name-IsPlain,
  authority_name-IsPlain, payload_kind_name-IsPlain,
}
use printer_driver.Types.{JobState, ConfidenceLevel, FailureReason, JobEvidence}

-- `if (!line.empty() && line.back() == '\r') line.pop_back()`.
strip_return : Bytes → Bytes
strip_return [] = []
strip_return (c ∷ []) = if c == return then [] else c ∷ []
strip_return (c ∷ d ∷ cs) = c ∷ strip_return (d ∷ cs)

add_line : Bytes → List JournalEntry → List JournalEntry
unfolding strip_return
add_line line rest = elim (parse_line (strip_return line)) [ none ↦ rest | some e ↦ e ∷ rest ]

-- At the end of the file a line counts only if something stands on it.
last_line : Bytes → List JournalEntry
unfolding add_line
last_line [] = []
last_line (x ∷ line) = add_line (x ∷ line) []

-- The loop over `std::getline`, with the line that it is in; a last line needs no newline.
read_onto : Bytes → Bytes → List JournalEntry
unfolding add_line last_line
read_onto line [] = last_line line
read_onto line (c ∷ cs) = elim (c == newline) [
  | true ↦ add_line line (read_onto [] cs)
  | false ↦ read_onto (line ++ (c ∷ [])) cs
]

unfoldable pub read_journal : Bytes → List JournalEntry
unfolding read_onto
read_journal = read_onto []

abbrev pub IsOneLine : Bytes → Type 0
IsOneLine = All (λ c. (c ≢ newline) × (c ≢ return))

strip_return-IsOneLine : (line : Bytes) → IsOneLine line → strip_return line ≡ line
unfolding strip_return
strip_return-IsOneLine [] h = refl
strip_return-IsOneLine (c ∷ []) h = ground arith
strip_return-IsOneLine (c ∷ d ∷ cs) h = ap (◌∷◌ c) (strip_return-IsOneLine (d ∷ cs) h.1)

read_onto-line :
    (a line rest : Bytes)
    → IsOneLine a
    → read_onto line (a ++ (newline ∷ rest)) ≡ add_line (line ++ a) (read_onto [] rest)
unfolding read_onto
read_onto-line [] line rest h = rw append-nil
read_onto-line (c ∷ a) line rest h =
    ground (arith, read_onto-line a (line ++ (c ∷ [])) rest h.1, append_assoc line (c ∷ []) a)

-- A whole line in front of the file is one entry in front of the file's.
pub read_journal-line :
    (line rest : Bytes) {e : JournalEntry}
    → IsOneLine line
    → parse_line line ≡ some e
    → read_journal (line ++ (newline ∷ rest)) ≡ e ∷ read_journal rest
unfolding read_journal add_line
read_journal-line line rest h p =
    read_onto-line line [] rest h ∙ rw (strip_return-IsOneLine line h, p, add_line)

add_line-append :
    (line : Bytes) (xs ys : List JournalEntry) → add_line line (xs ++ ys) ≡ add_line line xs ++ ys
unfolding add_line
add_line-append line xs ys = ground arith

read_onto-append :
    (a line b : Bytes)
    → read_onto line (a ++ (newline ∷ b)) ≡ read_onto line (a ++ (newline ∷ [])) ++ read_onto [] b
unfolding read_onto
read_onto-append [] line b = add_line-append line [] (read_onto [] b)
read_onto-append (c ∷ a) line b = ground (
  arith,
  read_onto-append a (line ++ (c ∷ [])) b,
  read_onto-append a [] b,
  add_line-append line (read_onto [] (a ++ (newline ∷ []))) (read_onto [] b),
)

-- What stands behind a newline is read as if it stood alone.
pub read_journal-append :
    (a b : Bytes)
    → read_journal ((a ++ (newline ∷ [])) ++ b)
      ≡ read_journal (a ++ (newline ∷ [])) ++ read_journal b
unfolding read_journal
read_journal-append a b =
    ap (read_onto []) (append_assoc a (newline ∷ []) b) ∙ read_onto-append a [] b

IsPlain-IsOneLine : (a : Bytes) → IsPlain a → IsOneLine a
IsPlain-IsOneLine [] h = tt
IsPlain-IsOneLine (c ∷ a) h = ((h.0.1, h.0.2), IsPlain-IsOneLine a h.1)

field-IsOneLine : (a r : Bytes) → IsPlain a → IsOneLine r → IsOneLine (a ++ (tab ∷ r))
field-IsOneLine a r h k =
    All-append _ a (tab ∷ r) (IsPlain-IsOneLine a h) ((omega arith, omega arith), k)

last-IsOneLine : (s : Bytes) → IsOneLine (escape_field s)
last-IsOneLine s = IsPlain-IsOneLine _ (escape_field-IsPlain s)

pub token_line-IsOneLine : (id p c : Bytes) → IsOneLine (token_line id p c)
unfolding token_line
token_line-IsOneLine id p c = field-IsOneLine (b'T' ∷ []) _ (omega arith) (
    field-IsOneLine _ _ (escape_field-IsPlain id)
      (field-IsOneLine _ _ (escape_field-IsPlain p) (last-IsOneLine c)))

pub state_line-IsOneLine :
    (id : Bytes) (s : JobState) (c : ConfidenceLevel) (r : FailureReason) (at_ms : ℕ)
    (e : JobEvidence)
    → IsOneLine (state_line id s c r at_ms e)
unfolding state_line
state_line-IsOneLine id s c r at_ms e = field-IsOneLine (b'S' ∷ []) _ (omega arith) (
    field-IsOneLine _ _ (escape_field-IsPlain id) (
      field-IsOneLine _ _ (state_name-IsPlain s) (
        field-IsOneLine _ _ (confidence_name-IsPlain c) (
          field-IsOneLine _ _ (reason_name-IsPlain r) (
            field-IsOneLine _ _ (decimal-IsPlain at_ms) (
              field-IsOneLine _ _ (grade_name-IsPlain e.grade) (
                field-IsOneLine _ _ (authority_name-IsPlain e.authority)
                  (last-IsOneLine e.method))))))))

pub job_line-IsOneLine : (r : JobRecord) → IsOneLine (job_line r)
unfolding job_line
job_line-IsOneLine r = field-IsOneLine (b'J' ∷ []) _ (omega arith) (
    field-IsOneLine _ _ (escape_field-IsPlain r.id) (
      field-IsOneLine _ _ (escape_field-IsPlain r.key) (
        field-IsOneLine _ _ (escape_field-IsPlain r.printer_id) (
          field-IsOneLine _ _ (decimal-IsPlain r.created_unix_ms) (
            field-IsOneLine _ _ (decimal-IsPlain r.attempt) (
              field-IsOneLine _ _ (payload_kind_name-IsPlain r.payload_kind) (
                field-IsOneLine _ _ (decimal-IsPlain r.payload_bytes) (
                  field-IsOneLine _ _ (escape_field-IsPlain r.print_token)
                    (last-IsOneLine r.cut_token)))))))))
