-- ===== src/Store/Replay.antt =====
-- The journal says what the store knows: reading it back from the start gives the maps in memory.
use printer_driver.Base.{ℕ, ◌<◌, Bytes, false, List, [], ◌∷◌, ◌++◌, ◌≡◌, refl, ap, sym, ◌∙◌}
use printer_driver.Journal.Fields.{newline, u64_mod, u32_mod}
use printer_driver.Journal.Files.{
  read_journal, read_journal-append, read_journal-line, job_line-IsOneLine, state_line-IsOneLine,
  token_line-IsOneLine,
}
use printer_driver.Journal.Lines.{
  JobRecord, JournalEntry, job, state, tokens, job_line, state_line, token_line, default_record,
}
use printer_driver.Journal.RoundTrip.{
  parse_line-job_line, parse_line-state_line, parse_line-token_line,
}
use printer_driver.Store.Tables.{map_values}
use printer_driver.Store.{Maps, JobStore, apply_entry, replay, no_maps, evidence_of}
use printer_driver.Types.{JobState, ConfidenceLevel, FailureReason, JobEvidence}

-- `recovered` is the one field that the journal does not carry.
abbrev pub forget : JobRecord → JobRecord
forget r = record r { recovered = false }

abbrev pub forget_all : Maps → Maps
forget_all m = record m { by_id = map_values forget m.by_id }

pub replay-append :
    (m : Maps) (xs ys : List JournalEntry) → replay m (xs ++ ys) ≡ replay (replay m xs) ys
unfolding replay
replay-append m [] ys = refl
replay-append m (x ∷ xs) ys = replay-append (apply_entry m x) xs ys

-- The journal is made of whole lines, and replays to what the store holds.
pub record IsDurable (s : JobStore) : Type 0 where
  pub body : Bytes
  pub closed : s.journal ≡ body ++ (newline ∷ [])
  pub replays : replay no_maps (read_journal s.journal) ≡ forget_all s.maps

-- Lines behind a durable journal replay on top of what the store holds.
pub replay-behind :
    (s : JobStore)
    → IsDurable s
    → (lines : Bytes)
    → replay no_maps (read_journal (s.journal ++ lines))
      ≡ replay (forget_all s.maps) (read_journal lines)
replay-behind s v lines =
    ap (λ (j : Bytes). replay no_maps (read_journal (j ++ lines))) v.closed
    ∙ ap (replay no_maps) (read_journal-append v.body lines)
    ∙ replay-append no_maps (read_journal (v.body ++ (newline ∷ []))) (read_journal lines)
    ∙ ap (λ (j : Bytes). replay (replay no_maps (read_journal j)) (read_journal lines))
        (sym v.closed)
    ∙ ap (λ (m : Maps). replay m (read_journal lines)) v.replays

read_journal-nil : read_journal [] ≡ []
unfolding read_journal
read_journal-nil = refl

-- The entries that the store's lines stand for.
abbrev pub state_entry :
    Bytes → JobState → ConfidenceLevel → FailureReason → ℕ → JobEvidence → JournalEntry
state_entry id s c r at_ms e = state (record default_record {
  id = id;
  state = s;
  confidence = c;
  reason = r;
  updated_unix_ms = at_ms;
  grade = e.grade;
  authority = e.authority;
  method = e.method;
})

abbrev pub job_part : JobRecord → JobRecord
job_part r = record default_record {
  id = r.id;
  key = r.key;
  printer_id = r.printer_id;
  created_unix_ms = r.created_unix_ms;
  attempt = r.attempt;
  payload_kind = r.payload_kind;
  payload_bytes = r.payload_bytes;
  print_token = r.print_token;
  cut_token = r.cut_token;
}

abbrev pub job_entry : JobRecord → JournalEntry
job_entry r = job (job_part r)

abbrev pub full_state_entry : JobRecord → JournalEntry
full_state_entry r =
    state_entry r.id r.state r.confidence r.reason r.updated_unix_ms (evidence_of r)

abbrev pub tokens_entry : Bytes → Bytes → Bytes → JournalEntry
tokens_entry id print_token cut_token =
    tokens (record default_record { id = id; print_token = print_token; cut_token = cut_token })

pub read-state_line :
    (id : Bytes) (s : JobState) (c : ConfidenceLevel) (r : FailureReason) (at_ms : ℕ)
    (e : JobEvidence) (rest : Bytes)
    → at_ms < u64_mod
    → read_journal (state_line id s c r at_ms e ++ (newline ∷ rest))
      ≡ state_entry id s c r at_ms e ∷ read_journal rest
read-state_line id s c r at_ms e rest h =
    read_journal-line _ rest (state_line-IsOneLine id s c r at_ms e)
      (parse_line-state_line id s c r at_ms e h)

pub read-token_line :
    (id print_token cut_token rest : Bytes)
    → read_journal (token_line id print_token cut_token ++ (newline ∷ rest))
      ≡ tokens_entry id print_token cut_token ∷ read_journal rest
read-token_line id print_token cut_token rest =
    read_journal-line _ rest (token_line-IsOneLine id print_token cut_token)
      (parse_line-token_line id print_token cut_token)

-- The numbers of a record fit the types of their fields.
abbrev pub Fits : JobRecord → Type 0
Fits r =
    (r.created_unix_ms < u64_mod)
    × (r.attempt < u32_mod)
    × (r.payload_bytes < u64_mod)
    × (r.updated_unix_ms < u64_mod)

pub read-job_line :
    (r : JobRecord) (rest : Bytes)
    → Fits r
    → read_journal (job_line r ++ (newline ∷ rest)) ≡ job_entry r ∷ read_journal rest
read-job_line r rest h =
    read_journal-line _ rest (job_line-IsOneLine r) (parse_line-job_line r h.0 h.1 h.2)

pub read_nothing : read_journal [] ≡ []
read_nothing = read_journal-nil
