-- ===== src/Registrations.antt =====
-- core/include/printerdriver/registrations.hpp and core/src/registrations.cpp: the registries of custom
-- methods. A callback that is empty is none; the lock is left out.
pub mod Stays
pub mod Quiet
mod Examples
use printer_driver.Base.{
  ℕ, Bytes, codes, Bool, true, false, not, ◌&&◌, ◌||◌, Option, none, some, List, [], ◌∷◌, ◌++◌,
  if◌then◌else◌, leb, ◌==◌, all, eq_bytes, is_some,
}
use printer_driver.Drawer.Polling.{DrawerKickReg}
use printer_driver.Fence.{CustomMatch}
use printer_driver.Types.{ConfidenceGrade, CompletionAuthority}

-- `isValidRegistrationId`.
unfoldable pub is_valid_registration_id : Bytes → Bool
is_valid_registration_id [] = false
is_valid_registration_id (c ∷ id) = all (λ b. not (leb b 32 || (b == 127))) (c ∷ id)

-- `isNonPrintingRequest`.
unfoldable pub is_non_printing_request : Bytes → Bool
is_non_printing_request bytes = all (λ b. not ((b == 10) || (leb 32 b && leb b 126))) bytes

pub record CompletionMethod : Type 0 where
  pub id : Bytes
  pub fence_bytes : Option (Bytes → Bytes)
  pub matcher : Option (Bytes → CustomMatch)
  pub grade : ConfidenceGrade
  pub authority : CompletionAuthority
  pub method_name : Bytes

pub record ProbeFinding : Type 0 where
  pub answered : Bool
  pub label : Bytes

pub record ProbeStep : Type 0 where
  pub id : Bytes
  pub request_bytes : Bytes
  pub classify : Option (Bytes → ProbeFinding)

-- A kick under its id; without its callback for the pulse it is none.
pub record DrawerKickEntry : Type 0 where
  pub id : Bytes
  pub kick : Option DrawerKickReg

pub record FormatterReg : Type 0 where
  pub name : Bytes
  pub fn : Option (Bytes → Bytes → Bytes → Option Bytes)

pub record BlockRenderResult : Type 0 where
  pub ok : Bool
  pub bytes : Bytes
  pub requested : Bytes
  pub delivered : Bytes
  pub detail : Bytes

pub record BlockHandlerReg : Type 0 where
  pub kind : Bytes
  pub fn : Option (Bytes → Bytes → BlockRenderResult)

pub record Registrations : Type 0 where
  pub completions : List CompletionMethod
  pub probe_steps : List ProbeStep
  pub drawer_kicks : List DrawerKickEntry
  pub formatters : List FormatterReg
  pub block_handlers : List BlockHandlerReg

module _ {A : Type 0} (id_of : A → Bytes) where
  unfoldable pub id_taken : List A → Bytes → Bool
  id_taken [] id = false
  id_taken (entry ∷ entries) id = eq_bytes (id_of entry) id || id_taken entries id

  unfoldable pub find_entry : List A → Bytes → Option A
  find_entry [] id = none
  find_entry (entry ∷ entries) id =
      let later = find_entry entries id in if eq_bytes (id_of entry) id then some entry else later

abbrev pub is_empty : Bytes → Bool
is_empty [] = true
is_empty (b ∷ bs) = false

-- The method with its name, which is its id if it has none.
abbrev pub named : CompletionMethod → CompletionMethod
named method = record method {
  method_name = if is_empty method.method_name then method.id else method.method_name;
}

-- The registries after the call, and its error if it failed.
unfoldable pub add_completion_method :
    CompletionMethod → Registrations → Registrations × Option Bytes
unfolding id_taken is_valid_registration_id
add_completion_method method r =
    let taken = id_taken (λ (m : CompletionMethod). m.id) r.completions method.id in
    if not (is_valid_registration_id method.id)
    then (r, some (codes "completion method id must be a non-empty namespaced token"))
    else if not (is_some method.fence_bytes && is_some method.matcher)
    then (
      r,
      some (
          codes "completion method \""
          ++ (method.id ++ codes "\" needs both a fence-bytes and a matcher callback")),
    )
    else if taken
    then (r, some (codes "completion method id already registered: " ++ method.id))
    else (record r { completions = r.completions ++ (named method ∷ []) }, none)

unfoldable pub completion_method : Registrations → Bytes → Option CompletionMethod
unfolding find_entry
completion_method r id = find_entry (λ (m : CompletionMethod). m.id) r.completions id

unfoldable pub add_probe_step : ProbeStep → Registrations → Registrations × Option Bytes
unfolding id_taken is_valid_registration_id is_non_printing_request
add_probe_step step r =
    let taken = id_taken (λ (s : ProbeStep). s.id) r.probe_steps step.id in
    if not (is_valid_registration_id step.id)
    then (r, some (codes "probe step id must be a non-empty namespaced token"))
    else if not (is_some step.classify)
    then (r, some (codes "probe step \"" ++ (step.id ++ codes "\" needs a classify callback")))
    else if not (is_non_printing_request step.request_bytes)
    then (
      r,
      some (
          codes "probe step \""
          ++ (step.id
              ++ codes
                  "\" request bytes contain printable data; a probe step must be non-printing (no 0x20-0x7E and no line feed)")),
    )
    else if taken
    then (r, some (codes "probe step id already registered: " ++ step.id))
    else (record r { probe_steps = r.probe_steps ++ (step ∷ []) }, none)

unfoldable pub add_drawer_kick : DrawerKickEntry → Registrations → Registrations × Option Bytes
unfolding id_taken is_valid_registration_id
add_drawer_kick entry r =
    let taken = id_taken (λ (k : DrawerKickEntry). k.id) r.drawer_kicks entry.id in
    if not (is_valid_registration_id entry.id)
    then (r, some (codes "drawer kick id must be a non-empty namespaced token"))
    else if not (is_some entry.kick)
    then (r, some (codes "drawer kick \"" ++ (entry.id ++ codes "\" needs a kick-bytes callback")))
    else if taken
    then (r, some (codes "drawer kick id already registered: " ++ entry.id))
    else (record r { drawer_kicks = r.drawer_kicks ++ (entry ∷ []) }, none)

abbrev pub kick_of : Option DrawerKickEntry → Option DrawerKickReg
kick_of none = none
kick_of (some entry) = entry.kick

-- `drawerKick`, the lookup that opening a drawer uses.
unfoldable pub drawer_kick_of : Registrations → Bytes → Option DrawerKickReg
unfolding find_entry
drawer_kick_of r id = kick_of (find_entry (λ (k : DrawerKickEntry). k.id) r.drawer_kicks id)

unfoldable pub add_formatter : FormatterReg → Registrations → Registrations × Option Bytes
unfolding id_taken
add_formatter formatter r =
    let taken = id_taken (λ (f : FormatterReg). f.name) r.formatters formatter.name in
    if is_empty formatter.name
    then (r, some (codes "formatter name must be non-empty"))
    else if not (is_some formatter.fn)
    then (r, some (codes "formatter \"" ++ (formatter.name ++ codes "\" needs a callback")))
    else if taken
    then (r, some (codes "formatter name already registered: " ++ formatter.name))
    else (record r { formatters = r.formatters ++ (formatter ∷ []) }, none)

unfoldable pub has_formatter : Registrations → Bytes → Bool
unfolding id_taken
has_formatter r name = id_taken (λ (f : FormatterReg). f.name) r.formatters name

abbrev pub apply_formatter : Option FormatterReg → Bytes → Bytes → Bytes → Option Bytes
apply_formatter none value args locale = none
apply_formatter (some formatter) value args locale = elim formatter.fn [
  | none ↦ none
  | some fn ↦ fn value args locale
]

unfoldable pub format : Registrations → Bytes → Bytes → Bytes → Bytes → Option Bytes
unfolding find_entry
format r name value args locale =
    apply_formatter (find_entry (λ (f : FormatterReg). f.name) r.formatters name) value args locale

unfoldable pub add_block_handler : BlockHandlerReg → Registrations → Registrations × Option Bytes
unfolding id_taken
add_block_handler handler r =
    let taken = id_taken (λ (h : BlockHandlerReg). h.kind) r.block_handlers handler.kind in
    if is_empty handler.kind
    then (r, some (codes "block handler kind must be non-empty"))
    else if not (is_some handler.fn)
    then (r, some (codes "block handler \"" ++ (handler.kind ++ codes "\" needs a callback")))
    else if taken
    then (r, some (codes "block handler kind already registered: " ++ handler.kind))
    else (record r { block_handlers = r.block_handlers ++ (handler ∷ []) }, none)

unfoldable pub has_block_handler : Registrations → Bytes → Bool
unfolding id_taken
has_block_handler r kind = id_taken (λ (h : BlockHandlerReg). h.kind) r.block_handlers kind

abbrev pub apply_handler : Option BlockHandlerReg → Bytes → Bytes → Option BlockRenderResult
apply_handler none block_json profile_json = none
apply_handler (some handler) block_json profile_json = elim handler.fn [
  | none ↦ none
  | some fn ↦ some (fn block_json profile_json)
]

unfoldable pub render_block : Registrations → Bytes → Bytes → Bytes → Option BlockRenderResult
unfolding find_entry
render_block r kind block_json profile_json =
    apply_handler (find_entry (λ (h : BlockHandlerReg). h.kind) r.block_handlers kind) block_json
      profile_json

-- The calls that change the registries.
pub data Call : Type 0 where
  adds_completion_method : CompletionMethod → Call
  adds_probe_step : ProbeStep → Call
  adds_drawer_kick : DrawerKickEntry → Call
  adds_formatter : FormatterReg → Call
  adds_block_handler : BlockHandlerReg → Call

unfoldable pub call : Call → Registrations → Registrations × Option Bytes
call (adds_completion_method method) r = add_completion_method method r
call (adds_probe_step step) r = add_probe_step step r
call (adds_drawer_kick entry) r = add_drawer_kick entry r
call (adds_formatter formatter) r = add_formatter formatter r
call (adds_block_handler handler) r = add_block_handler handler r

-- The registries after the calls, one after the other.
unfoldable pub run : List Call → Registrations → Registrations
unfolding call
run [] r = r
run (c ∷ cs) r = run cs (call c r).0
