-- ===== src/Profile.antt =====
-- core/include/printerdriver/capability_profile.hpp and core/src/capability_profile.cpp: what a
-- profile lets the engine do and claim. The record holds the fields that the job path reads.
use printer_driver.Base.{Bytes, codes, Bool, true, false, not, ◌&&◌, ◌||◌}
use printer_driver.Types.{JobEvidence, ConfidenceLevel, ConfidenceGrade, CompletionAuthority}

pub data CompletionMechanism : Type 0 where
  gs_paren_h gs_r1 vendor_idle epos_job_id star_checked_block none : CompletionMechanism
  star_etb star_esc_gs_etx : CompletionMechanism

pub data CommandLanguage : Type 0 where
  esc_pos star_prnt star_line epos_xml zpl cpcl brother_raster esc_p : CommandLanguage

pub data CutVariant : Type 0 where
  partial full none : CutVariant

pub record CapabilityProfile : Type 0 where
  pub language : CommandLanguage
  pub completion : CompletionMechanism
  -- The registered completion method of a `vendor_idle` profile; empty for none.
  pub completion_vendor_id : Bytes
  pub cut : CutVariant
  -- `status.dle_eot`.
  pub dle_eot : Bool
  -- `star.exclusive_single_session`.
  pub exclusive_single_session : Bool

unfoldable pub is_drivable_by_escpos_engine : CompletionMechanism → Bool
is_drivable_by_escpos_engine CompletionMechanism.gs_paren_h = true
is_drivable_by_escpos_engine CompletionMechanism.gs_r1 = true
is_drivable_by_escpos_engine CompletionMechanism.none = true
is_drivable_by_escpos_engine _ = false

unfoldable pub is_drivable_by_star_engine : CompletionMechanism → Bool
is_drivable_by_star_engine CompletionMechanism.star_etb = true
is_drivable_by_star_engine CompletionMechanism.star_esc_gs_etx = true
is_drivable_by_star_engine CompletionMechanism.none = true
is_drivable_by_star_engine _ = false

-- The ceiling that the completion mechanism allows.
unfoldable pub max_confidence_of : CompletionMechanism → ConfidenceLevel
max_confidence_of CompletionMechanism.gs_paren_h = ConfidenceLevel.cut_fault_free
max_confidence_of CompletionMechanism.none = ConfidenceLevel.transport_accepted
max_confidence_of _ = ConfidenceLevel.cut_processed

abbrev pub max_confidence : CapabilityProfile → ConfidenceLevel
max_confidence p = max_confidence_of p.completion

abbrev from_printer : ConfidenceGrade → Bytes → JobEvidence
from_printer grade method = record {
  grade = grade;
  authority = CompletionAuthority.physical_printer;
  method = method;
}

unfoldable pub evidence_for : CompletionMechanism → JobEvidence
evidence_for CompletionMechanism.gs_paren_h =
    from_printer ConfidenceGrade.a_job_level_confirmation (codes "GS(H) fn48")
evidence_for CompletionMechanism.gs_r1 =
    from_printer ConfidenceGrade.b_ordered_device_response (codes "GS r 1")
evidence_for CompletionMechanism.vendor_idle =
    from_printer ConfidenceGrade.b_ordered_device_response (codes "vendor idle query")
evidence_for CompletionMechanism.epos_job_id = record {
  grade = ConfidenceGrade.a_plus_durable_queryable_job;
  authority = CompletionAuthority.vendor_spooler;
  method = codes "ePOS JobID";
}
evidence_for CompletionMechanism.star_checked_block =
    from_printer ConfidenceGrade.a_job_level_confirmation (codes "Star checked block")
evidence_for CompletionMechanism.star_etb =
    from_printer ConfidenceGrade.a_job_level_confirmation (codes "ETB")
evidence_for CompletionMechanism.star_esc_gs_etx =
    from_printer ConfidenceGrade.a_job_level_confirmation (codes "ESC GS ETX")
evidence_for CompletionMechanism.none = record {
  grade = ConfidenceGrade.e_transport_only;
  authority = CompletionAuthority.transport_only;
  method = codes "transport-only";
}

abbrev pub evidence : CapabilityProfile → JobEvidence
evidence p = evidence_for p.completion

is_esc_pos : CommandLanguage → Bool
is_esc_pos CommandLanguage.esc_pos = true
is_esc_pos _ = false

unfoldable pub drivable_by_escpos_engine : CapabilityProfile → Bool
unfolding is_esc_pos is_drivable_by_escpos_engine
drivable_by_escpos_engine p = is_esc_pos p.language && is_drivable_by_escpos_engine p.completion

is_star : CommandLanguage → Bool
is_star CommandLanguage.star_prnt = true
is_star CommandLanguage.star_line = true
is_star _ = false

is_etb : CompletionMechanism → Bool
is_etb CompletionMechanism.star_etb = true
is_etb _ = false

-- An ETB counter is shared by every host on the port, so it takes an exclusive session.
unfoldable pub drivable_by_star_engine : CapabilityProfile → Bool
unfolding is_star is_drivable_by_star_engine is_etb
drivable_by_star_engine p =
    is_star p.language
    && (is_drivable_by_star_engine p.completion
        && not (is_etb p.completion && not p.exclusive_single_session))

unfoldable pub drivable : CapabilityProfile → Bool
unfolding drivable_by_escpos_engine drivable_by_star_engine
drivable p = drivable_by_escpos_engine p || drivable_by_star_engine p
