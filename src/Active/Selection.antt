-- ===== src/Active/Selection.antt =====
-- active_validation/planner.py: `_resolve_selection`; active_validation/authorization.py: `require_scope`.
use collector_security_analy.Common.{
  String, Bool, true, false, not, ◌&&◌, ◌||◌, Option, none, some, List, [], ◌∷◌, str_eq, all,
  contains, keep, if◌then◌else◌, are_distinct,
}
use collector_security_analy.Common.Texts.{sorted}
use collector_security_analy.Active.Outcome.{
  Outcome, ok, err, ◌>>=◌, ◌>>◌, require, scope_assessment, scope_device, scope_validators,
  unknown_profile, risk_exceeds_profile, deep_profile_required, duplicate_selection,
}
use collector_security_analy.Active.Model.{
  RiskLevel, safe_read_only, low_impact, controlled_temporary_change, has_risk, is_active, Entry,
  get, Authorization,
}
use collector_security_analy.Active.Dependencies.{deep_validator_id, responder_aggregate_id}

abbrev pub deep_profile : String
deep_profile = "deep-responder-validation"

-- `PROFILE_RISKS.get(profile)`
unfoldable pub profile_risks : String → Option (List RiskLevel)
profile_risks p =
    if str_eq p "safe-read-only"
    then some (safe_read_only ∷ [])
    else if str_eq p "safe-local"
    then some (safe_read_only ∷ low_impact ∷ [])
    else if str_eq p "controlled-temporary" || str_eq p deep_profile
    then some (safe_read_only ∷ low_impact ∷ controlled_temporary_change ∷ [])
    else none

-- `if profile`
abbrev pub stated : Option String → Option String
stated none = none
stated (some p) = if str_eq p "" then none else some p

-- The validators of a registry, in the order of `get_all`
unfoldable pub ids_of : List Entry → List String
ids_of [] = []
ids_of (e ∷ es) = e.validator_id ∷ ids_of es

-- A validator of `get_active` within the risks of a profile that is not the deep one
abbrev pub suits : List RiskLevel → Option Entry → Bool
suits risks none = false
suits risks (some e) =
    is_active e.status
    && (has_risk e.described.risk_level risks && not (str_eq e.validator_id deep_validator_id))

abbrev pub is_nil : List String → Bool
is_nil [] = true
is_nil (_ ∷ _) = false

-- The selection under a profile, before the checks
unfoldable pub of_profile : List Entry → String → List RiskLevel → List String → List String
unfolding sorted ids_of get
of_profile registry profile risks requested =
    if not (is_nil requested)
    then requested
    else if str_eq profile deep_profile
    then deep_validator_id ∷ responder_aggregate_id ∷ []
    else keep (λ id. suits risks (get id registry)) (sorted (ids_of registry))

-- One round of the loop over the selection; a validator that is unknown is left for later.
abbrev pub fits : String → List RiskLevel → String → Option Entry → Outcome (Unit {0})
fits profile risks id none = ok tt
fits profile risks id (some e) = do
  require (has_risk e.described.risk_level risks) risk_exceeds_profile
  require (not (str_eq id deep_validator_id && not (str_eq profile deep_profile)))
      deep_profile_required

unfoldable pub fit_all : List Entry → String → List RiskLevel → List String → Outcome (Unit {0})
unfolding get
fit_all registry profile risks [] = ok tt
fit_all registry profile risks (id ∷ ids) =
    fits profile risks id (get id registry) >> fit_all registry profile risks ids

abbrev pub select_risks :
    List Entry → String → Option (List RiskLevel) → List String → Outcome (List String)
select_risks registry profile none requested = err unknown_profile
select_risks registry profile (some risks) requested = do
  let selected = of_profile registry profile risks requested
  fit_all registry profile risks selected
  ok selected

abbrev pub select : List Entry → Option String → List String → Outcome (List String)
select registry none requested = do
  require (not (contains deep_validator_id requested)) deep_profile_required
  ok requested
select registry (some p) requested = select_risks registry p (profile_risks p) requested

-- `_resolve_selection`
unfoldable pub resolve_selection : List Entry → Option String → List String → Outcome (List String)
unfolding of_profile fit_all profile_risks sorted
resolve_selection registry profile requested = do
  selected ← select registry (stated profile) requested
  require (are_distinct selected) duplicate_selection
  ok (sorted selected)

abbrev pub same_assessment : Option String → String → Bool
same_assessment none a = true
same_assessment (some b) a = str_eq a b

-- `require_scope`
unfoldable pub require_scope :
    Authorization → String → List String → Option String → Outcome (Unit {0})
require_scope a device ids assessment = do
  require (same_assessment assessment a.assessment_id) scope_assessment
  require (contains device a.device_identifiers) scope_device
  require (all (λ id. contains id a.validator_ids) ids) scope_validators
