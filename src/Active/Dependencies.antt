-- ===== src/Active/Dependencies.antt =====
-- active_validation/planner.py: `_resolve_dependencies`.
pub mod Ends
pub mod Closed
use collector_security_analy.Common.{
  ℕ, zero, suc, ◌+◌, String, Bool, true, false, not, ◌&&◌, Option, none, some, List, [], ◌∷◌,
  str_eq, all, contains, length, if◌then◌else◌,
}
use collector_security_analy.Common.Texts.{sorted}
use collector_security_analy.Active.Outcome.{
  Outcome, ok, err, ◌>>=◌, ◌>>◌, require, unknown_optional, unknown_dependency,
  dependency_not_active, risk_escalation, out_of_fuel,
}
use collector_security_analy.Active.Model.{RiskLevel, has_risk, is_active, Entry, get, is_none}

abbrev pub deep_validator_id : String
deep_validator_id = "VAL-RESPONDER-DEEP-001"

abbrev pub responder_aggregate_id : String
responder_aggregate_id = "VAL-RESPONDER-EXPOSURE-001"

-- `resolved` and `queue`; the queue is popped at its head.
pub record Expansion : Type 0 where
  pub resolved : List String
  pub queue : List String

-- `if dependency_id not in resolved: …`
abbrev pub add : String → Expansion → Expansion
add id s =
    if contains id s.resolved
    then s
    else record { resolved = id ∷ s.resolved; queue = id ∷ s.queue }

-- `profile and risk not in PROFILE_RISKS[profile]`; `none` is no profile.
abbrev pub permits : Option (List RiskLevel) → RiskLevel → Bool
permits none r = true
permits (some risks) r = has_risk r risks

-- The selected validators, and the aggregate of the deep one
abbrev pub initial : List String → List String
initial selected =
    if contains deep_validator_id selected && not (contains responder_aggregate_id selected)
    then responder_aggregate_id ∷ selected
    else selected

module _ (registry : List Entry) (risks : Option (List RiskLevel)) where
  -- One dependency
  abbrev pub admit : String → Option Entry → Expansion → Outcome Expansion
  admit id none s = err unknown_dependency
  admit id (some e) s = do
    require (is_active e.status) dependency_not_active
    require (permits risks e.described.risk_level) risk_escalation
    ok (add id s)

  unfoldable pub admit_all : List String → Expansion → Outcome Expansion
  admit_all [] s = ok s
  admit_all (id ∷ ids) s = admit id (get id registry) s >>= admit_all ids

  -- What a round does with the validator that it popped
  abbrev pub expand : Option Entry → Expansion → Outcome Expansion
  expand none s = ok s
  expand (some e) s = do
    require (all (λ id. not (is_none (get id registry))) e.described.optional_dependency_ids)
        unknown_optional
    admit_all e.described.depends_on_validator_ids s

  -- `while queue`
  unfoldable pub expand_all : ℕ → Expansion → Outcome (List String)
  unfolding admit_all get
  expand_all zero s = elim s.queue [ [] ↦ ok s.resolved | _ ∷ _ ↦ err out_of_fuel ]
  expand_all (suc fuel) s = elim s.queue [
    | [] ↦ ok s.resolved
    | id ∷ rest ↦ expand (get id registry) (record s { queue = rest }) >>= expand_all fuel
  ]

  -- `_resolve_dependencies`. A validator is queued once, at the start or when it is found in the registry.
  unfoldable pub resolve_dependencies : List String → Outcome (List String)
  unfolding expand_all sorted
  resolve_dependencies selected = do
    resolved ←
        expand_all (length (initial selected) + length registry)
          (record { resolved = initial selected; queue = initial selected })
    ok (sorted resolved)
