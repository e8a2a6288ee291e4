-- ===== src/Compliance/Selection.antt =====
-- compliance/evaluator.py: the mapping of a rule to a control, and what it does to evidence.
use collector_security_analy.Common.{
  min, String, Bool, true, false, not, Option, none, some, List, [], ◌∷◌, ltb, str_eq, keep,
  if◌then◌else◌,
}
use collector_security_analy.Compliance.{
  EvidenceResult, supports, contradicts, inconclusive, missing, excluded, supporting, contradicting,
  partial, context_only, Evidence, Mapping,
}

-- Whether `a` comes before `b` in the order of `_select_mapping`: validated first, then by confidence
abbrev pub is_better : Mapping → Mapping → Bool
is_better a b =
    if a.validated
    then (if b.validated then ltb b.confidence a.confidence else true)
    else (if b.validated then false else ltb b.confidence a.confidence)

-- The first of the best mappings, as the sort is stable
unfoldable pub best : Mapping → List Mapping → Mapping
best m [] = m
best m (n ∷ ns) = if is_better n m then best n ns else best m ns

abbrev pub best_of : List Mapping → Option Mapping
best_of [] = none
best_of (m ∷ ms) = some (best m ms)

-- `_select_mapping`
unfoldable pub select_mapping : List Mapping → String → Option Mapping
unfolding best
select_mapping mappings rule_id = best_of (keep (λ m. str_eq m.rule_id rule_id) mappings)

-- The result of a record under a mapping
unfoldable pub mapped_result : Mapping → EvidenceResult → EvidenceResult
mapped_result m r = if not m.validated then inconclusive else elim m.relationship [
  | supporting ↦ r
  | partial ↦ r
  | context_only ↦ inconclusive
  | contradicting ↦ elim r [
    | supports ↦ contradicts
    | contradicts ↦ supports
    | inconclusive ↦ inconclusive
    | missing ↦ missing
    | excluded ↦ excluded
  ]
]

-- `_apply_mapping`
unfoldable pub apply_mapping : Evidence → Option Mapping → Evidence
unfolding mapped_result
apply_mapping e none = record e { result = inconclusive; confidence = 0 }
apply_mapping e (some m) = record e {
  result = mapped_result m e.result;
  confidence = min e.confidence m.confidence;
  mapping_relationship = some m.relationship;
  mapping_confidence = some m.confidence;
  mapping_validated = some m.validated;
}
