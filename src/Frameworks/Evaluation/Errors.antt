-- ===== src/Frameworks/Evaluation/Errors.antt =====
-- When the evaluation of a pack raises.
use collector_security_analy.Common.{◌≡◌, refl, String, Bool, not, ◌&&◌, ◌||◌, List, arith, ltb}
use collector_security_analy.Common.Dict.{Dict}
use collector_security_analy.Frameworks.{FindingStatus, Finding, FrameworkPack, AssessmentPolicy}
use collector_security_analy.Frameworks.Findings.{Evaluated, ok, raises, and_then, findings_by_rule}
use collector_security_analy.Frameworks.Findings.Clashes.{
  returns, clashes, findings_by_rule-returns,
}
use collector_security_analy.Frameworks.Evaluator.{is_provisional}
use collector_security_analy.Frameworks.Evaluation.{
  Evaluation, evaluation_of, evaluate, count_mappings, is_active, is_review_required,
}

-- A pack that may be assessed: an ACTIVE one without provisional mappings, or one under review, where
-- this is allowed
abbrev pub is_assessable_pack : FrameworkPack → Bool → Bool
is_assessable_pack pack allow_unreviewed =
    (is_active pack && not (ltb 0 (count_mappings is_provisional pack.controls)))
    || (is_review_required pack && allow_unreviewed)

and_then-returns :
    (f : Dict FindingStatus → Evaluation) (call : Evaluated (Dict FindingStatus))
    → returns (and_then (λ d. ok (f d)) call) ≡ returns call
and_then-returns f (ok d) = refl
and_then-returns f (raises e) = refl

-- Evaluating a pack returns exactly where the pack may be assessed (it is ACTIVE and has no provisional
-- mapping, or it is under review and unreviewed packs are allowed) and no rule has a PARTIAL finding and
-- another finding besides; otherwise it raises.
pub evaluate-returns :
    (pack : FrameworkPack) (findings : List Finding) (policy : AssessmentPolicy)
    (allow_unreviewed : Bool) (now : String)
    → returns (evaluate pack findings policy allow_unreviewed now)
      ≡ (is_assessable_pack pack allow_unreviewed && not (clashes findings))
unfolding evaluate
evaluate-returns pack findings policy allow now = ground (
  arith,
  findings_by_rule-returns findings,
  and_then-returns (evaluation_of pack policy now) (findings_by_rule findings),
)
