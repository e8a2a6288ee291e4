-- ===== src/Cve/Tests.antt =====
-- The theorems on CVE assessments at small summaries and clocks.
use collector_security_analy.Common.{
  ℕ, ◌≡◌, ◌↔◌, refl, arith, max, String, Option, Bool, true, false, none, some, List, [], ◌∷◌, all,
}
use collector_security_analy.Cve.Status.{Summary, normalize_metadata, assessment_status}
use collector_security_analy.Cve.Status.Complete.{IsComplete, IsComplete-iff}
use collector_security_analy.Cve.Status.Published.{full_coverage_complete}
use collector_security_analy.Cve.Limiter.{Limiter, wait, granted, attempt, drop_expired}
use collector_security_analy.Cve.Limiter.Window.{call_all, rate_limited}
use collector_security_analy.Cve.Limiter.Queue.{IsSpaced}
use collector_security_analy.Cve.Limiter.Waiting.{wait_enough}
use collector_security_analy.Cve.Limiter.{new_limiter}
use collector_security_analy.Cve.Version.{
  unordered, compare_numeric, numeric_parts, order_parts, read_parts,
}
use collector_security_analy.Cve.Version.Meaning.{
  IsNumeric, numbers, Denotes, compare_numeric-Denotes,
}
use collector_security_analy.Cve.Applicability.{
  Result, affected, combine, and_, or_, is_vulnerable, is_affected, node, nil, cons, Case,
  is_uncertain, stated, evaluate_applicability_result, evaluate_configurations, evaluate_node,
  combine_or, combine_and, first_of, all_criteria, ruled_out,
}
use collector_security_analy.Cve.Applicability.Sound.{
  is_matched, is_hit_in, is_vulnerable-combine, evaluate_applicability_result-criterion,
}
use collector_security_analy.Common.{◌&&◌, any}
use collector_security_analy.Cve.Version.{Comparison, compare_applicability_versions}
use collector_security_analy.Cve.Range.{Range, evaluate_version, tests, run_tests, first_reason}
use collector_security_analy.Cve.Range.Decided.{IsDecided, IsOrdered}
use collector_security_analy.Cve.Range.Inside.{IsInside, evaluate_version-passes}

abbrev summary : Summary
summary = record {
  status = none;
  software_collection_status = some "SUCCESS";
  eligible = some 2;
  evaluated = some 2;
  scan_completed = true;
  coverage_complete = none;
  not_evaluated = 0;
  unresolved = 0;
  api_errors = 0;
  rows = [];
  providers = [];
  provider_status = none;
  assessment_status = none;
  reason = none;
  scope = none;
  coverage_percent = none;
}

IsComplete-iff_example :
    (assessment_status summary none none ≡ "COMPLETE") ↔ IsComplete summary none none
IsComplete-iff_example = IsComplete-iff summary none none

abbrev percent : ℕ → ℕ → ℕ
percent eligible evaluated = 1000

full_coverage_complete_example :
    ((normalize_metadata percent summary none none).coverage_percent ≡ some 1000
      → assessment_status summary none none ≡ "COMPLETE")
    × (((normalize_metadata percent summary none none).coverage_complete ≡ some true)
        ↔ (assessment_status summary none none ≡ "COMPLETE"))
full_coverage_complete_example = full_coverage_complete percent summary none none

abbrev calls : List (List (Bool × ℕ))
calls = ((false, 1) ∷ []) ∷ ((false, 2) ∷ []) ∷ ((false, 3) ∷ (false, 31) ∷ []) ∷ []

rate_limited_example : IsSpaced (max 1 2) (max 1_000_000 30) (call_all calls (new_limiter 2 30) [])
rate_limited_example =
    rate_limited 2 30 calls
      ((omega arith, tt), ((omega arith, tt), ((omega arith, (omega arith, tt)), tt)))

abbrev full : Limiter
full = record { requests = 1; window = 30; timestamps = 5 ∷ [] }

full-waits : attempt 7 full ≡ (wait 28, full)
unfolding attempt drop_expired
full-waits = refl

wait_enough_example : (attempt 35 full).0 ≡ granted
wait_enough_example =
    wait_enough full full 7 28 35 (omega arith) (omega arith) full-waits (omega arith)

mixed_builds : compare_numeric "1.2.3" "1.2.3.4" ≡ unordered "VERSION_INCOMPARABLE"
unfolding compare_numeric numeric_parts order_parts read_parts
mixed_builds = refl

nine : IsNumeric "1.9" ((b'1' ∷ []) ∷ (b'9' ∷ []) ∷ [])
nine = (refl, refl, omega arith, omega arith)

ten : IsNumeric "1.10" ((b'1' ∷ []) ∷ (b'1' ∷ b'0' ∷ []) ∷ [])
ten = (refl, refl, omega arith, omega arith)

compare_numeric-Denotes_example :
    Denotes
      (compare_numeric "1.9" "1.10")
      (numbers ((b'1' ∷ []) ∷ (b'9' ∷ []) ∷ []))
      (numbers ((b'1' ∷ []) ∷ (b'1' ∷ b'0' ∷ []) ∷ []))
compare_numeric-Denotes_example =
    compare_numeric-Denotes "1.9" "1.10" ((b'1' ∷ []) ∷ (b'9' ∷ []) ∷ [])
      ((b'1' ∷ []) ∷ (b'1' ∷ b'0' ∷ []) ∷ []) nine ten

abbrev match : Bool → Result
match vulnerable = record {
  status = affected;
  reason = "Installed version matches vulnerable NVD criteria";
  confidence = 95;
  criteria = "cpe" ∷ [];
  has_vulnerable_match = vulnerable;
  reason_code = "VERSION_MATCH";
}

abbrev excluded : Result
excluded =
    ruled_out "VERSION_OUTSIDE_RANGE" "Installed version is outside vulnerable NVD criteria" "cpe"

is_vulnerable-combine_example :
    (is_vulnerable (combine or_ (match false ∷ match true ∷ []))
      ≡ any is_vulnerable (match false ∷ match true ∷ []))
    × (is_vulnerable (combine and_ (match false ∷ match true ∷ [])) ≡ (
        all is_affected (match false ∷ match true ∷ [])
        && any is_matched (match false ∷ match true ∷ [])))
is_vulnerable-combine_example = is_vulnerable-combine (match false) (match true ∷ [])

abbrev case : Case
case = record {
  is_deprecated = false;
  is_unmatched = false;
  confidence = 95;
  is_parsed = true;
  version_reason = none;
  is_rejected = false;
  has_no_id = false;
  configurations =
      cons
        (node (some and_) true (cons (node (some or_) true nil (excluded ∷ match true ∷ [])) nil)
          (match false ∷ []))
        nil;
}

case-affected : is_affected (evaluate_applicability_result case) ≡ true
unfolding evaluate_applicability_result evaluate_configurations evaluate_node combine combine_or
    combine_and first_of all_criteria
case-affected = refl

evaluate_applicability_result-criterion_example :
    (is_uncertain case ≡ false)
    × (stated case.version_reason ≡ none)
    × (case.is_rejected ≡ false)
    × (case.has_no_id ≡ false)
    × (is_hit_in case.configurations ≡ true)
evaluate_applicability_result-criterion_example =
    evaluate_applicability_result-criterion case case-affected

abbrev numeric : Option String → Option String → Comparison
numeric left right =
    compare_applicability_versions (λ l r scheme. unordered "VERSION_SCHEME_UNSUPPORTED") left right
      "numeric"

-- From 1.2, included, to 1.10, excluded
abbrev range : Range
range = record {
  start_including = some (some "1.2");
  start_excluding = none;
  end_including = none;
  end_excluding = some (some "1.10");
}

inside_range : is_affected (evaluate_version numeric (some "1.9.5") "*" range "cpe" true) ≡ true
unfolding evaluate_version tests run_tests first_reason compare_applicability_versions
    compare_numeric numeric_parts order_parts read_parts
inside_range = refl

outside_range : is_affected (evaluate_version numeric (some "1.10") "*" range "cpe" true) ≡ false
unfolding evaluate_version tests run_tests first_reason compare_applicability_versions
    compare_numeric numeric_parts order_parts read_parts
outside_range = refl

evaluate_version-passes_example :
    (is_affected (evaluate_version numeric (some "1.9.5") "*" range "cpe" true) ≡ true) ↔ (
      IsDecided "*" range true
      × IsOrdered numeric range
      × IsInside numeric (some "1.9.5") "*" range)
evaluate_version-passes_example =
    evaluate_version-passes numeric (some "1.9.5") "*" range "cpe" true
