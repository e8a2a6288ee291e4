-- ===== src/Cve/Range.antt =====
-- cve/applicability.py: `_evaluate_version`, the version range of a criterion.
pub mod Bounds
pub mod Decided
pub mod Inside
use collector_security_analy.Common.{
  ◌≡◌, refl, ℕ, String, Bool, true, false, not, ◌&&◌, ◌||◌, Option, none, some, List, [], ◌∷◌, ◌++◌,
  arith, str_eq, any, all, if◌then◌else◌,
}
use collector_security_analy.Cve.Version.{
  Place, before, same, after, Comparison, ordered, unordered, compare_applicability_versions,
}
use collector_security_analy.Cve.Applicability.{
  Status, affected, Result, unknown, ruled_out, is_affected, is_not_affected, incomplete,
}

-- A bound of a match under its key: absent, or the text, or `none` where the value is no text
abbrev pub Bound : Type 0
Bound = Option (Option String)

-- The bounds of a match, under the keys of START and END
pub record Range : Type 0 where
  pub start_including : Bound
  pub start_excluding : Bound
  pub end_including : Bound
  pub end_excluding : Bound

abbrev pub is_present : Bound → Bool
is_present none = false
is_present (some _) = true

-- `match.get(key) == "-"`
abbrev pub is_na : Bound → Bool
is_na none = false
is_na (some none) = false
is_na (some (some t)) = str_eq t "-"

abbrev pub has_na : Range → Bool
has_na r =
    (is_na r.start_including || is_na r.start_excluding)
    || (is_na r.end_including || is_na r.end_excluding)

abbrev pub has_duplicates : Range → Bool
has_duplicates r =
    (is_present r.start_including && is_present r.start_excluding)
    || (is_present r.end_including && is_present r.end_excluding)

-- A value with the orders of the installed version that it allows
pub record Test : Type 0 where
  pub bound : Option String
  pub allows : Place → Bool

-- `{0, 1}`, `{1}`, `{-1, 0}`, `{-1}` and `{0}`
abbrev pub at_least : Place → Bool
at_least p = elim p [ before ↦ false | same ↦ true | after ↦ true ]

abbrev pub above : Place → Bool
above p = elim p [ before ↦ false | same ↦ false | after ↦ true ]

abbrev pub at_most : Place → Bool
at_most p = elim p [ before ↦ true | same ↦ true | after ↦ false ]

abbrev pub below : Place → Bool
below p = elim p [ before ↦ true | same ↦ false | after ↦ false ]

abbrev pub equal : Place → Bool
equal p = elim p [ before ↦ false | same ↦ true | after ↦ false ]

abbrev pub test_of : Bound → (Place → Bool) → List Test
test_of none allows = []
test_of (some t) allows = record { bound = t; allows = allows } ∷ []

unfoldable pub tests : Range → String → List Test
tests r exact =
    test_of r.start_including at_least
    ++ test_of r.start_excluding above
    ++ test_of r.end_including at_most
    ++ test_of r.end_excluding below
    ++ (if str_eq exact "*" then [] else record { bound = some exact; allows = equal } ∷ [])

-- The start and the end of a range without duplicates, with whether it is excluded
pub record Limit : Type 0 where
  pub value : Option String
  pub is_strict : Bool

abbrev pub limit : Bound → Bound → Option Limit
limit (some t) _ = some (record { value = t; is_strict = false })
limit none (some t) = some (record { value = t; is_strict = true })
limit none none = none

-- `order.reason or "VERSION_INCOMPARABLE"`
abbrev pub reason_or : String → String
reason_or t = if str_eq t "" then "VERSION_INCOMPARABLE" else t

abbrev pub contradicts : Bool → Place → Bool
contradicts strict p = elim p [ before ↦ false | same ↦ strict | after ↦ true ]

abbrev pub conflict : String → Bool → Comparison → Option Result
conflict criterion strict (unordered reason) = some (
    unknown (reason_or reason) "NVD range bounds use incompatible version evidence"
      (criterion ∷ []))
conflict criterion strict (ordered p) =
    if contradicts strict p
    then some (unknown incomplete "NVD range bounds are contradictory" (criterion ∷ []))
    else none

abbrev pub has_limit : Option Limit → Bool
has_limit none = false
has_limit (some _) = true

module _ (compare : Option String → Option String → Comparison) where
  -- The two bounds in their order
  abbrev pub check_bounds : String → Option Limit → Option Limit → Option Result
  check_bounds criterion (some s) (some e) =
      conflict criterion (s.is_strict || e.is_strict) (compare s.value e.value)
  check_bounds criterion (some s) none = none
  check_bounds criterion none e = none

  abbrev pub later : Comparison → Option String → Option String
  later (unordered reason) rest = some reason
  later (ordered p) rest = rest

  -- The reason of the first comparison that has no order
  unfoldable pub first_reason : Option String → List Test → Option String
  first_reason installed [] = none
  first_reason installed (t ∷ ts) = later (compare installed t.bound) (first_reason installed ts)

  -- `comparison.order in allowed`
  abbrev pub admits : Test → Comparison → Bool
  admits t (unordered reason) = false
  admits t (ordered p) = t.allows p

  abbrev pub passes : Option String → Test → Bool
  passes installed t = admits t (compare installed t.bound)

  abbrev pub verdict : Bool → String → Bool → Option String → Result
  verdict inside criterion vulnerable (some reason) =
      unknown (reason_or reason)
        "Installed version cannot be compared reliably with NVD version criteria" (criterion ∷ [])
  verdict false criterion vulnerable none =
      ruled_out "VERSION_OUTSIDE_RANGE" "Installed version is outside the NVD version criteria"
        criterion
  verdict true criterion vulnerable none = record {
    status = affected;
    reason =
        if vulnerable
        then "Installed version matches vulnerable NVD criteria"
        else "NVD prerequisite matched";
    confidence = 95;
    criteria = criterion ∷ [];
    has_vulnerable_match = vulnerable;
    reason_code = "VERSION_MATCH";
  }

  unfoldable pub run_tests : Option String → String → Bool → List Test → Result
  unfolding first_reason
  run_tests installed criterion vulnerable ts =
      verdict (all (passes installed) ts) criterion vulnerable (first_reason installed ts)

  abbrev pub unless : Option Result → Result → Result
  unless none r = r
  unless (some x) r = x

  abbrev pub start_limit : Range → Option Limit
  start_limit r = limit r.start_including r.start_excluding

  abbrev pub end_limit : Range → Option Limit
  end_limit r = limit r.end_including r.end_excluding

  -- `_evaluate_version`, for a comparison of versions
  unfoldable pub evaluate_version : Option String → String → Range → String → Bool → Result
  unfolding run_tests tests
  evaluate_version installed exact r criterion vulnerable =
      if str_eq exact "-" || has_na r
      then unknown "CPE_VERSION_NA" "CPE version has NA semantics" (criterion ∷ [])
      else if has_duplicates r
      then unknown incomplete "NVD range contains duplicate bounds" (criterion ∷ [])
      else unless (check_bounds criterion (start_limit r) (end_limit r)) (
          if (str_eq exact "*" && not (has_limit (start_limit r)))
            && (not (has_limit (end_limit r)) && vulnerable)
          then unknown incomplete "Wildcard CPE version has no reliable affected-version range"
              (criterion ∷ [])
          else run_tests installed criterion vulnerable (tests r exact))
