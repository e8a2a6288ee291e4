-- ===== src/Cve/Status.antt =====
-- cve/status.py: the state of a CVE assessment, from the counts of its coverage.
pub mod Complete
pub mod Published
use collector_security_analy.Common.{
  ℕ, ◌-◌, ◌+◌, max, String, Bool, true, false, not, ◌&&◌, ◌||◌, Option, none, some, List, [], ◌∷◌,
  leb, ◌==◌, str_eq, any, all, contains, map, if◌then◌else◌,
}

-- An entry of `productEvaluations` that is a dictionary
pub record Row : Type 0 where
  pub eligibility_status : Option String
  pub terminal_status : Option String

-- An entry of `providerCoverage`
pub record Provider : Type 0 where
  pub provider : Option String
  pub status : Option String
  pub evaluation_coverage_status : Option String

-- The summary of an assessment. A count is `none` where the summary has no integer of at least 0
-- there; a row is `none` where it is no dictionary. Percentages are in tenths.
pub record Summary : Type 0 where
  pub status : Option String
  pub software_collection_status : Option String
  pub eligible : Option ℕ
  pub evaluated : Option ℕ
  pub scan_completed : Bool
  pub coverage_complete : Option Bool
  pub not_evaluated : ℕ
  pub unresolved : ℕ
  pub api_errors : ℕ
  pub rows : List (Option Row)
  pub providers : List Provider
  pub provider_status : Option String
  pub assessment_status : Option String
  pub reason : Option String
  pub scope : Option String
  pub coverage_percent : Option ℕ

-- `summary.get(key, t)`
abbrev pub get_or : Option String → String → String
get_or none t = t
get_or (some u) t = u

-- `u or summary.get(key, t)`
abbrev pub or_get : Option String → Option String → String → String
or_get none v t = get_or v t
or_get (some u) v t = if str_eq u "" then get_or v t else u

-- `WORKFLOW_STATES`
abbrev pub workflow_states : List String
workflow_states = "RUNNING" ∷ "FAILED" ∷ "CANCELLED" ∷ "SKIPPED" ∷ "NOT_PERFORMED" ∷ []

abbrev pub declared : Summary → Option String → String
declared s workflow = or_get workflow s.status "NOT_EVALUATED"

abbrev pub collection : Summary → Option String → String
collection s collection_status =
    or_get collection_status s.software_collection_status "NOT_EVALUATED"

-- `0 <= evaluated <= eligible`, for integers
abbrev pub counts : Option ℕ → Option ℕ → Option (ℕ × ℕ)
counts (some eligible) (some evaluated) =
    if leb evaluated eligible then some (eligible, evaluated) else none
counts _ _ = none

abbrev pub opt_is : Option String → String → Bool
opt_is none t = false
opt_is (some u) t = str_eq u t

-- An eligible product whose evaluation did not complete, or an entry that is no dictionary
abbrev pub is_open_row : Option Row → Bool
is_open_row none = true
is_open_row (some r) =
    opt_is r.eligibility_status "ELIGIBLE" && not (opt_is r.terminal_status "COMPLETED")

abbrev pub is_partial_row : Option Row → Bool
is_partial_row none = false
is_partial_row (some r) = opt_is r.terminal_status "PARTIAL"

abbrev pub is_false : Option Bool → Bool
is_false (some false) = true
is_false _ = false

abbrev pub is_unresolved : Summary → ℕ → ℕ → Bool
is_unresolved s eligible evaluated =
    (not (evaluated == eligible) || is_false s.coverage_complete)
    || (not (s.not_evaluated + s.unresolved + s.api_errors == 0) || any is_open_row s.rows)

-- `"PARTIAL" if … else "NOT_EVALUATED"`
abbrev pub partial_if : Bool → String
partial_if b = if b then "PARTIAL" else "NOT_EVALUATED"

-- The returns of `_decision` after its counts, from the tests that it makes: the collection was SUCCESS,
-- or PARTIAL; no product is eligible; the scan completed; an evaluation is unresolved; a product was
-- evaluated; a product was evaluated or an evaluation is partial.
abbrev pub outcome : Bool → Bool → Bool → Bool → Bool → Bool → Bool → String × String
outcome success partial empty scanned unresolved evaluated progress =
    if not (success || partial)
    then ("NOT_EVALUATED", "SOFTWARE_COLLECTION_INCOMPLETE")
    else if empty
    then ("NOT_EVALUATED", "NO_ELIGIBLE_PRODUCTS")
    else if not scanned
    then (partial_if evaluated, "SCAN_NOT_COMPLETED")
    else if success && not unresolved
    then ("COMPLETE", "EVALUATION_COMPLETED")
    else (
      partial_if progress,
      if not success
          then "SOFTWARE_COLLECTION_INCOMPLETE"
          else if progress
          then "ELIGIBLE_EVALUATIONS_UNRESOLVED"
          else "NO_PRODUCTS_EVALUATED",
    )

-- `_decision` where the eligible and evaluated products are counted.
unfoldable pub decide_counts : Summary → String → ℕ → ℕ → String × String
decide_counts s found eligible evaluated =
    let some_evaluated = not (evaluated == 0) in
    outcome (str_eq found "SUCCESS") (str_eq found "PARTIAL") (eligible == 0) s.scan_completed
      (is_unresolved s eligible evaluated) some_evaluated
      (some_evaluated || any is_partial_row s.rows)

-- `_decision`
unfoldable pub decision : Summary → Option String → Option String → String × String
unfolding decide_counts
decision s collection_status workflow =
    if contains (declared s workflow) workflow_states
    then (declared s workflow, declared s workflow)
    else elim (counts s.eligible s.evaluated) [
      | none ↦ ("NOT_EVALUATED", "INVALID_EVALUATION_COUNTS")
      | some c ↦ decide_counts s (collection s collection_status) c.0 c.1
    ]

-- `assessment_status`
unfoldable pub assessment_status : Summary → Option String → Option String → String
unfolding decision
assessment_status s collection_status workflow = (decision s collection_status workflow).0

-- `assessmentScope`
abbrev pub scope_of : Option ℕ → String
scope_of none = "UNKNOWN"
scope_of (some n) = if n == 0 then "EMPTY" else "ELIGIBLE_PRODUCTS"

abbrev pub is_nvd : Provider → Bool
is_nvd p = opt_is p.provider "NVD"

abbrev pub with_coverage : String → Provider → Provider
with_coverage status p =
    if is_nvd p then record p { evaluation_coverage_status = some status } else p

-- The status of the first NVD row
unfoldable pub nvd_status : List Provider → String
nvd_status [] = "NOT_EVALUATED"
nvd_status (p ∷ ps) = if is_nvd p then get_or p.status "NOT_EVALUATED" else nvd_status ps

-- `if collection_status: …`
abbrev pub set_collection : Option String → Option String → Option String
set_collection none old = old
set_collection (some c) old = if str_eq c "" then old else some c

abbrev pub set_provider_status : Option String → List Provider → Option String
set_provider_status none ps = some (nvd_status ps)
set_provider_status (some t) ps = some t

-- `round(evaluated * 100.0 / eligible, 1)`, in tenths, is a parameter.
module _ (percent : ℕ → ℕ → ℕ) where
  abbrev pub publish : Bool → ℕ → Option ℕ
  publish complete p = if p == 1000 && not complete then none else some p

  -- The published percentage
  abbrev pub coverage_of : Bool → Option (ℕ × ℕ) → Option ℕ
  coverage_of complete none = some 0
  coverage_of complete (some (eligible, evaluated)) =
      publish complete (if eligible == 0 then 0 else percent eligible evaluated)

  abbrev pub missing_products : Option (ℕ × ℕ) → ℕ → ℕ
  missing_products none old = old
  missing_products (some (eligible, evaluated)) old = max (eligible - evaluated) old

  -- `normalize_metadata`
  unfoldable pub normalize_metadata : Summary → Option String → Option String → Summary
  unfolding decision nvd_status
  normalize_metadata s collection_status workflow =
      let d = decision s collection_status workflow in
      let complete = str_eq d.0 "COMPLETE" in
      let counted = counts s.eligible s.evaluated in
      let providers = map (with_coverage d.0) s.providers in
      record s {
        status = some d.0;
        assessment_status = some d.0;
        reason = some d.1;
        coverage_complete = some complete;
        software_collection_status = set_collection collection_status s.software_collection_status;
        scope = some (scope_of s.eligible);
        not_evaluated = missing_products counted s.not_evaluated;
        coverage_percent = coverage_of complete counted;
        providers = providers;
        provider_status = set_provider_status s.provider_status providers;
      }

-- `aggregate_statuses`, on the set of the states
unfoldable pub aggregate_statuses : List String → String
aggregate_statuses [] = "NOT_EVALUATED"
aggregate_statuses (x ∷ xs) =
    if contains "RUNNING" (x ∷ xs) then "RUNNING" else if all (str_eq x) xs then x else "PARTIAL"
