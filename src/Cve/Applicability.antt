-- ===== src/Cve/Applicability.antt =====
-- cve/applicability.py: the evaluation of NVD configurations. How a criterion is matched to a product and an
-- environment gives the results of the leaves.
pub mod Sound
use collector_security_analy.Common.{
  ℕ, String, Bool, true, false, not, ◌&&◌, ◌||◌, Option, none, some, List, [], ◌∷◌, ◌++◌, str_eq,
  ltb, any, all, keep, if◌then◌else◌,
}

-- `ApplicabilityStatus`
pub data Status : Type 0 where
  affected not_affected possibly_affected not_evaluated : Status

-- `EvaluationResult`
pub record Result : Type 0 where
  pub status : Status
  pub reason : String
  pub confidence : ℕ
  pub criteria : List String
  pub has_vulnerable_match : Bool
  pub reason_code : String

-- `_unknown`
abbrev pub unknown : String → String → List String → Result
unknown code reason criteria = record {
  status = not_evaluated;
  reason = reason;
  confidence = 30;
  criteria = criteria;
  has_vulnerable_match = false;
  reason_code = code;
}

-- `_excluded`
abbrev pub ruled_out : String → String → String → Result
ruled_out code reason criterion = record {
  status = not_affected;
  reason = reason;
  confidence = 90;
  criteria = criterion ∷ [];
  has_vulnerable_match = false;
  reason_code = code;
}

abbrev pub is_affected : Result → Bool
is_affected r = elim r.status [ affected ↦ true | _ ↦ false ]

abbrev pub is_not_affected : Result → Bool
is_not_affected r = elim r.status [ not_affected ↦ true | _ ↦ false ]

abbrev pub is_not_evaluated : Result → Bool
is_not_evaluated r = elim r.status [ not_evaluated ↦ true | _ ↦ false ]

abbrev pub is_vulnerable : Result → Bool
is_vulnerable r = is_affected r && r.has_vulnerable_match

-- `next((item for item in results if p(item)), None)`
unfoldable pub first_of : (Result → Bool) → List Result → Option Result
first_of p [] = none
first_of p (r ∷ rs) = if p r then some r else first_of p rs

abbrev pub incomplete : String
incomplete = "APPLICABILITY_INCOMPLETE"

unfoldable pub all_criteria : List Result → List String
all_criteria [] = []
all_criteria (r ∷ rs) = r.criteria ++ all_criteria rs

-- The last return of `_combine`, for the results that are affected. The source reads the first one: there is
-- one, since no match is evaluated to POSSIBLY_AFFECTED.
abbrev pub joined : List Result → Result
joined [] = unknown incomplete "" []
joined (r ∷ rs) = record {
  status = affected;
  reason = r.reason;
  confidence = 95;
  criteria = all_criteria (r ∷ rs);
  has_vulnerable_match = any (λ (x : Result). x.has_vulnerable_match) (r ∷ rs);
  reason_code = r.reason_code;
}

abbrev put : String → String → String
put String.[] t = t
put (String.◌∷◌ c s) t = String.◌∷◌ c (put s t)

-- `_combine("AND", …)`, of at least one result
abbrev pub unresolved : List Result → Option Result → Result
unresolved rs none = joined rs
unresolved rs (some u) =
    unknown u.reason_code (put "AND constraint unresolved: " u.reason) u.criteria

abbrev pub or_else : Option Result → Result → Result
or_else none r = r
or_else (some x) r = x

unfoldable pub combine_and : Result → List Result → Result
unfolding first_of all_criteria
combine_and r rs =
    or_else (first_of is_not_affected (r ∷ rs))
      (unresolved (r ∷ rs) (first_of (λ x. not (is_affected x)) (r ∷ rs)))

abbrev pub is_nil : List Result → Bool
is_nil [] = true
is_nil (_ ∷ _) = false

-- `_combine("OR", …)`, of at least one result
unfoldable pub combine_or : Result → List Result → Result
unfolding first_of all_criteria
combine_or r rs =
    let vulnerable = keep is_vulnerable (r ∷ rs) in
    if not (is_nil vulnerable)
    then joined vulnerable
    else or_else (first_of is_not_evaluated (r ∷ rs))
        (if all is_not_affected (r ∷ rs) then r else joined (keep is_affected (r ∷ rs)))

pub data Operator : Type 0 where
  and_ or_ : Operator

-- `_combine`
unfoldable pub combine : Operator → List Result → Result
unfolding combine_and combine_or
combine op [] = unknown incomplete "NVD configuration has no evaluable criteria" []
combine and_ (r ∷ rs) = combine_and r rs
combine or_ (r ∷ rs) = combine_or r rs

-- A node of a configuration: `invalid` is one that is no dictionary or is negated; a node has its operator,
-- `none` if it is neither AND nor OR, whether its lists are lists, its nodes and children, and the
-- results of its criteria.
mutual
  pub data Node : Type 0 where
    invalid : Node
    node : Option Operator → Bool → Nodes → List Result → Node

  pub data Nodes : Type 0 where
    nil : Nodes
    cons : Node → Nodes → Nodes

-- `_evaluate_node`
unfoldable mutual
  unfolding combine

  pub evaluate_node : Node → Result
  evaluate_node invalid = unknown incomplete "Invalid or negated NVD applicability node" []
  evaluate_node (node none lists ns ms) =
      unknown incomplete "Unsupported NVD applicability operator" []
  evaluate_node (node (some op) false ns ms) =
      unknown incomplete "Malformed NVD applicability criteria" []
  evaluate_node (node (some op) true ns ms) = combine op (evaluate_nodes ns ++ ms)

  pub evaluate_nodes : Nodes → List Result
  evaluate_nodes nil = []
  evaluate_nodes (cons n ns) = evaluate_node n ∷ evaluate_nodes ns

-- `_combine("OR", …)` of the configurations, and what follows it
unfoldable pub evaluate_configurations : Nodes → Result
unfolding combine evaluate_node
evaluate_configurations ns =
    let r = combine or_ (evaluate_nodes ns) in
    if is_affected r && not r.has_vulnerable_match
    then unknown incomplete "CVE configuration contains no confirmed vulnerable software criteria"
        r.criteria
    else r

-- What `evaluate_applicability_result` reads of a product, a candidate and a record
pub record Case : Type 0 where
  pub is_deprecated : Bool
  pub is_unmatched : Bool
  pub confidence : ℕ
  pub is_parsed : Bool
  pub version_reason : Option String
  pub is_rejected : Bool
  pub has_no_id : Bool
  pub configurations : Nodes

abbrev pub is_uncertain : Case → Bool
is_uncertain c = ((c.is_deprecated || c.is_unmatched) || ltb c.confidence 80) || not c.is_parsed

-- `version.reason` is truthy.
abbrev pub stated : Option String → Option String
stated none = none
stated (some t) = if str_eq t "" then none else some t

abbrev pub or_no_version : Option String → Result → Result
or_no_version none r = r
or_no_version (some t) r = unknown t "Installed version evidence could not be established" []

abbrev pub is_empty : Nodes → Bool
is_empty nil = true
is_empty (cons _ _) = false

-- `evaluate_applicability_result`
unfoldable pub evaluate_applicability_result : Case → Result
unfolding evaluate_configurations
evaluate_applicability_result c =
    let r = evaluate_configurations c.configurations in
    if is_uncertain c
    then unknown "MISSING_AUTHORITATIVE_PRODUCT_MAPPING" "CPE product identity is uncertain" []
    else or_no_version (stated c.version_reason) (
        if is_empty c.configurations
        then unknown incomplete "NVD record has no applicability configuration" []
        else if c.is_rejected || c.has_no_id
        then unknown incomplete "NVD record has no active CVE identity" []
        else r)
