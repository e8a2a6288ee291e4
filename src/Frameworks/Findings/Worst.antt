-- ===== src/Frameworks/Findings/Worst.antt =====
-- The status of a rule, by the findings it has.
use collector_security_analy.Common.{
  ◌≡◌, refl, ap, String, Bool, true, false, not, ◌&&◌, ◌||◌, Option, none, some, List, [], ◌∷◌,
  arith, any, all, str_eq, eq_iff, if◌then◌else◌, inl, inr, subst, Bool-cases,
}
use collector_security_analy.Common.Dict.{Dict, lookup, is_some, lookup-insert}
use collector_security_analy.Frameworks.{FindingStatus, error, Finding}
use collector_security_analy.Frameworks.Findings.{
  ok, and_then-ok, place, place_by, replace, collect, is_higher, findings_by_rule,
}
use collector_security_analy.Frameworks.Evaluator.{is_pass, is_fail, holds, passes, fails}

abbrev pub is_about : String → Finding → Bool
is_about rule f = str_eq f.rule_id rule

abbrev pub is_error : FindingStatus → Bool
is_error error = true
is_error _ = false

-- A finding of the rule with a status that passes a test
abbrev pub finds : (FindingStatus → Bool) → String → Finding → Bool
finds p rule f = is_about rule f && p f.status

-- All findings of the rule, of which there are some, are PASS.
abbrev pub all_pass : List Finding → String → Bool
all_pass fs rule = any (is_about rule) fs && all (λ f. not (is_about rule f) || is_pass f.status) fs

-- Some finding of the rule is FAIL or WARNING, and none is ERROR.
abbrev pub some_fail : List Finding → String → Bool
some_fail fs rule = any (finds is_fail rule) fs && not (any (finds is_error rule) fs)

higher-pass :
    (s t : FindingStatus) (b : Bool)
    → is_higher s t ≡ some b
    → is_pass (if b then s else t) ≡ (is_pass s && is_pass t)
higher-pass s t b h = ground (arith, h)

higher-fail :
    (s t : FindingStatus) (b : Bool)
    → is_higher s t ≡ some b
    → is_fail (if b then s else t) ≡ ((is_fail s || is_fail t) && not (is_error s || is_error t))
higher-fail s t b h = ground (arith, h)

higher-error :
    (s t : FindingStatus) (b : Bool)
    → is_higher s t ≡ some b
    → is_error (if b then s else t) ≡ (is_error s || is_error t)
higher-error s t b h = ground (arith, h)

-- The status of a rule before and after one finding of status `s`
abbrev pub IsMerged : FindingStatus → Option FindingStatus → Option FindingStatus → Type 0
IsMerged s none o = o ≡ some s
IsMerged s (some t) o = (b : Bool) × (is_higher s t ≡ some b) × (o ≡ some (if b then s else t))

replaced :
    (f : Finding) (d e : Dict FindingStatus) (t : FindingStatus) (higher : Option Bool)
    → lookup f.rule_id d ≡ some t
    → replace f d higher ≡ ok e
    → (b : Bool) × (higher ≡ some b) × (lookup f.rule_id e ≡ some (if b then f.status else t))
replaced f d e t none own h = cc h
replaced f d e t (some true) own h = (
  true,
  refl,
  ground (arith, h, lookup-insert f.rule_id f.rule_id f.status d, eq_iff f.rule_id f.rule_id),
)
replaced f d e t (some false) own h = (false, refl, ground (arith, h, own))

place_by-IsMerged :
    (f : Finding) (d e : Dict FindingStatus) (o : Option FindingStatus)
    → lookup f.rule_id d ≡ o
    → place_by f d o ≡ ok e
    → IsMerged f.status o (lookup f.rule_id e)
place_by-IsMerged f d e none own h =
    ground (arith, h, lookup-insert f.rule_id f.rule_id f.status d, eq_iff f.rule_id f.rule_id)
place_by-IsMerged f d e (some t) own h = replaced f d e t (is_higher f.status t) own h

pub place-IsMerged :
    (f : Finding) (d e : Dict FindingStatus)
    → place f d ≡ ok e
    → IsMerged f.status (lookup f.rule_id d) (lookup f.rule_id e)
unfolding place
place-IsMerged f d e h = place_by-IsMerged f d e (lookup f.rule_id d) refl h

place_by-other :
    (rule : String) (f : Finding) (d e : Dict FindingStatus) (o : Option FindingStatus)
    → is_about rule f ≡ false
    → place_by f d o ≡ ok e
    → lookup rule e ≡ lookup rule d
place_by-other rule f d e o other h =
    ground (arith, h, other, lookup-insert f.rule_id rule f.status d)

pub place-other :
    (rule : String) (f : Finding) (d e : Dict FindingStatus)
    → is_about rule f ≡ false
    → place f d ≡ ok e
    → lookup rule e ≡ lookup rule d
unfolding place
place-other rule f d e other h = place_by-other rule f d e (lookup f.rule_id d) other h

-- What a test says of a rule that has no findings yet
abbrev clean : Option FindingStatus → Bool
clean none = true
clean (some s) = is_pass s

merged-pass :
    (s : FindingStatus) (o p : Option FindingStatus)
    → IsMerged s o p
    → (is_some p ≡ true) × (clean p ≡ (is_pass s && clean o))
merged-pass s none p h = ground (arith, h)
merged-pass s (some t) p (b, higher, h) = ground (arith, h, higher-pass s t b higher)

merged-fail :
    (s : FindingStatus) (o p : Option FindingStatus)
    → IsMerged s o p
    → (holds is_error p ≡ (is_error s || holds is_error o))
      × (holds is_fail p ≡ ((is_fail s || holds is_fail o) && not (is_error s || holds is_error o)))
merged-fail s none p h = ground (arith, h)
merged-fail s (some t) p (b, higher, h) =
    ground (arith, h, higher-fail s t b higher, higher-error s t b higher)

-- All findings that were read, with what was known before, are PASS.
collect-pass :
    (rule : String) (fs : List Finding) (d e : Dict FindingStatus)
    → collect fs d ≡ ok e
    → (is_some (lookup rule e) ≡ (any (is_about rule) fs || is_some (lookup rule d)))
      × (clean (lookup rule e)
          ≡ (all (λ f. not (is_about rule f) || is_pass f.status) fs && clean (lookup rule d)))
unfolding collect
collect-pass rule [] d e h = ground (arith, h)
collect-pass rule (f ∷ fs) d e h =
    let step = and_then-ok (collect fs) (place f d) h in
    let ih = collect-pass rule fs step.0 e step.2 in
    elim (Bool-cases (is_about rule f)) [
      | inl own ↦
          let same : f.rule_id ≡ rule = ground (arith, own, eq_iff f.rule_id rule) in
          let merged =
            subst (λ r. IsMerged f.status (lookup r d) (lookup r step.0)) same
              (place-IsMerged f d step.0 step.1) in
          let m = merged-pass f.status (lookup rule d) (lookup rule step.0) merged in
          ground (arith, ih, own, m)
      | inr other ↦ ground (arith, ih, other, place-other rule f d step.0 other step.1)
    ]

fail_exclusive :
    (o : Option FindingStatus) → holds is_fail o ≡ (holds is_fail o && not (holds is_error o))
fail_exclusive none = refl
fail_exclusive (some s) = ground arith

-- One more finding, of the rule where `own`, before those that `fails` and `errors` speak of
fail_step :
    (own fail error fails errors failed erred mid_failed mid_erred last_failed last_erred : Bool)
    → own ≡ true
    → mid_erred ≡ (error || erred)
    → mid_failed ≡ ((fail || failed) && not (error || erred))
    → last_erred ≡ (errors || mid_erred)
    → last_failed ≡ ((fails || mid_failed) && not (errors || mid_erred))
    → (last_erred ≡ (((own && error) || errors) || erred))
      × (last_failed
          ≡ ((((own && fail) || fails) || failed) && not (((own && error) || errors) || erred)))
fail_step own a b x y u v mu mv lu lv h e f g k = ground (arith, h, e, f, g, k)

fail_other :
    (own fail error fails errors failed erred mid_failed mid_erred last_failed last_erred : Bool)
    → own ≡ false
    → mid_erred ≡ erred
    → mid_failed ≡ failed
    → last_erred ≡ (errors || mid_erred)
    → last_failed ≡ ((fails || mid_failed) && not (errors || mid_erred))
    → (last_erred ≡ (((own && error) || errors) || erred))
      × (last_failed
          ≡ ((((own && fail) || fails) || failed) && not (((own && error) || errors) || erred)))
fail_other own a b x y u v mu mv lu lv h e f g k = ground (arith, h, e, f, g, k)

collect-fail :
    (rule : String) (fs : List Finding) (d e : Dict FindingStatus)
    → collect fs d ≡ ok e
    → (holds is_error (lookup rule e)
        ≡ (any (finds is_error rule) fs || holds is_error (lookup rule d)))
      × (holds is_fail (lookup rule e) ≡ (
          (any (finds is_fail rule) fs || holds is_fail (lookup rule d))
          && not (any (finds is_error rule) fs || holds is_error (lookup rule d))))
unfolding collect
collect-fail rule [] d e h = ground (arith, h, fail_exclusive (lookup rule d))
collect-fail rule (f ∷ fs) d e h =
    let step = and_then-ok (collect fs) (place f d) h in
    let ih = collect-fail rule fs step.0 e step.2 in
    elim (Bool-cases (is_about rule f)) [
      | inl own ↦
          let same : f.rule_id ≡ rule = ground (arith, own, eq_iff f.rule_id rule) in
          let merged =
            subst (λ r. IsMerged f.status (lookup r d) (lookup r step.0)) same
              (place-IsMerged f d step.0 step.1) in
          let m = merged-fail f.status (lookup rule d) (lookup rule step.0) merged in
          fail_step (is_about rule f) (is_fail f.status) (is_error f.status)
            (any (finds is_fail rule) fs) (any (finds is_error rule) fs) _ _ _ _ _ _ own m.0 m.1
            ih.0 ih.1
      | inr other ↦
          let kept = place-other rule f d step.0 other step.1 in
          fail_other (is_about rule f) (is_fail f.status) (is_error f.status)
            (any (finds is_fail rule) fs) (any (finds is_error rule) fs) _ _ _ _ _ _ other
            (ap (holds is_error) kept) (ap (holds is_fail) kept) ih.0 ih.1
    ]

holds-clean : (o : Option FindingStatus) → holds is_pass o ≡ (is_some o && clean o)
holds-clean none = refl
holds-clean (some s) = refl

-- The status of a rule is PASS exactly where its findings, of which there are some, are all PASS.
pub findings_by_rule-passes :
    (rule : String) (fs : List Finding) (e : Dict FindingStatus)
    → findings_by_rule fs ≡ ok e
    → passes e rule ≡ all_pass fs rule
unfolding lookup
findings_by_rule-passes rule fs e h =
    ground (arith, collect-pass rule fs [] e h, holds-clean (lookup rule e))

-- The status of a rule is FAIL or WARNING exactly where some finding of it is, and none is ERROR.
pub findings_by_rule-fails :
    (rule : String) (fs : List Finding) (e : Dict FindingStatus)
    → findings_by_rule fs ≡ ok e
    → fails e rule ≡ some_fail fs rule
unfolding lookup
findings_by_rule-fails rule fs e h = ground (arith, collect-fail rule fs [] e h)
