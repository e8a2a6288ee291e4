-- ===== src/Compliance/Evaluator/Decisions.antt =====
-- When a control is compliant, and when it is not.
use collector_security_analy.Common.{
  ℕ, ◌≡◌, ◌≢◌, ◌↔◌, refl, ◌∙◌, Bool, true, false, not, ◌&&◌, ◌||◌, List, [], ◌∷◌, arith, ltb,
  length, any, all, keep, map, if◌then◌else◌, Bool-cases, inl, inr, is_empty,
}
use collector_security_analy.Compliance.{ComplianceStatus, Control, Evidence, Profile, Assessment}
use collector_security_analy.Compliance.Evaluator.{
  Sources, is_applicable, is_mandatory, extract, assessment, decide, evaluate_control, is_supports,
  is_contradicts, is_missing, is_inconclusive, is_unvalidated, is_sure, is_organisation,
  only_organisation, has_relationship, is_partial, is_context,
}

-- Evidence that makes a control compliant: some of it is mandatory, all mandatory records support it with
-- enough confidence, no record contradicts it, no mapping is unvalidated, partial or for context, and
-- no optional record is missing or inconclusive.
pub record IsConvincing (minimum : ℕ) (c : Control) (es : List Evidence) : Type 0 where
  pub some_mandatory : is_empty (keep (is_mandatory c) es) ≡ false
  pub supported : all (is_sure minimum is_supports) (keep (is_mandatory c) es) ≡ true
  pub uncontradicted : any (λ e. is_contradicts e.result) es ≡ false
  pub validated : any is_unvalidated es ≡ false
  pub no_partial : any (has_relationship is_partial) es ≡ false
  pub no_context : any (has_relationship is_context) es ≡ false
  pub optional_complete :
      any (λ e. (is_missing e.result || is_inconclusive e.result) && not (is_mandatory c e)) es
      ≡ false
  pub in_scope : (any is_organisation c.scope && ltb 1 (length c.scope)) ≡ false

-- Mandatory records that support, where there are any, are records that support.
mandatory-supports :
    (minimum : ℕ) (c : Control) (es : List Evidence)
    → is_empty (keep (is_mandatory c) es) ≡ false
    → all (is_sure minimum is_supports) (keep (is_mandatory c) es) ≡ true
    → any (λ e. is_supports e.result) es ≡ true
mandatory-supports minimum c [] h k = absurd (ground (arith, h))
mandatory-supports minimum c (e ∷ es) h k = elim (Bool-cases (is_mandatory c e)) [
  | inl hit ↦ ground (arith, hit, h, k)
  | inr miss ↦
      ground
        (arith, mandatory-supports minimum c es (ground (arith, miss, h)) (ground (arith, miss, k)))
]

decide-IsConvincing :
    (minimum : ℕ) (c : Control) (es : List Evidence)
    → (decide minimum c es).status ≡ ComplianceStatus.compliant
    → IsConvincing minimum c es
unfolding decide assessment
decide-IsConvincing minimum c es h =
    let mandatory : is_empty (keep (is_mandatory c) es) ≡ false = ground (arith, h) in
    let sure : all (is_sure minimum is_supports) (keep (is_mandatory c) es) ≡ true =
      ground (arith, h) in
    let supported = mandatory-supports minimum c es mandatory sure in
    record {
      some_mandatory = mandatory;
      supported = sure;
      uncontradicted = ground (arith, h, supported);
      validated = ground (arith, h);
      no_partial = ground (arith, h);
      no_context = ground (arith, h);
      optional_complete = ground (arith, h);
      in_scope = ground (arith, h);
    }

none-contradicts :
    (minimum : ℕ) (c : Control) (es : List Evidence)
    → any (λ e. is_contradicts e.result) es ≡ false
    → any (is_sure minimum is_contradicts) (keep (is_mandatory c) es) ≡ false
none-contradicts minimum c [] h = refl
none-contradicts minimum c (e ∷ es) h = ground (arith, h, none-contradicts minimum c es)

IsConvincing-decide :
    (minimum : ℕ) (c : Control) (es : List Evidence)
    → IsConvincing minimum c es
    → (decide minimum c es).status ≡ ComplianceStatus.compliant
unfolding decide assessment
IsConvincing-decide minimum c es x = ground (
  arith,
  none-contradicts minimum c es x.uncontradicted,
  x.some_mandatory,
  x.supported,
  x.uncontradicted,
  x.validated,
  x.no_partial,
  x.no_context,
  x.optional_complete,
  x.in_scope,
)

decide-non_compliant :
    (minimum : ℕ) (c : Control) (es : List Evidence)
    → ((decide minimum c es).status ≡ ComplianceStatus.non_compliant)
      ↔ (any (is_sure minimum is_contradicts) (keep (is_mandatory c) es) ≡ true)
unfolding decide assessment
decide-non_compliant minimum c es = ground arith

-- The gates of `evaluate_control`
gated :
    (a o n : Bool) (x y z d : Assessment) (st : ComplianceStatus)
    → x.status ≢ st
    → y.status ≢ st
    → z.status ≢ st
    → (if not a then x else if o then y else if n then z else d).status ≡ st
    → (a ≡ true) × (o ≡ false) × (n ≡ false) × (d.status ≡ st)
gated false o n x y z d st nx ny nz h = absurd (nx h)
gated true true n x y z d st nx ny nz h = absurd (ny h)
gated true false true x y z d st nx ny nz h = absurd (nz h)
gated true false false x y z d st nx ny nz h = (refl, refl, refl, h)

ungated :
    (a o n : Bool) (x y z d : Assessment)
    → a ≡ true
    → o ≡ false
    → n ≡ false
    → (if not a then x else if o then y else if n then z else d).status ≡ d.status
ungated true false false x y z d ea eo en = refl
ungated false o n x y z d ea eo en = absurd (ground (arith, ea))
ungated true true n x y z d ea eo en = absurd (ground (arith, eo))
ungated true false true x y z d ea eo en = absurd (ground (arith, en))

module _ (minimum : ℕ) (s : Sources) (c : Control) (p : Profile) where
  -- The control is evaluated on its evidence.
  abbrev pub IsEvaluated : Type 0
  IsEvaluated =
      (is_applicable c p ≡ true)
      × (only_organisation c.scope ≡ false)
      × ((c.alternative && is_empty c.requirements) ≡ false)

  evaluated :
      (st : ComplianceStatus)
      → ComplianceStatus.not_applicable ≢ st
      → ComplianceStatus.not_assessed ≢ st
      → ComplianceStatus.manual_review ≢ st
      → (evaluate_control minimum s c p).status ≡ st
      → IsEvaluated × ((decide minimum c (map (extract s) c.requirements)).status ≡ st)
  unfolding evaluate_control assessment
  evaluated st nx ny nz h =
      let g =
        gated (is_applicable c p) (only_organisation c.scope)
          (c.alternative && is_empty c.requirements) _ _ _
          (decide minimum c (map (extract s) c.requirements)) st nx ny nz h in
      ((g.0, g.1, g.2), g.3)

  evaluates :
      IsEvaluated
      → (evaluate_control minimum s c p).status
        ≡ (decide minimum c (map (extract s) c.requirements)).status
  unfolding evaluate_control assessment
  evaluates e =
      ungated (is_applicable c p) (only_organisation c.scope)
        (c.alternative && is_empty c.requirements) _ _ _
        (decide minimum c (map (extract s) c.requirements)) e.0 e.1 e.2

  -- A control is found COMPLIANT exactly where it applies, its scope is not the organisation alone, it is
  -- no alternative measure without requirements, and its evidence is convincing.
  pub compliant_iff :
      ((evaluate_control minimum s c p).status ≡ ComplianceStatus.compliant)
      ↔ (IsEvaluated × IsConvincing minimum c (map (extract s) c.requirements))
  compliant_iff = (
    λ h.
        let e =
          evaluated ComplianceStatus.compliant (λ x. ground (arith, x)) (λ x. ground (arith, x))
            (λ x. ground (arith, x)) h in
        (e.0, decide-IsConvincing minimum c (map (extract s) c.requirements) e.1),
    λ x. evaluates x.0 ∙ IsConvincing-decide minimum c (map (extract s) c.requirements) x.1,
  )

  -- A control is found NON_COMPLIANT exactly where it is evaluated and a mandatory record contradicts it with
  -- at least the minimum confidence, whatever the other records say.
  pub non_compliant_iff :
      ((evaluate_control minimum s c p).status ≡ ComplianceStatus.non_compliant) ↔ (
        IsEvaluated
        × (any
              (is_sure minimum is_contradicts)
              (keep (is_mandatory c) (map (extract s) c.requirements))
            ≡ true))
  non_compliant_iff =
      let d = decide-non_compliant minimum c (map (extract s) c.requirements) in
      (
        λ h.
            let e =
              evaluated ComplianceStatus.non_compliant (λ x. ground (arith, x))
                (λ x. ground (arith, x)) (λ x. ground (arith, x)) h in
            (e.0, d.0 e.1),
        λ x. evaluates x.0 ∙ d.1 x.1,
      )
