-- ===== src/Cve/Status/Complete.antt =====
-- When an assessment is complete.
use collector_security_analy.Common.{
  ℕ, ◌≡◌, ◌<◌, ◌↔◌, refl, String, Bool, true, false, not, ◌||◌, ◌==◌, Option, none, some, arith,
  eq_iff, any, contains, str_eq, Option-cases, Bool-cases, subst, sym, inl, inr, ap, ◌∙◌,
}
use collector_security_analy.Cve.Status.{
  Summary, decision, assessment_status, decide_counts, declared, collection, counts, is_open_row,
  is_false, workflow_states, is_unresolved, outcome, partial_if, is_partial_row,
}

-- What a complete assessment has established.
pub record IsComplete (s : Summary) (collection_status workflow : Option String) : Type 0 where
  pub settled : contains (declared s workflow) workflow_states ≡ false
  pub collected : collection s collection_status ≡ "SUCCESS"
  pub products : ℕ
  pub some_product : 0 < products
  pub eligible : s.eligible ≡ some products
  pub evaluated : s.evaluated ≡ some products
  pub scanned : s.scan_completed ≡ true
  pub covered : is_false s.coverage_complete ≡ false
  pub none_missing : s.not_evaluated ≡ 0
  pub none_unresolved : s.unresolved ≡ 0
  pub no_errors : s.api_errors ≡ 0
  pub rows : any is_open_row s.rows ≡ false

workflow_not_complete :
    (t : String) → contains t workflow_states ≡ true → str_eq t "COMPLETE" ≡ false
workflow_not_complete t h = elim (Bool-cases (str_eq t "COMPLETE")) [
  | inl hit ↦ absurd (
      ground
        (arith, subst (λ t. contains t workflow_states ≡ true) ((eq_iff t "COMPLETE").0 hit) h))
  | inr miss ↦ miss
]

counts-some : (e v : Option ℕ) (c : ℕ × ℕ) → counts e v ≡ some c → (e ≡ some c.0) × (v ≡ some c.1)
counts-some (some a) (some b) c h = ground (arith, h)
counts-some none v c h = absurd (ground (arith, h))
counts-some (some a) none c h = absurd (ground (arith, h))

partial_not_complete : (b : Bool) → str_eq (partial_if b) "COMPLETE" ≡ false
partial_not_complete true = refl
partial_not_complete false = refl

outcome_complete :
    (success partial empty scanned unresolved evaluated progress : Bool)
    → str_eq (outcome success partial empty scanned unresolved evaluated progress).0 "COMPLETE"
      ≡ true
    → (success ≡ true) × (empty ≡ false) × (scanned ≡ true) × (unresolved ≡ false)
outcome_complete false false z c u e g h = absurd (ground (arith, h))
outcome_complete true p true c u e g h = absurd (ground (arith, h))
outcome_complete false true true c u e g h = absurd (ground (arith, h))
outcome_complete true p false false u e g h = absurd (ground (arith, h, partial_not_complete e))
outcome_complete false true false false u e g h = absurd (ground (arith, h, partial_not_complete e))
outcome_complete true p false true true e g h = absurd (ground (arith, h, partial_not_complete g))
outcome_complete false true false true u e g h = absurd (ground (arith, h, partial_not_complete g))
outcome_complete true p false true false e g h = (refl, refl, refl, refl)

decide_counts_complete :
    (s : Summary) (found : String) (a b : ℕ)
    → str_eq (decide_counts s found a b).0 "COMPLETE" ≡ true
    → (str_eq found "SUCCESS" ≡ true)
      × (0 < a)
      × (s.scan_completed ≡ true)
      × (is_unresolved s a b ≡ false)
unfolding decide_counts
decide_counts_complete s found a b h =
    let some_evaluated = not (b == 0) in
    let o =
      outcome_complete (str_eq found "SUCCESS") (str_eq found "PARTIAL") (a == 0) s.scan_completed
        (is_unresolved s a b) some_evaluated (some_evaluated || any is_partial_row s.rows) h in
    (o.0, ground (arith, o.1), o.2, o.3)

-- The two branches of `decision`
decision-flow :
    (s : Summary) (c w : Option String)
    → contains (declared s w) workflow_states ≡ true
    → (decision s c w).0 ≡ declared s w
unfolding decision
decision-flow s c w flow = rw flow

decision-counted :
    (s : Summary) (c w : Option String) (n : ℕ × ℕ)
    → contains (declared s w) workflow_states ≡ false
    → counts s.eligible s.evaluated ≡ some n
    → decision s c w ≡ decide_counts s (collection s c) n.0 n.1
unfolding decision
decision-counted s c w n settled counted = rw (settled, counted)

decision-uncounted :
    (s : Summary) (c w : Option String)
    → contains (declared s w) workflow_states ≡ false
    → counts s.eligible s.evaluated ≡ none
    → decision s c w ≡ ("NOT_EVALUATED", "INVALID_EVALUATION_COUNTS")
unfolding decision
decision-uncounted s c w settled bad = rw (settled, bad)

decision-IsComplete :
    (s : Summary) (c w : Option String) → (decision s c w).0 ≡ "COMPLETE" → IsComplete s c w
decision-IsComplete s c w h = elim (Bool-cases (contains (declared s w) workflow_states)) [
  | inl flow ↦ absurd (
      ground (
        arith,
        workflow_not_complete (declared s w) flow,
        (eq_iff (declared s w) "COMPLETE"),
        sym (decision-flow s c w flow) ∙ h,
      ))
  | inr settled ↦ elim (Option-cases (counts s.eligible s.evaluated)) [
    | inl bad ↦ absurd (
        ground (
          arith,
          sym (ap (λ d. d.0) (decision-uncounted s c w settled bad)) ∙ h,
          eq_iff "NOT_EVALUATED" "COMPLETE",
        ))
    | inr (n, counted) ↦
        let d = decide_counts_complete s (collection s c) n.0 n.1 (
          (eq_iff (decide_counts s (collection s c) n.0 n.1).0 "COMPLETE").1
            (sym (ap (λ d. d.0) (decision-counted s c w n settled counted)) ∙ h)) in
        let k = counts-some s.eligible s.evaluated n counted in
        let same : n.0 ≡ n.1 = ground (arith, d.3) in
        record {
          settled = settled;
          collected = (eq_iff (collection s c) "SUCCESS").0 d.0;
          products = n.0;
          some_product = d.1;
          eligible = k.0;
          evaluated = k.1 ∙ ap some (sym same);
          scanned = d.2;
          covered = ground (arith, d.3);
          none_missing = ground (arith, d.3);
          none_unresolved = ground (arith, d.3);
          no_errors = ground (arith, d.3);
          rows = ground (arith, d.3);
        }
  ]
]

decide_counts-covered :
    (s : Summary) (found : String) (n : ℕ)
    → str_eq found "SUCCESS" ≡ true
    → 0 < n
    → s.scan_completed ≡ true
    → is_unresolved s n n ≡ false
    → (decide_counts s found n n).0 ≡ "COMPLETE"
unfolding decide_counts
decide_counts-covered s found n success some_product scanned resolved =
    let one : (n == 0) ≡ false = ground arith in rw (success, one, scanned, resolved)

IsComplete-decision :
    (s : Summary) (c w : Option String) → IsComplete s c w → (decision s c w).0 ≡ "COMPLETE"
IsComplete-decision s c w x =
    let counted : counts s.eligible s.evaluated ≡ some (x.products, x.products) =
      rw (x.eligible, x.evaluated) (ground arith) in
    let resolved : is_unresolved s x.products x.products ≡ false =
      ground (arith, x.covered, x.none_missing, x.none_unresolved, x.no_errors, x.rows) in
    ap (λ d. d.0) (decision-counted s c w (x.products, x.products) x.settled counted)
    ∙ decide_counts-covered s (collection s c) x.products
        ((eq_iff (collection s c) "SUCCESS").1 x.collected) x.some_product x.scanned resolved

-- An assessment is COMPLETE exactly where no workflow state is declared, the software collection was a
-- success, all of at least one eligible product was evaluated, the scan completed, coverage is not
-- denied, no product is missing, no evaluation is unresolved, no request failed, and every row of an
-- eligible product completed.
pub IsComplete-iff :
    (s : Summary) (c w : Option String) → (assessment_status s c w ≡ "COMPLETE") ↔ IsComplete s c w
unfolding assessment_status
IsComplete-iff s c w = (decision-IsComplete s c w, IsComplete-decision s c w)
