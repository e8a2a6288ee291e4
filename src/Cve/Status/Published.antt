-- ===== src/Cve/Status/Published.antt =====
-- What the normalized metadata publishes, and the status of several assessments.
use collector_security_analy.Common.{
  ℕ, ◌≡◌, ◌↔◌, refl, sym, ap, String, Bool, true, false, ◌==◌, Option, none, some, List, [], ◌∷◌,
  arith, eq_iff, all, contains, str_eq, Bool-cases, inl, inr, if◌then◌else◌, subst,
}
use collector_security_analy.Cve.Status.{
  Summary, decision, counts, normalize_metadata, publish, coverage_of, aggregate_statuses,
  assessment_status,
}

module _ (percent : ℕ → ℕ → ℕ) where
  publish-full :
      (complete : Bool) (p : ℕ) → publish percent complete p ≡ some 1000 → complete ≡ true
  publish-full true p h = refl
  publish-full false p h = absurd (ground (arith, h))

  coverage_of-full :
      (complete : Bool) (c : Option (ℕ × ℕ))
      → coverage_of percent complete c ≡ some 1000
      → complete ≡ true
  coverage_of-full complete none h = absurd (ground (arith, h))
  coverage_of-full complete (some (a, b)) h =
      publish-full complete (if a == 0 then 0 else percent a b) h

  -- However percentages are rounded, the metadata publish a coverage of 100 percent only for an
  -- assessment that is COMPLETE, and they call the coverage complete exactly then.
  pub full_coverage_complete :
      (s : Summary) (c w : Option String)
      → ((normalize_metadata percent s c w).coverage_percent ≡ some 1000
          → assessment_status s c w ≡ "COMPLETE")
        × (((normalize_metadata percent s c w).coverage_complete ≡ some true)
            ↔ (assessment_status s c w ≡ "COMPLETE"))
  unfolding normalize_metadata assessment_status
  full_coverage_complete s c w =
      let d = (decision s c w).0 in
      (
        λ h.
            (eq_iff d "COMPLETE").0
              (coverage_of-full (str_eq d "COMPLETE") (counts s.eligible s.evaluated) h),
        (
          λ h. (eq_iff d "COMPLETE").0 (ground (arith, h)),
          λ h. ap some ((eq_iff d "COMPLETE").1 h),
        ),
      )

all-contains :
    (x t : String) (xs : List String) → all (str_eq x) xs ≡ true → contains t xs ≡ true → x ≡ t
all-contains x t [] h k = absurd (ground (arith, k))
all-contains x t (y ∷ xs) h k = elim (Bool-cases (str_eq t y)) [
  | inl hit ↦ ground (arith, h, hit, eq_iff x y, eq_iff t y)
  | inr miss ↦ all-contains x t xs (ground (arith, h)) (ground (arith, k, miss))
]

-- Several assessments are RUNNING where one is, NOT_EVALUATED where there is none, and otherwise have
-- the status that all of them share, or PARTIAL.
aggregate_cases :
    (t : String) (xs : List String)
    → (contains "RUNNING" xs ≡ true → aggregate_statuses xs ≡ "RUNNING")
      × (contains t xs ≡ true → all (str_eq t) xs ≡ true → aggregate_statuses xs ≡ t)
      × (aggregate_statuses xs ≡ "COMPLETE" → all (str_eq "COMPLETE") xs ≡ true)
unfolding aggregate_statuses
aggregate_cases t [] = (λ h. absurd (ground (arith, h)), λ h. absurd (ground (arith, h)), λ h. refl)
aggregate_cases t (x ∷ xs) = (
  λ h. ground (arith, h),
  λ h k. elim (Bool-cases (contains "RUNNING" (x ∷ xs))) [
    | inl running ↦
        let same : t ≡ "RUNNING" = all-contains t "RUNNING" (x ∷ xs) k running in
        ground (arith, running, same)
    | inr quiet ↦
        let same : x ≡ t = ground (arith, k, eq_iff t x) in
        let rest : all (str_eq x) xs ≡ true =
          subst (λ u. all (str_eq u) xs ≡ true) (sym same) (ground (arith, k)) in
        ground (arith, quiet, same, rest)
  ],
  λ h. elim (Bool-cases (contains "RUNNING" (x ∷ xs))) [
    | inl running ↦ absurd (ground (arith, h, running, eq_iff "RUNNING" "COMPLETE"))
    | inr quiet ↦ elim (Bool-cases (all (str_eq x) xs)) [
      | inl rest ↦
          let same : x ≡ "COMPLETE" = ground (arith, h, quiet, rest) in
          let shared : all (str_eq "COMPLETE") xs ≡ true =
            subst (λ u. all (str_eq u) xs ≡ true) same rest in
          ground (arith, shared, same, eq_iff "COMPLETE" x)
      | inr mixed ↦ absurd (ground (arith, h, quiet, mixed, eq_iff "PARTIAL" "COMPLETE"))
    ]
  ],
)
