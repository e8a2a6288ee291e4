-- ===== src/Cve/Range/Inside.antt =====
-- The versions that a criterion affects are those that its bounds admit.
use collector_security_analy.Common.{
  ◌≡◌, ◌↔◌, ◌⊎◌, inl, inr, Bool-cases, ◌++◌, sym, subst, refl, String, Bool, true, false, ◌&&◌,
  Option, none, some, List, [], ◌∷◌, arith, str_eq, all, if◌then◌else◌,
}
use collector_security_analy.Cve.Version.{Comparison}
use collector_security_analy.Cve.Applicability.{is_affected}
use collector_security_analy.Cve.Range.Bounds.{is_usable, evaluate_version-tests}
use collector_security_analy.Cve.Range.Decided.{
  Where, Before, Same, After, IsOrdered, IsDecided, usable-IsDecided,
}
use collector_security_analy.Cve.Range.{
  Range, Test, passes, evaluate_version, tests, Bound, test_of, at_least, above, at_most, below,
  equal,
}

module _ (compare : Option String → Option String → Comparison) where
  -- The place of a version among the bounds, by what their keys say
  abbrev pub IsInside : Option String → String → Range → Type 0
  IsInside v exact r =
      Where r.start_including (λ t. Same compare v t ⊎ After compare v t)
      × Where r.start_excluding (λ t. After compare v t)
      × Where r.end_including (λ t. Before compare v t ⊎ Same compare v t)
      × Where r.end_excluding (λ t. Before compare v t)
      × ((str_eq exact "*" ≡ true) ⊎ Same compare v (some exact))

  all-append :
      (v : Option String) (ts us : List Test)
      → all (passes compare v) (ts ++ us) ≡ (all (passes compare v) ts && all (passes compare v) us)
  all-append v [] us = refl
  all-append v (t ∷ ts) us = ground (arith, all-append v ts us)

  at_least-Where :
      (v : Option String) (b : Bound)
      → (all (passes compare v) (test_of b at_least) ≡ true)
        ↔ Where b (λ t. Same compare v t ⊎ After compare v t)
  at_least-Where v none = (λ h. tt, λ h. refl)
  at_least-Where v (some t) = ground arith

  above-Where :
      (v : Option String) (b : Bound)
      → (all (passes compare v) (test_of b above) ≡ true) ↔ Where b (λ t. After compare v t)
  above-Where v none = (λ h. tt, λ h. refl)
  above-Where v (some t) = ground arith

  at_most-Where :
      (v : Option String) (b : Bound)
      → (all (passes compare v) (test_of b at_most) ≡ true)
        ↔ Where b (λ t. Before compare v t ⊎ Same compare v t)
  at_most-Where v none = (λ h. tt, λ h. refl)
  at_most-Where v (some t) = ground arith

  below-Where :
      (v : Option String) (b : Bound)
      → (all (passes compare v) (test_of b below) ≡ true) ↔ Where b (λ t. Before compare v t)
  below-Where v none = (λ h. tt, λ h. refl)
  below-Where v (some t) = ground arith

  abbrev exact_tests : String → List Test
  exact_tests exact =
      if str_eq exact "*" then [] else record { bound = some exact; allows = equal } ∷ []

  equal-Same :
      (v : Option String) (exact : String)
      → (all (passes compare v) (exact_tests exact) ≡ true)
        ↔ ((str_eq exact "*" ≡ true) ⊎ Same compare v (some exact))
  equal-Same v exact = elim (Bool-cases (str_eq exact "*")) [
    | inl any_version ↦ ground (arith, any_version)
    | inr named ↦ ground (arith, named)
  ]

  five_tests :
      (a b c d e : List Test) (v : Option String)
      → all (passes compare v) ((((a ++ b) ++ c) ++ d) ++ e) ≡ (
          all (passes compare v) a
          && (all (passes compare v) b
              && (all (passes compare v) c
                  && (all (passes compare v) d && all (passes compare v) e))))
  five_tests a b c d e v = ground (
    arith,
    all-append v (((a ++ b) ++ c) ++ d) e,
    all-append v ((a ++ b) ++ c) d,
    all-append v (a ++ b) c,
    all-append v a b,
  )

  both_iff :
      {P Q : Type 0} (a b : Bool) → (a ≡ true) ↔ P → (b ≡ true) ↔ Q → ((a && b) ≡ true) ↔ (P × Q)
  both_iff true b f g = (λ h. (f.0 refl, g.0 h), λ h. g.1 h.1)
  both_iff false b f g = (λ h. absurd (cc h), λ h. f.1 h.0)

  via : {P : Type 0} (a b : Bool) → a ≡ b → (b ≡ true) ↔ P → (a ≡ true) ↔ P
  via {P} a b e f = subst (λ c. (c ≡ true) ↔ P) (sym e) f

  tests-IsInside :
      (v : Option String) (exact : String) (r : Range)
      → (all (passes compare v) (tests r exact) ≡ true) ↔ IsInside v exact r
  unfolding tests
  tests-IsInside v exact r =
      let nested =
        via _ _
          (five_tests (test_of r.start_including at_least) (test_of r.start_excluding above)
            (test_of r.end_including at_most) (test_of r.end_excluding below) (exact_tests exact) v)
          (both_iff _ _ (at_least-Where v r.start_including) (
            both_iff _ _ (above-Where v r.start_excluding) (
              both_iff _ _ (at_most-Where v r.end_including)
                (both_iff _ _ (below-Where v r.end_excluding) (equal-Same v exact))))) in
      (
        λ h. let k = nested.0 h in (k.0, k.1.0, k.1.1.0, k.1.1.1.0, k.1.1.1.1),
        λ h. nested.1 (h.0, (h.1, (h.2, (h.3, h.4)))),
      )

  -- Whatever compares versions: a version is affected exactly where neither the criterion's version nor a bound
  -- is `-`, no start or end stands twice, a vulnerable criterion names a version or a bound, the start comes
  -- before the end (or is the same, where both are included), and the installed version is at or after an
  -- included start, after an excluded one, before or at an included end, before an excluded one, and the
  -- same as the version that the criterion names, if it names one.
  pub evaluate_version-passes :
      (installed : Option String) (exact : String) (r : Range) (criterion : String)
      (vulnerable : Bool)
      → (is_affected (evaluate_version compare installed exact r criterion vulnerable) ≡ true)
        ↔ (IsDecided exact r vulnerable × IsOrdered compare r × IsInside installed exact r)
  evaluate_version-passes installed exact r criterion vulnerable =
      let merged = via _ _ (evaluate_version-tests compare installed exact r criterion vulnerable) (
        both_iff (is_usable compare r exact vulnerable)
          (all (passes compare installed) (tests r exact))
          (usable-IsDecided compare exact r vulnerable) (tests-IsInside installed exact r)) in
      (λ h. ((merged.0 h).0.0, (merged.0 h).0.1, (merged.0 h).1), λ h. merged.1 ((h.0, h.1), h.2))
