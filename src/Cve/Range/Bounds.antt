-- ===== src/Cve/Range/Bounds.antt =====
-- What `evaluate_version` checks of a range, as one Boolean, and what its tests then decide.
use collector_security_analy.Common.{
  ◌≡◌, ◌∙◌, ap, refl, String, Bool, true, false, not, ◌&&◌, ◌||◌, Option, none, some, List, [], ◌∷◌,
  arith, str_eq, all, if◌then◌else◌,
}
use collector_security_analy.Cve.Version.{Comparison, ordered, unordered}
use collector_security_analy.Cve.Applicability.{Result, is_affected}
use collector_security_analy.Cve.Range.{
  Range, Test, Limit, has_na, has_duplicates, contradicts, conflict, has_limit, check_bounds, later,
  first_reason, admits, passes, verdict, run_tests, unless, start_limit, end_limit,
  evaluate_version, tests,
}

module _ (compare : Option String → Option String → Comparison) where
  abbrev agrees : Bool → Comparison → Bool
  agrees strict (unordered reason) = false
  agrees strict (ordered p) = not (contradicts strict p)

  -- The two bounds are in order, where there are two.
  abbrev pub are_in_order : Option Limit → Option Limit → Bool
  are_in_order (some s) (some e) = agrees (s.is_strict || e.is_strict) (compare s.value e.value)
  are_in_order (some s) none = true
  are_in_order none e = true

  -- A vulnerable criterion names no version and has no bound.
  abbrev pub is_open : Range → String → Bool → Bool
  is_open r exact vulnerable =
      (str_eq exact "*" && not (has_limit (start_limit compare r)))
      && (not (has_limit (end_limit compare r)) && vulnerable)

  -- A range that decides: no bound is `-`, none stands twice, they are in order, and a vulnerable criterion
  -- names a version or a bound.
  abbrev pub is_usable : Range → String → Bool → Bool
  is_usable r exact vulnerable =
      (not (str_eq exact "-" || has_na r) && not (has_duplicates r))
      && (are_in_order (start_limit compare r) (end_limit compare r)
          && not (is_open r exact vulnerable))

  conflict-agrees :
      (criterion : String) (strict : Bool) (c : Comparison) (r : Result)
      → is_affected (unless compare (conflict criterion strict c) r)
        ≡ (agrees strict c && is_affected r)
  conflict-agrees criterion strict (unordered reason) r = refl
  conflict-agrees criterion strict (ordered p) r = ground arith

  check_bounds-are_in_order :
      (criterion : String) (s e : Option Limit) (r : Result)
      → is_affected (unless compare (check_bounds compare criterion s e) r)
        ≡ (are_in_order s e && is_affected r)
  check_bounds-are_in_order criterion (some s) (some e) r =
      conflict-agrees criterion (s.is_strict || e.is_strict) (compare s.value e.value) r
  check_bounds-are_in_order criterion (some s) none r = refl
  check_bounds-are_in_order criterion none e r = refl

  abbrev is_compared : Option String → Bool
  is_compared none = true
  is_compared (some reason) = false

  verdict-affected :
      (inside : Bool) (criterion : String) (vulnerable : Bool) (o : Option String)
      → is_affected (verdict compare inside criterion vulnerable o) ≡ (inside && is_compared o)
  verdict-affected true criterion vulnerable none = refl
  verdict-affected false criterion vulnerable none = refl
  verdict-affected true criterion vulnerable (some reason) = refl
  verdict-affected false criterion vulnerable (some reason) = refl

  passes-later :
      (t : Test) (c : Comparison) (o : Option String) (b : Bool)
      → (b && is_compared o) ≡ b
      → ((admits compare t c && b) && is_compared (later compare c o)) ≡ (admits compare t c && b)
  passes-later t (unordered reason) o b h = refl
  passes-later t (ordered p) o b h = ground (arith, h)

  passes-compared :
      (installed : Option String) (ts : List Test)
      → (all (passes compare installed) ts && is_compared (first_reason compare installed ts))
        ≡ all (passes compare installed) ts
  unfolding first_reason
  passes-compared installed [] = refl
  passes-compared installed (t ∷ ts) =
      passes-later t (compare installed t.bound) _ _ (passes-compared installed ts)

  run_tests-passes :
      (installed : Option String) (criterion : String) (vulnerable : Bool) (ts : List Test)
      → is_affected (run_tests compare installed criterion vulnerable ts)
        ≡ all (passes compare installed) ts
  unfolding run_tests
  run_tests-passes installed criterion vulnerable ts =
      verdict-affected _ criterion vulnerable (first_reason compare installed ts)
      ∙ passes-compared installed ts

  if-is_affected :
      (b : Bool) (x y : Result) (v : Bool)
      → is_affected x ≡ false
      → is_affected y ≡ v
      → is_affected (if b then x else y) ≡ (not b && v)
  if-is_affected true x y v h k = h
  if-is_affected false x y v h k = k

  regroup :
      (a b c d e : Bool)
      → (not a && (not b && (c && (not d && e)))) ≡ (((not a && not b) && (c && not d)) && e)
  regroup a b c d e = ground arith

  -- The result of `evaluate_version` by its parts: a usable range, and the tests of the installed version
  pub evaluate_version-tests :
      (installed : Option String) (exact : String) (r : Range) (criterion : String)
      (vulnerable : Bool)
      → is_affected (evaluate_version compare installed exact r criterion vulnerable)
        ≡ (is_usable r exact vulnerable && all (passes compare installed) (tests r exact))
  unfolding evaluate_version
  evaluate_version-tests installed exact r criterion vulnerable =
      if-is_affected (str_eq exact "-" || has_na r) _ _ _ refl (
        if-is_affected (has_duplicates r) _ _ _ refl (
          check_bounds-are_in_order criterion (start_limit compare r) (end_limit compare r) _
          ∙ ap (λ b. are_in_order (start_limit compare r) (end_limit compare r) && b)
              (if-is_affected (is_open r exact vulnerable) _ _ _ refl
                (run_tests-passes installed criterion vulnerable (tests r exact)))))
      ∙ regroup (str_eq exact "-" || has_na r) (has_duplicates r)
          (are_in_order (start_limit compare r) (end_limit compare r)) (is_open r exact vulnerable)
          _
