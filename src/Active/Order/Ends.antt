-- ===== src/Active/Order/Ends.antt =====
-- The search for an order ends: no visit goes deeper than the selection has validators.
use collector_security_analy.Common.{
  ℕ, zero, suc, ◌+◌, ◌≤◌, ◌<◌, ◌≡◌, refl, sym, subst, ◌∙◌, inl, inr, Bool-cases, String, Bool, true,
  false, Option, none, some, List, [], ◌∷◌, arith, eq_iff, all, contains, length, if◌then◌else◌,
}
use collector_security_analy.Active.Outcome.{Outcome, ok, ends, >>=-ends}
use collector_security_analy.Active.Model.{Entry, get}
use collector_security_analy.Active.Order.{
  Visit, enter, visit_all, visit, sort_by, key_le, within, topological_order, contains-sort_by,
}
use collector_security_analy.Active.Order.Before.{IsGood, visit-Done, within-selected, all_of}

-- The selected validators that are not being visited
abbrev remaining : List String → List String → ℕ
remaining temp [] = 0
remaining temp (x ∷ xs) = let rest = remaining temp xs in if contains x temp then rest else suc rest

remaining-le : (id : String) (temp xs : List String) → remaining (id ∷ temp) xs ≤ remaining temp xs
remaining-le id temp [] = omega arith
remaining-le id temp (x ∷ xs) = ground (arith, remaining-le id temp xs)

remaining-lt :
    (id : String) (temp xs : List String)
    → contains id xs ≡ true
    → contains id temp ≡ false
    → remaining (id ∷ temp) xs < remaining temp xs
remaining-lt id temp [] m h = absurd (ground (arith, m))
remaining-lt id temp (x ∷ xs) m h =
    ground (arith, eq_iff id x, eq_iff x id, remaining-le id temp xs, remaining-lt id temp xs)

module _ (next : String → Outcome (List String)) (selected : List String)
    (stays : (x : String) (ds : List String)
      → next x ≡ ok ds
      → all (λ d. contains d selected) ds ≡ true)
    (next_ends : (x : String) → ends (next x) ≡ true) where
  visit_all-ends :
      (fuel : ℕ)
      → ((id : String) (s : Visit)
          → contains id selected ≡ true
          → IsGood next selected s
          → remaining s.temporary selected < fuel
          → ends (visit next fuel id s) ≡ true)
      → (ids : List String) (s : Visit) → all (λ d. contains d selected) ids ≡ true
      → IsGood next selected s
      → remaining s.temporary selected < fuel
      → ends (visit_all (visit next fuel) ids s) ≡ true
  unfolding visit_all
  visit_all-ends fuel one [] s i g h = refl
  visit_all-ends fuel one (id ∷ ids) s i g h =
      >>=-ends (visit next fuel id s) (visit_all (visit next fuel) ids)
        (one id s (ground (arith, i)) g h)
        (λ t e.
          let d = visit-Done next selected stays fuel id s t (ground (arith, i)) g e in
          visit_all-ends fuel one ids t (ground (arith, i)) d.good
            (subst (λ l. remaining l selected < fuel) (sym d.temp) h))

  visit-ends :
      (fuel : ℕ) (id : String) (s : Visit)
      → contains id selected ≡ true
      → IsGood next selected s
      → remaining s.temporary selected < fuel
      → ends (visit next fuel id s) ≡ true
  unfolding visit
  visit-ends zero id s i g h = absurd (omega arith)
  visit-ends (suc fuel) id s i g h = elim (Bool-cases (contains id s.permanent)) [
    | inl old ↦ rw old refl
    | inr new ↦ elim (Bool-cases (contains id s.temporary)) [
      | inl cycle ↦ rw (new, cycle) refl
      | inr open_ ↦
          let good : IsGood next selected (enter id s) = record {
            same = g.same;
            ordered = g.ordered;
            distinct = g.distinct;
            inside = g.inside;
          } in
          let less = remaining-lt id s.temporary selected i open_ in
          rw (new, open_)
            (>>=-ends (next id) _ (next_ends id) (λ ds e.
              >>=-ends (visit_all (visit next fuel) ds (enter id s)) _
                (visit_all-ends fuel (λ x v. visit-ends fuel x v) ds (enter id s) (stays id ds e)
                  good (omega arith))
                (λ _ _. refl)))
    ]
  ]

remaining-length : (xs : List String) → remaining [] xs ≤ length xs
remaining-length [] = omega arith
remaining-length (x ∷ xs) = omega (arith, remaining-length xs)

within_ends :
    (le : String → String → Bool) (selected : List String) (o : Option Entry)
    → ends (within le selected o) ≡ true
within_ends le selected none = refl
within_ends le selected (some e) = refl

-- The search ends, also where the dependencies run in a cycle.
pub topological_order-ends :
    (registry : List Entry) (selected : List String)
    → ends (topological_order registry selected) ≡ true
unfolding topological_order
topological_order-ends registry selected =
    let le = key_le registry in
    let next : String → Outcome (List String) = λ id. within le selected (get id registry) in
    let start : Visit = record { temporary = []; permanent = []; result = [] } in
    let good : IsGood next selected start = record {
      same = λ x. refl;
      ordered = tt;
      distinct = refl;
      inside = λ x m. absurd (ground (arith, m));
    } in
    let stays = λ (x : String) (ds : List String) (e : next x ≡ ok ds).
      within-selected le selected (get x registry) ds e in
    let depth = length selected + 1 in
    >>=-ends (visit_all (visit next depth) (sort_by le selected) start) (λ s. ok s.result)
      (visit_all-ends next selected stays (λ x. within_ends le selected (get x registry)) depth
        (visit-ends next selected stays (λ x. within_ends le selected (get x registry)) depth)
        (sort_by le selected) start
        (all_of (λ d. contains d selected) (sort_by le selected)
          (λ x m. sym (contains-sort_by le x selected) ∙ m))
        good (omega (arith, remaining-length selected)))
      (λ _ _. refl)
