-- ===== src/Active/Order/Before.antt =====
-- In the order that is found, every validator stands after its dependencies.
use collector_security_analy.Common.{
  ℕ, zero, suc, ◌+◌, ◌≡◌, refl, sym, ap, subst, ◌∙◌, inl, inr, Bool-cases, String, Bool, true,
  false, ◌||◌, ◌&&◌, Option, none, some, List, [], ◌∷◌, ◌++◌, arith, eq_iff, str_eq, all,
  any-append, contains, keep, length, are_distinct,
}
use collector_security_analy.Active.Outcome.{Outcome, ok, ◌>>=◌, >>=-eq-ok}
use collector_security_analy.Active.Model.{Entry, get}
use collector_security_analy.Active.Order.{
  Visit, without, enter, leave, visit_all, visit, sort_by, key_le, within, topological_order,
  contains-sort_by,
}
use collector_security_analy.Active.Dependencies.Closed.{depends, dependencies}

Bool-ext : (a b : Bool) → (a ≡ true → b ≡ true) → (b ≡ true → a ≡ true) → a ≡ b
Bool-ext true b f g = sym (f refl)
Bool-ext false true f g = g refl
Bool-ext false false f g = refl

pub all_mono :
    (p q : String → Bool) (ids : List String)
    → ((x : String) → contains x ids ≡ true → p x ≡ true → q x ≡ true)
    → all p ids ≡ true
    → all q ids ≡ true
all_mono p q [] f h = refl
all_mono p q (d ∷ ids) f h =
    let rest : all q ids ≡ true =
      all_mono p q ids (λ x m. f x (ground (arith, m))) (ground (arith, h)) in
    ground (arith, h, f d (ground (arith, eq_iff d d)), rest)

pub all_of :
    (p : String → Bool) (ids : List String)
    → ((x : String) → contains x ids ≡ true → p x ≡ true)
    → all p ids ≡ true
all_of p [] f = refl
all_of p (d ∷ ids) f =
    let rest = all_of p ids (λ x m. f x (ground (arith, m))) in
    ground (arith, f d (ground (arith, eq_iff d d)), rest)

contains-keep :
    (p : String → Bool) (x : String) (ids : List String)
    → contains x (keep p ids) ≡ (contains x ids && p x)
contains-keep p x [] = refl
contains-keep p x (d ∷ ids) = elim (Bool-cases (str_eq x d)) [
  | inl same ↦ ground (arith, same, ap p ((eq_iff x d).0 same), contains-keep p x ids)
  | inr other ↦ ground (arith, other, contains-keep p x ids)
]

pub all-holds :
    (p : String → Bool) (ids : List String) (d : String)
    → all p ids ≡ true
    → contains d ids ≡ true
    → p d ≡ true
all-holds p [] d h m = absurd (ground (arith, m))
all-holds p (x ∷ ids) d h m = elim (Bool-cases (str_eq d x)) [
  | inl same ↦ subst (λ y. p y ≡ true) (sym ((eq_iff d x).0 same)) (ground (arith, h))
  | inr other ↦ all-holds p ids d (ground (arith, h)) (ground (arith, m, other))
]

without-absent : (id : String) (xs : List String) → contains id xs ≡ false → without id xs ≡ xs
without-absent id [] h = refl
without-absent id (x ∷ xs) h = ground (arith, h, eq_iff x id, eq_iff id x, without-absent id xs)

are_distinct-append :
    (xs : List String) (id : String)
    → are_distinct xs ≡ true
    → contains id xs ≡ false
    → are_distinct (xs ++ id ∷ []) ≡ true
are_distinct-append [] id h m = refl
are_distinct-append (x ∷ xs) id h m =
    ground (
      arith,
      any-append (str_eq x) xs (id ∷ []),
      eq_iff x id,
      eq_iff id x,
      are_distinct-append xs id,
    )

module _ (next : String → Outcome (List String)) (selected : List String) where
  -- What `next` gives of a validator has the property.
  abbrev Preceded : (String → Bool) → String → Type 0
  Preceded p x = (ds : List String) → next x ≡ ok ds → all p ds ≡ true

  -- Each is preceded by what `next` gives of it, in the list or with the property.
  abbrev pub IsOrdered : (String → Bool) → List String → Type 0
  IsOrdered p [] = Unit
  IsOrdered p (x ∷ xs) = Preceded p x × IsOrdered (λ d. str_eq d x || p d) xs

  IsOrdered-append :
      (p : String → Bool) (xs : List String) (id : String)
      → IsOrdered p xs
      → Preceded (λ d. contains d xs || p d) id
      → IsOrdered p (xs ++ id ∷ [])
  IsOrdered-append p [] id o h = (λ ds e. h ds e, tt)
  IsOrdered-append p (x ∷ xs) id o h = (
    o.0,
    IsOrdered-append (λ d. str_eq d x || p d) xs id o.1
        (λ ds e. all_mono _ _ ds (λ y _ m. ground (arith, m)) (h ds e)),
  )

  pub record IsGood (s : Visit) : Type 0 where
    pub same : (x : String) → contains x s.result ≡ contains x s.permanent
    pub ordered : IsOrdered (λ _. false) s.result
    pub distinct : are_distinct s.result ≡ true
    pub inside : (x : String) → contains x s.permanent ≡ true → contains x selected ≡ true

  -- A visit of some validators from one state to another
  pub record Done (ids : List String) (s t : Visit) : Type 0 where
    pub temp : t.temporary ≡ s.temporary
    pub grows : (x : String) → contains x s.permanent ≡ true → contains x t.permanent ≡ true
    pub fresh :
        (x : String)
        → contains x s.temporary ≡ true
        → contains x t.permanent ≡ contains x s.permanent
    pub good : IsGood t
    pub visited : all (λ d. contains d t.permanent) ids ≡ true

  Done-stay :
      (ids : List String) (s : Visit)
      → all (λ d. contains d s.permanent) ids ≡ true
      → IsGood s
      → Done ids s s
  Done-stay ids s v g = record {
    temp = refl;
    grows = λ x m. m;
    fresh = λ x m. refl;
    good = g;
    visited = v;
  }

  pub visit_all-Done :
      (step : String → Visit → Outcome Visit)
      → ((id : String) (s t : Visit)
          → contains id selected ≡ true
          → IsGood s
          → step id s ≡ ok t
          → Done (id ∷ []) s t)
      → (ids : List String) (s t : Visit) → all (λ d. contains d selected) ids ≡ true
      → IsGood s
      → visit_all step ids s ≡ ok t
      → Done ids s t
  unfolding visit_all
  visit_all-Done step one [] s t i g h = subst (Done [] s) (cc h) (Done-stay [] s refl g)
  visit_all-Done step one (id ∷ ids) s t i g h =
      let (u, first, rest) = >>=-eq-ok (step id s) (visit_all step ids) h in
      let a = one id s u (ground (arith, i)) g first in
      let b = visit_all-Done step one ids u t (ground (arith, i)) a.good rest in
      record {
        temp = b.temp ∙ a.temp;
        grows = λ x m. b.grows x (a.grows x m);
        fresh = λ x m. b.fresh x (subst (λ l. contains x l ≡ true) (sym a.temp) m) ∙ a.fresh x m;
        good = b.good;
        visited = ground (arith, b.grows id (ground (arith, a.visited)), b.visited);
      }

  -- The validator itself is written after what `next` gives of it.
  Done-leave :
      (id : String) (ds : List String) (s u : Visit)
      → contains id selected ≡ true
      → contains id s.permanent ≡ false
      → contains id s.temporary ≡ false
      → next id ≡ ok ds
      → Done ds (enter id s) u
      → Done (id ∷ []) s (leave id u)
  Done-leave id ds s u i p m e d =
      let absent : contains id u.permanent ≡ false =
        d.fresh id (ground (arith, eq_iff id id)) ∙ p in
      record {
        temp = ap (without id) d.temp ∙ ground (arith, eq_iff id id, without-absent id s.temporary);
        grows = λ x n. ground (arith, d.grows x n);
        fresh = λ x n. elim (Bool-cases (str_eq x id)) [
          | inl same ↦ absurd (ground (arith, n, m, (eq_iff x id).0 same))
          | inr other ↦ ground (arith, other, d.fresh x (ground (arith, n, other)))
        ];
        good = record {
          same = λ x. any-append (str_eq x) u.result (id ∷ []) ∙ ground (arith, d.good.same x);
          ordered =
              IsOrdered-append (λ _. false) u.result id d.good.ordered
                (λ xs f.
                  all_mono (λ y. contains y u.permanent) _ xs
                    (λ y _ n. ground (arith, n, d.good.same y))
                    (subst (λ l. all (λ y. contains y u.permanent) l ≡ true) (cc (e, f))
                      d.visited));
          distinct = are_distinct-append u.result id d.good.distinct (d.good.same id ∙ absent);
          inside = λ x n. elim (Bool-cases (str_eq x id)) [
            | inl same ↦ subst (λ y. contains y selected ≡ true) (sym ((eq_iff x id).0 same)) i
            | inr other ↦ d.good.inside x (ground (arith, n, other))
          ];
        };
        visited = ground (arith, eq_iff id id);
      }

  module _
      (stays : (x : String) (ds : List String)
        → next x ≡ ok ds
        → all (λ d. contains d selected) ds ≡ true) where
    pub visit-Done :
        (fuel : ℕ) (id : String) (s t : Visit)
        → contains id selected ≡ true
        → IsGood s
        → visit next fuel id s ≡ ok t
        → Done (id ∷ []) s t
    unfolding visit
    visit-Done zero id s t i g h = absurd (ground (arith, h))
    visit-Done (suc fuel) id s t i g h = elim (Bool-cases (contains id s.permanent)) [
      | inl old ↦
          subst (Done (id ∷ []) s) (ground (arith, old, h))
            (Done-stay (id ∷ []) s (ground (arith, old)) g)
      | inr new ↦ elim (Bool-cases (contains id s.temporary)) [
        | inl cycle ↦ absurd (ground (arith, new, cycle, h))
        | inr open_ ↦
            let good : IsGood (enter id s) = record {
              same = g.same;
              ordered = g.ordered;
              distinct = g.distinct;
              inside = g.inside;
            } in
            let (ds, e, rest) =
              >>=-eq-ok (next id)
                (λ ds. visit_all (visit next fuel) ds (enter id s) >>= λ u. ok (leave id u))
                (rw (new, open_) at h) in
            let (u, inner, last) =
              >>=-eq-ok (visit_all (visit next fuel) ds (enter id s)) (λ u. ok (leave id u)) rest in
            subst (Done (id ∷ []) s) (cc last) (
              Done-leave id ds s u i new open_ e (
                visit_all-Done (visit next fuel) (λ x v w. visit-Done fuel x v w) ds (enter id s) u
                  (stays id ds e) good inner))
      ]
    ]

pub within-selected :
    (le : String → String → Bool) (selected : List String) (o : Option Entry) (ds : List String)
    → within le selected o ≡ ok ds
    → all (λ d. contains d selected) ds ≡ true
within-selected le selected none ds h = absurd (ground (arith, h))
within-selected le selected (some e) ds h =
    let kept = keep (λ d. contains d selected) e.described.depends_on_validator_ids in
    subst (λ l. all (λ d. contains d selected) l ≡ true) (cc h)
      (all_of (λ d. contains d selected) (sort_by le kept)
        (λ x m. ground (
          arith,
          m,
          contains-sort_by le x kept,
          contains-keep (λ d. contains d selected) x e.described.depends_on_validator_ids,
        )))

-- What precedes a validator, from what `visit` visits
within-depends :
    (registry : List Entry) (le : String → String → Bool) (selected : List String)
    (seen : String → Bool) (x : String)
    → ((ds : List String) → within le selected (get x registry) ≡ ok ds → all seen ds ≡ true)
    → (d : String) → contains d (dependencies registry x) ≡ true
    → contains d selected ≡ true
    → seen d ≡ true
within-depends registry le selected seen x h d m i = go (get x registry) h m
  where
    go :
        (o : Option Entry)
        → ((ds : List String) → within le selected o ≡ ok ds → all seen ds ≡ true)
        → contains d (depends o) ≡ true
        → seen d ≡ true
    go none f n = absurd (ground (arith, n))
    go (some e) f n =
        let kept = keep (λ y. contains y selected) e.described.depends_on_validator_ids in
        all-holds seen (sort_by le kept) d (f (sort_by le kept) refl) (
          contains-sort_by le d kept
          ∙ contains-keep (λ y. contains y selected) d e.described.depends_on_validator_ids
          ∙ ground (arith, n, i))

-- The validators of a list stand after those of their dependencies that are selected.
abbrev pub AreBefore : List Entry → List String → (String → Bool) → List String → Type 0
AreBefore registry selected seen [] = Unit
AreBefore registry selected seen (x ∷ xs) =
    ((d : String)
      → contains d (dependencies registry x) ≡ true
      → contains d selected ≡ true
      → seen d ≡ true)
    × AreBefore registry selected (λ d. str_eq d x || seen d) xs

IsOrdered-AreBefore :
    (registry : List Entry) (le : String → String → Bool) (selected : List String)
    (seen : String → Bool) (xs : List String)
    → IsOrdered (λ id. within le selected (get id registry)) selected seen xs
    → AreBefore registry selected seen xs
IsOrdered-AreBefore registry le selected seen [] h = tt
IsOrdered-AreBefore registry le selected seen (x ∷ xs) h = (
  within-depends registry le selected seen x h.0,
  IsOrdered-AreBefore registry le selected (λ d. str_eq d x || seen d) xs h.1,
)

-- Where an order is found, it holds exactly the selected validators, each once, and each after those of
-- its dependencies that are selected.
pub topological_order-AreBefore :
    (registry : List Entry) (selected out : List String)
    → topological_order registry selected ≡ ok out
    → (are_distinct out ≡ true)
      × ((x : String) → contains x out ≡ contains x selected)
      × AreBefore registry selected (λ _. false) out
unfolding topological_order
topological_order-AreBefore registry selected out h =
    let le = key_le registry in
    let next : String → Outcome (List String) = λ id. within le selected (get id registry) in
    let start : Visit = record { temporary = []; permanent = []; result = [] } in
    let (s, done, last) =
      >>=-eq-ok (visit_all (visit next (length selected + 1)) (sort_by le selected) start)
        (λ s. ok s.result) h in
    let inside =
      all_of (λ d. contains d selected) (sort_by le selected)
        (λ x m. sym (contains-sort_by le x selected) ∙ m) in
    let good : IsGood next selected start = record {
      same = λ x. refl;
      ordered = tt;
      distinct = refl;
      inside = λ x m. absurd (ground (arith, m));
    } in
    let d =
      visit_all-Done next selected (visit next (length selected + 1))
        (visit-Done next selected (λ x ds e. within-selected le selected (get x registry) ds e)
          (length selected + 1))
        (sort_by le selected) start s inside good done in
    let same : s.result ≡ out = cc last in
    (
      subst (λ l. are_distinct l ≡ true) same d.good.distinct,
      λ x.
          ap (contains x) (sym same)
          ∙ d.good.same x
          ∙ Bool-ext _ _ (d.good.inside x) (λ m.
            all-holds (λ y. contains y s.permanent) (sort_by le selected) x d.visited
              (contains-sort_by le x selected ∙ m)),
      subst (AreBefore registry selected (λ _. false)) same
          (IsOrdered-AreBefore registry le selected (λ _. false) s.result d.good.ordered),
    )
