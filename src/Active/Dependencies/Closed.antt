-- ===== src/Active/Dependencies/Closed.antt =====
-- The resolved validators are those that the selected ones need.
use collector_security_analy.Common.{
  ℕ, zero, suc, ◌+◌, ◌≡◌, ◌↔◌, refl, sym, ap, subst, ◌∙◌, ◌⊎◌, inl, inr, Bool-cases, String, Bool,
  true, false, ◌||◌, Option, none, some, List, [], ◌∷◌, arith, eq_iff, str_eq, all, contains,
  length, if◌then◌else◌,
}
use collector_security_analy.Common.Texts.{sorted, contains-sorted}
use collector_security_analy.Active.Outcome.{ok, >>=-eq-ok}
use collector_security_analy.Active.Model.{RiskLevel, Entry, get}
use collector_security_analy.Active.Dependencies.{
  Expansion, add, expand, expand_all, initial, resolve_dependencies,
}
use collector_security_analy.Active.Dependencies.Ends.{
  admit_all_rule, admit_all-resolved, expand-eq-ok,
}

abbrev pub depends : Option Entry → List String
depends none = []
depends (some e) = e.described.depends_on_validator_ids

-- `depends_on_validator_ids` of a registered validator
abbrev pub dependencies : List Entry → String → List String
dependencies registry id = depends (get id registry)

-- The validators that the selected ones need, by any number of dependencies
pub data Needed (registry : List Entry) (selected : List String) : String → Type 0 where
  chosen : {id : String} → contains id selected ≡ true → Needed registry selected id
  needed :
      {id d : String}
      → Needed registry selected id
      → contains d (dependencies registry id) ≡ true
      → Needed registry selected d

all-weaken :
    (r s ids : List String)
    → ((x : String) → contains x r ≡ true → contains x s ≡ true)
    → all (λ d. contains d r) ids ≡ true
    → all (λ d. contains d s) ids ≡ true
all-weaken r s [] f h = refl
all-weaken r s (d ∷ ids) f h = ground (arith, f d, all-weaken r s ids f)

pub all-contains :
    (r ids : List String) (d : String)
    → all (λ x. contains x r) ids ≡ true
    → contains d ids ≡ true
    → contains d r ≡ true
all-contains r [] d h m = absurd (ground (arith, m))
all-contains r (x ∷ ids) d h m = ground (arith, eq_iff d x, all-contains r ids d)

module _ (registry : List Entry) (risks : Option (List RiskLevel)) (selected : List String) where
  -- Every resolved validator is needed; it is queued, or in hand, or its dependencies are resolved.
  record Inv (hand : String → Bool) (s : Expansion) : Type 0 where
    first : (x : String) → contains x selected ≡ true → contains x s.resolved ≡ true
    sound : (x : String) → contains x s.resolved ≡ true → Needed registry selected x
    queued : (x : String) → contains x s.queue ≡ true → contains x s.resolved ≡ true
    closed :
        (x : String)
        → contains x s.resolved ≡ true
        → (contains x s.queue || hand x ≡ true)
          ⊎ (all (λ d. contains d s.resolved) (dependencies registry x) ≡ true)

  Inv-add :
      (hand : String → Bool) (id : String) (s : Expansion)
      → Needed registry selected id
      → Inv hand s
      → Inv hand (add id s)
  Inv-add hand id s n h = go (contains id s.resolved)
    where
      pushed : Inv hand (record { resolved = id ∷ s.resolved; queue = id ∷ s.queue })
      pushed = record {
        first = λ x m. ground (arith, h.first x);
        sound = λ x m. elim (Bool-cases (str_eq x id)) [
          | inl same ↦ subst (Needed registry selected) (sym ((eq_iff x id).0 same)) n
          | inr other ↦ h.sound x (ground (arith, m, other))
        ];
        queued = λ x m. ground (arith, m, h.queued x);
        closed = λ x m. elim (Bool-cases (str_eq x id)) [
          | inl same ↦ inl (ground (arith, same))
          | inr other ↦ elim (h.closed x (ground (arith, m, other))) [
            | inl waits ↦ inl (ground (arith, waits))
            | inr full ↦ inr (
                all-weaken s.resolved (id ∷ s.resolved) (dependencies registry x)
                  (λ d e. ground (arith, e)) full)
          ]
        ];
      }

      go :
          (b : Bool)
          → Inv hand (if b then s else record { resolved = id ∷ s.resolved; queue = id ∷ s.queue })
      go true = h
      go false = pushed

  abbrev nothing : String → Bool
  nothing x = false

  -- A round takes a validator in hand, and leaves its dependencies resolved.
  Inv-pop :
      (id : String) (r q : List String)
      → Inv nothing (record { resolved = r; queue = id ∷ q })
      → Inv (str_eq id) (record { resolved = r; queue = q })
  Inv-pop id r q h = record {
    first = h.first;
    sound = h.sound;
    queued = λ x m. h.queued x (ground (arith, m));
    closed = λ x m. elim (h.closed x m) [
      | inl waits ↦ inl (ground (arith, waits, eq_iff x id, eq_iff id x))
      | inr full ↦ inr full
    ];
  }

  Inv-put :
      (id : String) (s : Expansion)
      → all (λ d. contains d s.resolved) (dependencies registry id) ≡ true
      → Inv (str_eq id) s
      → Inv nothing s
  Inv-put id s full h = record {
    first = h.first;
    sound = h.sound;
    queued = h.queued;
    closed = λ x m. elim (h.closed x m) [
      | inl waits ↦ elim (Bool-cases (str_eq id x)) [
        | inl same ↦ inr (
            subst (λ y. all (λ d. contains d s.resolved) (dependencies registry y) ≡ true)
              ((eq_iff id x).0 same) full)
        | inr other ↦ inl (ground (arith, waits, other))
      ]
      | inr rest ↦ inr rest
    ];
  }

  Inv-expand :
      (id : String) (r q : List String) (t : Expansion)
      → expand registry risks (get id registry) (record { resolved = r; queue = q }) ≡ ok t
      → Inv nothing (record { resolved = r; queue = id ∷ q })
      → Inv nothing t
  Inv-expand id r q t e h =
      elim (expand-eq-ok registry risks (get id registry) (record { resolved = r; queue = q }) t
        e) [
          | inl (unknown, same) ↦ subst (Inv nothing) (sym same) (
              Inv-put id (record { resolved = r; queue = q })
                (ap (λ o. all (λ d. contains d r) (depends o)) unknown) (Inv-pop id r q h))
          | inr (entry, found, added) ↦
              let ids = entry.described.depends_on_validator_ids in
              let same : ids ≡ dependencies registry id = sym (ap depends found) in
              let in_hand = h.sound id (h.queued id (ground (arith, eq_iff id id))) in
              Inv-put id t
                (subst (λ ds. all (λ d. contains d t.resolved) ds ≡ true) same
                  (admit_all-resolved registry risks ids (record { resolved = r; queue = q }) t
                    added))
                (admit_all_rule registry risks (Inv (str_eq id)) ids
                  (λ d e s m _ inv.
                    Inv-add (str_eq id) d s
                      (needed in_hand (subst (λ ds. contains d ds ≡ true) same m)) inv)
                  (record { resolved = r; queue = q }) t added (Inv-pop id r q h))
        ]

  Inv-expand_all :
      (fuel : ℕ) (r q out : List String)
      → expand_all registry risks fuel (record { resolved = r; queue = q }) ≡ ok out
      → Inv nothing (record { resolved = r; queue = q })
      → Inv nothing (record { resolved = out; queue = [] })
  unfolding expand_all
  Inv-expand_all zero r [] out e h =
      subst (λ o. Inv nothing (record { resolved = o; queue = [] })) (cc e) h
  Inv-expand_all zero r (id ∷ q) out e h = absurd (ground (arith, e))
  Inv-expand_all (suc fuel) r [] out e h =
      subst (λ o. Inv nothing (record { resolved = o; queue = [] })) (cc e) h
  Inv-expand_all (suc fuel) r (id ∷ q) out e h =
      let (t, first, rest) =
        >>=-eq-ok (expand registry risks (get id registry) (record { resolved = r; queue = q }))
          (expand_all registry risks fuel) e in
      Inv-expand_all fuel t.resolved t.queue out rest (Inv-expand id r q t first h)

  -- With an empty queue the resolved validators are closed under dependencies.
  Needed-resolved :
      (out : List String)
      → Inv nothing (record { resolved = out; queue = [] })
      → {x : String} → Needed registry selected x
      → contains x out ≡ true
  Needed-resolved out h (chosen m) = h.first _ m
  Needed-resolved out h (needed {id} {d} n m) = elim (h.closed id (Needed-resolved out h n)) [
    | inl waits ↦ cc
    | inr full ↦ all-contains out (dependencies registry id) d full m
  ]

  Inv-start : Inv nothing (record { resolved = selected; queue = selected })
  Inv-start = record {
    first = λ x m. m;
    sound = λ x m. chosen m;
    queued = λ x m. m;
    closed = λ x m. inl (ground (arith, m));
  }

-- If the dependencies of the selected validators resolve, the resolved validators are exactly the
-- selected ones, the aggregate that the deep one asks for, and what these need by any number of
-- dependencies.
pub resolve_dependencies-Needed :
    (registry : List Entry) (risks : Option (List RiskLevel)) (selected out : List String)
    → resolve_dependencies registry risks selected ≡ ok out
    → (x : String) → (contains x out ≡ true) ↔ Needed registry (initial selected) x
unfolding resolve_dependencies
resolve_dependencies-Needed registry risks selected out h x =
    let first = initial selected in
    let (resolved, done, last) =
      >>=-eq-ok
        (expand_all registry risks (length first + length registry)
          (record { resolved = first; queue = first }))
        (λ r. ok (sorted r)) h in
    let inv =
      Inv-expand_all registry risks first (length first + length registry) first first resolved done
        (Inv-start registry risks first) in
    let same : contains x out ≡ contains x resolved =
      ap (contains x) (cc last) ∙ contains-sorted x resolved in
    (
      λ m. inv.sound x (sym same ∙ m),
      λ n. same ∙ Needed-resolved registry risks first resolved inv n,
    )

-- What is resolved has its dependencies resolved.
pub resolve_dependencies-closed :
    (registry : List Entry) (risks : Option (List RiskLevel)) (selected out : List String)
    → resolve_dependencies registry risks selected ≡ ok out
    → (x d : String) → contains x out ≡ true
    → contains d (dependencies registry x) ≡ true
    → contains d out ≡ true
resolve_dependencies-closed registry risks selected out h x d m n =
    (resolve_dependencies-Needed registry risks selected out h d).1
      (needed ((resolve_dependencies-Needed registry risks selected out h x).0 m) n)
