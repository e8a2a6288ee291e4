-- ===== src/Active/Dependencies/Ends.antt =====
-- The loop over the queue of dependencies ends.
use collector_security_analy.Common.{
  ℕ, zero, suc, ◌+◌, ◌≤◌, ◌≡◌, refl, sym, subst, ◌⊎◌, inl, inr, String, true, false, Option, none,
  some, List, [], ◌∷◌, arith, eq_iff, all, contains, length, if◌then◌else◌,
}
use collector_security_analy.Active.Outcome.{
  ok, ends, >>=-ends, require-eq-ok, >>=-eq-ok, unknown_optional, dependency_not_active,
  risk_escalation,
}
use collector_security_analy.Active.Model.{RiskLevel, is_active, Entry, get}
use collector_security_analy.Active.Dependencies.{
  Expansion, add, permits, admit, admit_all, expand, expand_all, initial, resolve_dependencies,
}

-- The entries whose validators are not resolved
abbrev missing : List String → List Entry → ℕ
missing r [] = 0
missing r (e ∷ es) = let rest = missing r es in if contains e.validator_id r then rest else suc rest

missing-cons :
    (id : String) (r : List String) (es : List Entry) → missing (id ∷ r) es ≤ missing r es
missing-cons id r [] = omega arith
missing-cons id r (e ∷ es) = ground (arith, missing-cons id r es)

-- A registered validator that is resolved is missing no longer.
missing-lt :
    (id : String) (r : List String) (es : List Entry) (e : Entry)
    → get id es ≡ some e
    → contains id r ≡ false
    → suc (missing (id ∷ r) es) ≤ missing r es
unfolding get
missing-lt id r [] e h n = absurd (ground (arith, h))
missing-lt id r (x ∷ es) e h n =
    ground (arith, eq_iff x.validator_id id, missing-cons id r es, missing-lt id r es e)

-- What is left to do
abbrev work : List Entry → Expansion → ℕ
work es s = length s.queue + missing s.resolved es

work-add :
    (es : List Entry) (id : String) (e : Entry) (s : Expansion)
    → get id es ≡ some e
    → work es (add id s) ≤ work es s
work-add es id e s h = ground (arith, missing-lt id s.resolved es e h)

module _ (registry : List Entry) (risks : Option (List RiskLevel)) where
  -- What a dependency that is admitted comes to
  admit-eq-ok :
      (id : String) (o : Option Entry) (s t : Expansion)
      → admit registry risks id o s ≡ ok t
      → (e : Entry) × (o ≡ some e) × (t ≡ add id s)
  admit-eq-ok id none s t h = absurd (ground (arith, h))
  admit-eq-ok id (some e) s t h =
      let first = require-eq-ok (is_active e.status) dependency_not_active _ h in
      let second = require-eq-ok (permits risks e.described.risk_level) risk_escalation _ first.1 in
      (e, refl, cc (second.1))

  -- What every addition of a registered dependency keeps is kept by the loop over the dependencies.
  pub admit_all_rule {κ} :
      (P : Expansion → Type κ) (ids : List String)
      → ((id : String) (e : Entry) (s : Expansion)
          → contains id ids ≡ true
          → get id registry ≡ some e
          → P s
          → P (add id s))
      → (s t : Expansion) → admit_all registry risks ids s ≡ ok t
      → P s
      → P t
  unfolding admit_all
  admit_all_rule P [] keep s t h p = subst P (cc h) p
  admit_all_rule P (id ∷ ids) keep s t h p =
      let (u, first, rest) =
        >>=-eq-ok (admit registry risks id (get id registry) s) (admit_all registry risks ids) h in
      let (e, found, added) = admit-eq-ok id (get id registry) s u first in
      admit_all_rule P ids (λ x e v m. keep x e v (ground (arith, m))) u t rest
        (subst P (sym added) (keep id e s (ground (arith, eq_iff id id)) found p))

  -- The dependencies are resolved then, and what was resolved before.
  pub admit_all-resolved :
      (ids : List String) (s t : Expansion)
      → admit_all registry risks ids s ≡ ok t
      → all (λ d. contains d t.resolved) ids ≡ true
  unfolding admit_all
  admit_all-resolved [] s t h = refl
  admit_all-resolved (id ∷ ids) s t h =
      let (u, first, rest) =
        >>=-eq-ok (admit registry risks id (get id registry) s) (admit_all registry risks ids) h in
      let (e, found, added) = admit-eq-ok id (get id registry) s u first in
      let here : contains id u.resolved ≡ true =
        subst (λ (v : Expansion). contains id v.resolved ≡ true) (sym added)
          (ground (arith, eq_iff id id)) in
      let there =
        admit_all_rule (λ v. contains id v.resolved ≡ true) ids (λ x e v _ _ p. ground (arith, p)) u
          t rest here in
      ground (arith, there, admit_all-resolved ids u t rest)

  pub expand-eq-ok :
      (o : Option Entry) (s t : Expansion)
      → expand registry risks o s ≡ ok t
      → ((o ≡ none) × (t ≡ s))
        ⊎ ((e : Entry) × (o ≡ some e)
            × (admit_all registry risks e.described.depends_on_validator_ids s ≡ ok t))
  expand-eq-ok none s t h = inl (refl, cc h)
  expand-eq-ok (some e) s t h = inr (e, refl, (require-eq-ok _ unknown_optional _ h).1)

  expand-work :
      (o : Option Entry) (s t : Expansion)
      → expand registry risks o s ≡ ok t
      → work registry t ≤ work registry s
  expand-work o s t h = elim (expand-eq-ok o s t h) [
    | inl (_, same) ↦ subst (λ u. work registry u ≤ work registry s) (sym same) (omega arith)
    | inr (e, _, added) ↦
        admit_all_rule (λ u. work registry u ≤ work registry s) e.described.depends_on_validator_ids
          (λ id e u _ found le. omega (arith, work-add registry id e u found)) s t added
          (omega arith)
  ]

  admit-ends :
      (id : String) (o : Option Entry) (s : Expansion) → ends (admit registry risks id o s) ≡ true
  admit-ends id none s = refl
  admit-ends id (some e) s = ground arith

  admit_all-ends :
      (ids : List String) (s : Expansion) → ends (admit_all registry risks ids s) ≡ true
  unfolding admit_all
  admit_all-ends [] s = refl
  admit_all-ends (id ∷ ids) s =
      >>=-ends (admit registry risks id (get id registry) s) (admit_all registry risks ids)
        (admit-ends id (get id registry) s) (λ t _. admit_all-ends ids t)

  expand-ends : (o : Option Entry) (s : Expansion) → ends (expand registry risks o s) ≡ true
  expand-ends none s = refl
  expand-ends (some e) s = ground (arith, admit_all-ends e.described.depends_on_validator_ids s)

  expand_all-ends :
      (fuel : ℕ) (r q : List String)
      → length q + missing r registry ≤ fuel
      → ends (expand_all registry risks fuel (record { resolved = r; queue = q })) ≡ true
  unfolding expand_all
  expand_all-ends zero r [] h = refl
  expand_all-ends zero r (id ∷ q) h = absurd (omega arith)
  expand_all-ends (suc fuel) r [] h = refl
  expand_all-ends (suc fuel) r (id ∷ q) h =
      let rest : Expansion = record { resolved = r; queue = q } in
      >>=-ends (expand registry risks (get id registry) rest) (expand_all registry risks fuel)
        (expand-ends (get id registry) rest)
        (λ t e.
          expand_all-ends fuel t.resolved t.queue
            (omega (arith, expand-work (get id registry) rest t e)))

  missing-le : (r : List String) (es : List Entry) → missing r es ≤ length es
  missing-le r [] = omega arith
  missing-le r (e ∷ es) = ground (arith, missing-le r es)

  -- The expansion of dependencies ends: the loop never lacks rounds, whatever the registry.
  pub resolve_dependencies-ends :
      (selected : List String) → ends (resolve_dependencies registry risks selected) ≡ true
  unfolding resolve_dependencies
  resolve_dependencies-ends selected =
      let first = initial selected in
      >>=-ends
        (expand_all registry risks (length first + length registry)
          (record { resolved = first; queue = first }))
        _
        (expand_all-ends (length first + length registry) first first
          (omega (arith, missing-le first registry)))
        (λ _ _. refl)
