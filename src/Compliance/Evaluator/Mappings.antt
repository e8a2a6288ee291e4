-- ===== src/Compliance/Evaluator/Mappings.antt =====
-- What the mapping of a rule to a control does to the evidence of a finding.
use collector_security_analy.Common.{
  ◌≡◌, refl, sym, subst, ◌∙◌, String, Bool, true, false, ◌&&◌, none, some, List, [], ◌∷◌, arith,
  str_eq, eq_iff, ap, if◌then◌else◌, any, any-keep, keep, Bool-cases, inl, inr,
}
use mathlib.Core.List.{Memᴰ}
use collector_security_analy.Compliance.{Mapping}
use collector_security_analy.Compliance.Selection.{is_better, best, best_of, select_mapping}

abbrev names_rule : String → Mapping → Bool
names_rule rule m = str_eq m.rule_id rule

better_trans :
    (a b c : Mapping) → is_better a b ≡ false → is_better b c ≡ false → is_better a c ≡ false
better_trans a b c h k = ground (arith, h, k)

better_asym : (a b : Mapping) → is_better a b ≡ true → is_better b a ≡ false
better_asym a b h = ground (arith, h)

-- Neither the first mapping nor a later one is better than the best.
best-best :
    (m : Mapping) (ns : List Mapping)
    → (is_better m (best m ns) ≡ false) × (any (λ n. is_better n (best m ns)) ns ≡ false)
unfolding best
best-best m [] = (ground arith, refl)
best-best m (n ∷ ns) = elim (Bool-cases (is_better n m)) [
  | inl better ↦
      let i = best-best n ns in
      let same : best m (n ∷ ns) ≡ best n ns = ground (arith, better) in
      ground (arith, same, i, better_trans m n (best n ns) (better_asym n m better) i.0)
  | inr worse ↦
      let i = best-best m ns in
      let same : best m (n ∷ ns) ≡ best m ns = ground (arith, worse) in
      ground (arith, same, i, better_trans n m (best m ns) worse i.0)
]

select_step :
    (rule : String) (ms ks : List Mapping) (m : Mapping)
    → keep (names_rule rule) ms ≡ ks
    → best_of ks ≡ some m
    → any (λ n. is_better n m) ks ≡ false
unfolding best
select_step rule ms [] m k h = refl
select_step rule ms (x ∷ xs) m k h =
    let same : best x xs ≡ m = ground (arith, h) in
    subst (λ m. any (λ n. is_better n m) (x ∷ xs) ≡ false) same (ground (arith, best-best x xs))

later_member : (m x y : Mapping) (ns : List Mapping) → Memᴰ m (x ∷ ns) → Memᴰ m (x ∷ y ∷ ns)
later_member m x y ns (Memᴰ.head same) = Memᴰ.head same
later_member m x y ns (Memᴰ.tail later) = Memᴰ.tail (Memᴰ.tail later)

best_member : (m : Mapping) (ns : List Mapping) → Memᴰ (best m ns) (m ∷ ns)
unfolding best
best_member m [] = Memᴰ.head refl
best_member m (n ∷ ns) = elim (Bool-cases (is_better n m)) [
  | inl better ↦ rw better (Memᴰ.tail (best_member n ns))
  | inr worse ↦ rw worse (later_member (best m ns) m n ns (best_member m ns))
]

best_of_member : (ns : List Mapping) (m : Mapping) → best_of ns ≡ some m → Memᴰ m ns
best_of_member [] m h = absurd (ground (arith, h))
best_of_member (n ∷ ns) m h = subst (λ x. Memᴰ x (n ∷ ns)) (ground (arith, h)) (best_member n ns)

keep_member :
    (p : Mapping → Bool) (m : Mapping) (ns : List Mapping)
    → Memᴰ m (keep p ns)
    → Memᴰ m ns × (p m ≡ true)
keep_member p m [] h = elim h [ ]
keep_member p m (n ∷ ns) h = go (keep_member p m ns) (p n) refl h
  where
    go :
        (Memᴰ m (keep p ns) → Memᴰ m ns × (p m ≡ true))
        → (b : Bool) → p n ≡ b
        → Memᴰ m (if b then n ∷ keep p ns else keep p ns)
        → Memᴰ m (n ∷ ns) × (p m ≡ true)
    go ih true e (Memᴰ.head same) = (Memᴰ.head same, ap p same ∙ e)
    go ih true e (Memᴰ.tail later) = let rest = ih later in (Memᴰ.tail rest.0, rest.1)
    go ih false e later = let rest = ih later in (Memᴰ.tail rest.0, rest.1)

-- The mapping that is selected for a rule is one of the mappings, is for the rule, and no mapping for the rule
-- comes before it, where validated mappings come first and then those of more confidence; and where one
-- exists, one is selected.
pub select_mapping-best :
    (ms : List Mapping) (rule : String)
    → ((m : Mapping)
        → select_mapping ms rule ≡ some m
        → Memᴰ m ms
          × (m.rule_id ≡ rule)
          × (any (λ n. str_eq n.rule_id rule && is_better n m) ms ≡ false))
      × (select_mapping ms rule ≡ none → any (λ n. str_eq n.rule_id rule) ms ≡ false)
unfolding select_mapping
select_mapping-best ms rule = (
  λ m h.
      let member = best_of_member (keep (names_rule rule) ms) m h in
      let own = keep_member (names_rule rule) m ms member in
      (
        own.0,
        (eq_iff m.rule_id rule).0 own.1,
        sym (any-keep (names_rule rule) (λ n. is_better n m) ms)
            ∙ select_step rule ms (keep (names_rule rule) ms) m refl h,
      ),
  λ h. none_selected ms h,
)
  where
    none_selected :
        (ms : List Mapping)
        → best_of (keep (names_rule rule) ms) ≡ none
        → any (names_rule rule) ms ≡ false
    none_selected [] h = refl
    none_selected (m ∷ ms) h = elim (Bool-cases (names_rule rule m)) [
      | inl own ↦ absurd (ground (arith, own, h))
      | inr other ↦ ground (arith, other, h, none_selected ms)
    ]
