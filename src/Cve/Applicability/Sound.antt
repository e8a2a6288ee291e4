-- ===== src/Cve/Applicability/Sound.antt =====
-- A CVE affects a product only through a vulnerable criterion that matches it.
use collector_security_analy.Common.{
  ◌≡◌, refl, sym, ap, ◌∙◌, inl, inr, Bool-cases, String, Bool, true, false, not, ◌&&◌, ◌||◌, Option,
  none, some, List, [], ◌∷◌, ◌++◌, arith, any, all, keep, any-append, if◌then◌else◌,
}
use collector_security_analy.Cve.Applicability.{
  Result, is_affected, is_not_affected, is_not_evaluated, is_vulnerable, first_of, joined,
  unresolved, combine_and, or_else, is_nil, combine_or, Operator, and_, or_, combine, Node, invalid,
  node, Nodes, nil, cons, evaluate_node, evaluate_nodes, evaluate_configurations, Case,
  evaluate_applicability_result, stated, is_uncertain, is_empty, or_no_version,
}

abbrev pub is_matched : Result → Bool
is_matched r = r.has_vulnerable_match

is_matched-vulnerable :
    (rs : List Result) → any is_matched (keep is_affected rs) ≡ any is_vulnerable rs
is_matched-vulnerable [] = refl
is_matched-vulnerable (r ∷ rs) = ground (arith, is_matched-vulnerable rs)

is_matched-kept : (rs : List Result) → any is_matched (keep is_vulnerable rs) ≡ any is_vulnerable rs
is_matched-kept [] = refl
is_matched-kept (r ∷ rs) = ground (arith, is_matched-kept rs)

is_nil-kept : (rs : List Result) → is_nil (keep is_vulnerable rs) ≡ not (any is_vulnerable rs)
is_nil-kept [] = refl
is_nil-kept (r ∷ rs) = ground (arith, is_nil-kept rs)

is_vulnerable-joined : (rs : List Result) → is_vulnerable (joined rs) ≡ any is_matched rs
is_vulnerable-joined [] = refl
is_vulnerable-joined (r ∷ rs) = refl

if-vulnerable :
    (b : Bool) (x y : Result) (v : Bool)
    → (b ≡ true → is_vulnerable x ≡ v)
    → (b ≡ false → is_vulnerable y ≡ v)
    → is_vulnerable (if b then x else y) ≡ v
if-vulnerable true x y v h k = h refl
if-vulnerable false x y v h k = k refl

or_else-step :
    (b : Bool) (x : Result) (rest : Option Result) (r : Result) (v : Bool)
    → (b ≡ true → is_vulnerable x ≡ v)
    → (b ≡ false → is_vulnerable (or_else rest r) ≡ v)
    → is_vulnerable (or_else (if b then some x else rest) r) ≡ v
or_else-step true x rest r v h k = h refl
or_else-step false x rest r v h k = k refl

-- The first result with a property that excludes a match, or else another
or_else-first :
    (p : Result → Bool)
    → ((x : Result) → p x ≡ true → is_vulnerable x ≡ false)
    → (rs : List Result) (r : Result) → is_vulnerable r ≡ false
    → is_vulnerable (or_else (first_of p rs) r) ≡ false
unfolding first_of
or_else-first p rules [] r h = h
or_else-first p rules (x ∷ rs) r h =
    or_else-step (p x) x (first_of p rs) r false (rules x) (λ other. or_else-first p rules rs r h)

is_not_affected-vulnerable : (x : Result) → is_not_affected x ≡ true → is_vulnerable x ≡ false
is_not_affected-vulnerable x h = ground (arith, h)

is_not_evaluated-vulnerable : (x : Result) → is_not_evaluated x ≡ true → is_vulnerable x ≡ false
is_not_evaluated-vulnerable x h = ground (arith, h)

last-vulnerable :
    (r : Result) (rs : List Result)
    → any is_vulnerable (r ∷ rs) ≡ false
    → is_vulnerable (if all is_not_affected (r ∷ rs) then r else joined (keep is_affected (r ∷ rs)))
      ≡ false
last-vulnerable r rs h =
    if-vulnerable (all is_not_affected (r ∷ rs)) _ _ false (λ every. ground (arith, h))
      (λ other.
        is_vulnerable-joined (keep is_affected (r ∷ rs)) ∙ is_matched-vulnerable (r ∷ rs) ∙ h)

-- An OR is a vulnerable match exactly where one of its results is.
is_vulnerable-combine_or :
    (r : Result) (rs : List Result) → is_vulnerable (combine_or r rs) ≡ any is_vulnerable (r ∷ rs)
unfolding combine_or
is_vulnerable-combine_or r rs =
    if-vulnerable (not (is_nil (keep is_vulnerable (r ∷ rs)))) _ _ _
      (λ found. is_vulnerable-joined (keep is_vulnerable (r ∷ rs)) ∙ is_matched-kept (r ∷ rs))
      (λ nothing.
        let missing : any is_vulnerable (r ∷ rs) ≡ false =
          ground (arith, nothing, is_nil-kept (r ∷ rs)) in
        or_else-first is_not_evaluated is_not_evaluated-vulnerable (r ∷ rs) _
          (last-vulnerable r rs missing)
        ∙ sym missing)

first-affected :
    (rs : List Result) (r : Result)
    → is_vulnerable (or_else (first_of is_not_affected rs) r)
      ≡ (not (any is_not_affected rs) && is_vulnerable r)
unfolding first_of
first-affected [] r = refl
first-affected (x ∷ rs) r =
    let rest = first-affected rs r in
    let skips = is_not_affected-vulnerable x in
    or_else-step (is_not_affected x) x (first_of is_not_affected rs) r _
      (λ e. ground (arith, e, skips e)) (λ e. ground (arith, e, rest))

unresolved-step :
    (rs : List Result) (b : Bool) (x : Result) (rest : Option Result) (v w : Bool)
    → is_vulnerable (unresolved rs rest) ≡ (v && w)
    → is_vulnerable (unresolved rs (if not b then some x else rest)) ≡ ((b && v) && w)
unresolved-step rs true x rest v w h = h
unresolved-step rs false x rest v w h = refl

unresolved-vulnerable :
    (rs xs : List Result)
    → is_vulnerable (unresolved rs (first_of (λ x. not (is_affected x)) xs))
      ≡ (all is_affected xs && any is_matched rs)
unfolding first_of
unresolved-vulnerable rs [] = is_vulnerable-joined rs
unresolved-vulnerable rs (x ∷ xs) =
    unresolved-step rs (is_affected x) x _ _ _ (unresolved-vulnerable rs xs)

all-not_affected :
    (rs : List Result) → (not (any is_not_affected rs) && all is_affected rs) ≡ all is_affected rs
all-not_affected [] = refl
all-not_affected (r ∷ rs) = ground (arith, all-not_affected rs)

-- An AND is a vulnerable match exactly where all its results are affected and one matches.
is_vulnerable-combine_and :
    (r : Result) (rs : List Result)
    → is_vulnerable (combine_and r rs) ≡ (all is_affected (r ∷ rs) && any is_matched (r ∷ rs))
unfolding combine_and
is_vulnerable-combine_and r rs =
    first-affected (r ∷ rs) _
    ∙ ap (λ b. not (any is_not_affected (r ∷ rs)) && b) (unresolved-vulnerable (r ∷ rs) (r ∷ rs))
    ∙ ground (arith, all-not_affected (r ∷ rs))

matched-vulnerable :
    (rs : List Result) → all is_affected rs ≡ true → any is_matched rs ≡ any is_vulnerable rs
matched-vulnerable [] h = refl
matched-vulnerable (r ∷ rs) h = let rest = matched-vulnerable rs in ground (arith, h, rest)

-- The results of at least one criterion, combined by OR, are a confirmed vulnerable match exactly where one of
-- them is affected and vulnerable. Combined by AND, they are exactly where all are affected and some
-- one is vulnerable.
pub is_vulnerable-combine :
    (r : Result) (rs : List Result)
    → (is_vulnerable (combine or_ (r ∷ rs)) ≡ any is_vulnerable (r ∷ rs))
      × (is_vulnerable (combine and_ (r ∷ rs))
          ≡ (all is_affected (r ∷ rs) && any is_matched (r ∷ rs)))
unfolding combine
is_vulnerable-combine r rs = (is_vulnerable-combine_or r rs, is_vulnerable-combine_and r rs)

combine-vulnerable :
    (op : Operator) (rs : List Result)
    → is_vulnerable (combine op rs) ≡ true
    → any is_vulnerable rs ≡ true
unfolding combine
combine-vulnerable op [] h = absurd (ground (arith, h))
combine-vulnerable and_ (r ∷ rs) h =
    let both = sym (is_vulnerable-combine_and r rs) ∙ h in
    sym (matched-vulnerable (r ∷ rs) (ground (arith, both))) ∙ ground (arith, both)
combine-vulnerable or_ (r ∷ rs) h = sym (is_vulnerable-combine_or r rs) ∙ h

-- Some criterion of a node is a vulnerable match.
abbrev mutual
  pub is_hit : Node → Bool
  is_hit invalid = false
  is_hit (node op lists ns ms) = is_hit_in ns || any is_vulnerable ms

  pub is_hit_in : Nodes → Bool
  is_hit_in nil = false
  is_hit_in (cons n ns) = is_hit n || is_hit_in ns

mutual
  unfolding evaluate_node

  node-hit : (n : Node) → is_vulnerable (evaluate_node n) ≡ true → is_hit n ≡ true
  node-hit invalid h = absurd (ground (arith, h))
  node-hit (node none lists ns ms) h = absurd (ground (arith, h))
  node-hit (node (some op) false ns ms) h = absurd (ground (arith, h))
  node-hit (node (some op) true ns ms) h =
      let found =
        sym (any-append is_vulnerable (evaluate_nodes ns) ms)
        ∙ combine-vulnerable op (evaluate_nodes ns ++ ms) h in
      let below = nodes-hit ns in ground (arith, found, below)

  nodes-hit : (ns : Nodes) → any is_vulnerable (evaluate_nodes ns) ≡ true → is_hit_in ns ≡ true
  nodes-hit nil h = h
  nodes-hit (cons n ns) h =
      let first = node-hit n in let rest = nodes-hit ns in ground (arith, h, first, rest)

configurations-hit :
    (ns : Nodes) → is_affected (evaluate_configurations ns) ≡ true → is_hit_in ns ≡ true
unfolding evaluate_configurations
configurations-hit ns h =
    let r = combine or_ (evaluate_nodes ns) in
    let step : is_vulnerable r ≡ true → is_hit_in ns ≡ true =
      λ v. nodes-hit ns (combine-vulnerable or_ (evaluate_nodes ns) v) in
    elim (Bool-cases (is_affected r && not r.has_vulnerable_match)) [
      | inl open_ ↦ absurd (ground (arith, open_, h))
      | inr closed ↦ step (ground (arith, closed, h))
    ]

or_no_version-affected :
    (o : Option String) (r : Result)
    → is_affected (or_no_version o r) ≡ true
    → (o ≡ none) × (is_affected r ≡ true)
or_no_version-affected none r h = (refl, h)
or_no_version-affected (some t) r h = absurd (ground (arith, h))

if-affected :
    (b : Bool) (x y : Result)
    → is_affected x ≡ false
    → is_affected (if b then x else y) ≡ true
    → (b ≡ false) × (is_affected y ≡ true)
if-affected true x y n h = absurd (ground (arith, n, h))
if-affected false x y n h = (refl, h)

-- A CVE is found to affect a product only where the identity of the product is certain, its version is
-- evidenced, the record is active, and some criterion of its configurations is affected and vulnerable.
pub evaluate_applicability_result-criterion :
    (c : Case)
    → is_affected (evaluate_applicability_result c) ≡ true
    → (is_uncertain c ≡ false)
      × (stated c.version_reason ≡ none)
      × (c.is_rejected ≡ false)
      × (c.has_no_id ≡ false)
      × (is_hit_in c.configurations ≡ true)
unfolding evaluate_applicability_result
evaluate_applicability_result-criterion c h =
    let sure = if-affected (is_uncertain c) _ _ refl h in
    let versioned = or_no_version-affected (stated c.version_reason) _ sure.1 in
    let present = if-affected (is_empty c.configurations) _ _ refl versioned.1 in
    let active = if-affected (c.is_rejected || c.has_no_id) _ _ refl present.1 in
    let hit = configurations-hit c.configurations active.1 in
    (sure.0, versioned.0, ground (arith, active.0), ground (arith, active.0), hit)
