-- ===== src/Frameworks/Findings/Clashes.antt =====
-- When the status of every rule is found.
use collector_security_analy.Common.{
  ◌≡◌, refl, ap, ◌∙◌, Bool, true, false, not, ◌&&◌, ◌||◌, Option, none, some, List, [], ◌∷◌, arith,
  any, any_ext, str_eq, eq_iff, Bool-cases, Option-cases, inl, inr, subst,
}
use collector_security_analy.Common.Dict.{Dict, lookup}
use collector_security_analy.Frameworks.{FindingStatus, partial, Finding}
use collector_security_analy.Frameworks.Findings.{
  Evaluated, ok, raises, and_then, place, place_by, collect, is_higher, findings_by_rule,
}
use collector_security_analy.Frameworks.Findings.Worst.{
  is_about, IsMerged, place-IsMerged, place-other,
}

abbrev pub is_partial : FindingStatus → Bool
is_partial partial = true
is_partial _ = false

-- Two findings of one rule, one of which is PARTIAL
abbrev pub clash : Finding → Finding → Bool
clash f g = str_eq f.rule_id g.rule_id && (is_partial f.status || is_partial g.status)

abbrev pub clashes : List Finding → Bool
clashes [] = false
clashes (f ∷ fs) = any (clash f) fs || clashes fs

abbrev pub returns : {A : Type 0} → Evaluated A → Bool
returns (ok a) = true
returns (raises e) = false

-- A finding that clashes with the status that its rule has
abbrev clash_by : Finding → Option FindingStatus → Bool
clash_by f none = false
clash_by f (some t) = is_partial f.status || is_partial t

abbrev clash_with : Dict FindingStatus → Finding → Bool
clash_with d f = clash_by f (lookup f.rule_id d)

higher-none :
    (s t : FindingStatus)
    → (is_higher s t ≡ none → (is_partial s || is_partial t) ≡ true)
      × ((b : Bool) → is_higher s t ≡ some b → (is_partial s ≡ false) × (is_partial t ≡ false))
higher-none s t = (λ h. ground (arith, h), λ b h. (ground (arith, h), ground (arith, h)))

place_by-returns :
    (f : Finding) (d : Dict FindingStatus) (o : Option FindingStatus)
    → returns (place_by f d o) ≡ not (clash_by f o)
place_by-returns f d none = refl
place_by-returns f d (some t) = elim (Option-cases (is_higher f.status t)) [
  | inl undefined ↦ ground (arith, undefined, (higher-none f.status t).0 undefined)
  | inr (b, higher) ↦ ground (arith, higher, (higher-none f.status t).1 b higher)
]

clash-merged :
    (s : FindingStatus) (g : Finding) (o p : Option FindingStatus)
    → IsMerged s o p
    → clash_by g p ≡ ((is_partial s || is_partial g.status) || clash_by g o)
clash-merged s g none p h = ground (arith, h)
clash-merged s g (some t) p (b, higher, h) = ground (arith, h, (higher-none s t).1 b higher)

-- What clashes after a finding is what clashed before it, or with it.
place-clash :
    (f g : Finding) (d e : Dict FindingStatus)
    → place f d ≡ ok e
    → clash_with e g ≡ (clash f g || clash_with d g)
place-clash f g d e h = elim (Bool-cases (is_about g.rule_id f)) [
  | inl own ↦
      let same : f.rule_id ≡ g.rule_id = ground (arith, own, eq_iff f.rule_id g.rule_id) in
      let merged =
        subst (λ r. IsMerged f.status (lookup r d) (lookup r e)) same (place-IsMerged f d e h) in
      ground (arith, own, clash-merged f.status g (lookup g.rule_id d) (lookup g.rule_id e) merged)
  | inr other ↦ ground (arith, other, ap (clash_by g) (place-other g.rule_id f d e other h))
]

any-either :
    (p q : Finding → Bool) (fs : List Finding) → any (λ f. p f || q f) fs ≡ (any p fs || any q fs)
any-either p q [] = refl
any-either p q (f ∷ fs) = ground (arith, any-either p q fs)

collect-returns :
    (fs : List Finding) (d : Dict FindingStatus)
    → returns (collect fs d) ≡ not (any (clash_with d) fs || clashes fs)
unfolding collect place
collect-returns [] d = refl
collect-returns (f ∷ fs) d = next (collect-returns fs) (place f d) refl
  where
    next :
        ((e : Dict FindingStatus)
          → returns (collect fs e) ≡ not (any (clash_with e) fs || clashes fs))
        → (placed : Evaluated (Dict FindingStatus)) → place f d ≡ placed
        → returns (and_then (collect fs) placed)
          ≡ not ((clash_with d f || any (clash_with d) fs) || (any (clash f) fs || clashes fs))
    next ih (raises e) h = ground (arith, place_by-returns f d (lookup f.rule_id d), ap returns h)
    next ih (ok e) h =
        let rest =
          any_ext (clash_with e) (λ g. clash f g || clash_with d g) (λ g. place-clash f g d e h) fs
          ∙ any-either (clash f) (clash_with d) fs in
        ground (arith, place_by-returns f d (lookup f.rule_id d), ap returns h, rest, ih e)

nothing_clashes : (fs : List Finding) → any (clash_with []) fs ≡ false
unfolding lookup
nothing_clashes [] = refl
nothing_clashes (f ∷ fs) = nothing_clashes fs

-- The statuses of rules are found exactly where no rule has a PARTIAL finding and another one.
pub findings_by_rule-returns :
    (fs : List Finding) → returns (findings_by_rule fs) ≡ not (clashes fs)
findings_by_rule-returns fs = ground (arith, collect-returns fs [], nothing_clashes fs)
