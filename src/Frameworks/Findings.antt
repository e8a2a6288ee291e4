-- ===== src/Frameworks/Findings.antt =====
-- frameworks/evaluator.py: _findings_by_rule, the status of each rule with findings; and the results of
-- calls that raise.
pub mod Worst
pub mod Clashes
use collector_security_analy.Common.{
  ℕ, Bool, true, false, Option, none, some, List, [], ◌∷◌, ltb, if◌then◌else◌, ◌≡◌, refl,
}
use collector_security_analy.Common.Dict.{Dict, lookup, insert}
use collector_security_analy.Frameworks.{
  FindingStatus, pass, fail, warning, info, not_evaluated, partial, not_applicable, error, Finding,
}

-- `FrameworkPackError`, by its message, and the `KeyError` of a dictionary
pub data PackError : Type 0 where
  provisional_in_active unreviewed not_assessable_pack missing_key : PackError

pub data Evaluated (A : Type 0) : Type 0 where
  ok : A → Evaluated A
  raises : PackError → Evaluated A

abbrev pub and_then : {A B : Type 0} → (A → Evaluated B) → Evaluated A → Evaluated B
and_then next (ok a) = next a
and_then next (raises e) = raises e

-- A value that is there comes from the first call and from the rest at its value.
pub and_then-ok :
    {A B : Type 0} (next : A → Evaluated B) (call : Evaluated A) {b : B}
    → and_then next call ≡ ok b
    → (a : A) × (call ≡ ok a) × (next a ≡ ok b)
and_then-ok next (ok a) h = (a, refl, h)
and_then-ok next (raises e) h = cc h

pub ok-injective : {A : Type 0} {a b : A} → ok a ≡ ok b → a ≡ b
ok-injective h = cc h

-- `if b: raise e`, passed
pub unless-ok :
    {A : Type 0} (b : Bool) (e : PackError) (rest : Evaluated A) {a : A}
    → (if b then raises e else rest) ≡ ok a
    → (b ≡ false) × (rest ≡ ok a)
unless-ok true e rest h = cc h
unless-ok false e rest h = (refl, h)

-- The table `priority`, which has no entry for PARTIAL
abbrev pub priority : FindingStatus → Option ℕ
priority error = some 6
priority fail = some 5
priority warning = some 4
priority not_evaluated = some 3
priority info = some 2
priority not_applicable = some 1
priority pass = some 0
priority partial = none

abbrev compare_priorities : Option ℕ → Option ℕ → Option Bool
compare_priorities (some p) (some q) = some (ltb q p)
compare_priorities _ _ = none

-- `priority[status] > priority[other]`
abbrev pub is_higher : FindingStatus → FindingStatus → Option Bool
is_higher status other = compare_priorities (priority status) (priority other)

abbrev pub replace : Finding → Dict FindingStatus → Option Bool → Evaluated (Dict FindingStatus)
replace f found none = raises missing_key
replace f found (some higher) = ok (if higher then insert f.rule_id f.status found else found)

abbrev pub place_by :
    Finding → Dict FindingStatus → Option FindingStatus → Evaluated (Dict FindingStatus)
place_by f found none = ok (insert f.rule_id f.status found)
place_by f found (some other) = replace f found (is_higher f.status other)

-- One finding
unfoldable pub place : Finding → Dict FindingStatus → Evaluated (Dict FindingStatus)
place f found = place_by f found (lookup f.rule_id found)

unfoldable pub collect : List Finding → Dict FindingStatus → Evaluated (Dict FindingStatus)
collect [] found = ok found
collect (f ∷ fs) found = and_then (collect fs) (place f found)

-- `_findings_by_rule`
abbrev pub findings_by_rule : List Finding → Evaluated (Dict FindingStatus)
findings_by_rule fs = collect fs []
