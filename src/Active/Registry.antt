-- ===== src/Active/Registry.antt =====
-- active_validation/registry.py: what a registry that is loaded can rely on.
use collector_security_analy.Common.{
  ◌≡◌, sym, subst, ◌∙◌, Bool, true, false, not, ◌&&◌, List, [], ◌∷◌, ◌++◌, arith, All,
}
use collector_security_analy.Active.Outcome.{
  ok, require-eq-ok, >>=-eq-ok, ok-injective, duplicate_entry, prohibited_active,
}
use collector_security_analy.Active.Model.{
  prohibited, same_risk, is_active, Entry, Definition, definition, get, is_none, register,
  load_registry,
}

-- Where `definition` returns, it returns what the class describes.
definition-eq-ok :
    (e : Entry) (d : Definition) → definition e ≡ ok d → definition e ≡ ok e.described
unfolding definition
definition-eq-ok e d h = ground (arith, h)

-- An entry of a registry that is loaded
pub record IsRegistered (e : Entry) : Type 0 where
  pub defined : definition e ≡ ok e.described
  pub not_prohibited : (same_risk e.described.risk_level prohibited && is_active e.status) ≡ false

All-concat :
    {A : Type 0} (P : A → Type 0) (xs : List A) (x : A) → All P xs → P x → All P (xs ++ x ∷ [])
All-concat P [] x a p = (p, tt)
All-concat P (y ∷ ys) x a p = (a.0, All-concat P ys x a.1 p)

register-IsRegistered :
    (done es out : List Entry)
    → register done es ≡ ok out
    → All IsRegistered done
    → All IsRegistered out
unfolding register
register-IsRegistered done [] out h a = subst (All IsRegistered) (ok-injective h) a
register-IsRegistered done (e ∷ es) out h a =
    let fresh = require-eq-ok (is_none (get e.validator_id done)) duplicate_entry _ h in
    let (d, found, rest) = >>=-eq-ok (definition e) _ fresh.1 in
    let defined = definition-eq-ok e d found in
    let same : d ≡ e.described = ok-injective (sym found ∙ defined) in
    let tame =
      require-eq-ok (not (same_risk d.risk_level prohibited && is_active e.status))
        prohibited_active _ rest in
    let calm : not (same_risk e.described.risk_level prohibited && is_active e.status) ≡ true =
      subst
        (λ (x : Definition). not (same_risk x.risk_level prohibited && is_active e.status) ≡ true)
        same tame.0 in
    register-IsRegistered (done ++ e ∷ []) es out tame.1 (
      All-concat IsRegistered done e a
        (record { defined = defined; not_prohibited = not-true _ calm }))
  where
    not-true : (b : Bool) → not b ≡ true → b ≡ false
    not-true b k = ground (arith, k)

-- In a registry that is loaded, `definition` returns what the class of an entry describes, and no active
-- validator is of prohibited risk.
pub load_registry-IsRegistered :
    (es out : List Entry) → load_registry es ≡ ok out → All IsRegistered out
unfolding load_registry
load_registry-IsRegistered es out h = register-IsRegistered [] es out h tt
