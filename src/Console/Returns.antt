-- ===== src/Console/Returns.antt =====
-- What an action that returned has run, and actions that only raise.
use collector_security_analy.Common.{◌≡◌, refl, ap, Bool, true, false, arith, if◌then◌else◌}
use collector_security_analy.Console.Fault.{Fault}
use collector_security_analy.Console.Action.{
  Action, Result, ok, err, is_ok, pure, continue, handled, try_except, ◌>>=◌,
}

module _ {S A B : Type 0} where
  continue_ok :
      (r : Result A) (k : A → Action S B) (t : S) {b : B} {u : S}
      → continue r k t ≡ (ok b, u)
      → (a : A) × (r ≡ ok a) × (k a t ≡ (ok b, u))
  continue_ok (ok a) k t e = (a, refl, e)
  continue_ok (err x) k t e = cc

  pub bind_ok :
      (m : Action S A) (k : A → Action S B) (s : S) {b : B} {u : S}
      → (m >>= k) s ≡ (ok b, u)
      → (a : A) × (t : S) × (m s ≡ (ok a, t)) × (k a t ≡ (ok b, u))
  unfolding ◌>>=◌
  bind_ok m k s e =
      let c = continue_ok (m s).0 k (m s).1 e in (c.0, (m s).1, ap (λ r. (r, (m s).1)) c.1, c.2)

-- An action that never returns.
pub record NeverReturns {S A : Type 0} (m : Action S A) : Type 0 where
  pub at : (s : S) → is_ok (m s).0 ≡ false

module _ {S A B : Type 0} where
  continue_raises :
      (r : Result A) (k : A → Action S B) (t : S)
      → ((a : A) → NeverReturns (k a))
      → is_ok (continue r k t).0 ≡ false
  continue_raises (ok a) k t n = (n a).at t
  continue_raises (err e) k t n = refl

  pub NeverReturns-bind :
      (m : Action S A) (k : A → Action S B)
      → ((a : A) → NeverReturns (k a))
      → NeverReturns (m >>= k)
  unfolding ◌>>=◌
  NeverReturns-bind m k n = record { at = λ s. continue_raises (m s).0 k (m s).1 n }

module _ {S A : Type 0} where
  pub never : (m : Action S A) (s : S) {a : A} {u : S} → NeverReturns m → m s ≡ (ok a, u) → ⊥
  never m s n e = ground (arith, n.at s, e)

  pair_eq :
      (r : Result A) (s : S) {t : Result A} {u : S}
      → r ≡ t
      → s ≡ u
      → ◌≡◌ {A = Result A × S} (r, s) (t, u)
  pair_eq r s p q = cc

  handled_ok :
      (caught : Fault → Bool) (k : Fault → Action S A) (r : Result A) (s : S) {a : A} {u : S}
      → ((e : Fault) → NeverReturns (k e))
      → handled caught k r s ≡ (ok a, u)
      → (r ≡ ok a) × (s ≡ u)
  handled_ok caught k (ok a) s n e = (ground (arith, e), ground (arith, e))
  handled_ok caught k (err x) s n e = absurd (ground (arith, (n x).at s, e))

  pub try_ok :
      (caught : Fault → Bool) (m : Action S A) (k : Fault → Action S A) (s : S) {a : A} {u : S}
      → ((e : Fault) → NeverReturns (k e))
      → try_except caught m k s ≡ (ok a, u)
      → m s ≡ (ok a, u)
  unfolding try_except
  try_ok caught m k s n e =
      let p = handled_ok caught k (m s).0 (m s).1 n e in pair_eq (m s).0 (m s).1 p.0 p.1

  pub unless_ok :
      (b : Bool) (x : A) (m : Action S A) (s : S) {a : A} {u : S}
      → NeverReturns m
      → (if b then m else pure x) s ≡ (ok a, u)
      → (b ≡ false) × (s ≡ u)
  unless_ok true x m s n e = absurd (never m s n e)
  unless_ok false x m s n e = (refl, ap (λ r. r.1) e)

  pub provided_ok :
      (b : Bool) (x : A) (m : Action S A) (s : S) {a : A} {u : S}
      → NeverReturns m
      → (if b then pure x else m) s ≡ (ok a, u)
      → (b ≡ true) × (s ≡ u)
  provided_ok true x m s n e = (refl, ap (λ r. r.1) e)
  provided_ok false x m s n e = absurd (never m s n e)

  pub otherwise_ok :
      (b : Bool) (m n : Action S A) (s : S) {a : A} {u : S}
      → NeverReturns m
      → (if b then m s else n s) ≡ (ok a, u)
      → (b ≡ false) × (n s ≡ (ok a, u))
  otherwise_ok true m n s r e = absurd (never m s r e)
  otherwise_ok false m n s r e = (refl, e)
