-- ===== src/Console/Keeps.antt =====
-- Properties of the files that an action keeps, whether it returns or raises: a rule for each way in
-- which the services build their actions.
use collector_security_analy.Common.{Bool, true, false, Option, none, some, if◌then◌else◌}
use collector_security_analy.Console.Fault.{Fault}
use collector_security_analy.Console.Action.{
  Action, Result, ok, err, pure, raise, lift, gets, or_raise, modify, raise_if, continue, handled,
  try_except, ◌>>=◌,
}

pub record Keeps {S A : Type 0} (P : S → Type 0) (m : Action S A) : Type 0 where
  pub at : (s : S) → P s → P (m s).1

module _ {S A : Type 0} {P : S → Type 0} where
  pub Keeps-pure : (a : A) → Keeps P (pure a)
  Keeps-pure a = record { at = λ s p. p }

  pub Keeps-raise : (e : Fault) → Keeps P (raise {A = A} e)
  Keeps-raise e = record { at = λ s p. p }

  pub Keeps-lift : (r : Result A) → Keeps P (lift r)
  Keeps-lift r = record { at = λ s p. p }

  pub Keeps-gets : (f : S → A) → Keeps P (gets f)
  Keeps-gets f = record { at = λ s p. p }

  pub Keeps-or_raise : (o : Option A) (e : Fault) → Keeps P (or_raise o e)
  Keeps-or_raise none e = record { at = λ s p. p }
  Keeps-or_raise (some a) e = record { at = λ s p. p }

  pub Keeps-if :
      (b : Bool) (m n : Action S A) → Keeps P m → Keeps P n → Keeps P (if b then m else n)
  Keeps-if true m n km kn = km
  Keeps-if false m n km kn = kn

  handled_keeps :
      (caught : Fault → Bool) (k : Fault → Action S A) (r : Result A) (s : S)
      → ((e : Fault) → Keeps P (k e))
      → P s
      → P (handled caught k r s).1
  handled_keeps caught k (ok a) s kk p = p
  handled_keeps caught k (err e) s kk p = go (caught e)
    where
      go : (b : Bool) → P (if b then k e s else (err e, s)).1
      go true = (kk e).at s p
      go false = p

  pub Keeps-try_except :
      (caught : Fault → Bool) (m : Action S A) (k : Fault → Action S A)
      → Keeps P m
      → ((e : Fault) → Keeps P (k e))
      → Keeps P (try_except caught m k)
  unfolding try_except
  Keeps-try_except caught m k km kk = record {
    at = λ s p. handled_keeps caught k (m s).0 (m s).1 kk (km.at s p);
  }

module _ {S : Type 0} {P : S → Type 0} where
  pub Keeps-raise_if : (b : Bool) (e : Fault) → Keeps P (raise_if {S = S} b e)
  Keeps-raise_if b e = record { at = λ s p. p }

  pub Keeps-modify : (f : S → S) → ((s : S) → P s → P (f s)) → Keeps P (modify f)
  Keeps-modify f k = record { at = k }

module _ {S A B : Type 0} {P : S → Type 0} where
  continue_keeps :
      (r : Result A) (f : A → Action S B) (s : S)
      → ((a : A) → Keeps P (f a))
      → P s
      → P (continue r f s).1
  continue_keeps (ok a) f s kf p = (kf a).at s p
  continue_keeps (err e) f s kf p = p

  pub Keeps-bind :
      (m : Action S A) (f : A → Action S B)
      → Keeps P m
      → ((a : A) → Keeps P (f a))
      → Keeps P (m >>= f)
  unfolding ◌>>=◌
  Keeps-bind m f km kf = record { at = λ s p. continue_keeps (m s).0 f (m s).1 kf (km.at s p) }

pub ruleset keeps_rules = (
  Keeps-pure, Keeps-raise, Keeps-lift, Keeps-gets, Keeps-or_raise, Keeps-if, Keeps-try_except,
  Keeps-raise_if, Keeps-bind,
)
