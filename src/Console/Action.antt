-- ===== src/Console/Action.antt =====
-- A service call: it reads and writes the files of one assessment, and returns or raises. What was
-- written before a raise stays written, so the state comes back beside the exception too.
use collector_security_analy.Common.{
  ◌≡◌, refl, Bool, true, false, Option, none, some, if◌then◌else◌,
}
use collector_security_analy.Console.Fault.{Fault}

pub data Result {ℓ} (A : Type ℓ) : Type ℓ where
  ok : A → Result A
  err : Fault → Result A

abbrev pub is_ok {ℓ} : {A : Type ℓ} → Result A → Bool
is_ok (ok _) = true
is_ok (err _) = false

abbrev pub Action {ℓ} : Type ℓ → Type ℓ → Type ℓ
Action S A = S → Result A × S

module _ {ℓ} {S A : Type ℓ} where
  abbrev pub pure : A → Action S A
  pure a s = (ok a, s)

  abbrev pub raise : Fault → Action S A
  raise e s = (err e, s)

  abbrev pub lift : Result A → Action S A
  lift r s = (r, s)

  abbrev pub gets : (S → A) → Action S A
  gets f s = (ok (f s), s)

  abbrev pub or_raise : Option A → Fault → Action S A
  or_raise none e = raise e
  or_raise (some a) e = pure a

module _ {ℓ} {S A B : Type ℓ} where
  abbrev pub continue : Result A → (A → Action S B) → Action S B
  continue (ok a) f s = f a s
  continue (err e) f s = (err e, s)

  infixl 10 ◌>>=◌ ◌>>◌
  unfoldable pub ◌>>=◌ : Action S A → (A → Action S B) → Action S B
  ◌>>=◌ m f s = continue (m s).0 f (m s).1

  abbrev pub ◌>>◌ : Action S A → Action S B → Action S B
  m >> k = m >>= λ _. k

-- `try: m` with a handler for the exceptions that `caught` accepts.
module _ {ℓ} {S A : Type ℓ} where
  abbrev pub handled : (Fault → Bool) → (Fault → Action S A) → Result A → Action S A
  handled caught h (ok a) s = (ok a, s)
  handled caught h (err e) s = if caught e then h e s else (err e, s)

  unfoldable pub try_except : (Fault → Bool) → Action S A → (Fault → Action S A) → Action S A
  try_except caught m h s = handled caught h (m s).0 (m s).1

abbrev pub modify : {S : Type 0} → (S → S) → Action S Unit
modify f s = (ok tt, f s)

abbrev pub raise_if : {S : Type 0} → Bool → Fault → Action S Unit
raise_if b e s = (if b then err e else ok tt, s)

-- The same check outside of a state.
abbrev pub require : Bool → Fault → Result (Unit {0})
require true e = ok tt
require false e = err e

-- A call that returned has returned from its first part, and the rest ran from there.
module _ {S A B : Type 0} where
  pub >>=-eq-ok :
      (m : Action S A) (f : A → Action S B) (s : S) {b : B} {u : S}
      → (m >>= f) s ≡ (ok b, u)
      → (a : A) × ((m s).0 ≡ ok a) × (f a (m s).1 ≡ (ok b, u))
  unfolding ◌>>=◌
  >>=-eq-ok m f s {b} {u} h = go (m s).0 (m s).1 h
    where
      go :
          (r : Result A) (t : S)
          → continue r f t ≡ (ok b, u)
          → (a : A) × (r ≡ ok a) × (f a t ≡ (ok b, u))
      go (ok a) t e = (a, refl, e)
      go (err x) t e = cc
