-- ===== src/Common/Lists.antt =====
-- Lists measured by native numbers, and the Boolean quantifiers of Python's `any`, `all` and `in`.
use Prim.Native.Nat.{ℕ, suc, ◌≤◌}
use Prim.Native.String.{String}
use mathlib.Core.Path.{◌≡◌, refl}
use mathlib.Core.Bool.{Bool, true, false, not, ◌&&◌, ◌||◌}
use mathlib.Core.List.{List, [], ◌∷◌, ◌++◌, map}
use native.Mathlib.Omega.{arith}
use text.Mathlib.TextEquality.{eq_iff}
use collector_security_analy.Common.Tests.{str_eq, ◌==◌, if◌then◌else◌}

module _ {ℓ} {A : Type ℓ} where
  abbrev pub length : List A → ℕ
  length [] = 0
  length (x ∷ xs) = suc (length xs)

  abbrev pub any : (A → Bool) → List A → Bool
  any p [] = false
  any p (x ∷ xs) = p x || any p xs

  abbrev pub all : (A → Bool) → List A → Bool
  all p [] = true
  all p (x ∷ xs) = p x && all p xs

  abbrev pub is_empty : List A → Bool
  is_empty [] = true
  is_empty (_ ∷ _) = false

  -- `[x for x in xs if p(x)]`
  abbrev pub keep : (A → Bool) → List A → List A
  keep p [] = []
  keep p (x ∷ xs) = let rest = keep p xs in if p x then x ∷ rest else rest

  abbrev pub All {κ} : (A → Type κ) → List A → Type κ
  All P [] = Unit
  All P (x ∷ xs) = P x × All P xs

  pub length-keep : (p : A → Bool) (xs : List A) → length (keep p xs) ≤ length xs
  length-keep p [] = omega arith
  length-keep p (x ∷ xs) = ground (arith, length-keep p xs)

  pub any-append : (p : A → Bool) (xs ys : List A) → any p (xs ++ ys) ≡ (any p xs || any p ys)
  any-append p [] ys = refl
  any-append p (x ∷ xs) ys = ground (arith, any-append p xs ys)

  pub any_ext : (p q : A → Bool) → ((x : A) → p x ≡ q x) → (xs : List A) → any p xs ≡ any q xs
  any_ext p q h [] = refl
  any_ext p q h (x ∷ xs) = ground (arith, h x, any_ext p q h xs)

  pub all_ext : (p q : A → Bool) → ((x : A) → p x ≡ q x) → (xs : List A) → all p xs ≡ all q xs
  all_ext p q h [] = refl
  all_ext p q h (x ∷ xs) = ground (arith, h x, all_ext p q h xs)

  pub any-keep : (p q : A → Bool) (xs : List A) → any q (keep p xs) ≡ any (λ x. p x && q x) xs
  any-keep p q [] = refl
  any-keep p q (x ∷ xs) = ground (arith, any-keep p q xs)

  pub all-keep : (p q : A → Bool) (xs : List A) → all q (keep p xs) ≡ all (λ x. not (p x) || q x) xs
  all-keep p q [] = refl
  all-keep p q (x ∷ xs) = ground (arith, all-keep p q xs)

  pub is_empty-keep : (p : A → Bool) (xs : List A) → is_empty (keep p xs) ≡ not (any p xs)
  is_empty-keep p [] = refl
  is_empty-keep p (x ∷ xs) = ground (arith, is_empty-keep p xs)

  -- Keeping loses nothing exactly where all elements pass.
  pub length-keep_all : (p : A → Bool) (xs : List A) → (length (keep p xs) == length xs) ≡ all p xs
  length-keep_all p [] = refl
  length-keep_all p (x ∷ xs) = ground (arith, length-keep_all p xs, length-keep p xs)

-- A relation of the elements of two lists of one length, in their order
abbrev pub Together {ℓ κ} : {A : Type ℓ} {B : Type κ} → (A → B → Type 0) → List A → List B → Type 0
Together R [] [] = Unit
Together R (x ∷ xs) (y ∷ ys) = R x y × Together R xs ys
Together R _ _ = ⊥

pub Together-map {ℓ κ} :
    {A : Type ℓ} {B : Type κ} (R : A → B → Type 0) (f : A → B)
    → ((x : A) → R x (f x))
    → (xs : List A) → Together R xs (map f xs)
Together-map R f h [] = tt
Together-map R f h (x ∷ xs) = (h x, Together-map R f h xs)

-- `text in texts`
abbrev pub contains : String → List String → Bool
contains t = any (str_eq t)

-- `len(texts) == len(set(texts))`
abbrev pub are_distinct : List String → Bool
are_distinct [] = true
are_distinct (t ∷ ts) = not (contains t ts) && are_distinct ts

pub contains-append_self : (t : String) (ts : List String) → contains t (ts ++ t ∷ []) ≡ true
contains-append_self t [] = ground (arith, eq_iff t t)
contains-append_self t (x ∷ ts) = ground (arith, contains-append_self t ts)
