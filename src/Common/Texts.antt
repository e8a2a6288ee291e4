-- ===== src/Common/Texts.antt =====
-- Sets of texts as lists, and their order.
use Prim.Native.String.{String, compare}
use Prim.Native.Nat.{Ordering}
use mathlib.Core.Path.{◌≡◌, refl}
use mathlib.Core.Bool.{Bool, true, false, ◌||◌}
use mathlib.Core.List.{List, [], ◌∷◌}
use native.Mathlib.Omega.{arith}
use collector_security_analy.Common.Tests.{str_eq, if◌then◌else◌}
use collector_security_analy.Common.Lists.{contains}

-- Python orders texts by code points.
abbrev pub text_le : String → String → Bool
text_le a b = elim (compare a b) [ Ordering.gt ↦ false | _ ↦ true ]

unfoldable pub insert_sorted : String → List String → List String
insert_sorted t [] = t ∷ []
insert_sorted t (x ∷ xs) = if text_le t x then t ∷ x ∷ xs else x ∷ insert_sorted t xs

-- `set(values)`
unfoldable pub as_set : List String → List String
as_set [] = []
as_set (x ∷ xs) = let rest = as_set xs in if contains x rest then rest else x ∷ rest

-- `sorted(values)`
unfoldable pub sorted : List String → List String
unfolding insert_sorted
sorted [] = []
sorted (x ∷ xs) = insert_sorted x (sorted xs)

contains-insert_sorted :
    (t x : String) (xs : List String)
    → contains t (insert_sorted x xs) ≡ (str_eq t x || contains t xs)
unfolding insert_sorted
contains-insert_sorted t x [] = refl
contains-insert_sorted t x (y ∷ ys) = ground (arith, contains-insert_sorted t x ys)

pub contains-sorted : (t : String) (xs : List String) → contains t (sorted xs) ≡ contains t xs
unfolding sorted
contains-sorted t [] = refl
contains-sorted t (x ∷ xs) =
    ground (arith, contains-insert_sorted t x (sorted xs), contains-sorted t xs)
