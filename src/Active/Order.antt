-- ===== src/Active/Order.antt =====
-- active_validation/planner.py: `_topological_order` and `_execution_key`.
pub mod Ends
pub mod Before
use collector_security_analy.Common.{
  ℕ, zero, suc, ◌+◌, ◌≡◌, refl, String, Bool, true, false, not, ◌||◌, ◌&&◌, Option, none, some,
  List, [], ◌∷◌, ◌++◌, arith, ltb, ◌==◌, str_eq, contains, keep, length, if◌then◌else◌,
}
use collector_security_analy.Common.Texts.{text_le}
use collector_security_analy.Active.Outcome.{
  Outcome, ok, err, ◌>>=◌, ◌>>◌, unknown_validator, dependency_cycle, out_of_fuel,
}
use collector_security_analy.Active.Model.{Entry, get}

-- The sets and the result that `visit` writes; `permanent` holds the same as `result`.
pub record Visit : Type 0 where
  pub temporary : List String
  pub permanent : List String
  pub result : List String

-- `set.remove`
abbrev pub without : String → List String → List String
without id = keep (λ x. not (str_eq x id))

abbrev pub enter : String → Visit → Visit
enter id s = record s { temporary = id ∷ s.temporary }

abbrev pub leave : String → Visit → Visit
leave id s = record {
  temporary = without id s.temporary;
  permanent = id ∷ s.permanent;
  result = s.result ++ id ∷ [];
}

-- A loop that visits
unfoldable pub visit_all : (String → Visit → Outcome Visit) → List String → Visit → Outcome Visit
visit_all step [] s = ok s
visit_all step (id ∷ ids) s = step id s >>= visit_all step ids

-- `visit`, for the sorted dependencies of a validator within the selection, or the error for one that is
-- unknown
module _ (next : String → Outcome (List String)) where
  unfoldable pub visit : ℕ → String → Visit → Outcome Visit
  unfolding visit_all
  visit zero id s = err out_of_fuel
  visit (suc fuel) id s =
      let inner =
        next id >>= λ ds. visit_all (visit fuel) ds (enter id s) >>= λ t. ok (leave id t) in
      if contains id s.permanent
      then ok s
      else if contains id s.temporary
      then err dependency_cycle
      else inner

-- `sorted(ids, key=…)` by an order of texts
unfoldable pub insert_by : (String → String → Bool) → String → List String → List String
insert_by le x [] = x ∷ []
insert_by le x (y ∷ ys) = if le x y then x ∷ y ∷ ys else y ∷ insert_by le x ys

unfoldable pub sort_by : (String → String → Bool) → List String → List String
unfolding insert_by
sort_by le [] = []
sort_by le (x ∷ xs) = insert_by le x (sort_by le xs)

abbrev order_of : Option Entry → ℕ
order_of none = 10000
order_of (some e) = e.described.execution_order

-- The order of `_execution_key`
unfoldable pub key_le : List Entry → String → String → Bool
unfolding get
key_le registry x y =
    let a = order_of (get x registry) in
    let b = order_of (get y registry) in ltb a b || ((a == b) && text_le x y)

-- The dependencies that `visit` visits
abbrev pub within : (String → String → Bool) → List String → Option Entry → Outcome (List String)
within le selected none = err unknown_validator
within le selected (some e) =
    ok (sort_by le (keep (λ d. contains d selected) e.described.depends_on_validator_ids))

-- `_topological_order`. A visit goes no deeper than the selection has validators.
unfoldable pub topological_order : List Entry → List String → Outcome (List String)
unfolding visit visit_all sort_by key_le get
topological_order registry selected = do
  let le = key_le registry
  s ←
      visit_all (visit (λ id. within le selected (get id registry)) (length selected + 1))
        (sort_by le selected) (record { temporary = []; permanent = []; result = [] })
  ok s.result

pub contains-insert_by :
    (le : String → String → Bool) (t x : String) (xs : List String)
    → contains t (insert_by le x xs) ≡ (str_eq t x || contains t xs)
unfolding insert_by
contains-insert_by le t x [] = refl
contains-insert_by le t x (y ∷ ys) = ground (arith, contains-insert_by le t x ys)

pub contains-sort_by :
    (le : String → String → Bool) (t : String) (xs : List String)
    → contains t (sort_by le xs) ≡ contains t xs
unfolding sort_by
contains-sort_by le t [] = refl
contains-sort_by le t (x ∷ xs) =
    ground (arith, contains-insert_by le t x (sort_by le xs), contains-sort_by le t xs)
