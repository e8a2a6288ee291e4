-- ===== src/Console/Grants/Rows.antt =====
-- SQL over the rows of a table: SELECT, UPDATE and DELETE.
use collector_security_analy.Common.{
  ℕ, ◌+◌, String, Bool, true, false, Option, none, some, List, [], ◌∷◌, str_eq, if◌then◌else◌,
}
use collector_security_analy.Console.State.{OperationState, preparing, ready, failed}

module _ {R : Type 0} where
  -- `SELECT * … WHERE p`, the first row
  unfoldable pub find : (R → Bool) → List R → Option R
  find p [] = none
  find p (r ∷ rs) = if p r then some r else find p rs

  -- `UPDATE … SET f WHERE p`
  unfoldable pub update_where : (R → Bool) → (R → R) → List R → List R
  update_where p f [] = []
  update_where p f (r ∷ rs) = (if p r then f r else r) ∷ update_where p f rs

  -- `SELECT COUNT(*) … WHERE p`, and the row count of an update
  unfoldable pub count : (R → Bool) → List R → ℕ
  count p [] = 0
  count p (r ∷ rs) = (if p r then 1 else 0) + count p rs

abbrev pub is_ready : OperationState → Bool
is_ready ready = true
is_ready _ = false

abbrev pub is_preparing : OperationState → Bool
is_preparing preparing = true
is_preparing _ = false

abbrev pub is_failed : OperationState → Bool
is_failed failed = true
is_failed _ = false

-- A column that may be NULL equals a text.
abbrev pub opt_is : Option String → String → Bool
opt_is none t = false
opt_is (some u) t = str_eq u t
