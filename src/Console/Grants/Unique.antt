-- ===== src/Console/Grants/Unique.antt =====
-- The uniqueness of nonce digests under the updates of csa_console/trusted_grants.py.
use collector_security_analy.Common.{
  ◌≡◌, refl, String, Bool, true, false, ◌&&◌, some, List, [], ◌∷◌, ◌++◌, arith, eq_iff, str_eq, any,
  any-append,
}
use collector_security_analy.Console.Audit.{Hashing}
use collector_security_analy.Console.State.{Grant}
use collector_security_analy.Console.Grants.{digest}
use collector_security_analy.Console.Grants.Consume.{names_grant}
use collector_security_analy.Console.Grants.Rows.{find, update_where}

-- The constraint UNIQUE on the nonce digests.
abbrev pub IsDistinct : List Grant → Type 0
IsDistinct [] = Unit
IsDistinct (r ∷ rs) = (any (λ g. str_eq g.nonce_digest r.nonce_digest) rs ≡ false) × IsDistinct rs

-- A used grant has the nonce digest `d`.
abbrev pub is_spent : String → List Grant → Bool
is_spent d = any (λ g. str_eq g.nonce_digest d && g.used)

pub spent_present :
    (d : String) (rs : List Grant)
    → is_spent d rs ≡ true
    → any (λ g. str_eq g.nonce_digest d) rs ≡ true
spent_present d [] s = cc
spent_present d (g ∷ rs) s = ground (arith, spent_present d rs)

-- A row found by its nonce has that digest, so a spent digest finds a used row.
module _ ⦃h : Hashing⦄ where
  pub find-has_digest :
      (e n : String) (rs : List Grant) (r : Grant)
      → find (names_grant e n) rs ≡ some r
      → any (λ g. str_eq g.nonce_digest (digest n)) rs ≡ true
  unfolding find
  find-has_digest e n [] r found = cc
  find-has_digest e n (g ∷ rs) r found = ground (arith, find-has_digest e n rs r)

  pub find_spent :
      (e n : String) (rs : List Grant) (r : Grant)
      → IsDistinct rs
      → is_spent (digest n) rs ≡ true
      → find (names_grant e n) rs ≡ some r
      → r.used ≡ true
  unfolding find
  find_spent e n [] r d s found = cc
  find_spent e n (g ∷ rs) r d s found = ground (
    arith,
    find_spent e n rs r,
    find-has_digest e n rs r,
    spent_present (digest n) rs,
    eq_iff g.nonce_digest (digest n),
  )

-- An update that leaves the digests alone and resets no use.
abbrev pub Preserves : (Grant → Grant) → Type 0
Preserves f =
    (r : Grant) → ((f r).nonce_digest ≡ r.nonce_digest) × (r.used ≡ true → (f r).used ≡ true)

module _ (p : Grant → Bool) (f : Grant → Grant) (keeps : Preserves f) where
  pub any-update :
      (d : String) (rs : List Grant)
      → any (λ g. str_eq g.nonce_digest d) (update_where p f rs)
        ≡ any (λ g. str_eq g.nonce_digest d) rs
  unfolding update_where
  any-update d [] = refl
  any-update d (r ∷ rs) = ground (arith, any-update d rs, keeps r)

  pub update-IsDistinct : (rs : List Grant) → IsDistinct rs → IsDistinct (update_where p f rs)
  unfolding update_where
  update-IsDistinct [] d = tt
  update-IsDistinct (r ∷ rs) d =
      (ground (arith, any-update r.nonce_digest rs, keeps r), update-IsDistinct rs d.1)

  pub update-is_spent :
      (d : String) (rs : List Grant)
      → is_spent d rs ≡ true
      → is_spent d (update_where p f rs) ≡ true
  unfolding update_where
  update-is_spent d [] s = cc
  update-is_spent d (r ∷ rs) s = ground (arith, update-is_spent d rs, keeps r)

pub append-IsDistinct :
    (rs : List Grant) (g : Grant)
    → IsDistinct rs
    → any (λ r. str_eq r.nonce_digest g.nonce_digest) rs ≡ false
    → IsDistinct (rs ++ g ∷ [])
append-IsDistinct [] g d fresh = (refl, tt)
append-IsDistinct (r ∷ rs) g d fresh = (
  ground (
    arith,
    any-append (λ x. str_eq x.nonce_digest r.nonce_digest) rs (g ∷ []),
    eq_iff g.nonce_digest r.nonce_digest,
    eq_iff r.nonce_digest g.nonce_digest,
  ),
  append-IsDistinct rs g d.1 (ground arith),
)
