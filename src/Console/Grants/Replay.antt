-- ===== src/Console/Grants/Replay.antt =====
-- A trusted grant is consumed at most once, over all the operations on its database.
use collector_security_analy.Console.Grants.Unique.{
  IsDistinct, is_spent, find_spent, Preserves, update-IsDistinct, update-is_spent,
  append-IsDistinct,
}
use collector_security_analy.Common.{
  ℕ, ◌≡◌, refl, String, Bool, true, false, ◌&&◌, ◌||◌, some, List, [], ◌∷◌, ◌++◌, arith, eq_iff,
  str_eq, any, any-append, Option-cases, inl, inr,
}
use collector_security_analy.Console.Action.{ok, is_ok}
use collector_security_analy.Console.Audit.{Hashing}
use collector_security_analy.Console.State.{Grant, GrantDb}
use collector_security_analy.Console.Grants.{digest}
use collector_security_analy.Console.Grants.Issue.{
  insert_grant, make_ready, fail_row, reconcile_rows, Envelope, Options, is_pending, mark_failed,
  mark_ready, is_interrupted, is_unpublished,
}
use collector_security_analy.Console.Grants.Consume.{consume_row, names_grant, is_unused, mark_used}
use collector_security_analy.Console.Grants.Rows.{find, update_where}
use collector_security_analy.Console.Grants.Network.{
  insert_challenge, authorize_row, mint_row, consume_download_row, has_envelope, mark_authorized,
}

-- One committed transaction on the database.
pub data Step ⦃h : Hashing⦄ (a b : GrantDb) : Type 0 where
  inserted : (g : Grant) → insert_grant g a ≡ (ok tt, b) → Step a b
  activated : (e : Envelope) (o : Options) → make_ready e o a ≡ (ok tt, b) → Step a b
  abandoned : (e : String) → fail_row e a ≡ (ok tt, b) → Step a b
  reconciled :
      (published : String → Bool) (rows : List Grant)
      → reconcile_rows published a ≡ (ok rows, b)
      → Step a b
  consumed :
      (e n id transport : String) (now : ℕ) (r : String)
      → consume_row e n id transport now a ≡ (ok r, b)
      → Step a b
  challenged :
      (e i n : String) (expires now : ℕ)
      → insert_challenge e i n expires now a ≡ (ok tt, b)
      → Step a b
  authorized :
      (e c n recipient secret mode ticket : String) (now r : ℕ)
      → authorize_row e c n recipient secret mode ticket now a ≡ (ok r, b)
      → Step a b
  minted : (e t g : String) (now r : ℕ) → mint_row e t g now a ≡ (ok r, b) → Step a b
  downloaded : (e g : String) (now : ℕ) → consume_download_row e g now a ≡ (ok tt, b) → Step a b

pub data Reach ⦃h : Hashing⦄ (a : GrantDb) : GrantDb → Type 0 where
  here : Reach a a
  next : {b c : GrantDb} → Reach a b → Step b c → Reach a c

-- The digest `d` has been consumed, and stays so.
pub record Spent (d : String) (db : GrantDb) : Type 0 where
  pub distinct : IsDistinct db.grants
  pub spent : is_spent d db.grants ≡ true

-- What a step does to the grants.
data Change : List Grant → List Grant → Type 0 where
  same : {rs qs : List Grant} → qs ≡ rs → Change rs qs
  updated :
      {rs qs : List Grant} (p : Grant → Bool) (f : Grant → Grant)
      → Preserves f
      → qs ≡ update_where p f rs
      → Change rs qs
  appended :
      {rs qs : List Grant} (g : Grant)
      → any (λ r. str_eq r.nonce_digest g.nonce_digest) rs ≡ false
      → qs ≡ rs ++ g ∷ []
      → Change rs qs
  both : {rs ms qs : List Grant} → Change rs ms → Change ms qs → Change rs qs

Change-IsDistinct : {rs qs : List Grant} → Change rs qs → IsDistinct rs → IsDistinct qs
Change-IsDistinct (same e) d = rw e d
Change-IsDistinct {rs} (updated p f keeps e) d = rw e (update-IsDistinct p f keeps rs d)
Change-IsDistinct {rs} (appended g fresh e) d = rw e (append-IsDistinct rs g d fresh)
Change-IsDistinct (both c c') d = Change-IsDistinct c' (Change-IsDistinct c d)

Change-is_spent :
    (d : String) {rs qs : List Grant} → Change rs qs → is_spent d rs ≡ true → is_spent d qs ≡ true
Change-is_spent d (same e) s = rw e s
Change-is_spent d {rs} (updated p f keeps e) s = rw e (update-is_spent p f keeps d rs s)
Change-is_spent d {rs} (appended g fresh e) s =
    rw (e, any-append (λ x. str_eq x.nonce_digest d && x.used) rs (g ∷ [])) (ground arith)
Change-is_spent d (both c c') s = Change-is_spent d c' (Change-is_spent d c s)

not_taken :
    (g : Grant) (rs : List Grant)
    → any (λ r. str_eq r.envelope_id g.envelope_id || str_eq r.nonce_digest g.nonce_digest) rs
      ≡ false
    → any (λ r. str_eq r.nonce_digest g.nonce_digest) rs ≡ false
not_taken g [] e = refl
not_taken g (r ∷ rs) e = ground (arith, not_taken g rs)

module _ ⦃h : Hashing⦄ where
  Step-Change : {a b : GrantDb} → Step a b → Change a.grants b.grants
  unfolding insert_grant make_ready fail_row reconcile_rows consume_row insert_challenge
      authorize_row mint_row consume_download_row
  Step-Change {a} (inserted g e) = appended g (not_taken g a.grants (ground arith)) (ground arith)
  Step-Change (activated e o q) =
      updated (is_pending e.envelope_id) (mark_ready o) (λ r. (refl, λ u. u)) (ground arith)
  Step-Change (abandoned e q) =
      updated (is_pending e) mark_failed (λ r. (refl, λ u. u)) (ground arith)
  Step-Change (reconciled published rows q) =
      both (updated is_interrupted mark_failed (λ r. (refl, λ u. u)) refl)
        (updated (is_unpublished published) mark_failed (λ r. (refl, λ u. u)) (ground arith))
  Step-Change {a} (consumed e n id transport now r q) =
      elim (Option-cases (find (names_grant e n) a.grants)) [
        | inl gone ↦ absurd (ground arith)
        | inr (g, found) ↦
            updated (is_unused g.envelope_id) (mark_used id transport) (λ r. (refl, λ u. refl))
              (ground arith)
      ]
  Step-Change (challenged e i n expires now q) = same (ground arith)
  Step-Change {a} (authorized e c n recipient secret mode ticket now r q) =
      updated (has_envelope e) (mark_authorized mode) (λ r. (refl, λ u. u)) (ground arith)
  Step-Change (minted e t g now r q) = same (ground arith)
  Step-Change (downloaded e g now q) = same (ground arith)

  Step-Spent : {d : String} {a b : GrantDb} → Step a b → Spent d a → Spent d b
  Step-Spent {d} st s = record {
    distinct = Change-IsDistinct (Step-Change st) s.distinct;
    spent = Change-is_spent d (Step-Change st) s.spent;
  }

  Reach-Spent : {d : String} {a b : GrantDb} → Spent d a → Reach a b → Spent d b
  Reach-Spent s here = s
  Reach-Spent s (next r st) = Step-Spent st (Reach-Spent s r)

  mark_used-is_spent :
      (e n id transport : String) (rs : List Grant) (r : Grant)
      → find (names_grant e n) rs ≡ some r
      → r.used ≡ false
      → is_spent (digest n) (update_where (is_unused r.envelope_id) (mark_used id transport) rs)
        ≡ true
  unfolding find update_where
  mark_used-is_spent e n id transport [] r found fresh = cc
  mark_used-is_spent e n id transport (g ∷ rs) r found fresh =
      ground (arith, mark_used-is_spent e n id transport rs r, eq_iff g.envelope_id g.envelope_id)

  consume_row-Spent :
      (e n id transport : String) (now : ℕ) {r : String} (a : GrantDb) {b : GrantDb}
      → IsDistinct a.grants
      → consume_row e n id transport now a ≡ (ok r, b)
      → Spent (digest n) b
  unfolding consume_row
  consume_row-Spent e n id transport now {r} a d q =
      elim (Option-cases (find (names_grant e n) a.grants)) [
        | inl gone ↦ absurd (ground arith)
        | inr (g, found) ↦ record {
          distinct = Change-IsDistinct (Step-Change (consumed e n id transport now r q)) d;
          spent = ground (arith, mark_used-is_spent e n id transport a.grants g found);
        }
      ]

  Spent-refuses :
      (e n id transport : String) (now : ℕ) (c : GrantDb)
      → Spent (digest n) c
      → is_ok (consume_row e n id transport now c).0 ≡ false
  unfolding consume_row
  Spent-refuses e n id transport now c s = elim (Option-cases (find (names_grant e n) c.grants)) [
    | inl gone ↦ ground arith
    | inr (g, found) ↦ ground (arith, find_spent e n c.grants g s.distinct s.spent found)
  ]

  -- Where the nonce digests are unique: once a grant has been consumed with a proof, then after any
  -- further issuing, failing, reconciling, consuming, challenging, authorizing and downloading, no
  -- consumption with that proof returns, whatever envelope, submission, transport and time it names.
  pub grant_consumed_once :
      (e e' n id id' transport transport' r : String) (now now' : ℕ) (a b c : GrantDb)
      → IsDistinct a.grants
      → consume_row e n id transport now a ≡ (ok r, b)
      → Reach b c
      → is_ok (consume_row e' n id' transport' now' c).0 ≡ false
  grant_consumed_once e e' n id id' transport transport' r now now' a b c d q steps =
      Spent-refuses e' n id' transport' now' c
        (Reach-Spent (consume_row-Spent e n id transport now a d q) steps)

  -- Every step keeps the nonce digests unique, so from the empty database they always are.
  pub Reach-IsDistinct : {a b : GrantDb} → IsDistinct a.grants → Reach a b → IsDistinct b.grants
  Reach-IsDistinct d here = d
  Reach-IsDistinct d (next r st) = Change-IsDistinct (Step-Change st) (Reach-IsDistinct d r)
