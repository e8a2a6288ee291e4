-- ===== src/Console/Submission/Replay.antt =====
-- The index of csa_console/submission.py holds a submission at most once.
use collector_security_analy.Common.{
  ◌≡◌, ◌≢◌, refl, ap, sym, ◌∙◌, Bool, true, false, not, ◌&&◌, ◌||◌, List, [], ◌∷◌, ◌++◌, arith, any,
  any-append, eq_iff,
}
use collector_security_analy.Console.Action.{ok}
use collector_security_analy.Console.Audit.{Hashing}
use collector_security_analy.Console.State.{Files, IndexItem, Receipt}
use collector_security_analy.Console.Network.{Ipaddress}
use collector_security_analy.Console.Submission.{
  Package, Services, Request, Readings, same_submission, insert_item, sort_index,
}
use collector_security_analy.Console.Submission.Accept.{accept, new_item}
use collector_security_analy.Console.Submission.Acceptance.{accept-Accepted}

-- Sorting the index finds and loses no item.
module _ (test : IndexItem → Bool) where
  any-insert_item :
      (x : IndexItem) (is : List IndexItem) → any test (insert_item x is) ≡ (test x || any test is)
  unfolding insert_item
  any-insert_item x [] = refl
  any-insert_item x (i ∷ is) = ground (arith, any-insert_item x is)

  pub any-sort_index : (is : List IndexItem) → any test (sort_index is) ≡ any test is
  unfolding sort_index
  any-sort_index [] = refl
  any-sort_index (i ∷ is) =
      any-insert_item i (sort_index is) ∙ ap (λ b. test i || b) (any-sort_index is)

-- No two items share an identifier or a digest.
unfoldable pub is_unique : List IndexItem → Bool
is_unique [] = true
is_unique (i ∷ is) = not (any (same_submission i.submission_id i.package_digest) is) && is_unique is

same_submission_sym :
    (i j : IndexItem)
    → same_submission i.submission_id i.package_digest j
      ≡ same_submission j.submission_id j.package_digest i
same_submission_sym i j = ground (
  arith,
  eq_iff i.submission_id j.submission_id,
  eq_iff j.submission_id i.submission_id,
  eq_iff i.package_digest j.package_digest,
  eq_iff j.package_digest i.package_digest,
)

is_unique-insert_item :
    (x : IndexItem) (is : List IndexItem) → is_unique (insert_item x is) ≡ is_unique (x ∷ is)
unfolding insert_item is_unique
is_unique-insert_item x [] = refl
is_unique-insert_item x (i ∷ is) = ground (
  arith,
  is_unique-insert_item x is,
  same_submission_sym x i,
  any-insert_item (same_submission i.submission_id i.package_digest) x is,
)

is_unique-sort_index : (is : List IndexItem) → is_unique (sort_index is) ≡ is_unique is
unfolding sort_index is_unique
is_unique-sort_index [] = refl
is_unique-sort_index (i ∷ is) = ground (
  arith,
  is_unique-insert_item i (sort_index is),
  is_unique-sort_index is,
  any-sort_index (same_submission i.submission_id i.package_digest) is,
)

is_unique-append :
    (is : List IndexItem) (x : IndexItem)
    → is_unique is ≡ true
    → any (same_submission x.submission_id x.package_digest) is ≡ false
    → is_unique (is ++ x ∷ []) ≡ true
unfolding is_unique
is_unique-append [] x u n = refl
is_unique-append (i ∷ is) x u n = ground (
  arith,
  is_unique-append is x,
  same_submission_sym x i,
  any-append (same_submission i.submission_id i.package_digest) is (x ∷ []),
)

module _ ⦃h : Hashing⦄ ⦃ip : Ipaddress⦄ (services : Services) where
  -- A submission is accepted at most once: after `accept` returned, a call of it in the files that it
  -- left returns only for another submission identifier and another package digest, whatever the
  -- session, the token, the nonce and the time of either call are.
  pub accepted_once :
      (q q' : Request) (t t' : Readings) (r r' : Receipt) (p p' : Package) (f g k : Files)
      → accept services q t f ≡ (ok (r, p), g)
      → accept services q' t' g ≡ (ok (r', p'), k)
      → (q'.submission_id ≢ q.submission_id) × (p'.package_digest ≢ p.package_digest)
  accepted_once q q' t t' r r' p p' f g k e e' =
      let a = accept-Accepted services q t r p f g e in
      let b = accept-Accepted services q' t' r' p' g k e' in
      let test = same_submission q'.submission_id p'.package_digest in
      let new = new_item q t p in
      let misses : any test (f.index ++ new ∷ []) ≡ false =
        sym (any-sort_index test (f.index ++ new ∷ [])) ∙ ap (any test) (sym a.indexed) ∙ b.first in
      ground (
        arith,
        any-append test f.index (new ∷ []),
        misses,
        eq_iff q.submission_id q'.submission_id,
        eq_iff p.package_digest p'.package_digest,
      )

  -- `accept` keeps the index free of two items with one identifier or one digest.
  pub accept-is_unique :
      (q : Request) (t : Readings) (r : Receipt) (p : Package) (f g : Files)
      → accept services q t f ≡ (ok (r, p), g)
      → is_unique f.index ≡ true
      → is_unique g.index ≡ true
  accept-is_unique q t r p f g e u =
      let a = accept-Accepted services q t r p f g e in
      let new = new_item q t p in
      ap is_unique a.indexed
      ∙ is_unique-sort_index (f.index ++ new ∷ [])
      ∙ is_unique-append f.index new u a.first
