-- ===== src/Console/Audit/Chain.antt =====
-- The audit chain: what appending keeps, and what a verified log rules out.
use Prim.Native.String.{len}
use text.Mathlib.TextPositions.{len-append}
use collector_security_analy.Common.{
  ℕ, ◌+◌, ◌≡◌, ◌↔◌, ◌∙◌, refl, String, Bool, true, false, Option, none, some, List, [], ◌∷◌, ◌++◌,
  arith, Bool-cases, inl, inr, All, eq_iff, str_eq, ap, length, if◌then◌else◌,
}
use collector_security_analy.Common.Dict.{Dict}
use collector_security_analy.Console.Action.{ok}
use collector_security_analy.Console.Audit.{
  Detail, Body, Entry, Line, parsed, malformed, LogFile, Hashing, verified, refused, invalid_json,
  body_breaks, lines_read, is_sensitive, last_hash, final_hash, lines_of, entry_digest,
  sha256_bytes, sealed, new_body, append, verify_lines, verify, opt_eq,
}

pub opt_eq_iff : (a b : Option String) → (opt_eq a b ≡ true) ↔ (a ≡ b)
opt_eq_iff none none = (λ _. refl, λ _. refl)
opt_eq_iff (some a) (some b) = ground (arith, eq_iff a b)
opt_eq_iff none (some b) = ground arith
opt_eq_iff (some a) none = ground arith

module _ ⦃h : Hashing⦄ where
  -- Two lines whose bodies have the same digest have the same body.
  abbrev pub Apart : Line → Line → Type 0
  Apart (parsed x) (parsed y) = entry_digest x.body ≡ entry_digest y.body → x.body ≡ y.body
  Apart _ _ = Unit

  pub digest-ne-empty : (b : Body) → str_eq (entry_digest b) "" ≡ false
  unfolding entry_digest
  digest-ne-empty b =
      let d : String = sha256_bytes (h.canonical_bytes b) in
      elim (Bool-cases (str_eq d "")) [
        | inl e ↦ absurd (
            omega (
              arith,
              len-append "sha256:" (h.sha256 (h.canonical_bytes b)),
              ap len ((eq_iff d "").0 e),
            ))
        | inr e ↦ e
      ]

  -- One more entry that names the hash so far is accepted.
  pub verify_lines-append :
      (ls : List Line) (n c : ℕ) (p q : Option String) (b : Body)
      → verify_lines ls n p ≡ verified q c
      → b.previous_entry_hash ≡ q
      → verify_lines (ls ++ parsed (sealed b) ∷ []) n p ≡ verified (some (entry_digest b)) (c + 1)
  unfolding verify_lines
  verify_lines-append [] n c p q b e l =
      ground (arith, opt_eq_iff b.previous_entry_hash p, eq_iff (entry_digest b) (entry_digest b))
  verify_lines-append (malformed ∷ ls) n c p q b e l = cc
  verify_lines-append (parsed x ∷ ls) n c p q b e l =
      ground (arith, verify_lines-append ls (n + 1) c x.entry_hash q b)

  -- A line that is no JSON is refused at its place.
  verify_lines-malformed :
      (ls ms : List Line) (n c : ℕ) (p q : Option String)
      → verify_lines ls n p ≡ verified q c
      → verify_lines (ls ++ malformed ∷ ms) n p ≡ refused (invalid_json (c + 1))
  unfolding verify_lines
  verify_lines-malformed [] ms n c p q e = ground (arith, e)
  verify_lines-malformed (malformed ∷ ls) ms n c p q e = cc
  verify_lines-malformed (parsed x ∷ ls) ms n c p q e =
      ground (arith, verify_lines-malformed ls ms (n + 1) c x.entry_hash q)

  -- The count is that of the entries.
  verify_lines-count :
      (ls : List Line) (n c : ℕ) (p q : Option String)
      → verify_lines ls n p ≡ verified q c
      → c ≡ n + length ls
  unfolding verify_lines
  verify_lines-count [] n c p q e = ground arith
  verify_lines-count (malformed ∷ ls) n c p q e = cc
  verify_lines-count (parsed x ∷ ls) n c p q e =
      ground (arith, verify_lines-count ls (n + 1) c x.entry_hash q)

  -- The hash that `final_hash` reads is the one that the loop ends with.
  pub last_hash-verified :
      (l : Line) (ls : List Line) (n c : ℕ) (p q : Option String)
      → verify_lines (l ∷ ls) n p ≡ verified q c
      → last_hash (l ∷ ls) ≡ ok q
  unfolding verify_lines last_hash
  last_hash-verified malformed ls n c p q e = cc
  last_hash-verified (parsed x) [] n c p q e =
      ground (arith, digest-ne-empty x.body, opt_eq_iff x.entry_hash (some (entry_digest x.body)))
  last_hash-verified (parsed x) (m ∷ ls) n c p q e =
      ground (arith, last_hash-verified m ls (n + 1) c x.entry_hash q)

  -- No two different bodies among these lines have one digest.
  abbrev pub CollisionFree : List Line → List Line → Type 0
  CollisionFree ls ms = All (λ l. All (λ m. Apart l m) ms) ls

  CollisionFree-tail :
      (ls ms : List Line) (m : Line) → CollisionFree ls (m ∷ ms) → CollisionFree ls ms
  CollisionFree-tail [] ms m free = tt
  CollisionFree-tail (l ∷ ls) ms m free = (free.0.1, CollisionFree-tail ls ms m free.1)

  -- An accepted line is determined by its hash, and by nothing less.
  first_equal :
      (x y : Entry) (ls ms : List Line) (n c : ℕ) (p p' q : Option String)
      → Apart (parsed x) (parsed y)
      → verify_lines (parsed x ∷ ls) n p ≡ verified q c
      → verify_lines (parsed y ∷ ms) n p' ≡ verified q c
      → x.entry_hash ≡ y.entry_hash
      → (x ≡ y) × (p ≡ p')
  unfolding verify_lines
  first_equal x y ls ms n c p p' q free e e' same = ground (
    arith,
    opt_eq_iff x.body.previous_entry_hash p,
    opt_eq_iff y.body.previous_entry_hash p',
    opt_eq_iff x.entry_hash (some (entry_digest x.body)),
    opt_eq_iff y.entry_hash (some (entry_digest y.body)),
  )

  rest_verified :
      (x : Entry) (ls : List Line) (n c : ℕ) (p q : Option String)
      → verify_lines (parsed x ∷ ls) n p ≡ verified q c
      → verify_lines ls (n + 1) x.entry_hash ≡ verified q c
  unfolding verify_lines
  rest_verified x ls n c p q e = ground arith

  lines_equal :
      (ls ms : List Line) (n c : ℕ) (p p' q : Option String)
      → CollisionFree ls ms
      → verify_lines ls n p ≡ verified q c
      → verify_lines ms n p' ≡ verified q c
      → (ls ≡ ms) × (p ≡ p')
  unfolding verify_lines
  lines_equal [] [] n c p p' q free e e' = ground arith
  lines_equal [] (m ∷ ms) n c p p' q free e e' =
      absurd
        (omega (arith, verify_lines-count [] n c p q e, verify_lines-count (m ∷ ms) n c p' q e'))
  lines_equal (l ∷ ls) [] n c p p' q free e e' =
      absurd
        (omega (arith, verify_lines-count (l ∷ ls) n c p q e, verify_lines-count [] n c p' q e'))
  lines_equal (malformed ∷ ls) (m ∷ ms) n c p p' q free e e' = cc
  lines_equal (parsed x ∷ ls) (malformed ∷ ms) n c p p' q free e e' = cc
  lines_equal (parsed x ∷ ls) (parsed y ∷ ms) n c p p' q free e e' =
      let (tails, hashes) =
        lines_equal ls ms (n + 1) c x.entry_hash y.entry_hash q
          (CollisionFree-tail ls ms (parsed y) free.1) (rest_verified x ls n c p q e)
          (rest_verified y ms n c p' q e') in
      let (heads, starts) = first_equal x y ls ms n c p p' q free.0.0 e e' hashes in
      (cc (tails, heads), starts)

  -- Two logs that verify with the same final hash and the same count are the same log, unless two
  -- different entries of theirs have one digest: a change, a removal or a reordering of entries
  -- shows in the verified summary.
  pub verify-tamper_evident :
      (f g : LogFile) (q : Option String) (c : ℕ)
      → CollisionFree (lines_of f) (lines_of g)
      → verify f ≡ verified q c
      → verify g ≡ verified q c
      → f ≡ g
  unfolding verify
  verify-tamper_evident (some (l ∷ ls)) (some (m ∷ ms)) q c free e e' =
      ap some (lines_equal (l ∷ ls) (m ∷ ms) 0 c none none q free e e').0
  verify-tamper_evident f g q c free e e' = cc

  final_hash-verified :
      (f : LogFile) (c : ℕ) (q : Option String)
      → verify_lines (lines_of f) 0 none ≡ verified q c
      → final_hash f ≡ ok q
  unfolding final_hash verify_lines
  final_hash-verified none c q e = ground arith
  final_hash-verified (some []) c q e = ground arith
  final_hash-verified (some (l ∷ ls)) c q e = last_hash-verified l ls 0 c none q e

  verify-snoc :
      (ls : List Line) (m : Line) (ms : List Line)
      → verify (some (ls ++ m ∷ ms)) ≡ verify_lines (ls ++ m ∷ ms) 0 none
  unfolding verify
  verify-snoc [] m ms = refl
  verify-snoc (l ∷ ls) m ms = refl

  -- Appending details with no sensitive key to a log that is new or verifies returns the hash of the
  -- entry, which names the log's final hash. Where no text of the entry has a line separator, the log then
  -- verifies with that hash and one entry more; where one has, the log is refused at the new line.
  pub append-verified :
      (f : LogFile) (now c : ℕ) (event : String) (details : Dict Detail) (q : Option String)
      → verify_lines (lines_of f) 0 none ≡ verified q c
      → is_sensitive details ≡ false
      → let b = new_body now event details q in
        ((append now event details f).0 ≡ ok (entry_digest b))
        × (verify (append now event details f).1 ≡ (
            if body_breaks b
            then refused (invalid_json (c + 1))
            else verified (some (entry_digest b)) (c + 1)))
  append-verified f now c event details q e s =
      let b : Body = new_body now event details q in
      let done : append now event details f
          ≡ (ok (entry_digest b), some (lines_of f ++ lines_read b)) =
        unfold append in rw (s, final_hash-verified f c q e) in
      (cc done, rw done (read (body_breaks b)))
    where
      read :
          (split : Bool)
          → let b = new_body now event details q in
            verify (
              some (
                lines_of f
                ++ (if split then malformed ∷ malformed ∷ [] else parsed (sealed b) ∷ [])))
            ≡ (if split
                then refused (invalid_json (c + 1))
                else verified (some (entry_digest b)) (c + 1))
      read true =
          verify-snoc (lines_of f) malformed (malformed ∷ [])
          ∙ verify_lines-malformed (lines_of f) (malformed ∷ []) 0 c none q e
      read false =
          verify-snoc (lines_of f) (parsed (sealed (new_body now event details q))) []
          ∙ verify_lines-append (lines_of f) 0 c none q (new_body now event details q) e refl
