-- ===== src/Console/Sessions/Tokens.antt =====
-- The enrollment token: its use limit, and the token of a new session.
use collector_security_analy.Common.{
  ℕ, ◌+◌, ◌≤◌, ◌<◌, ◌≡◌, ◌∙◌, sym, refl, eq_refl, String, Bool, true, some, List, [], ◌∷◌, arith,
  eq_iff, contains, contains-append_self, Bool-cases, inl, inr, leb, if◌then◌else◌, All,
}
use collector_security_analy.Common.Dict.{lookup, insert, lookup-insert}
use collector_security_analy.Common.Texts.{sorted, contains-sorted}
use collector_security_analy.Console.Fault.{SessionFault, session_error}
use collector_security_analy.Console.Action.{ok, err, is_ok}
use collector_security_analy.Console.Audit.{Hashing, sha256_bytes}
use collector_security_analy.Console.State.{Session, Files}
use collector_security_analy.Console.Sessions.{
  is_safe, use_limit, record_token_use, trust_collector_build, with_build, before_dot, verify_token,
}
use collector_security_analy.Console.Sessions.Creation.{Opening, hours, open_session}
use collector_security_analy.Console.Sessions.Lifecycle.{IsValid}

module _ (s c : Session) (f : Files) (found : lookup s.session_id f.sessions ≡ some c) where
  -- A use within the limit is counted once, in the stored session and in the caller's.
  record_token_use-counts :
      is_safe s.session_id ".json" ≡ true
      → c.session_id ≡ s.session_id
      → c.token_uses < use_limit c
      → record_token_use s f ≡ (
        ok (record s { token_uses = c.token_uses + 1 }),
        record f {
          sessions = insert s.session_id (record c { token_uses = c.token_uses + 1 }) f.sessions;
        },
      )
  unfolding record_token_use
  record_token_use-counts safe own within = ground arith

  -- At the limit it raises, and writes nothing.
  record_token_use-refuses :
      is_safe s.session_id ".json" ≡ true
      → use_limit c ≤ c.token_uses
      → record_token_use s f ≡ (err (session_error SessionFault.token_limit), f)
  unfolding record_token_use
  record_token_use-refuses safe spent = ground arith

-- A sequence of recorded uses, and how many of them did not raise.
pub record_uses : List Session → Files → ℕ × Files
record_uses [] f = (0, f)
record_uses (s ∷ ss) f =
    let (r, g) = record_token_use s f in
    let (n, u) = record_uses ss g in ((if is_ok r then n + 1 else n), u)

-- The stored session `c` after `n` counted uses.
record Counted (k : String) (c : Session) (n : ℕ) (f : Files) : Type 0 where
  stored : Session
  found : lookup k f.sessions ≡ some stored
  own : stored.session_id ≡ k
  uses : stored.token_uses ≡ c.token_uses + n
  limit : use_limit stored ≡ use_limit c
  within : stored.token_uses ≤ use_limit c

abbrev counted_if : Bool → ℕ
counted_if b = if b then 1 else 0

module _ (k : String) (safe : is_safe k ".json" ≡ true) where
  record_one :
      (s c : Session) (f : Files)
      → s.session_id ≡ k
      → Counted k c 0 f
      → Counted k c (counted_if (is_ok (record_token_use s f).0)) (record_token_use s f).1
  record_one s c f own h =
      let at_s : lookup s.session_id f.sessions ≡ some h.stored = rw own h.found in
      let safe_s : is_safe s.session_id ".json" ≡ true = rw own safe in
      elim (Bool-cases (leb (use_limit h.stored) h.stored.token_uses)) [
        | inl spent ↦ rw (record_token_use-refuses s h.stored f at_s safe_s (ground arith)) h
        | inr room ↦
            rw (record_token_use-counts s h.stored f at_s safe_s (h.own ∙ sym own) (ground arith))
              (record {
                stored = record h.stored { token_uses = h.stored.token_uses + 1 };
                found = rw (lookup-insert, own, eq_refl);
                own = h.own;
                uses = omega (arith, h.uses);
                limit = h.limit;
                within = ground (arith, h.limit);
              })
      ]

  record-All :
      (ss : List Session) (c : Session) (f : Files)
      → All (λ s. s.session_id ≡ k) ss
      → Counted k c 0 f
      → Counted k c (record_uses ss f).0 (record_uses ss f).1
  unfolding record_uses
  record-All [] c f own h = h
  record-All (s ∷ ss) c f own h =
      let one = record_one s c f own.0 h in
      let g = (record_token_use s f).1 in
      let rest = record-All ss one.stored g own.1 (record {
        stored = one.stored;
        found = one.found;
        own = one.own;
        uses = omega arith;
        limit = refl;
        within = rw one.limit one.within;
      }) in
      record {
        stored = rest.stored;
        found = rest.found;
        own = rest.own;
        uses = ground (arith, rest.uses, one.uses);
        limit = rest.limit ∙ one.limit;
        within = rw (← one.limit) rest.within;
      }

-- Whatever sequence of uses of one session is recorded, through whatever copies of it: each call that
-- returns adds one to the stored count, each call that raises adds none, and the count never passes
-- the smaller of the token's and the session's limit.
pub token_uses_counted :
    (k : String) (ss : List Session) (c : Session) (f : Files)
    → is_safe k ".json" ≡ true
    → All (λ s. s.session_id ≡ k) ss
    → IsValid f
    → lookup k f.sessions ≡ some c
    → (t : Session) × (lookup k (record_uses ss f).1.sessions ≡ some t)
      × (t.token_uses ≡ c.token_uses + (record_uses ss f).0)
      × (t.token_uses ≤ use_limit c)
token_uses_counted k ss c f safe own v found =
    let r = record-All k safe ss c f own (record {
      stored = c;
      found = found;
      own = v.keyed k c found;
      uses = omega arith;
      limit = refl;
      within = v.bounded k c found;
    }) in
    (r.stored, r.found, r.uses, r.within)

contains-with_build : (t : String) (ts : List String) → contains t (with_build t ts) ≡ true
contains-with_build t ts = ground (arith, contains-append_self t ts)

module _ ⦃h : Hashing⦄ where
  -- `trust_collector_build` stores the session object that its caller holds: whatever the stored
  -- count was, it is the caller's afterwards, and the named build is trusted.
  pub trust_collector_build-overwrites :
      (s : Session) (digest : String) (now : ℕ) (f : Files)
      → is_safe s.session_id ".json" ≡ true
      → (t : Session) × (lookup s.session_id (trust_collector_build s digest now f).1.sessions
          ≡ some t)
        × (t.token_uses ≡ s.token_uses)
        × (contains digest t.trusted_builds ≡ true)
  unfolding trust_collector_build
  trust_collector_build-overwrites s digest now f safe = (
    record s { trusted_builds = sorted (with_build digest s.trusted_builds) },
    ground (
      arith,
      eq_iff s.session_id s.session_id,
      lookup-insert s.session_id s.session_id
          (record s { trusted_builds = sorted (with_build digest s.trusted_builds) }) f.sessions,
    ),
    refl,
    contains-sorted digest (with_build digest s.trusted_builds)
        ∙ contains-with_build digest s.trusted_builds,
  )

  -- The token of a session just opened is accepted until it expires, if the session admits a
  -- submission and the token's identifier has no dot.
  pub open_session-verify_token :
      (o : Opening) (f : Files) (now : ℕ) {s : Session} {token : String} {g : Files}
      → open_session o f ≡ (ok (s, token), g)
      → before_dot token ≡ o.token_id
      → 0 < o.allowed_submissions
      → now < o.created_at + hours o.expires_in_hours
      → verify_token s token now ≡ ok tt
  unfolding open_session verify_token
  open_session-verify_token o f now {s} {token} e split some_use early = ground (
    arith,
    eq_iff (before_dot token) s.token_id,
    eq_iff (sha256_bytes (h.utf8 token)) s.token_hash,
  )
