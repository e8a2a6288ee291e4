-- ===== src/Console/Sessions/Lifecycle.antt =====
-- The session state machine, and the use limit of the enrollment token.
use collector_security_analy.Common.{
  ℕ, ◌≤◌, ◌≡◌, ◌⊎◌, inl, inr, String, true, some, List, [], ◌∷◌, arith, eq_iff, str_eq,
  Option-cases, Bool-cases,
}
use collector_security_analy.Common.Dict.{lookup, insert, lookup-insert}
use collector_security_analy.Console.Fault.{SessionStatus, SessionFault, session_error}
use collector_security_analy.Console.Action.{err}
use collector_security_analy.Console.Audit.{Hashing}
use collector_security_analy.Console.State.{Session, Files}
use collector_security_analy.Console.Sessions.{
  is_allowed_transition, use_limit, set_session_status, is_safe, verify_token,
}

-- Every session is stored under its own identifier, and its token is within its limit.
pub record IsValid (f : Files) : Type 0 where
  pub keyed : (k : String) (s : Session) → lookup k f.sessions ≡ some s → s.session_id ≡ k
  pub bounded :
      (k : String) (s : Session) → lookup k f.sessions ≡ some s → s.token_uses ≤ use_limit s

-- What a change of status does to the stored sessions.
abbrev Changed : String → SessionStatus → Files → Files → Type 0
Changed k st f g =
    (g.sessions ≡ f.sessions)
    ⊎ ((s : Session) × (lookup k f.sessions ≡ some s)
        × (is_allowed_transition s.status st ≡ true)
        × (g.sessions ≡ insert s.session_id (record s { status = st }) f.sessions))

module _ ⦃h : Hashing⦄ where
  set_session_status-Changed :
      (k : String) (st : SessionStatus) (now : ℕ) (f : Files)
      → Changed k st f (set_session_status k st now f).1
  unfolding set_session_status
  set_session_status-Changed k st now f = elim (Bool-cases (is_safe k ".json")) [
    | inr bad ↦ inl (ground arith)
    | inl good ↦ elim (Option-cases (lookup k f.sessions)) [
      | inl gone ↦ inl (ground arith)
      | inr (s, e) ↦ elim (Bool-cases (is_allowed_transition s.status st)) [
        | inr no_way ↦ inl (ground arith)
        | inl allowed ↦ elim (Bool-cases (is_safe s.session_id ".json")) [
          | inr bad ↦ inl (ground arith)
          | inl fine ↦ inr (s, e, allowed, ground arith)
        ]
      ]
    ]
  ]

abbrev pub IsShut : SessionStatus → Type 0
IsShut SessionStatus.closed = Unit
IsShut SessionStatus.archived = Unit
IsShut _ = ⊥

-- The table lets nothing out of CLOSED but to ARCHIVED, and nothing out of ARCHIVED.
IsShut-stays : (a b : SessionStatus) → is_allowed_transition a b ≡ true → IsShut a → IsShut b
unfolding is_allowed_transition
IsShut-stays SessionStatus.closed SessionStatus.archived e s = tt
IsShut-stays a b e s = ground arith

-- Writing a session under its own identifier keeps the invariant.
insert-IsValid :
    (f g : Files) (s : Session)
    → IsValid f
    → s.token_uses ≤ use_limit s
    → g.sessions ≡ insert s.session_id s f.sessions
    → IsValid g
insert-IsValid f g s v within e = record {
  keyed = λ k t p.
      ground (arith, lookup-insert s.session_id k s f.sessions, eq_iff s.session_id k, v.keyed k t);
  bounded = λ k t p.
      ground
        (arith, lookup-insert s.session_id k s f.sessions, eq_iff s.session_id k, v.bounded k t);
}

-- A stored session that network submissions can no longer use.
record ClosedAt (k : String) (f : Files) : Type 0 where
  valid : IsValid f
  stored : Session
  found : lookup k f.sessions ≡ some stored
  shut : IsShut stored.status

module _ ⦃h : Hashing⦄ where
  set_session_status-ClosedAt :
      (k j : String) (st : SessionStatus) (now : ℕ) (f : Files)
      → ClosedAt k f
      → ClosedAt k (set_session_status j st now f).1
  set_session_status-ClosedAt k j st now f c = elim (set_session_status-Changed j st now f) [
    | inl same ↦ record {
      valid = record { keyed = rw same c.valid.keyed; bounded = rw same c.valid.bounded };
      stored = c.stored;
      found = rw same c.found;
      shut = c.shut;
    }
    | inr (s, e, allowed, changed) ↦
        let t : Session = record s { status = st } in
        let valid' : IsValid (set_session_status j st now f).1 =
          insert-IsValid f (set_session_status j st now f).1 t c.valid (c.valid.bounded j s e)
            changed in
        elim (Bool-cases (str_eq s.session_id k)) [
          | inl same ↦ record {
            valid = valid';
            stored = t;
            found = rw (changed, lookup-insert, same);
            shut =
                let one : c.stored ≡ s =
                  ground (arith, eq_iff s.session_id k, c.valid.keyed j s e, c.found, e) in
                IsShut-stays s.status st allowed (rw one at c.shut);
          }
          | inr other ↦ record {
            valid = valid';
            stored = c.stored;
            found = rw (changed, lookup-insert, other) c.found;
            shut = c.shut;
          }
        ]
  ]

-- A sequence of requests to change a status, whether they succeed or raise.
abbrev pub Request : Type 0
Request = String × SessionStatus × ℕ

module _ ⦃h : Hashing⦄ where
  pub set_all : List Request → Files → Files
  set_all [] f = f
  set_all ((j, st, now) ∷ rs) f = set_all rs (set_session_status j st now f).1

  set_all-ClosedAt :
      (k : String) (rs : List Request) (f : Files) → ClosedAt k f → ClosedAt k (set_all rs f)
  unfolding set_all
  set_all-ClosedAt k [] f c = c
  set_all-ClosedAt k ((j, st, now) ∷ rs) f c =
      set_all-ClosedAt k rs (set_session_status j st now f).1
        (set_session_status-ClosedAt k j st now f c)

  shut-refuses :
      (s : Session) (token : String) (now : ℕ)
      → IsShut s.status
      → verify_token s token now ≡ err (session_error SessionFault.session_not_open)
  unfolding verify_token
  shut-refuses s token now c = ground arith

  -- A session that is stored as CLOSED or ARCHIVED is stored after any sequence of `set_session_status`,
  -- and whatever the token and the time, `verify_token` raises "Session is not open" for it.
  pub closed_is_final :
      (k : String) (f : Files) (s : Session) (rs : List Request)
      → IsValid f
      → lookup k f.sessions ≡ some s
      → IsShut s.status
      → (t : Session) × (lookup k (set_all rs f).sessions ≡ some t)
        × ((token : String) (now : ℕ)
            → verify_token t token now ≡ err (session_error SessionFault.session_not_open))
  closed_is_final k f s rs v e c =
      let final : ClosedAt k (set_all rs f) =
        set_all-ClosedAt k rs f (record { valid = v; stored = s; found = e; shut = c }) in
      (final.stored, final.found, λ token now. shut-refuses final.stored token now final.shut)
