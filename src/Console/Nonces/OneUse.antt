-- ===== src/Console/Nonces/OneUse.antt =====
-- A nonce is consumed at most once, by the session, submission, text and source it was issued for.
use collector_security_analy.Common.{
  ℕ, ◌+◌, ◌<◌, ◌≡◌, ◌⊎◌, ◌↔◌, eq_refl, String, true, false, some, arith, eq_iff, Bool-cases,
  Option-cases, inl, inr, ap, ◌∙◌,
}
use collector_security_analy.Common.Dict.{lookup, insert, lookup-insert, lookup-insert_self}
use collector_security_analy.Console.Fault.{NonceFault, nonce_error, type_error}
use collector_security_analy.Console.Action.{ok, err}
use collector_security_analy.Console.State.{Session, Nonce, Files}
use collector_security_analy.Console.Sessions.{is_safe}
use collector_security_analy.Console.Nonces.{
  issue, consume, is_bound, is_ascii, is_incomparable, seconds, new_nonce,
}

-- What a call of `consume` that returned has checked.
pub record Consumed (s : Session) (id nonce source : String) (now : ℕ) (f g : Files) : Type 0 where
  pub stored : Nonce
  pub safe : is_safe id ".json" ≡ true
  pub found : lookup id f.nonces ≡ some stored
  pub bound : is_bound s id nonce source stored ≡ true
  pub fresh : stored.used ≡ false
  pub early : now < stored.expires_at
  pub after : g ≡ record f { nonces = insert id (record stored { used = true }) f.nonces }

pub consume-Consumed :
    (s : Session) (id nonce source : String) (now : ℕ) (f g : Files)
    → consume s id nonce source now f ≡ (ok tt, g)
    → Consumed s id nonce source now f g
unfolding consume
consume-Consumed s id nonce source now f g e = elim (Option-cases (lookup id f.nonces)) [
  | inl gone ↦ absurd (ground arith)
  | inr (n, found) ↦ record {
    stored = n;
    safe = ground arith;
    found = found;
    bound = ground arith;
    fresh = ground arith;
    early = ground arith;
    after = ground arith;
  }
]

-- Once a nonce has been consumed, no later call consumes it again, whatever it presents and whenever
-- it is made: the stored nonce stays used, and `consume` raises a NonceError or a TypeError.
pub consume_once :
    (s t : Session) (id nonce nonce' source source' : String) (now now' : ℕ) (f g : Files)
    → consume s id nonce source now f ≡ (ok tt, g)
    → ((consume t id nonce' source' now' g).0 ≡ err (nonce_error NonceFault.bad_binding))
      ⊎ (((consume t id nonce' source' now' g).0 ≡ err (nonce_error NonceFault.already_used))
          ⊎ ((consume t id nonce' source' now' g).0 ≡ err type_error))
unfolding consume
consume_once s t id nonce nonce' source source' now now' f g e =
    let c = consume-Consumed s id nonce source now f g e in
    let used : lookup id g.nonces ≡ some (record c.stored { used = true }) =
      rw (c.after, lookup-insert, eq_refl) in
    elim (Bool-cases (is_incomparable t id nonce' (record c.stored { used = true }))) [
      | inl foreign ↦ inr (inr (ground (arith, c.safe, used, foreign)))
      | inr plain ↦
          elim (Bool-cases (is_bound t id nonce' source' (record c.stored { used = true }))) [
            | inl bound ↦ inr (inl (ground (arith, c.safe, used, plain, bound)))
            | inr unbound ↦ inl (ground (arith, c.safe, used, plain, unbound))
          ]
    ]

issue-stores :
    (s : Session) (id source token : String) (ttl issued_at now : ℕ) (f g : Files) (n : Nonce)
    → issue s id source ttl token issued_at now f ≡ (ok n, g)
    → (is_safe id ".json" ≡ true)
      × (lookup id g.nonces ≡ some (new_nonce s id source ttl token issued_at now))
unfolding issue
issue-stores s id source token ttl issued_at now f g n e =
    let m : Nonce = new_nonce s id source ttl token issued_at now in
    let at_id : lookup id (insert id m f.nonces) ≡ some m = lookup-insert_self id m f.nonces in
    (ground arith, ground arith)

consume_iff :
    (s t : Session) (id source source' token nonce : String) (ttl issued_at now later : ℕ)
    (g : Files)
    → is_safe id ".json" ≡ true
    → lookup id g.nonces ≡ some (new_nonce s id source ttl token issued_at now)
    → is_ascii token ≡ true
    → ((consume t id nonce source' later g).0 ≡ ok tt) ↔ (
        (t.session_id ≡ s.session_id)
        × (nonce ≡ token)
        × (source' ≡ source)
        × (later < now + seconds ttl))
unfolding consume is_bound
consume_iff s t id source source' token nonce ttl issued_at now later g safe stored ascii =
    let same : nonce ≡ token → is_ascii nonce ≡ true = λ e. ap is_ascii e ∙ ascii in
    ground (
      same,
      arith,
      eq_iff s.session_id t.session_id,
      eq_iff id id,
      eq_iff token nonce,
      eq_iff source source',
    )

-- A nonce just issued, whose text is ASCII, is consumed by the same session, submission, text and source before it expires,
-- by no other text, source or session, and not from its expiry on.
pub issue-consume :
    (s t : Session) (id source source' token nonce : String) (ttl issued_at now later : ℕ)
    (f g : Files) (n : Nonce)
    → issue s id source ttl token issued_at now f ≡ (ok n, g)
    → is_ascii token ≡ true
    → ((consume t id nonce source' later g).0 ≡ ok tt) ↔ (
        (t.session_id ≡ s.session_id)
        × (nonce ≡ token)
        × (source' ≡ source)
        × (later < now + seconds ttl))
issue-consume s t id source source' token nonce ttl issued_at now later f g n e ascii =
    let i = issue-stores s id source token ttl issued_at now f g n e in
    consume_iff s t id source source' token nonce ttl issued_at now later g i.0 i.1 ascii
