-- ===== src/Console/Submission/Stages.antt =====
-- What a submission has passed where the stages of `accept` before the critical section return.
use collector_security_analy.Common.{
  ℕ, ◌≡◌, ◌≤◌, ◌<◌, refl, ap, subst, sym, String, true, false, some, arith, Option-cases, inl, inr,
  length, contains, ltb,
}
use collector_security_analy.Common.Dict.{Dict, lookup, lookup-insert_self}
use collector_security_analy.Console.Fault.{SubmissionState, is_session_error, is_value_error}
use collector_security_analy.Console.Action.{Action, Result, ok, lift, ◌>>=◌, ◌>>◌}
use collector_security_analy.Console.Keeps.{Keeps}
use collector_security_analy.Console.Returns.{
  NeverReturns, NeverReturns-bind, bind_ok, try_ok, never, unless_ok, provided_ok,
}
use collector_security_analy.Console.Audit.{Detail, Hashing}
use collector_security_analy.Console.State.{Files, Session, Nonce}
use collector_security_analy.Console.Network.{Ipaddress, source_is_allowed}
use collector_security_analy.Console.Sessions.{audit_event, load_session, verify_token}
use collector_security_analy.Console.Nonces
use collector_security_analy.Console.Nonces.{is_bound}
use collector_security_analy.Console.Nonces.OneUse.{Consumed, consume-Consumed}
use collector_security_analy.Console.Grants
use collector_security_analy.Console.Grants.Frame.{branch_keeps, authorized-Keeps, binding-Keeps}
use collector_security_analy.Console.Submission.{
  Package, Validation, valid, invalid, broken, Services, Request, Readings, require_source, reject,
  refuse, discard,
}
use collector_security_analy.Console.Submission.Accept.{examine}
use collector_security_analy.Console.Submission.Checks.{
  check_token, check_grant, check_replay, check_size, quarantine, validated, check_build,
  check_binding, expected,
}

spent_nonce :
    {s : Session} {id nonce source : String} {now : ℕ} {f g : Files}
    (c : Consumed s id nonce source now f g)
    → lookup id g.nonces ≡ some (record c.stored { used = true })
spent_nonce {id = id} {f = f} c =
    subst (λ g. lookup id g.nonces ≡ some (record c.stored { used = true })) (sym c.after)
      (lookup-insert_self id (record c.stored { used = true }) f.nonces)

module _ ⦃h : Hashing⦄ where
  pub refuse-NeverReturns :
      {A : Type 0} (q : Request) (t : Readings) (st : SubmissionState) (d : String)
      → NeverReturns (refuse {A = A} q t st d)
  unfolding refuse
  refuse-NeverReturns q t st d =
      NeverReturns-bind (reject q t st d) _ (λ _. record { at = λ s. refl })

  pub refuse_after :
      {A B : Type 0} (m : Action Files B) (q : Request) (t : Readings) (st : SubmissionState)
      (d : String)
      → NeverReturns (m >> refuse {A = A} q t st d)
  refuse_after m q t st d = NeverReturns-bind m _ (λ _. refuse-NeverReturns q t st d)

  pub load_session-ok :
      (k : String) (f g : Files) (s : Session)
      → load_session k f ≡ (ok s, g)
      → (lookup k f.sessions ≡ some s) × (g ≡ f)
  unfolding load_session ◌>>=◌
  load_session-ok k f g s e = elim (Option-cases (lookup k f.sessions)) [
    | inl gone ↦ absurd (ground arith)
    | inr (x, found) ↦ (ground arith, ground arith)
  ]

  pub audit_event-nonces :
      (now : ℕ) (ev : String) (d : Dict Detail) (f g : Files)
      → audit_event now ev d f ≡ (ok tt, g)
      → g.nonces ≡ f.nonces
  unfolding audit_event
  audit_event-nonces now ev d f g e = ground arith

  pub audit_event-index :
      (now : ℕ) (ev : String) (d : Dict Detail) (f g : Files)
      → audit_event now ev d f ≡ (ok tt, g)
      → g.index ≡ f.index
  unfolding audit_event
  audit_event-index now ev d f g e = ground arith

  module _ ⦃ip : Ipaddress⦄ (s : Session) (q : Request) (t : Readings) where
    pub require_source-ok :
        (now : ℕ)
        → require_source s q.source_address now ≡ ok tt
        → (now < s.expires_at) × (source_is_allowed s q.source_address ≡ true)
    unfolding require_source
    require_source-ok now e = (ground arith, ground arith)

    check_token-ok :
        (f g : Files)
        → check_token s q t f ≡ (ok tt, g)
        → (verify_token s q.enrollment_token t.token_check ≡ ok tt) × (f ≡ g)
    unfolding check_token
    check_token-ok f g e =
        let p =
          try_ok is_session_error (lift (verify_token s q.enrollment_token t.token_check)) _ f
            (λ _. refuse-NeverReturns q t _ _) e in
        (ap (λ r. r.0) p, ap (λ r. r.1) p)

    check_grant-nonces : (f : Files) → Keeps (λ g. g.nonces ≡ f.nonces) (check_grant s q t)
    unfolding check_grant
    check_grant-nonces f = record {
      at = λ g p.
          branch_keeps (λ g. g.nonces ≡ f.nonces) (λ _ _ e. e) (Grants.required s g) _ _
            ((authorized-Keeps (λ g. g.nonces ≡ f.nonces) (λ _ _ e. e) s q.submission_id
                t.grant_check).at
              g p)
            p;
    }

    check_replay-ok :
        (f g : Files)
        → check_replay s q t f ≡ (ok tt, g)
        → (m : Files) × (m.nonces ≡ f.nonces)
          × (Nonces.consume s q.submission_id q.nonce q.source_address t.nonce_check m ≡ (ok tt, g))
    unfolding check_replay
    check_replay-ok f g e =
        let c : Action Files Unit =
          Nonces.consume s q.submission_id q.nonce q.source_address t.nonce_check in
        let b =
          bind_ok (check_grant s q t) (λ _. c) f
            (try_ok is_value_error (check_grant s q t >> c) _ f (λ _. refuse-NeverReturns q t _ _)
              e) in
        (
          b.1,
          subst (λ (r : Result Unit × Files). r.1.nonces ≡ f.nonces) b.2
              ((check_grant-nonces f).at f refl),
          b.3,
        )

    check_size-ok :
        (f g : Files)
        → check_size s q t f ≡ (ok tt, g)
        → (length q.archive ≤ s.maximum_package_size) × (f ≡ g)
    unfolding check_size
    check_size-ok f g e =
        let p =
          unless_ok (ltb s.maximum_package_size (length q.archive)) tt _ f
            (refuse-NeverReturns q t _ _) e in
        (ground (arith, p.0), p.1)

    quarantine-ok :
        (f g : Files)
        → quarantine q t f ≡ (ok tt, g)
        → (lookup q.submission_id g.quarantine ≡ some q.archive) × (g.nonces ≡ f.nonces)
    unfolding quarantine audit_event ◌>>=◌
    quarantine-ok f g e = ground (arith, lookup-insert_self q.submission_id q.archive f.quarantine)

    validated-ok :
        (v : Validation) (p : Package) (f g : Files)
        → validated q t v f ≡ (ok p, g)
        → (v ≡ valid p) × (f ≡ g)
    validated-ok (valid x) p f g e = (ground (arith, e), ground (arith, e))
    validated-ok (invalid st) p f g e =
        absurd (never _ f (refuse_after (discard q.submission_id) q t _ _) e)
    validated-ok (broken fault) p f g e = cc e

    check_build-ok :
        (p : Package) (f g : Files)
        → check_build s q t p f ≡ (ok tt, g)
        → (contains p.collector_build_digest s.trusted_builds ≡ true) × (f ≡ g)
    unfolding check_build
    check_build-ok p f g e =
        provided_ok (contains p.collector_build_digest s.trusted_builds) tt _ f
          (refuse_after (discard q.submission_id) q t _ _) e

    check_binding-ok :
        (p : Package) (f g : Files)
        → check_binding s q t p f ≡ (ok tt, g)
        → (g.nonces ≡ f.nonces) × (g.quarantine ≡ f.quarantine)
    unfolding check_binding
    check_binding-ok p f g e =
        let inner =
          try_ok is_value_error _ _ f (λ _. refuse_after (discard q.submission_id) q t _ _) e in
        let kept =
          binding-Keeps (λ g. (g.nonces ≡ f.nonces) × (g.quarantine ≡ f.quarantine)) (λ _ _ e. e) s
            q.submission_id "HTTPS" p.collector_build_digest p.collection_profile_digest in
        subst
          (λ (r : Result Unit × Files). (r.1.nonces ≡ f.nonces) × (r.1.quarantine ≡ f.quarantine))
          inner (kept.at f (refl, refl))

-- What a submission has passed before the critical section of `accept`.
pub record Examined ⦃h : Hashing⦄ ⦃ip : Ipaddress⦄ (services : Services) (s : Session) (q : Request)
    (t : Readings) (p : Package) (f g : Files) : Type 0 where
  pub token : verify_token s q.enrollment_token t.token_check ≡ ok tt
  pub nonce : Nonce
  pub issued : lookup q.submission_id f.nonces ≡ some nonce
  pub bound : is_bound s q.submission_id q.nonce q.source_address nonce ≡ true
  pub unused : nonce.used ≡ false
  pub early : t.nonce_check < nonce.expires_at
  pub spent : lookup q.submission_id g.nonces ≡ some (record nonce { used = true })
  pub fits : length q.archive ≤ s.maximum_package_size
  pub valid_package : services.validate (expected s q) q.archive ≡ valid p
  pub trusted : contains p.collector_build_digest s.trusted_builds ≡ true
  pub staged : lookup q.submission_id g.quarantine ≡ some q.archive

module _ ⦃h : Hashing⦄ ⦃ip : Ipaddress⦄ (services : Services) (s : Session) (q : Request)
    (t : Readings) where
  pub examine-Examined :
      (p : Package) (f g : Files)
      → examine services s q t f ≡ (ok p, g)
      → Examined services s q t p f g
  unfolding examine
  examine-Examined p f g e =
      let a = bind_ok (check_token s q t) _ f e in
      let b = bind_ok (check_replay s q t) _ a.1 a.3 in
      let c = bind_ok (check_size s q t) _ b.1 b.3 in
      let d = bind_ok (quarantine q t) _ c.1 c.3 in
      let v = bind_ok (validated q t (services.validate (expected s q) q.archive)) _ d.1 d.3 in
      let w = bind_ok (check_build s q t v.0) _ v.1 v.3 in
      let x = bind_ok (check_binding s q t v.0) _ w.1 w.3 in
      let fin : (v.0 ≡ p) × (x.1 ≡ g) = (ground (arith, x.3), ground (arith, x.3)) in
      let token = check_token-ok s q t f a.1 a.2 in
      let replay = check_replay-ok s q t a.1 b.1 b.2 in
      let used =
        consume-Consumed s q.submission_id q.nonce q.source_address t.nonce_check replay.0 b.1
          replay.2 in
      let size = check_size-ok s q t b.1 c.1 c.2 in
      let staged = quarantine-ok s q t c.1 d.1 d.2 in
      let checked =
        validated-ok s q t (services.validate (expected s q) q.archive) v.0 d.1 v.1 v.2 in
      let build = check_build-ok s q t v.0 v.1 w.1 w.2 in
      let binding = check_binding-ok s q t v.0 w.1 x.1 x.2 in
      let nonces : g.nonces ≡ b.1.nonces = cc in
      let stored : lookup q.submission_id b.1.nonces ≡ some (record used.stored { used = true }) =
        spent_nonce used in
      record {
        token = token.0;
        nonce = used.stored;
        issued = cc;
        bound = used.bound;
        unused = used.fresh;
        early = used.early;
        spent = cc;
        fits = size.0;
        valid_package = cc;
        trusted = cc;
        staged = cc;
      }
