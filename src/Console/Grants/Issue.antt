-- ===== src/Console/Grants/Issue.antt =====
-- csa_console/trusted_grants.py: issuing a grant, and reconciling interrupted issues.
use collector_security_analy.Common.{
  ℕ, String, Bool, true, false, ◌&&◌, ◌||◌, not, Option, none, some, List, [], ◌∷◌, ◌++◌, ltb, ◌==◌,
  str_eq, any, if◌then◌else◌,
}
use collector_security_analy.Common.Dict.{is_some}
use collector_security_analy.Common.Texts.{as_set, sorted}
use collector_security_analy.Console.Fault.{TrustFault, trust_error}
use collector_security_analy.Console.Action.{
  Action, ok, pure, raise, gets, modify, raise_if, try_except, ◌>>=◌, ◌>>◌,
}
use collector_security_analy.Console.Audit.{Detail, Hashing}
use collector_security_analy.Console.State.{
  Session, Files, GrantDb, Grant, preparing, ready, failed,
}
use collector_security_analy.Console.Sessions.{load_session, write_session, audit_event}
use collector_security_analy.Console.Grants.Rows
use collector_security_analy.Console.Grants.Rows.{
  find, update_where, is_ready, is_preparing, is_failed, opt_is,
}
use collector_security_analy.Console.Grants.{
  is_locator, transaction, or_text, opt_all, map_option, digest,
}

-- A session envelope, as far as issuing reads it.
pub record Envelope : Type 0 where
  pub assessment_id : String
  pub session_id : String
  pub envelope_id : String
  pub nonce : String
  pub recipient_id : String
  pub expires_at : ℕ
  pub schema_version : ℕ
  pub profile_digest : Option String

-- What `VerifiedTrustEvidence.bind` decides, and the facts that issuing reads from it.
pub record Provenance : Type 0 where
  pub is_bound : Bool
  pub collector_build_digest : String
  pub assurance : String
  pub recorded : String

-- The options of `issue`.
pub record Options : Type 0 where
  pub private_proof : Option String
  pub authorization_secret : Option String
  pub build_digest : Option String
  pub provenance : Option Provenance
  pub bundle_path : Option String
  pub network : Bool

module _ ⦃h : Hashing⦄ where
  abbrev pub new_grant : Envelope → Options → Grant
  new_grant e o = record {
    envelope_id = e.envelope_id;
    nonce_digest = digest (or_text o.private_proof e.nonce);
    recipient_id = e.recipient_id;
    expires_at = e.expires_at;
    used = false;
    submission_id = none;
    transport = none;
    operation_state = preparing;
    build_digest = none;
    profile_digest = e.profile_digest;
    provenance = none;
    bundle_path = none;
    network_enabled = false;
    auth_secret_digest = map_option digest o.authorization_secret;
    auth_used = false;
    requested_mode = "NOT_RECORDED";
  }

  -- `INSERT INTO grants`: the envelope is the primary key, and nonce digests are unique.
  unfoldable pub insert_grant : Grant → Action GrantDb Unit
  unfolding ◌>>=◌
  insert_grant g = do
    taken ← gets (λ db.
        any (λ r. str_eq r.envelope_id g.envelope_id || str_eq r.nonce_digest g.nonce_digest)
          db.grants)
    raise_if taken (trust_error TrustFault.trust_replay)
    modify (λ db. record db { grants = db.grants ++ g ∷ [] })

  -- The guard of `begin_issue`
  unfoldable pub is_issuable : Session → Envelope → Options → ℕ → Bool
  is_issuable s e o now =
      (str_eq e.assessment_id s.assessment_id
        && (str_eq e.session_id s.session_id && ltb now e.expires_at))
      && ((is_locator e.envelope_id && (is_locator e.nonce && is_locator e.recipient_id))
          && (is_locator (or_text o.private_proof e.nonce)
              && opt_all is_locator o.authorization_secret))

  -- `begin_issue`
  unfoldable pub begin_issue : Session → Envelope → Options → ℕ → Action Files Unit
  unfolding insert_grant transaction is_issuable ◌>>=◌
  begin_issue s e o now = do
    raise_if (not (is_issuable s e o now)) (trust_error TrustFault.trust_session)
    transaction true s.session_id (insert_grant (new_grant e o))

-- `WHERE envelopeId=? AND operationState='PREPARING' AND used=0`
abbrev pub is_pending : String → Grant → Bool
is_pending envelope_id r =
    str_eq r.envelope_id envelope_id && (is_preparing r.operation_state && not r.used)

-- `SET operationState='FAILED'`
abbrev pub mark_failed : Grant → Grant
mark_failed r = record r { operation_state = failed }

-- `UPDATE grants SET operationState='FAILED' …`
unfoldable pub fail_row : String → Action GrantDb Unit
fail_row envelope_id =
    modify λ db. record db { grants = update_where (is_pending envelope_id) mark_failed db.grants }

-- `fail_issue`: it swallows its own errors.
unfoldable pub fail_issue : Session → String → Action Files Unit
unfolding transaction fail_row
fail_issue s envelope_id f =
    let (_, g) = transaction false s.session_id (fail_row envelope_id) f in (ok tt, g)

-- The provenance is bound to the session and the envelope, and names the build that is issued.
unfoldable pub is_attested : Options → Bool
is_attested o =
    opt_all (λ p. p.is_bound && opt_is o.build_digest p.collector_build_digest) o.provenance

-- A network grant needs provenance, an envelope of schema 2 and a bundle.
unfoldable pub is_enrolled : Envelope → Options → Bool
is_enrolled e o =
    not o.network || (is_some o.provenance && (e.schema_version == 2 && is_some o.bundle_path))

-- `if build_digest: sorted(values | {build_digest})`
abbrev pub with_option : Option String → List String → List String
with_option none values = values
with_option (some d) values = if str_eq d "" then values else sorted (as_set (d ∷ values))

-- `SET operationState='READY', …`
abbrev pub mark_ready : Options → Grant → Grant
mark_ready o r = record r {
  operation_state = ready;
  build_digest = o.build_digest;
  provenance = map_option (λ (p : Provenance). p.recorded) o.provenance;
  bundle_path = o.bundle_path;
  network_enabled = o.network;
}

abbrev assurance_of : Option Provenance → String
assurance_of none = "NOT_EVALUATED"
assurance_of (some p) = p.assurance

-- `UPDATE grants SET operationState='READY' …`
unfoldable pub make_ready : Envelope → Options → Action GrantDb Unit
unfolding ◌>>=◌
make_ready e o = do
  updated ← gets (λ db. any (is_pending e.envelope_id) db.grants)
  raise_if (not updated) (trust_error TrustFault.trust_issuance)
  modify (λ db. record db {
    grants = update_where (is_pending e.envelope_id) (mark_ready o) db.grants;
  })

module _ ⦃h : Hashing⦄ where
  -- The body of the `try` in `finish_issue`
  unfoldable pub activate : Session → Envelope → Options → ℕ → Action Files Unit
  unfolding load_session write_session audit_event make_ready transaction is_attested is_enrolled
      ◌>>=◌
  activate s e o now = do
    raise_if (not (is_attested o)) (trust_error TrustFault.trust_scope)
    raise_if (not (is_enrolled e o)) (trust_error TrustFault.trust_enrollment)
    current ← load_session s.session_id
    write_session (record current {
      trusted_envelope_required = true;
      trusted_builds = with_option o.build_digest current.trusted_builds;
    })
    audit_event now "trusted_session_envelope_prepared" (
        ("sessionId", Detail.text s.session_id)
        ∷ ("envelopeId", Detail.text e.envelope_id)
        ∷ ("expiresAt", Detail.number e.expires_at)
        ∷ ("operationState", Detail.text "PREPARING")
        ∷ ("assurance", Detail.text (assurance_of o.provenance))
        ∷ [])
    transaction false s.session_id (make_ready e o)

  -- `finish_issue`: a failure marks the grant FAILED and is raised again.
  unfoldable pub finish_issue : Session → Envelope → Options → ℕ → Action Files Unit
  unfolding activate fail_issue try_except ◌>>=◌
  finish_issue s e o now =
      try_except (λ _. true) (activate s e o now) (λ x. fail_issue s e.envelope_id >> raise x)

  -- `issue`
  unfoldable pub issue : Session → Envelope → Options → ℕ → ℕ → Action Files Unit
  unfolding begin_issue finish_issue ◌>>=◌
  issue s e o now audited = do begin_issue s e o now; finish_issue s e o audited

-- `WHERE operationState='PREPARING' AND used=0`
abbrev pub is_interrupted : Grant → Bool
is_interrupted r = is_preparing r.operation_state && not r.used

-- A READY grant whose bundle lacks one of its five files.
abbrev pub is_unpublished : (String → Bool) → Grant → Bool
is_unpublished published r =
    (is_ready r.operation_state && not r.used)
    && (is_some r.bundle_path && not (opt_all published r.bundle_path))

-- The updates of `reconcile`; `published` says whether the five files of a bundle exist.
unfoldable pub reconcile_rows : (String → Bool) → Action GrantDb (List Grant)
unfolding ◌>>=◌
reconcile_rows published = do
  modify (λ db. record db { grants = update_where is_interrupted mark_failed db.grants })
  modify
      (λ db. record db { grants = update_where (is_unpublished published) mark_failed db.grants })
  gets (λ db. db.grants)

module _ ⦃h : Hashing⦄ where
  -- `reconcile`
  unfoldable pub reconcile : Session → (String → Bool) → ℕ → Action Files (List Grant)
  unfolding reconcile_rows transaction load_session write_session audit_event ◌>>=◌
  reconcile s published now = do
    rows ← transaction true s.session_id (reconcile_rows published)
    current ← load_session s.session_id
    write_session (record current { trusted_envelope_required = true })
    audit_event now "trusted_issuance_reconciled" (
        ("sessionId", Detail.text s.session_id)
        ∷ (
          "failedOperations",
          Detail.number (Rows.count (λ (r : Grant). is_failed r.operation_state) rows),
        )
        ∷ ("consumedOperations", Detail.number (Rows.count (λ (r : Grant). r.used) rows))
        ∷ [])
    pure rows
