-- ===== src/Console/Grants/Consume.antt =====
-- csa_console/trusted_grants.py: consuming a grant, and what an authorized submission is bound to.
use collector_security_analy.Common.{
  ℕ, String, Bool, true, false, ◌&&◌, ◌||◌, not, Option, none, some, [], ◌∷◌, leb, ltb, ◌==◌,
  str_eq, if◌then◌else◌,
}
use collector_security_analy.Common.Dict.{lookup, is_some}
use collector_security_analy.Console.Fault.{TrustFault, trust_error}
use collector_security_analy.Console.Action.{
  Action, ok, pure, gets, modify, raise_if, or_raise, ◌>>=◌, ◌>>◌,
}
use collector_security_analy.Console.Audit.{Detail, Hashing}
use collector_security_analy.Console.State.{Session, Files, GrantDb, Grant}
use collector_security_analy.Console.Sessions.{audit_event}
use collector_security_analy.Console.Grants.Rows
use collector_security_analy.Console.Grants.Rows.{
  find, update_where, is_ready, is_preparing, is_failed, opt_is,
}
use collector_security_analy.Console.Grants.{is_locator, transaction, required, or_text, digest}

abbrev pub is_unused : String → Grant → Bool
is_unused envelope_id g = str_eq g.envelope_id envelope_id && not g.used

abbrev pub mark_used : String → String → Grant → Grant
mark_used submission_id transport g = record g {
  used = true;
  submission_id = some submission_id;
  transport = some transport;
}

module _ ⦃h : Hashing⦄ where
  -- The row that `consume` looks for.
  abbrev pub names_grant : String → String → Grant → Bool
  names_grant envelope_id nonce r =
      str_eq r.nonce_digest (digest nonce)
      && (str_eq envelope_id "" || str_eq r.envelope_id envelope_id)

  -- The transaction of `consume`: it returns the envelope that was accepted.
  unfoldable pub consume_row : String → String → String → String → ℕ → Action GrantDb String
  unfolding ◌>>=◌
  consume_row envelope_id nonce submission_id transport now = do
    found ← gets (λ db. find (names_grant envelope_id nonce) db.grants)
    r ← or_raise found (trust_error TrustFault.trust_session)
    raise_if (leb r.expires_at now || not (is_ready r.operation_state))
        (trust_error TrustFault.trust_session)
    raise_if r.used (trust_error TrustFault.trust_replay)
    raise_if (r.network_enabled && not r.auth_used) (trust_error TrustFault.trust_authorization)
    modify (λ db. record db {
      grants = update_where (is_unused r.envelope_id) (mark_used submission_id transport) db.grants;
    })
    pure r.envelope_id

  -- `consume`
  unfoldable pub consume : Session → String → String → String → String → ℕ → ℕ → Action Files Unit
  unfolding consume_row transaction audit_event ◌>>=◌
  consume s envelope_id nonce submission_id transport now audited = do
    raise_if
        (not (is_locator nonce) || (not (str_eq envelope_id "") && not (is_locator envelope_id)))
        (trust_error TrustFault.trust_session)
    accepted ←
        transaction false s.session_id (consume_row envelope_id nonce submission_id transport now)
    audit_event audited "trusted_session_envelope_consumed" (
        ("sessionId", Detail.text s.session_id)
        ∷ ("envelopeId", Detail.text accepted)
        ∷ ("submissionId", Detail.text submission_id)
        ∷ ("transport", Detail.text transport)
        ∷ [])

-- The row of an authorized submission: used by it, over this transport, READY.
abbrev pub is_used_by : String → String → Grant → Bool
is_used_by submission_id transport r =
    (is_ready r.operation_state && r.used)
    && (opt_is r.submission_id submission_id && opt_is r.transport transport)

-- `require_authorized_submission`
unfoldable pub require_authorized_submission : Session → String → ℕ → Action Files Unit
unfolding ◌>>=◌
require_authorized_submission s submission_id now = transaction false s.session_id do
  n ←
      gets (λ db.
        Rows.count (λ r. is_used_by submission_id "HTTPS" r && ltb now r.expires_at) db.grants)
  raise_if (not (n == 1)) (trust_error TrustFault.trust_session)

-- The digests of an optional column, where it is set, must equal that of the package.
abbrev agrees : Option String → String → Bool
agrees none t = true
agrees (some u) t = str_eq u "" || str_eq t u

-- `require_evidence_binding`, for the build and profile digests of the package's manifest
unfoldable pub require_evidence_binding :
    Session → String → String → String → String → Action Files Unit
unfolding ◌>>=◌
require_evidence_binding s submission_id transport build_digest profile_digest f =
    if required s f
    then transaction false s.session_id
        (do
          n ← gets (λ db. Rows.count (is_used_by submission_id transport) db.grants)
          raise_if (not (n == 1)) (trust_error TrustFault.trust_session)
          found ← gets (λ db. find (is_used_by submission_id transport) db.grants)
          r ← or_raise found (trust_error TrustFault.trust_session)
          raise_if (not (agrees r.build_digest build_digest)) (trust_error TrustFault.trust_engine)
          raise_if (not (agrees r.profile_digest profile_digest))
              (trust_error TrustFault.trust_profile))
        f
    else (ok tt, f)

abbrev pub with_provenance : Option Grant → Option Grant
with_provenance none = none
with_provenance (some r) = if str_eq (or_text r.provenance "") "" then none else some r

-- `submission_provenance`: the row whose provenance is recorded with an accepted submission.
unfoldable pub submission_provenance : Session → String → String → Action Files (Option Grant)
unfolding ◌>>=◌
submission_provenance s submission_id transport f =
    if is_some (lookup s.session_id f.grant_dbs)
    then transaction false s.session_id
        (do
          n ← gets (λ db. Rows.count (is_used_by submission_id transport) db.grants)
          found ← gets (λ db. find (is_used_by submission_id transport) db.grants)
          pure (if n == 1 then with_provenance found else none))
        f
    else (ok none, f)
