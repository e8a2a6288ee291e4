-- ===== src/Console/Submission/Checks.antt =====
-- csa_console/submission.py: the stages of `accept` before its critical section, one by one.
use collector_security_analy.Common.{String, [], ◌∷◌, ltb, length, contains, if◌then◌else◌}
use collector_security_analy.Common.Dict.{insert}
use collector_security_analy.Console.Fault.{SubmissionState, is_session_error, is_value_error}
use collector_security_analy.Console.Action.{
  raise, Action, ok, pure, lift, modify, try_except, ◌>>◌,
}
use collector_security_analy.Console.Audit.{Detail, Hashing, sha256_bytes}
use collector_security_analy.Console.State.{Session, Files}
use collector_security_analy.Console.Network.{Ipaddress}
use collector_security_analy.Console.Sessions.{check_path, verify_token, audit_event}
use collector_security_analy.Console.Nonces
use collector_security_analy.Console.Grants
use collector_security_analy.Console.Grants.Consume
use collector_security_analy.Console.Submission.{
  Package, Expected, Validation, valid, invalid, broken, Request, Readings, submission_state,
  discard, refuse,
}

module _ ⦃h : Hashing⦄ ⦃ip : Ipaddress⦄ where
  abbrev pub transport_digest : Request → String
  transport_digest q = sha256_bytes q.archive

  abbrev pub source_hash : String → String
  source_hash source = sha256_bytes (h.utf8 source)

  -- The token of a submission
  unfoldable pub check_token : Session → Request → Readings → Action Files Unit
  check_token s q t =
      try_except is_session_error (lift (verify_token s q.enrollment_token t.token_check))
        (λ _. refuse q t SubmissionState.rejected_token (transport_digest q))

  -- `if TrustedGrantStore(…).required(session): …require_authorized_submission(…)`
  unfoldable pub check_grant : Session → Request → Readings → Action Files Unit
  check_grant s q t f =
      if Grants.required s f
      then Consume.require_authorized_submission s q.submission_id t.grant_check f
      else (ok tt, f)

  -- The one-use authorizations of a submission: the trusted grant and the nonce
  unfoldable pub check_replay : Session → Request → Readings → Action Files Unit
  check_replay s q t =
      try_except is_value_error
        (check_grant s q t
          >> Nonces.consume s q.submission_id q.nonce q.source_address t.nonce_check)
        (λ _. refuse q t SubmissionState.rejected_replay (transport_digest q))

  unfoldable pub check_size : Session → Request → Readings → Action Files Unit
  check_size s q t =
      if ltb s.maximum_package_size (length q.archive)
      then refuse q t SubmissionState.rejected_package_limit (transport_digest q)
      else pure tt

  -- The archive is staged before it is opened.
  unfoldable pub quarantine : Request → Readings → Action Files Unit
  quarantine q t = do
    check_path q.submission_id ".csa.zip"
    modify (λ f. record f { quarantine = insert q.submission_id q.archive f.quarantine })
    audit_event t.quarantine_audit "submission_quarantined" (
        ("submissionId", Detail.text q.submission_id)
        ∷ ("transportDigest", Detail.text (transport_digest q))
        ∷ ("stage", Detail.text "IMMUTABLE_STAGING")
        ∷ ("eventClass", Detail.text "STAGING")
        ∷ ("code", Detail.text "CSA-SUB-STAGED")
        ∷ [])

  abbrev pub expected : Session → Request → Expected
  expected s q = record {
    maximum_package_size = s.maximum_package_size;
    enrollment_token = q.enrollment_token;
    assessment_id = q.assessment_id;
    session_id = q.session_id;
    submission_id = q.submission_id;
    nonce = q.nonce;
    profile_digest = s.collection_profile_digest;
  }

  abbrev pub validated : Request → Readings → Validation → Action Files Package
  validated q t (valid p) = pure p
  validated q t (invalid st) =
      discard q.submission_id >> refuse q t (submission_state st) (transport_digest q)
  validated q t (broken e) = raise e

  unfoldable pub check_build : Session → Request → Readings → Package → Action Files Unit
  check_build s q t p =
      if contains p.collector_build_digest s.trusted_builds
      then pure tt
      else discard q.submission_id
        >> refuse q t SubmissionState.rejected_untrusted_collector p.package_digest

  unfoldable pub check_binding : Session → Request → Readings → Package → Action Files Unit
  check_binding s q t p =
      try_except is_value_error
        (Consume.require_evidence_binding s q.submission_id "HTTPS" p.collector_build_digest
          p.collection_profile_digest)
        (λ _.
          discard q.submission_id
          >> refuse q t SubmissionState.rejected_untrusted_collector p.package_digest)
