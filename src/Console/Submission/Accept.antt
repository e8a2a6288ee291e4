-- ===== src/Console/Submission/Accept.antt =====
-- csa_console/submission.py: `request_nonce` and `accept`, stage by stage, and
-- `record_accepted_provenance` of csa_console/trust_receipts.py.
use collector_security_analy.Console.Submission.Checks.{
  transport_digest, source_hash, check_token, check_replay, check_size, quarantine, expected,
  validated, check_build, check_binding,
}
use collector_security_analy.Common.{
  String, Bool, true, false, Option, none, some, [], ◌∷◌, ◌++◌, str_eq, any, if◌then◌else◌,
}
use collector_security_analy.Common.Dict.{lookup, insert, erase}
use collector_security_analy.Console.Fault.{
  Fault, SubmissionState, TrustFault, rejected, trust_error, is_session_error, is_value_error,
  missing_file, runtime_error,
}
use collector_security_analy.Console.Action.{
  Action, ok, pure, raise, lift, gets, modify, or_raise, try_except, ◌>>=◌, ◌>>◌,
}
use collector_security_analy.Console.Audit.{Detail, Hashing}
use collector_security_analy.Console.State.{Session, Files, IndexItem, Receipt, Grant}
use collector_security_analy.Console.Network.{Ipaddress}
use collector_security_analy.Console.Sessions.{
  check_path, load_session, verify_token, record_token_use, audit_event,
}
use collector_security_analy.Console.Nonces
use collector_security_analy.Console.Grants
use collector_security_analy.Console.Grants.Consume
use collector_security_analy.Console.Submission.{
  Package, Services, Request, Readings, same_submission, sort_index, discard, require_source,
  refuse,
}

-- `except (OSError, ValueError, TypeError, KeyError)`
unfoldable pub is_record_error : Fault → Bool
is_record_error runtime_error = false
is_record_error _ = true

-- `trusted_envelope or ("", "")`
abbrev or_blank : Option (String × String) → String × String
or_blank none = ("", "")
or_blank (some e) = e

module _ ⦃h : Hashing⦄ ⦃ip : Ipaddress⦄ where
  abbrev pub new_item : Request → Readings → Package → IndexItem
  new_item q t p = record {
    assessment_id = q.assessment_id;
    session_id = q.session_id;
    submission_id = q.submission_id;
    device_id = p.device_id;
    package_digest = p.package_digest;
    transport_digest = transport_digest q;
    transport = "HTTPS";
    state = SubmissionState.evidence_accepted;
    processing_state = none;
    received_at = t.received_at;
    source_address_hash = source_hash q.source_address;
  }

  -- `quarantine_path.replace(accepted_path)` and the new item of the index
  unfoldable pub move_accepted : Request → Readings → Package → Action Files Unit
  move_accepted q t p = do
    staged ← gets (λ f. lookup q.submission_id f.quarantine)
    archive ← or_raise staged missing_file
    modify (λ f. record f {
      quarantine = erase q.submission_id f.quarantine;
      accepted = insert q.submission_id archive f.accepted;
      index = sort_index (f.index ++ new_item q t p ∷ []);
    })

  -- The critical section of `accept`: it returns whether the device had submitted before.
  unfoldable pub store : Session → Request → Readings → Package → Action Files Bool
  store s q t p f =
      if any (same_submission q.submission_id p.package_digest) f.index
      then (discard q.submission_id >> refuse q t SubmissionState.rejected_replay p.package_digest)
          f
      else (do
        move_accepted q t p
        record_token_use s
        pure (any (λ i. str_eq i.device_id p.device_id) f.index))
          f

  module _ (services : Services) where
    abbrev pub new_receipt : Request → Readings → Package → String → Receipt
    new_receipt q t p key = record {
      assessment_id = q.assessment_id;
      session_id = q.session_id;
      submission_id = q.submission_id;
      received_at = t.receipt_at;
      package_digest = p.package_digest;
      server_receipt_id = t.receipt_id;
      server_signature = services.sign_receipt key q.submission_id p.package_digest t.receipt_id;
    }

    -- `record_trust_receipt`: without provenance there is nothing to record.
    abbrev pub record_trust :
        Request → Readings → Session → Package → Option Grant → Action Files Unit
    record_trust q t s p none = pure tt
    record_trust q t s p (some g) = do
      r ← or_raise (services.trust_receipt s p g) (trust_error TrustFault.trust_scope)
      modify (λ f. record f { trust_receipts = insert q.submission_id r f.trust_receipts })
      audit_event t.accepted_audit "submission_trust_recorded" (
          ("sessionId", Detail.text s.session_id)
          ∷ ("submissionId", Detail.text q.submission_id)
          ∷ ("envelopeId", Detail.text g.envelope_id)
          ∷ ("assurance", Detail.text r.assurance)
          ∷ ("trustReceiptDigest", Detail.text r.digest)
          ∷ ("transport", Detail.text "HTTPS")
          ∷ [])

    -- `record_accepted_provenance`: no error of it turns an acceptance into a rejection.
    unfoldable pub record_provenance : Request → Readings → Session → Package → Action Files Unit
    record_provenance q t s p =
        try_except is_record_error
          (do
            found ← Consume.submission_provenance s q.submission_id "HTTPS"
            record_trust q t s p found)
          (λ _.
            try_except is_record_error
              (audit_event t.accepted_audit "post_acceptance_trust_record_failed" (
                ("sessionId", Detail.text s.session_id)
                ∷ ("submissionId", Detail.text q.submission_id)
                ∷ ("stage", Detail.text "POST_ACCEPTANCE_TRUST_RECORD")
                ∷ ("eventClass", Detail.text "ACCEPTED")
                ∷ ("code", Detail.text "CSA-TRUST-RECORD-WRITE")
                ∷ []))
              (λ _. pure tt))

    -- The signed receipt of an accepted submission
    unfoldable pub acknowledge :
        Session → Request → Readings → Package → Bool → Action Files Receipt
    acknowledge s q t p repeated = do
      key ← or_raise s.tls_private_key runtime_error
      let r = new_receipt q t p key
      check_path q.submission_id ".receipt.json"
      modify (λ f. record f { receipts = insert q.submission_id r f.receipts })
      record_provenance q t s p
      audit_event t.accepted_audit "submission_accepted" (
          ("stage", Detail.text "EVIDENCE_ACCEPTED")
          ∷ ("eventClass", Detail.text "ACCEPTED")
          ∷ ("repeatEndpoint", Detail.flag repeated)
          ∷ ("sessionId", Detail.text q.session_id)
          ∷ ("submissionId", Detail.text q.submission_id)
          ∷ ("packageDigest", Detail.text p.package_digest)
          ∷ ("receiptId", Detail.text t.receipt_id)
          ∷ [])
      pure r

    -- The stages between the source check and the critical section
    unfoldable pub examine : Session → Request → Readings → Action Files Package
    examine s q t = do
      check_token s q t
      check_replay s q t
      check_size s q t
      quarantine q t
      p ← validated q t (services.validate (expected s q) q.archive)
      check_build s q t p
      check_binding s q t p
      pure p

    -- `SubmissionService.accept`
    unfoldable pub accept : Request → Readings → Action Files (Receipt × Package)
    accept q t = do
      s ← load_session q.session_id
      audit_event t.received_audit "submission_received" (
          ("sessionId", Detail.text q.session_id)
          ∷ ("submissionId", Detail.text q.submission_id)
          ∷ ("transportDigest", Detail.text (transport_digest q))
          ∷ [])
      lift (require_source s q.source_address t.source_check)
      p ← examine s q t
      repeated ← store s q t p
      r ← acknowledge s q t p repeated
      pure (r, p)

  -- A trusted envelope is consumed before its nonce is issued.
  unfoldable pub consume_envelope :
      Session → Request → Option (String × String) → Readings → Action Files Unit
  consume_envelope s q envelope t f =
      if Grants.required s f
      then (let (envelope_id, proof) = or_blank envelope in
            try_except is_value_error
              (Consume.consume s envelope_id proof q.submission_id "HTTPS" t.grant_check
                t.rejected_audit)
              (λ _. raise (rejected SubmissionState.rejected_replay)))
          f
      else (ok tt, f)

  -- `SubmissionService.request_nonce`, with the random text of the nonce
  unfoldable pub request_nonce :
      Request → Option (String × String) → String → Readings → Action Files String
  request_nonce q envelope nonce t = do
    s ← load_session q.session_id
    lift (require_source s q.source_address t.source_check)
    try_except is_session_error (lift (verify_token s q.enrollment_token t.token_check))
        (λ _. raise (rejected SubmissionState.rejected_token))
    consume_envelope s q envelope t
    Nonces.issue s q.submission_id q.source_address 120 nonce t.received_at t.nonce_check
    audit_event t.accepted_audit "submission_requested" (
        ("sessionId", Detail.text q.session_id)
        ∷ ("submissionId", Detail.text q.submission_id)
        ∷ ("sourceAddressHash", Detail.text (source_hash q.source_address))
        ∷ [])
    pure nonce
