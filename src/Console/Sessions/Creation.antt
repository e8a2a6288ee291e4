-- ===== src/Console/Sessions/Creation.antt =====
-- csa_console/sessions.py: `create_assessment` and `open_session`.
use Prim.Native.String.{◌++◌ as text_append}
use collector_security_analy.Common.{
  ℕ, ◌+◌, ◌*◌, String, Bool, false, not, Option, none, some, List, [], ◌∷◌,
}
use collector_security_analy.Console.Fault.{SessionStatus, SessionFault, session_error, unsafe_path}
use collector_security_analy.Console.Action.{
  Action, Result, ok, err, pure, gets, raise_if, lift, ◌>>=◌, ◌>>◌,
}
use collector_security_analy.Console.Audit.{Detail, Hashing, sha256_bytes, final_hash}
use collector_security_analy.Console.Paths.{codes, safe_component}
use collector_security_analy.Console.State.{
  Assessment, AssessmentStatus, CollectorMode, Session, Files,
}
use collector_security_analy.Console.Sessions.{write_session, audit_event}

-- The empty directories that `ensure_assessment` creates.
abbrev pub new_files : Assessment → Files
new_files a = record {
  assessment = a;
  sessions = [];
  nonces = [];
  grant_dbs = [];
  index = [];
  quarantine = [];
  accepted = [];
  evidence = [];
  receipts = [];
  rejections = [];
  trust_receipts = [];
  normalized = [];
  findings = [];
  endpoint_reports = [];
  audit_log = none;
}

-- The arguments of `open_session`, and what the call obtains besides them: the profile, identifiers,
-- keys and content digests.
pub record Opening : Type 0 where
  pub expected_devices : ℕ
  pub allowed_submissions : ℕ
  pub expires_in_hours : ℕ
  pub allowed_source_networks : List String
  pub allowed_source_addresses : List String
  pub listen_address : String
  pub listen_port : ℕ
  pub created_by : String
  pub profile_mode : CollectorMode
  pub profile_id : String
  pub profile_digest : String
  pub framework_packs : List String
  pub session_id : String
  pub token_id : String
  pub token_secret : String
  pub tls_private_key : String
  pub tls_fingerprint : String
  pub created_at : ℕ
  pub audited_at : ℕ

-- `timedelta(hours=…)` in microseconds
abbrev pub hours : ℕ → ℕ
hours n = n * 3_600_000_000

abbrev pub is_standard : CollectorMode → Bool
is_standard CollectorMode.standard_user_collection = Bool.true
is_standard _ = false

abbrev pub assessment_open : AssessmentStatus → Bool
assessment_open AssessmentStatus.open_ = Bool.true
assessment_open _ = false

-- `f"{token_id}.{token_secret}"`
abbrev pub enrollment_token : Opening → String
enrollment_token o = text_append o.token_id (text_append "." o.token_secret)

module _ ⦃h : Hashing⦄ where
  abbrev pub new_session : Assessment → Opening → Option String → Session
  new_session a o chain = record {
    assessment_id = a.assessment_id;
    session_id = o.session_id;
    customer_reference = a.customer_reference;
    assessment_name = a.name;
    created_at = o.created_at;
    expires_at = o.created_at + hours o.expires_in_hours;
    collector_mode = CollectorMode.standard_user_collection;
    expected_device_count = o.expected_devices;
    allowed_submission_count = o.allowed_submissions;
    allowed_source_networks = o.allowed_source_networks;
    allowed_source_addresses = o.allowed_source_addresses;
    framework_packs = o.framework_packs;
    collection_profile = o.profile_id;
    collection_profile_digest = o.profile_digest;
    created_by = o.created_by;
    status = SessionStatus.open_;
    token_id = o.token_id;
    token_hash = sha256_bytes (h.utf8 (enrollment_token o));
    token_expires_at = o.created_at + hours o.expires_in_hours;
    token_max_uses = o.allowed_submissions;
    token_uses = 0;
    listen_address = o.listen_address;
    listen_port = o.listen_port;
    maximum_package_size = 25 * 1024 * 1024;
    request_timeout = 60;
    tls_private_key = some o.tls_private_key;
    tls_fingerprint = some o.tls_fingerprint;
    trusted_builds = [];
    trusted_envelope_required = false;
    audit_chain_start = chain;
  }

  -- `open_session`: it returns the session and the token that is shown once.
  unfoldable pub open_session : Opening → Action Files (Session × String)
  unfolding write_session audit_event ◌>>=◌
  open_session o = do
    a ← gets (λ f. f.assessment)
    raise_if (not (assessment_open a.status)) (session_error SessionFault.assessment_not_open)
    raise_if (not (is_standard o.profile_mode)) (session_error SessionFault.profile_not_standard)
    log ← gets (λ f. f.audit_log)
    chain ← lift (final_hash log)
    let s = new_session a o chain
    write_session s
    audit_event o.audited_at "session_opened" (
        ("assessmentId", Detail.text a.assessment_id)
        ∷ ("sessionId", Detail.text o.session_id)
        ∷ ("expiresAt", Detail.number s.expires_at)
        ∷ ("collectorMode", Detail.text "STANDARD_USER_COLLECTION")
        ∷ [])
    pure (s, enrollment_token o)

  abbrev create_in : Option Files → Assessment → ℕ → Result Assessment × Option Files
  create_in (some f) a now = (err (session_error SessionFault.assessment_exists), some f)
  create_in none a now =
      let (r, f) =
        audit_event now "assessment_created"
          (("assessmentId", Detail.text a.assessment_id)
            ∷ ("customerReference", Detail.text a.customer_reference)
            ∷ [])
          (new_files a) in
      (elim r [ ok _ ↦ ok a | err e ↦ err e ], some f)

  -- `create_assessment`; `none` is a root directory that does not exist.
  unfoldable pub create_assessment :
      String → String → String → String → ℕ → ℕ → Option Files → Result Assessment × Option Files
  unfolding audit_event
  create_assessment identifier name customer created_by now audited_at root =
      elim (safe_component (codes identifier)) [
        | Bool.false ↦ (err unsafe_path, root)
        | Bool.true ↦
            create_in root
              (record {
                assessment_id = identifier;
                name = name;
                customer_reference = customer;
                created_at = now;
                created_by = created_by;
                status = AssessmentStatus.open_;
              })
              audited_at
      ]
