-- ===== src/Console/Fault.antt =====
-- The exceptions that the Console services raise (csa_console/enums.py and the error classes of
-- sessions.py, nonces.py, storage.py, trusted_grants.py, submission.py).
use collector_security_analy.Common.{Bool, true, false}

-- `SessionStatus` of enums.py
pub data SessionStatus : Type 0 where
  draft open_ paused closed archived : SessionStatus

-- `SubmissionState` of enums.py
pub data SubmissionState : Type 0 where
  received quarantined transport_validated integrity_validated : SubmissionState
  schema_validated privacy_scanned evidence_accepted analyzed reported : SubmissionState
  rejected_session_closed rejected_expired rejected_unauthorized_source : SubmissionState
  rejected_token rejected_replay rejected_package_limit rejected_archive_safety : SubmissionState
  rejected_digest rejected_schema rejected_sensitive_data : SubmissionState
  rejected_untrusted_collector analysis_failed : SubmissionState

-- The messages of `SessionError`.
pub data SessionFault : Type 0 where
  assessment_exists assessment_not_open profile_not_standard : SessionFault
  session_not_open no_offline_imports token_expired token_limit token_invalid : SessionFault
  invalid_transition : SessionStatus → SessionStatus → SessionFault

-- The messages of `NonceError`.
pub data NonceFault : Type 0 where
  bad_binding already_used expired : NonceFault

-- The codes of the `ValueError`s of trusted_grants.py.
pub data TrustFault : Type 0 where
  trust_session trust_replay trust_authorization trust_mode trust_download : TrustFault
  trust_challenge trust_engine trust_profile trust_issuance trust_scope trust_enrollment :
      TrustFault

-- An exception. `missing_file` is an `OSError`, `runtime_error` a `RuntimeError`, `type_error` a
-- `TypeError`; the others are
-- subclasses of `ValueError`.
pub data Fault : Type 0 where
  session_error : SessionFault → Fault
  nonce_error : NonceFault → Fault
  trust_error : TrustFault → Fault
  rejected : SubmissionState → Fault
  unsafe_path sensitive_details bad_json unknown_state not_found : Fault
  missing_file runtime_error type_error : Fault

-- `except SessionError`
unfoldable pub is_session_error : Fault → Bool
is_session_error (session_error _) = true
is_session_error _ = false

-- `except ValueError`, and `except (NonceError, ValueError)`
unfoldable pub is_value_error : Fault → Bool
is_value_error missing_file = false
is_value_error runtime_error = false
is_value_error type_error = false
is_value_error _ = true
