-- ===== src/Console/Submission.antt =====
-- csa_console/submission.py: the trust boundary that a collector's package passes. The package
-- validator of package.py and the receipt signature of receipts.py are parameters; each clock
-- reading and random text is an argument.
pub mod Checks
pub mod Accept
pub mod Frame
pub mod Rejection
pub mod Stages
pub mod Acceptance
pub mod Replay
pub mod Index
use collector_security_analy.Common.{
  ℕ, String, Bool, true, false, ◌&&◌, ◌||◌, not, Option, none, some, List, [], ◌∷◌, ◌++◌, leb, ltb,
  ◌==◌, str_eq, any, length, keep, contains, if◌then◌else◌,
}
use collector_security_analy.Common.Dict.{Dict, lookup, insert, erase, is_some}
use collector_security_analy.Common.Texts.{text_le}
use collector_security_analy.Console.Fault.{
  Fault, SubmissionState, rejected, is_session_error, is_value_error, unknown_state, not_found,
  runtime_error,
}
use collector_security_analy.Console.Action.{
  Action, Result, ok, err, pure, raise, lift, gets, modify, raise_if, or_raise, try_except, ◌>>=◌,
  ◌>>◌,
}
use collector_security_analy.Console.Audit.{Detail, Hashing, sha256_bytes}
use collector_security_analy.Console.State.{
  Session, Files, IndexItem, Receipt, TrustReceipt, Grant, Nonce,
}
use collector_security_analy.Console.Network.{Ipaddress, source_is_allowed}
use collector_security_analy.Console.Sessions.{
  check_path, load_session, verify_token, record_token_use, audit_event,
}
use collector_security_analy.Console.Nonces
use collector_security_analy.Console.Grants

-- `ValidatedPackage`, as far as the submission service reads it.
pub record Package : Type 0 where
  pub package_digest : String
  pub device_id : String
  pub collector_build_digest : String
  pub collection_profile_digest : String

-- What the validator is asked.
pub record Expected : Type 0 where
  pub maximum_package_size : ℕ
  pub enrollment_token : String
  pub assessment_id : String
  pub session_id : String
  pub submission_id : String
  pub nonce : String
  pub profile_digest : String

-- A `PackageValidationError` carries the text of a state; `none` is one that is no `SubmissionState`.
-- `broken` is another exception of the validator, such as a `KeyError`, which `accept` does not catch.
pub data Validation : Type 0 where
  valid : Package → Validation
  invalid : Option SubmissionState → Validation
  broken : Fault → Validation

-- The code that the submission service calls outside of the modelled modules.
pub record Services : Type 0 where
  pub validate : Expected → List ℕ → Validation
  pub sign_receipt : String → String → String → String → String
  pub trust_receipt : Session → Package → Grant → Option TrustReceipt

-- A call of `accept`.
pub record Request : Type 0 where
  pub assessment_id : String
  pub session_id : String
  pub submission_id : String
  pub enrollment_token : String
  pub nonce : String
  pub source_address : String
  pub archive : List ℕ

-- The clock readings of a call, in their order, and the random identifier of the receipt.
pub record Readings : Type 0 where
  pub received_audit : ℕ
  pub source_check : ℕ
  pub token_check : ℕ
  pub grant_check : ℕ
  pub nonce_check : ℕ
  pub rejected_at : ℕ
  pub rejected_audit : ℕ
  pub quarantine_audit : ℕ
  pub received_at : ℕ
  pub receipt_at : ℕ
  pub accepted_audit : ℕ
  pub receipt_id : String

-- `_submission_state`
unfoldable pub submission_state : Option SubmissionState → SubmissionState
submission_state none = SubmissionState.rejected_schema
submission_state (some st) = st

-- `state.value`
unfoldable pub state_text : SubmissionState → String
state_text SubmissionState.received = "RECEIVED"
state_text SubmissionState.quarantined = "QUARANTINED"
state_text SubmissionState.transport_validated = "TRANSPORT_VALIDATED"
state_text SubmissionState.integrity_validated = "INTEGRITY_VALIDATED"
state_text SubmissionState.schema_validated = "SCHEMA_VALIDATED"
state_text SubmissionState.privacy_scanned = "PRIVACY_SCANNED"
state_text SubmissionState.evidence_accepted = "EVIDENCE_ACCEPTED"
state_text SubmissionState.analyzed = "ANALYZED"
state_text SubmissionState.reported = "REPORTED"
state_text SubmissionState.rejected_session_closed = "REJECTED_SESSION_CLOSED"
state_text SubmissionState.rejected_expired = "REJECTED_EXPIRED"
state_text SubmissionState.rejected_unauthorized_source = "REJECTED_UNAUTHORIZED_SOURCE"
state_text SubmissionState.rejected_token = "REJECTED_TOKEN"
state_text SubmissionState.rejected_replay = "REJECTED_REPLAY"
state_text SubmissionState.rejected_package_limit = "REJECTED_PACKAGE_LIMIT"
state_text SubmissionState.rejected_archive_safety = "REJECTED_ARCHIVE_SAFETY"
state_text SubmissionState.rejected_digest = "REJECTED_DIGEST"
state_text SubmissionState.rejected_schema = "REJECTED_SCHEMA"
state_text SubmissionState.rejected_sensitive_data = "REJECTED_SENSITIVE_DATA"
state_text SubmissionState.rejected_untrusted_collector = "REJECTED_UNTRUSTED_COLLECTOR"
state_text SubmissionState.analysis_failed = "ANALYSIS_FAILED"

-- The duplicate test of `accept`
abbrev pub same_submission : String → String → IndexItem → Bool
same_submission submission_id package_digest i =
    str_eq i.submission_id submission_id || str_eq i.package_digest package_digest

-- `index.sort(key=submissionId)`, which is stable
unfoldable pub insert_item : IndexItem → List IndexItem → List IndexItem
insert_item x [] = x ∷ []
insert_item x (i ∷ is) =
    if text_le x.submission_id i.submission_id then x ∷ i ∷ is else i ∷ insert_item x is

unfoldable pub sort_index : List IndexItem → List IndexItem
unfolding insert_item
sort_index [] = []
sort_index (i ∷ is) = insert_item i (sort_index is)

-- `quarantine_path.unlink(missing_ok=True)`
abbrev pub discard : String → Action Files Unit
discard submission_id = modify λ f. record f { quarantine = erase submission_id f.quarantine }

module _ ⦃ip : Ipaddress⦄ where
  -- `_require_source`
  unfoldable pub require_source : Session → String → ℕ → Result (Unit {0})
  require_source s source now =
      if leb s.expires_at now
      then err (rejected SubmissionState.rejected_expired)
      else if source_is_allowed s source
      then ok tt
      else err (rejected SubmissionState.rejected_unauthorized_source)

module _ ⦃h : Hashing⦄ where
  -- `_reject`
  unfoldable pub reject : Request → Readings → SubmissionState → String → Action Files Unit
  unfolding audit_event ◌>>=◌
  reject q t state digest = do
    check_path q.submission_id ".json"
    modify (λ f. record f {
      rejections =
          insert q.submission_id
            (record {
              submission_id = q.submission_id;
              state = state;
              digest = digest;
              rejected_at = t.rejected_at;
            })
            f.rejections;
    })
    audit_event t.rejected_audit "submission_rejected" (
        ("submissionId", Detail.text q.submission_id)
        ∷ ("state", Detail.text (state_text state))
        ∷ ("digest", Detail.text digest)
        ∷ [])

  -- `_reject(…)` and `raise SubmissionRejected(state, …)`
  unfoldable pub refuse :
      {A : Type 0} → Request → Readings → SubmissionState → String → Action Files A
  unfolding reject ◌>>=◌
  refuse q t state digest = reject q t state digest >> raise (rejected state)
