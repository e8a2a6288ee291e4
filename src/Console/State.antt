-- ===== src/Console/State.antt =====
-- The data of csa_console/models.py that the services store, and the files of one assessment.
use collector_security_analy.Common.{ℕ, String, Bool, Option, List}
use collector_security_analy.Common.Dict.{Dict}
use collector_security_analy.Console.Fault.{SessionStatus, SubmissionState}
use collector_security_analy.Console.Audit.{LogFile}

-- `AssessmentStatus` and `CollectorMode` of enums.py
pub data AssessmentStatus : Type 0 where
  open_ closed archived : AssessmentStatus

pub data CollectorMode : Type 0 where
  standard_user_collection elevated_collection active_validation : CollectorMode

-- `Assessment`
pub record Assessment : Type 0 where
  pub assessment_id : String
  pub name : String
  pub customer_reference : String
  pub created_at : ℕ
  pub created_by : String
  pub status : AssessmentStatus

-- `AssessmentSession`, without the paths of its key files; the last two fields before
-- `audit_chain_start` are the entries `trustedCollectorBuildDigests` and `trustedEnvelopeRequired`
-- of `report_configuration`. Times are microseconds.
pub record Session : Type 0 where
  pub assessment_id : String
  pub session_id : String
  pub customer_reference : String
  pub assessment_name : String
  pub created_at : ℕ
  pub expires_at : ℕ
  pub collector_mode : CollectorMode
  pub expected_device_count : ℕ
  pub allowed_submission_count : ℕ
  pub allowed_source_networks : List String
  pub allowed_source_addresses : List String
  pub framework_packs : List String
  pub collection_profile : String
  pub collection_profile_digest : String
  pub created_by : String
  pub status : SessionStatus
  pub token_id : String
  pub token_hash : String
  pub token_expires_at : ℕ
  pub token_max_uses : ℕ
  pub token_uses : ℕ
  pub listen_address : String
  pub listen_port : ℕ
  pub maximum_package_size : ℕ
  pub request_timeout : ℕ
  pub tls_private_key : Option String
  pub tls_fingerprint : Option String
  pub trusted_builds : List String
  pub trusted_envelope_required : Bool
  pub audit_chain_start : Option String

-- `SubmissionNonce`
pub record Nonce : Type 0 where
  pub session_id : String
  pub submission_id : String
  pub nonce : String
  pub issued_at : ℕ
  pub expires_at : ℕ
  pub source_address : String
  pub used : Bool

-- An item of submissions/index.json.
pub record IndexItem : Type 0 where
  pub assessment_id : String
  pub session_id : String
  pub submission_id : String
  pub device_id : String
  pub package_digest : String
  pub transport_digest : String
  pub transport : String
  pub state : SubmissionState
  pub processing_state : Option String
  pub received_at : ℕ
  pub source_address_hash : String

-- `SubmissionReceipt`
pub record Receipt : Type 0 where
  pub assessment_id : String
  pub session_id : String
  pub submission_id : String
  pub received_at : ℕ
  pub package_digest : String
  pub server_receipt_id : String
  pub server_signature : String

-- A signed trust receipt: its assurance and its digest.
pub record TrustReceipt : Type 0 where
  pub assurance : String
  pub digest : String

-- The metadata that `_reject` writes.
pub record Rejection : Type 0 where
  pub submission_id : String
  pub state : SubmissionState
  pub digest : String
  pub rejected_at : ℕ

-- The column `operationState` of the table `grants`.
pub data OperationState : Type 0 where
  preparing ready failed : OperationState

-- A row of the table `grants`; `profile_digest` is that entry of the column `details`.
pub record Grant : Type 0 where
  pub envelope_id : String
  pub nonce_digest : String
  pub recipient_id : String
  pub expires_at : ℕ
  pub used : Bool
  pub submission_id : Option String
  pub transport : Option String
  pub operation_state : OperationState
  pub build_digest : Option String
  pub profile_digest : Option String
  pub provenance : Option String
  pub bundle_path : Option String
  pub network_enabled : Bool
  pub auth_secret_digest : Option String
  pub auth_used : Bool
  pub requested_mode : String

-- A row of `challenges`.
pub record Challenge : Type 0 where
  pub challenge_id : String
  pub envelope_id : String
  pub nonce_digest : String
  pub expires_at : ℕ
  pub used : Bool

-- A row of `tickets`.
pub record Ticket : Type 0 where
  pub token_digest : String
  pub envelope_id : String
  pub expires_at : ℕ
  pub remaining : ℕ

-- A row of `downloads`.
pub record Download : Type 0 where
  pub token_digest : String
  pub envelope_id : String
  pub expires_at : ℕ
  pub used : Bool

-- The database of one session's trusted grants.
pub record GrantDb : Type 0 where
  pub grants : List Grant
  pub challenges : List Challenge
  pub tickets : List Ticket
  pub downloads : List Download

-- The files of one assessment. A dictionary is a directory, keyed by the identifier in its file
-- names; `archives` and the like are the directories of submissions/ and of the derived data.
pub record Files : Type 0 where
  pub assessment : Assessment
  pub sessions : Dict Session
  pub nonces : Dict Nonce
  pub grant_dbs : Dict GrantDb
  pub index : List IndexItem
  pub quarantine : Dict (List ℕ)
  pub accepted : Dict (List ℕ)
  pub evidence : Dict String
  pub receipts : Dict Receipt
  pub rejections : Dict Rejection
  pub trust_receipts : Dict TrustReceipt
  pub normalized : Dict String
  pub findings : Dict String
  pub endpoint_reports : Dict String
  pub audit_log : LogFile
