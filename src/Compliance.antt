-- ===== src/Compliance.antt =====
-- The compliance engine (compliance/): the data of compliance/enums.py and compliance/models.py that
-- the decisions read.
pub mod Selection
pub mod Evaluator
pub mod Engine
mod Tests
use collector_security_analy.Common.{ℕ, String, Bool, Option, List}
use collector_security_analy.Common.Dict.{Dict}

-- `ComplianceStatus`
pub data ComplianceStatus : Type 0 where
  compliant non_compliant partially_compliant not_assessed not_applicable manual_review :
      ComplianceStatus

-- `EvidenceResult`
pub data EvidenceResult : Type 0 where
  supports contradicts inconclusive missing excluded : EvidenceResult

-- `EvidenceSourceType`
pub data SourceType : Type 0 where
  finding raw_field rule_metadata software_inventory cve_result manual_attestation external_system :
      SourceType

-- `AssessmentScope`
pub data Scope : Type 0 where
  endpoint server organisation identity network cloud application ot : Scope

-- `MappingRelationship`
pub data Relationship : Type 0 where
  supporting contradicting partial context_only : Relationship

-- `EvidenceRequirement`; `is_composite` says that its extractor is "composite".
pub record Requirement : Type 0 where
  pub evidence_id : String
  pub source_type : SourceType
  pub source_reference : String
  pub mandatory : Bool
  pub is_composite : Bool

-- `ControlDefinition`; `alternative` is the entry `alternative_measure_allowed` of its metadata.
pub record Control : Type 0 where
  pub control_id : String
  pub framework_id : String
  pub scope : List Scope
  pub implementation_groups : List String
  pub requirements : List Requirement
  pub alternative : Bool

-- `EvidenceRecord`
pub record Evidence : Type 0 where
  pub evidence_id : String
  pub source_type : SourceType
  pub source_reference : String
  pub result : EvidenceResult
  pub confidence : ℕ
  pub mandatory : Bool
  pub mapping_relationship : Option Relationship
  pub mapping_confidence : Option ℕ
  pub mapping_validated : Option Bool

-- `ComplianceProfile`; `cis_ig` is the override `CIS_IG` of its policies, "" where it has none.
pub record Profile : Type 0 where
  pub enabled_controls : Dict (List String)
  pub excluded_controls : Dict (List String)
  pub cis_ig : String

-- `RuleControlMapping`
pub record Mapping : Type 0 where
  pub rule_id : String
  pub relationship : Relationship
  pub confidence : ℕ
  pub validated : Bool

-- `ControlAssessment`, with its counts of requirements; scores and percentages are left out.
pub record Assessment : Type 0 where
  pub status : ComplianceStatus
  pub evidence : List Evidence
  pub rationale : String
  pub remediation : Option String
  pub applicable : Bool
  pub manual_review_required : Bool
  pub assessed_scopes : List Scope
  pub unassessed_scopes : List Scope
  pub requirement_count : ℕ
  pub covered_count : ℕ
  pub mandatory_count : ℕ
  pub covered_mandatory_count : ℕ
