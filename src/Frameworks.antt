-- ===== src/Frameworks.antt =====
-- The framework packs (frameworks/): the data of frameworks/enums.py and frameworks/models.py that the
-- evaluation reads and writes, and the statuses of findings (risk.py).
pub mod Findings
pub mod Evaluator
pub mod Coverage
pub mod Evaluation
mod Tests
use collector_security_analy.Common.{ℕ, String, List}

-- `Status` of risk.py
pub data FindingStatus : Type 0 where
  pass fail warning info not_evaluated partial not_applicable error : FindingStatus

-- `Finding`, with the fields that the evaluation reads
pub record Finding : Type 0 where
  pub rule_id : String
  pub status : FindingStatus

-- `FrameworkControlLevel`
pub data Level : Type 0 where
  technical procedural organizational mixed : Level

-- `AutomationCapability`
pub data Automation : Type 0 where
  automated partly_automated manual automation_not_applicable : Automation

-- `MappingStrength`
pub data Strength : Type 0 where
  direct supporting contextual : Strength

-- `MappingStatus`
pub data MappingStatus : Type 0 where
  validated provisional deprecated : MappingStatus

-- `AssessmentMode` and `EvaluationMode`, which have the same members
pub data Mode : Type 0 where
  formal_assessment traceability_only : Mode

-- `FrameworkControlStatus`
pub data ControlStatus : Type 0 where
  satisfied not_satisfied partially_satisfied not_assessable control_not_applicable
        control_not_evaluated :
      ControlStatus

-- `PackStatus`
pub data PackStatus : Type 0 where
  active review_required draft pack_deprecated archived : PackStatus

-- `RuleMapping`, without its rationale and its review
pub record RuleMapping : Type 0 where
  pub rule_id : String
  pub strength : Strength
  pub status : MappingStatus
  pub evidence_limitations : List String

-- `FrameworkControl`
pub record FrameworkControl : Type 0 where
  pub control_id : String
  pub title : String
  pub level : Level
  pub automation : Automation
  pub mappings : List RuleMapping

-- `FrameworkPack`, without its provenance
pub record FrameworkPack : Type 0 where
  pub framework_id : String
  pub version : String
  pub status : PackStatus
  pub assessment_mode : Mode
  pub controls : List FrameworkControl

-- `AssessmentPolicy`
pub record AssessmentPolicy : Type 0 where
  pub not_applicable_controls : List String

-- `FrameworkControlResult`
pub record ControlResult : Type 0 where
  pub framework_id : String
  pub framework_version : String
  pub control_id : String
  pub title : String
  pub status : ControlStatus
  pub automation : Automation
  pub mapped_rule_ids : List String
  pub passed_rule_ids : List String
  pub failed_rule_ids : List String
  pub unavailable_rule_ids : List String
  pub provisional_rule_ids : List String
  pub confidence : ℕ
  pub limitations : List String
  pub presentation_status : String
