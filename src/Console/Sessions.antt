-- ===== src/Console/Sessions.antt =====
-- csa_console/sessions.py: assessments, sessions, and the enrollment token. The functions take the
-- clock readings, the identifiers and the keys that the code obtains while it runs.
pub mod Creation
pub mod Lifecycle
pub mod Tokens
use Prim.Native.Char.{code}
use Prim.Native.String.{◌++◌ as text_append}
use collector_security_analy.Common.{
  ℕ, ◌+◌, ◌*◌, min, ◌==◌, String, Bool, true, false, not, ◌&&◌, ◌||◌, Option, none, some, List, [],
  ◌∷◌, ◌++◌, leb, contains, str_eq, if◌then◌else◌, refl, ◌≡◌,
}
use collector_security_analy.Common.Dict.{Dict, lookup, insert}
use collector_security_analy.Common.Texts.{sorted}
use collector_security_analy.Console.Fault.{
  Fault, SessionStatus, SessionFault, session_error, unsafe_path, missing_file,
}
use collector_security_analy.Console.Action.{
  Action, Result, ok, err, pure, raise, lift, gets, or_raise, modify, raise_if, require, ◌>>=◌,
  ◌>>◌,
}
use collector_security_analy.Console.Audit
use collector_security_analy.Console.Audit.{Detail, Hashing, LogFile, sha256_bytes, final_hash}
use collector_security_analy.Console.Paths.{codes, safe_component}
use collector_security_analy.Console.State.{
  Assessment, AssessmentStatus, CollectorMode, Session, Files,
}

-- `storage.path` of a file named by an identifier: it raises unless the name is a safe component.
abbrev pub is_safe : String → String → Bool
is_safe identifier suffix = safe_component (codes identifier ++ codes suffix)

abbrev pub check_path : String → String → Action Files Unit
check_path identifier suffix = raise_if (not (is_safe identifier suffix)) unsafe_path

module _ ⦃h : Hashing⦄ where
  -- `self._audit(…).append(event, details)` at the time `now`
  unfoldable pub audit_event : ℕ → String → Dict Detail → Action Files Unit
  audit_event now event details f =
      let (r, log) = Audit.append now event details f.audit_log in
      (elim r [ ok _ ↦ ok tt | err e ↦ err e ], record f { audit_log = log })

-- `load_session`
unfoldable pub load_session : String → Action Files Session
unfolding ◌>>=◌
load_session session_id = do
  check_path session_id ".json"
  found ← gets (λ f. lookup session_id f.sessions)
  or_raise found missing_file

-- `_write_session`
unfoldable pub write_session : Session → Action Files Unit
unfolding ◌>>=◌
write_session s = do
  check_path s.session_id ".json"
  modify (λ f. record f { sessions = insert s.session_id s f.sessions })

-- The table `allowed` of `set_session_status`
unfoldable pub is_allowed_transition : SessionStatus → SessionStatus → Bool
is_allowed_transition SessionStatus.open_ SessionStatus.paused = true
is_allowed_transition SessionStatus.open_ SessionStatus.closed = true
is_allowed_transition SessionStatus.paused SessionStatus.open_ = true
is_allowed_transition SessionStatus.paused SessionStatus.closed = true
is_allowed_transition SessionStatus.closed SessionStatus.archived = true
is_allowed_transition _ _ = false

-- `f"session_{status.value.casefold()}"`
unfoldable pub status_event : SessionStatus → String
status_event SessionStatus.draft = "session_draft"
status_event SessionStatus.open_ = "session_open"
status_event SessionStatus.paused = "session_paused"
status_event SessionStatus.closed = "session_closed"
status_event SessionStatus.archived = "session_archived"

abbrev pub is_open : SessionStatus → Bool
is_open SessionStatus.open_ = true
is_open _ = false

abbrev pub is_closed : SessionStatus → Bool
is_closed SessionStatus.closed = true
is_closed _ = false

-- `enrollment_token.partition(".")[0]`
unfoldable pub before_dot : String → String
before_dot String.[] = String.[]
before_dot (String.◌∷◌ c s) =
    let rest = before_dot s in if code c == b'.' then String.[] else String.◌∷◌ c rest

-- `min(token_max_uses, allowed_submission_count)`
abbrev pub use_limit : Session → ℕ
use_limit s = min s.token_max_uses s.allowed_submission_count

-- `if collector_build_digest not in values: values.append(…)`
abbrev pub with_build : String → List String → List String
with_build digest values = if contains digest values then values else values ++ digest ∷ []

module _ ⦃h : Hashing⦄ where
  -- `_verify_token_contract`
  unfoldable pub verify_token_contract : Session → String → ℕ → Result (Unit {0})
  unfolding before_dot sha256_bytes
  verify_token_contract s token now =
      if leb s.token_expires_at now
      then err (session_error SessionFault.token_expired)
      else if leb (use_limit s) s.token_uses
      then err (session_error SessionFault.token_limit)
      else if str_eq (before_dot token) s.token_id
          && str_eq (sha256_bytes (h.utf8 token)) s.token_hash
      then ok tt
      else err (session_error SessionFault.token_invalid)

  -- `verify_token`
  unfoldable pub verify_token : Session → String → ℕ → Result (Unit {0})
  unfolding verify_token_contract
  verify_token s token now =
      if is_open s.status
      then verify_token_contract s token now
      else err (session_error SessionFault.session_not_open)

  -- `verify_offline_token`
  unfoldable pub verify_offline_token : Session → String → ℕ → Result (Unit {0})
  unfolding verify_token_contract
  verify_offline_token s token now =
      if is_open s.status || is_closed s.status
      then verify_token_contract s token now
      else err (session_error SessionFault.no_offline_imports)

-- `record_token_use`: it returns the caller's session with the new count.
unfoldable pub record_token_use : Session → Action Files Session
unfolding load_session write_session ◌>>=◌
record_token_use s = do
  current ← load_session s.session_id
  raise_if (leb (use_limit current) current.token_uses) (session_error SessionFault.token_limit)
  write_session (record current { token_uses = current.token_uses + 1 })
  pure (record s { token_uses = current.token_uses + 1 })

module _ ⦃h : Hashing⦄ where
  -- `set_session_status`
  unfoldable pub set_session_status : String → SessionStatus → ℕ → Action Files Session
  unfolding load_session write_session audit_event is_allowed_transition status_event ◌>>=◌
  set_session_status session_id status now = do
    s ← load_session session_id
    raise_if (not (is_allowed_transition s.status status))
        (session_error (SessionFault.invalid_transition s.status status))
    write_session (record s { status = status })
    audit_event now (status_event status)
        (("assessmentId", Detail.text s.assessment_id) ∷ ("sessionId", Detail.text session_id) ∷ [])
    pure (record s { status = status })

  -- `trust_collector_build`, on the session object that the caller holds.
  unfoldable pub trust_collector_build : Session → String → ℕ → Action Files Session
  unfolding write_session audit_event sorted ◌>>=◌
  trust_collector_build s digest now = do
    let trusting = record s { trusted_builds = sorted (with_build digest s.trusted_builds) }
    write_session trusting
    audit_event now "collector_build_trusted" (
        ("sessionId", Detail.text s.session_id) ∷ ("collectorBuildDigest", Detail.text digest) ∷ [])
    pure trusting

  -- `close_assessment`
  unfoldable pub close_assessment : ℕ → Action Files Assessment
  unfolding audit_event ◌>>=◌
  close_assessment now = do
    a ← gets (λ f. f.assessment)
    let closed = record a { status = AssessmentStatus.closed }
    modify (λ f. record f { assessment = closed })
    audit_event now "assessment_closed" (("assessmentId", Detail.text a.assessment_id) ∷ [])
    pure closed
