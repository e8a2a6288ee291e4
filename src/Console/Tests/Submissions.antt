-- ===== src/Console/Tests/Submissions.antt =====
-- The theorems on submissions at two submissions of one session.
use collector_security_analy.Common.{◌≡◌, ◌≢◌, refl, String, true}
use collector_security_analy.Common.Dict.{lookup, insert, erase}
use collector_security_analy.Console.Fault.{SubmissionState, rejected, is_value_error}
use collector_security_analy.Console.Action.{ok, err, try_except}
use collector_security_analy.Console.State.{Files, Receipt}
use collector_security_analy.Console.Submission.{
  Package, reject, refuse, require_source, sort_index,
}
use collector_security_analy.Console.Submission.Accept.{
  accept, examine, store, move_accepted, acknowledge, record_provenance,
}
use collector_security_analy.Console.Submission.Checks.{
  check_token, check_grant, check_replay, check_size, quarantine, check_build, check_binding,
}
use collector_security_analy.Console.Submission.Frame.{Same}
use collector_security_analy.Console.Submission.Rejection.{rejected_frame}
use collector_security_analy.Console.Submission.Acceptance.{Accepted, accept-Accepted}
use collector_security_analy.Console.Submission.Replay.{accepted_once, accept-is_unique, is_unique}
use collector_security_analy.Console.Submission.Index.{
  remove_submission, remove_submission-Removed, Removed, starts_with,
}
use collector_security_analy.Console.Sessions.{
  load_session, verify_token, record_token_use, audit_event, write_session,
}
use collector_security_analy.Console.Network.{source_is_allowed}
use collector_security_analy.Console.Nonces
use collector_security_analy.Console.Grants
use collector_security_analy.Console.Grants.Consume
use collector_security_analy.Console.Audit
use collector_security_analy.Console.Paths.{safe_component}
use collector_security_analy.Console.Tests.Data.{
  hashing, addresses, services, request, readings, files,
}

abbrev packed : String → Package
packed d = record {
  package_digest = d;
  device_id = "d";
  collector_build_digest = "build";
  collection_profile_digest = "profile";
}

abbrev receipt : String → String → Receipt
receipt submission_id d = record {
  assessment_id = "a";
  session_id = "s";
  submission_id = submission_id;
  received_at = 2;
  package_digest = d;
  server_receipt_id = "r";
  server_signature = "key";
}

-- The files after the submission `m`, and after the submission `n` as well
after_m : Files
after_m = (accept ⦃h = hashing⦄ ⦃ip = addresses⦄ services (request "m" "one" 1) readings files).1

after_n : Files
after_n = (accept ⦃h = hashing⦄ ⦃ip = addresses⦄ services (request "n" "two" 2) readings after_m).1

accept_m :
    accept ⦃h = hashing⦄ ⦃ip = addresses⦄ services (request "m" "one" 1) readings files
    ≡ (ok (receipt "m" "1", packed "1"), after_m)
unfolding after_m accept examine check_token check_grant check_replay check_size quarantine
    check_build check_binding store move_accepted acknowledge record_provenance require_source
    load_session verify_token record_token_use audit_event write_session source_is_allowed
    Nonces.consume Grants.required Consume.require_evidence_binding Consume.submission_provenance
    Audit.append Audit.entry_digest Audit.is_sensitive Audit.final_hash safe_component sort_index
    lookup insert erase try_except
accept_m = refl

accept_n :
    accept ⦃h = hashing⦄ ⦃ip = addresses⦄ services (request "n" "two" 2) readings after_m
    ≡ (ok (receipt "n" "2", packed "2"), after_n)
unfolding after_m after_n accept examine check_token check_grant check_replay check_size quarantine
    check_build check_binding store move_accepted acknowledge record_provenance require_source
    load_session verify_token record_token_use audit_event write_session source_is_allowed
    Nonces.consume Grants.required Consume.require_evidence_binding Consume.submission_provenance
    Audit.append Audit.entry_digest Audit.is_sensitive Audit.final_hash safe_component sort_index
    lookup insert erase try_except
accept_n = refl

-- The submission `m` again is a replay, as its nonce is spent.
replay_m :
    (accept ⦃h = hashing⦄ ⦃ip = addresses⦄ services (request "m" "one" 1) readings after_m).0
    ≡ err (rejected SubmissionState.rejected_replay)
unfolding after_m refuse reject is_value_error accept examine check_token check_grant check_replay
    check_size quarantine check_build check_binding store move_accepted acknowledge
    record_provenance require_source load_session verify_token record_token_use audit_event
    write_session source_is_allowed Nonces.consume Grants.required Consume.require_evidence_binding
    Consume.submission_provenance Audit.append Audit.entry_digest Audit.is_sensitive
    Audit.final_hash safe_component sort_index lookup insert erase try_except
replay_m = refl

rejected_frame_example :
    Same after_m
      (accept ⦃h = hashing⦄ ⦃ip = addresses⦄ services (request "m" "one" 1) readings after_m).1
rejected_frame_example =
    rejected_frame ⦃h = hashing⦄ ⦃ip = addresses⦄ services (request "m" "one" 1) readings
      SubmissionState.rejected_replay after_m replay_m

accept-Accepted_example :
    Accepted ⦃h = hashing⦄ ⦃ip = addresses⦄ services
      (request "m" "one" 1)
      readings
      (packed "1")
      files
      after_m
accept-Accepted_example =
    accept-Accepted ⦃h = hashing⦄ ⦃ip = addresses⦄ services (request "m" "one" 1) readings
      (receipt "m" "1") (packed "1") files after_m accept_m

accepted_once_example :
    ((request "n" "two" 2).submission_id ≢ (request "m" "one" 1).submission_id)
    × ((packed "2").package_digest ≢ (packed "1").package_digest)
accepted_once_example =
    accepted_once ⦃h = hashing⦄ ⦃ip = addresses⦄ services (request "m" "one" 1)
      (request "n" "two" 2) readings readings (receipt "m" "1") (receipt "n" "2") (packed "1")
      (packed "2") files after_m after_n accept_m accept_n

unique_m : is_unique after_m.index ≡ true
unfolding after_m is_unique accept examine check_token check_grant check_replay check_size
    quarantine check_build check_binding store move_accepted acknowledge record_provenance
    require_source load_session verify_token record_token_use audit_event write_session
    source_is_allowed Nonces.consume Grants.required Consume.require_evidence_binding
    Consume.submission_provenance Audit.append Audit.entry_digest Audit.is_sensitive
    Audit.final_hash safe_component sort_index lookup insert erase try_except
unique_m = refl

accept-is_unique_example : is_unique after_n.index ≡ true
accept-is_unique_example =
    accept-is_unique ⦃h = hashing⦄ ⦃ip = addresses⦄ services (request "n" "two" 2) readings
      (receipt "n" "2") (packed "2") after_m after_n accept_n unique_m

without_m : Files
without_m = (remove_submission ⦃h = hashing⦄ "m" 3 after_m).1

remove_m : remove_submission ⦃h = hashing⦄ "m" 3 after_m ≡ (ok tt, without_m)
unfolding without_m after_m remove_submission starts_with accept examine check_token check_grant
    check_replay check_size quarantine check_build check_binding store move_accepted acknowledge
    record_provenance require_source load_session verify_token record_token_use audit_event
    write_session source_is_allowed Nonces.consume Grants.required Consume.require_evidence_binding
    Consume.submission_provenance Audit.append Audit.entry_digest Audit.is_sensitive
    Audit.final_hash safe_component sort_index lookup insert erase try_except
remove_m = refl

remove_submission-Removed_example : Removed "m" after_m without_m
remove_submission-Removed_example =
    remove_submission-Removed ⦃h = hashing⦄ "m" 3 after_m without_m remove_m
