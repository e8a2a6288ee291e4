-- ===== src/Console/Tests/Services.antt =====
-- The theorems on the audit log, sessions, nonces and grants at one small assessment.
use collector_security_analy.Common.{
  ℕ, ◌≡◌, ◌≢◌, ◌≤◌, ◌<◌, ◌⊎◌, ◌↔◌, refl, sym, arith, eq_iff, String, true, false, none, some, [],
  ◌∷◌, contains, ◌+◌,
}
use collector_security_analy.Common.Dict.{lookup, insert}
use collector_security_analy.Console.Fault.{
  type_error, SessionStatus, SessionFault, NonceFault, session_error, nonce_error,
}
use collector_security_analy.Console.Action.{ok, err, is_ok}
use collector_security_analy.Console.Audit
use collector_security_analy.Console.Audit.{
  Body, Line, LogFile, parsed, sealed, verify, verified, verify_lines, append, entry_digest,
  new_body, lines_of, is_sensitive, sha256_bytes,
}
use collector_security_analy.Console.Audit.Chain.{verify-tamper_evident, append-verified}
use collector_security_analy.Console.Paths.{safe_component}
use collector_security_analy.Console.State.{Session, Files, GrantDb}
use collector_security_analy.Console.Sessions.{
  trust_collector_build, verify_token, use_limit, before_dot, is_safe,
}
use collector_security_analy.Console.Sessions.Creation.{open_session, new_files, new_session}
use collector_security_analy.Console.Sessions.Lifecycle.{IsValid, IsShut, set_all, closed_is_final}
use collector_security_analy.Console.Sessions.Tokens.{
  record_uses, token_uses_counted, trust_collector_build-overwrites, open_session-verify_token,
}
use collector_security_analy.Console.Nonces
use collector_security_analy.Console.Nonces.{issue, consume, seconds, is_bound}
use collector_security_analy.Console.Nonces.OneUse.{consume_once, issue-consume}
use collector_security_analy.Console.Grants
use collector_security_analy.Console.Grants.Consume
use collector_security_analy.Console.Grants.Consume.{consume_row}
use collector_security_analy.Console.Grants.Rows.{find, update_where}
use collector_security_analy.Console.Grants.Replay.{
  here, next, consumed, grant_consumed_once, Reach-IsDistinct,
}
use collector_security_analy.Console.Grants.Unique.{IsDistinct}
use collector_security_analy.Console.Tests.Data.{
  hashing, assessment, opening, session, nonce, files, grant, grant_db,
}

abbrev first_line : Line
first_line = parsed (sealed ⦃h = hashing⦄ (new_body 1 "start" [] none))

abbrev second_line : Line
second_line = parsed (
    sealed ⦃h = hashing⦄
      (new_body 2 "stop" [] (some (entry_digest ⦃h = hashing⦄ (new_body 1 "start" [] none)))))

abbrev log : LogFile
log = some (first_line ∷ second_line ∷ [])

log-verified : verify ⦃h = hashing⦄ log ≡ verified (some "sha256:2") 2
unfolding verify entry_digest sha256_bytes
log-verified = refl

digests_differ :
    entry_digest ⦃h = hashing⦄ (new_body 1 "start" [] none)
    ≢ entry_digest ⦃h = hashing⦄
        (new_body 2 "stop" [] (some (entry_digest ⦃h = hashing⦄ (new_body 1 "start" [] none))))
unfolding entry_digest sha256_bytes
digests_differ e = ground (arith, e, eq_iff "sha256:1" "sha256:2")

verify-tamper_evident_example : log ≡ log
verify-tamper_evident_example =
    verify-tamper_evident ⦃h = hashing⦄ log log (some "sha256:2") 2
      (
        (λ _. refl, (λ e. absurd (digests_differ e), tt)),
        ((λ e. absurd (digests_differ (sym e)), (λ _. refl, tt)), tt),
      )
      log-verified log-verified

lines-verified : verify_lines ⦃h = hashing⦄ (lines_of log) 0 none ≡ verified (some "sha256:2") 2
unfolding verify_lines entry_digest sha256_bytes
lines-verified = refl

no_details : is_sensitive [] ≡ false
unfolding is_sensitive
no_details = refl

append-verified_example :
    let d = entry_digest ⦃h = hashing⦄ (new_body 3 "next" [] (some "sha256:2")) in
    ((append ⦃h = hashing⦄ 3 "next" [] log).0 ≡ ok d)
    × (verify ⦃h = hashing⦄ (append ⦃h = hashing⦄ 3 "next" [] log).1 ≡ verified (some d) 3)
append-verified_example =
    append-verified ⦃h = hashing⦄ log 3 2 "next" [] (some "sha256:2") lines-verified no_details

closed_session : Session
closed_session = record session { status = SessionStatus.closed }

closed_files : Files
closed_files = record files { sessions = ("s", closed_session) ∷ [] }

one_session :
    (s : Session)
    → s.session_id ≡ "s"
    → s.token_uses ≤ use_limit s
    → IsValid (record files { sessions = ("s", s) ∷ [] })
unfolding lookup
one_session s key within = record {
  keyed = λ k t e. ground (arith, e, key, eq_iff "s" k);
  bounded = λ k t e. ground (arith, e, within, eq_iff "s" k);
}

closed-IsValid : IsValid closed_files
unfolding closed_files closed_session
closed-IsValid = one_session closed_session refl (omega arith)

closed_found : lookup "s" closed_files.sessions ≡ some closed_session
unfolding lookup closed_files closed_session
closed_found = refl

closed-IsShut : IsShut closed_session.status
unfolding closed_session
closed-IsShut = tt

closed_is_final_example :
    (t : Session) × (lookup "s"
        (set_all ⦃h = hashing⦄
          (("s", SessionStatus.open_, 5) ∷ ("s", SessionStatus.archived, 6) ∷ [])
          closed_files).sessions
      ≡ some t)
    × ((token : String) (now : ℕ)
        → verify_token ⦃h = hashing⦄ t token now
          ≡ err (session_error SessionFault.session_not_open))
closed_is_final_example =
    closed_is_final ⦃h = hashing⦄ "s" closed_files closed_session
      (("s", SessionStatus.open_, 5) ∷ ("s", SessionStatus.archived, 6) ∷ []) closed-IsValid
      closed_found closed-IsShut

files-IsValid : IsValid files
files-IsValid = one_session session refl (omega arith)

safe_s : is_safe "s" ".json" ≡ true
unfolding safe_component
safe_s = refl

found_s : lookup "s" files.sessions ≡ some session
unfolding lookup
found_s = refl

token_uses_counted_example :
    (t : Session) × (lookup "s" (record_uses (session ∷ session ∷ session ∷ []) files).1.sessions
      ≡ some t)
    × (t.token_uses ≡ session.token_uses + (record_uses (session ∷ session ∷ session ∷ []) files).0)
    × (t.token_uses ≤ use_limit session)
token_uses_counted_example =
    token_uses_counted "s" (session ∷ session ∷ session ∷ []) session files safe_s
      (refl, (refl, (refl, tt))) files-IsValid found_s

trust_collector_build-overwrites_example :
    (t : Session) × (lookup "s"
        (trust_collector_build ⦃h = hashing⦄ session "other" 5 files).1.sessions
      ≡ some t)
    × (t.token_uses ≡ session.token_uses)
    × (contains "other" t.trusted_builds ≡ true)
trust_collector_build-overwrites_example =
    trust_collector_build-overwrites ⦃h = hashing⦄ session "other" 5 files safe_s

abbrev opened_session : Session
opened_session = new_session ⦃h = hashing⦄ assessment opening none

opened_files : Files
opened_files = (open_session ⦃h = hashing⦄ opening (new_files assessment)).1

opened :
    open_session ⦃h = hashing⦄ opening (new_files assessment)
    ≡ (ok (opened_session, "t.secret"), opened_files)
unfolding opened_files open_session Audit.final_hash safe_component append is_sensitive
opened = refl

token_split : before_dot "t.secret" ≡ "t"
unfolding before_dot
token_split = refl

open_session-verify_token_example : verify_token ⦃h = hashing⦄ opened_session "t.secret" 2 ≡ ok tt
open_session-verify_token_example =
    open_session-verify_token ⦃h = hashing⦄ opening (new_files assessment) 2 opened token_split
      (omega arith) (omega arith)

abbrev used_files : Files
used_files = record files {
  nonces = insert "m" (record (nonce "m" "one") { used = true }) files.nonces;
}

consumed_m : consume session "m" "one" "127.0.0.1" 2 files ≡ (ok tt, used_files)
unfolding consume is_bound safe_component lookup insert
consumed_m = refl

consume_once_example :
    ((consume session "m" "one" "127.0.0.1" 2 used_files).0
      ≡ err (nonce_error NonceFault.bad_binding))
    ⊎ (((consume session "m" "one" "127.0.0.1" 2 used_files).0
          ≡ err (nonce_error NonceFault.already_used))
        ⊎ ((consume session "m" "one" "127.0.0.1" 2 used_files).0 ≡ err type_error))
consume_once_example =
    consume_once session session "m" "one" "one" "127.0.0.1" "127.0.0.1" 2 2 files used_files
      consumed_m

abbrev host : String
host = "127.0.0.1"

abbrev three : String
three = "three"

issued_files : Files
issued_files = (issue session "k" "127.0.0.1" 120 "three" 1 1 files).1

issued_k :
    issue session "k" "127.0.0.1" 120 "three" 1 1 files
    ≡ (ok (Nonces.new_nonce session "k" "127.0.0.1" 120 "three" 1 1), issued_files)
unfolding issued_files issue safe_component insert
issued_k = refl

issue-consume_example : ((consume session "k" "three" "127.0.0.1" 2 issued_files).0 ≡ ok tt) ↔ (
    (session.session_id ≡ session.session_id)
    × (three ≡ three)
    × (host ≡ host)
    × (2 < 1 + seconds 120))
issue-consume_example =
    issue-consume session session "k" host host three three 120 1 1 2 files issued_files
      (Nonces.new_nonce session "k" host 120 three 1 1) issued_k refl

abbrev used_db : GrantDb
used_db = record grant_db { grants = Consume.mark_used "m" "HTTPS" grant ∷ [] }

consumed_grant : consume_row ⦃h = hashing⦄ "e" "proof" "m" "HTTPS" 2 grant_db ≡ (ok "e", used_db)
unfolding consume_row find update_where Grants.digest sha256_bytes
consumed_grant = refl

grant_consumed_once_example :
    is_ok (consume_row ⦃h = hashing⦄ "" "proof" "n" "HTTPS" 3 used_db).0 ≡ false
grant_consumed_once_example =
    grant_consumed_once ⦃h = hashing⦄ "e" "" "proof" "m" "n" "HTTPS" "HTTPS" "e" 2 3 grant_db
      used_db used_db (refl, tt) consumed_grant here

Reach-IsDistinct_example : IsDistinct used_db.grants
Reach-IsDistinct_example =
    Reach-IsDistinct ⦃h = hashing⦄ {a = grant_db} {b = used_db} (refl, tt)
      (next here (consumed "e" "proof" "m" "HTTPS" 2 "e" consumed_grant))
