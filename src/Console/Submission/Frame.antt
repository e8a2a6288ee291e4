-- ===== src/Console/Submission/Frame.antt =====
-- What the stages of `accept` before the critical section leave alone.
use collector_security_analy.Common.{ℕ, ◌≡◌, refl, String, List, arith}
use collector_security_analy.Common.Dict.{Dict}
use collector_security_analy.Console.Fault.{SubmissionState}
use collector_security_analy.Console.Action.{modify, ◌>>=◌}
use collector_security_analy.Console.Keeps.{
  Keeps, Keeps-modify, Keeps-bind, Keeps-raise, keeps_rules,
}
use collector_security_analy.Console.Audit.{Detail, Hashing}
use collector_security_analy.Console.State.{Files, Session, Nonce, Rejection, GrantDb}
use collector_security_analy.Console.Network.{Ipaddress}
use collector_security_analy.Console.Sessions.{audit_event, load_session}
use collector_security_analy.Console.Nonces
use collector_security_analy.Console.Grants
use collector_security_analy.Console.Grants.Frame.{branch_keeps, authorized-Keeps, binding-Keeps}
use collector_security_analy.Console.Submission.{
  Package, Validation, valid, invalid, broken, Services, Request, Readings, reject, refuse, discard,
  submission_state,
}
use collector_security_analy.Console.Submission.Accept.{examine}
use collector_security_analy.Console.Submission.Checks.{
  check_token, check_grant, check_replay, check_size, quarantine, validated, check_build,
  check_binding,
}

-- The accepted evidence: the index, the archives, the receipts, and the sessions with their counts.
pub record Same (f g : Files) : Type 0 where
  pub index : g.index ≡ f.index
  pub sessions : g.sessions ≡ f.sessions
  pub accepted : g.accepted ≡ f.accepted
  pub receipts : g.receipts ≡ f.receipts

pub Same-refl : (f : Files) → Same f f
Same-refl f = record { index = refl; sessions = refl; accepted = refl; receipts = refl }

module _ (f : Files) where
  rejections-Same :
      (u : Files → Dict Rejection) → Keeps (Same f) (modify (λ g. record g { rejections = u g }))
  rejections-Same u = Keeps-modify _ (λ g s. ground arith)

  quarantine-Same :
      (u : Files → Dict (List ℕ)) → Keeps (Same f) (modify (λ g. record g { quarantine = u g }))
  quarantine-Same u = Keeps-modify _ (λ g s. ground arith)

  nonces-Same : (u : Files → Dict Nonce) → Keeps (Same f) (modify (λ g. record g { nonces = u g }))
  nonces-Same u = Keeps-modify _ (λ g s. ground arith)

  consume-Same :
      (s : Session) (id nonce source : String) (now : ℕ)
      → Keeps (Same f) (Nonces.consume s id nonce source now)
  unfolding Nonces.consume
  consume-Same s id nonce source now = search (keeps_rules, nonces-Same) depth 20

  dbs-Same : (g : Files) (dbs : Dict GrantDb) → Same f g → Same f (record g { grant_dbs = dbs })
  dbs-Same g dbs s = ground arith

  pub discard-Same : (id : String) → Keeps (Same f) (discard id)
  discard-Same id = quarantine-Same _

  ruleset same_rules = (keeps_rules, rejections-Same, quarantine-Same, consume-Same, discard-Same)

  module _ ⦃h : Hashing⦄ where
    pub audit_event-Same :
        (now : ℕ) (e : String) (d : Dict Detail) → Keeps (Same f) (audit_event now e d)
    unfolding audit_event
    audit_event-Same now e d = record { at = λ g s. ground arith }

    pub load_session-Same : (k : String) → Keeps (Same f) (load_session k)
    unfolding load_session
    load_session-Same k = search keeps_rules

    reject-Same :
        (q : Request) (t : Readings) (st : SubmissionState) (d : String)
        → Keeps (Same f) (reject q t st d)
    unfolding reject
    reject-Same q t st d = search (same_rules, audit_event-Same)

    pub refuse-Same :
        {A : Type 0} (q : Request) (t : Readings) (st : SubmissionState) (d : String)
        → Keeps (Same f) (refuse {A = A} q t st d)
    unfolding refuse
    refuse-Same q t st d =
        Keeps-bind (reject q t st d) _ (reject-Same q t st d) (λ _. Keeps-raise _)

    module _ ⦃ip : Ipaddress⦄ (s : Session) (q : Request) (t : Readings) where
      check_token-Same : Keeps (Same f) (check_token s q t)
      unfolding check_token
      check_token-Same = search (same_rules, refuse-Same)

      check_grant-Same : Keeps (Same f) (check_grant s q t)
      unfolding check_grant
      check_grant-Same = record {
        at = λ g p.
            branch_keeps (Same f) dbs-Same (Grants.required s g) _ _
              ((authorized-Keeps (Same f) dbs-Same s q.submission_id t.grant_check).at g p) p;
      }

      check_replay-Same : Keeps (Same f) (check_replay s q t)
      unfolding check_replay
      check_replay-Same = search (same_rules, refuse-Same, check_grant-Same)

      check_size-Same : Keeps (Same f) (check_size s q t)
      unfolding check_size
      check_size-Same = search (same_rules, refuse-Same)

      quarantine_lem-Same : Keeps (Same f) (quarantine q t)
      unfolding quarantine ◌>>=◌
      quarantine_lem-Same = search (same_rules, audit_event-Same)

      validated_lem-Same : (v : Validation) → Keeps (Same f) (validated q t v)
      validated_lem-Same (valid p) = record { at = λ g s. s }
      validated_lem-Same (invalid st) =
          Keeps-bind _ _ (discard-Same q.submission_id)
            (λ _. refuse-Same q t (submission_state st) _)
      validated_lem-Same (broken e) = record { at = λ g s. s }

      check_build-Same : (p : Package) → Keeps (Same f) (check_build s q t p)
      unfolding check_build
      check_build-Same p = search (same_rules, refuse-Same)

      check_binding-Same : (p : Package) → Keeps (Same f) (check_binding s q t p)
      unfolding check_binding
      check_binding-Same p = search (same_rules, refuse-Same, binding-Keeps (Same f) dbs-Same)

      pub examine-Same : (services : Services) → Keeps (Same f) (examine services s q t)
      unfolding examine
      examine-Same services =
          search
            (
              keeps_rules, check_token-Same, check_replay-Same, check_size-Same,
              quarantine_lem-Same, validated_lem-Same, check_build-Same, check_binding-Same,
            )
            depth 20
