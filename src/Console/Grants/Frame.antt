-- ===== src/Console/Grants/Frame.antt =====
-- The transactions of csa_console/trusted_grants.py write nothing but the databases of grants.
use collector_security_analy.Common.{
  ℕ, String, Bool, true, false, Option, none, some, if◌then◌else◌,
}
use collector_security_analy.Common.Dict.{Dict, lookup, insert, is_some}
use collector_security_analy.Console.Action.{Action, Result, ok, err}
use collector_security_analy.Console.Keeps.{Keeps}
use collector_security_analy.Console.State.{Files, Session, GrantDb}
use collector_security_analy.Console.Sessions.{is_safe}
use collector_security_analy.Console.Grants.{transaction, commit, on_db, empty_db, required}
use collector_security_analy.Console.Grants.Consume.{
  require_authorized_submission, require_evidence_binding, submission_provenance,
}

-- A property of the files that does not read the databases of grants is kept.
module _ (P : Files → Type 0)
    (kept : (g : Files) (dbs : Dict GrantDb) → P g → P (record g { grant_dbs = dbs })) where
  commit_lem :
      {A : Type 0} (sid : String) (g : Files) (r : Result A × GrantDb) → P g → P (commit sid g r).1
  commit_lem sid g (ok a, db) p = kept g (insert sid db g.grant_dbs) p
  commit_lem sid g (err e, db) p = p

  on_db_lem :
      {A : Type 0} (create : Bool) (sid : String) (m : Action GrantDb A) (g : Files)
      (o : Option GrantDb)
      → P g
      → P (on_db create sid m g o).1
  on_db_lem create sid m g (some db) p = commit_lem sid g (m db) p
  on_db_lem true sid m g none p = commit_lem sid g (m empty_db) p
  on_db_lem false sid m g none p = p

  pub branch_keeps :
      {A : Type 0} (b : Bool) (x y : Result A × Files) → P x.1 → P y.1 → P (if b then x else y).1
  branch_keeps true x y px py = px
  branch_keeps false x y px py = py

  pub transaction-Keeps :
      {A : Type 0} (create : Bool) (sid : String) (m : Action GrantDb A)
      → Keeps P (transaction create sid m)
  unfolding transaction
  transaction-Keeps create sid m = record {
    at = λ g p.
        branch_keeps (is_safe sid ".sqlite3") (on_db create sid m g (lookup sid g.grant_dbs)) _
          (on_db_lem create sid m g (lookup sid g.grant_dbs) p) p;
  }

  pub authorized-Keeps :
      (s : Session) (id : String) (now : ℕ) → Keeps P (require_authorized_submission s id now)
  unfolding require_authorized_submission
  authorized-Keeps s id now = transaction-Keeps _ _ _

  pub binding-Keeps :
      (s : Session) (id transport build profile : String)
      → Keeps P (require_evidence_binding s id transport build profile)
  unfolding require_evidence_binding
  binding-Keeps s id transport build profile = record {
    at = λ g p. branch_keeps (required s g) _ _ ((transaction-Keeps _ _ _).at g p) p;
  }

  pub provenance-Keeps :
      (s : Session) (id transport : String) → Keeps P (submission_provenance s id transport)
  unfolding submission_provenance
  provenance-Keeps s id transport = record {
    at = λ g p.
        branch_keeps (is_some (lookup s.session_id g.grant_dbs)) _ _
          ((transaction-Keeps _ _ _).at g p) p;
  }
