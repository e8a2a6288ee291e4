-- ===== src/Console/Grants.antt =====
-- csa_console/trusted_grants.py: issuing and consuming one-use trusted grants. A transaction that
-- raises is rolled back. Times are microseconds.
pub mod Unique
pub mod Rows
pub mod Issue
pub mod Consume
pub mod Network
pub mod Frame
pub mod Replay
use collector_security_analy.Common.{
  ℕ, ◌+◌, String, Bool, true, false, ◌&&◌, ◌||◌, not, Option, none, some, List, [], ◌∷◌, ◌++◌, leb,
  ltb, ◌==◌, str_eq, any, all, length, keep, contains, if◌then◌else◌,
}
use collector_security_analy.Common.Dict.{lookup, insert, is_some}
use collector_security_analy.Common.Texts.{as_set, sorted}
use collector_security_analy.Console.Fault.{Fault, TrustFault, trust_error, unsafe_path}
use collector_security_analy.Console.Action.{
  Action, Result, ok, err, pure, raise, gets, modify, raise_if, or_raise, try_except, ◌>>=◌, ◌>>◌,
}
use collector_security_analy.Console.Audit.{Detail, Hashing, sha256_bytes}
use collector_security_analy.Console.Paths.{codes, is_name_char}
use collector_security_analy.Console.State.{
  Session, Files, GrantDb, Grant, OperationState, preparing, ready, failed,
}
use collector_security_analy.Console.Sessions.{is_safe, load_session, write_session, audit_event}

-- `[A-Za-z0-9_-]`
abbrev is_locator_char : ℕ → Bool
is_locator_char c = is_name_char c && not (c == b'.')

-- `_locator`: `[A-Za-z0-9_-]{16,128}`
unfoldable pub is_locator : String → Bool
is_locator t =
    let cs = codes t in all is_locator_char cs && (leb 16 (length cs) && leb (length cs) 128)

abbrev pub empty_db : GrantDb
empty_db = record { grants = []; challenges = []; tickets = []; downloads = [] }

abbrev pub commit : {A : Type 0} → String → Files → Result A × GrantDb → Result A × Files
commit sid f (ok a, db) = (ok a, record f { grant_dbs = insert sid db f.grant_dbs })
commit sid f (err e, db) = (err e, f)

abbrev pub on_db :
    {A : Type 0} → Bool → String → Action GrantDb A → Files → Option GrantDb → Result A × Files
on_db create sid m f (some db) = commit sid f (m db)
on_db true sid m f none = commit sid f (m empty_db)
on_db false sid m f none = (err (trust_error TrustFault.trust_session), f)

-- `_transaction`, over the database of the session `sid`
unfoldable pub transaction : {A : Type 0} → Bool → String → Action GrantDb A → Action Files A
transaction create sid m f =
    if is_safe sid ".sqlite3"
    then on_db create sid m f (lookup sid f.grant_dbs)
    else (err unsafe_path, f)

-- `required`
unfoldable pub required : Session → Files → Bool
required s f = s.trusted_envelope_required || is_some (lookup s.session_id f.grant_dbs)

abbrev pub or_text : Option String → String → String
or_text none t = t
or_text (some u) t = if str_eq u "" then t else u

abbrev pub opt_all : {A : Type 0} → (A → Bool) → Option A → Bool
opt_all p none = true
opt_all p (some a) = p a

abbrev pub map_option : {A B : Type 0} → (A → B) → Option A → Option B
map_option g none = none
map_option g (some a) = some (g a)

module _ ⦃h : Hashing⦄ where
  -- `_digest`
  unfoldable pub digest : String → String
  digest t = sha256_bytes (h.utf8 t)
