-- ===== src/Console/Tests/Data.antt =====
-- One small assessment: a hash, addresses, a session, and requests to it.
use Prim.Native.String.{◌++◌ as text_append}
use collector_security_analy.Common.{
  ℕ, String, false, none, some, List, [], ◌∷◌, ◌==◌, str_eq, if◌then◌else◌,
}
use collector_security_analy.Console.Audit.{Hashing, Body}
use collector_security_analy.Console.Paths.{codes}
use collector_security_analy.Console.State.{
  Assessment, AssessmentStatus, CollectorMode, Session, Nonce, Files, Grant, GrantDb,
  OperationState,
}
use collector_security_analy.Console.Network.{Address, Ipaddress}
use collector_security_analy.Console.Sessions.Creation.{new_files, Opening, new_session}
use collector_security_analy.Console.Submission.{Package, valid, Services, Request, Readings}

abbrev digit : ℕ → String
digit n = if n == 1 then "1" else if n == 2 then "2" else "c"

abbrev pub digits : List ℕ → String
digits [] = ""
digits (n ∷ ns) = text_append (digit n) (digits ns)

abbrev pub hashing : Hashing
hashing = record { sha256 = digits; utf8 = codes; canonical_bytes = λ (b : Body). b.timestamp ∷ [] }

abbrev pub addresses : Ipaddress
addresses = record {
  ip_address = λ t.
      if str_eq t "127.0.0.1" then some (record { version = 4; value = 2_130_706_433 }) else none;
  ip_network = λ t. none;
  is_loopback = λ (a : Address). a.value == 2_130_706_433;
  is_unspecified = λ (a : Address). a.value == 0;
}

abbrev pub assessment : Assessment
assessment = record {
  assessment_id = "a";
  name = "name";
  customer_reference = "reference";
  created_at = 1;
  created_by = "operator";
  status = AssessmentStatus.open_;
}

abbrev pub opening : Opening
opening = record {
  expected_devices = 2;
  allowed_submissions = 2;
  expires_in_hours = 1;
  allowed_source_networks = [];
  allowed_source_addresses = [];
  listen_address = "127.0.0.1";
  listen_port = 8443;
  created_by = "operator";
  profile_mode = CollectorMode.standard_user_collection;
  profile_id = "standard";
  profile_digest = "profile";
  framework_packs = [];
  session_id = "s";
  token_id = "t";
  token_secret = "secret";
  tls_private_key = "key";
  tls_fingerprint = "print";
  created_at = 1;
  audited_at = 1;
}

abbrev pub session : Session
session =
    let s = new_session ⦃h = hashing⦄ assessment opening none in
    record s { trusted_builds = "build" ∷ [] }

abbrev pub nonce : String → String → Nonce
nonce submission_id token = record {
  session_id = "s";
  submission_id = submission_id;
  nonce = token;
  issued_at = 1;
  expires_at = 9;
  source_address = "127.0.0.1";
  used = false;
}

abbrev pub files : Files
files =
    let f = new_files assessment in
    record f {
      sessions = ("s", session) ∷ [];
      nonces = ("m", nonce "m" "one") ∷ ("n", nonce "n" "two") ∷ [];
    }

-- Each archive holds the package that its first byte names.
abbrev package_of : List ℕ → Package
package_of [] = record {
  package_digest = "none";
  device_id = "d";
  collector_build_digest = "build";
  collection_profile_digest = "profile";
}
package_of (b ∷ bs) = record {
  package_digest = digit b;
  device_id = "d";
  collector_build_digest = "build";
  collection_profile_digest = "profile";
}

abbrev pub services : Services
services = record {
  validate = λ e archive. valid (package_of archive);
  sign_receipt = λ key submission digest receipt. key;
  trust_receipt = λ s p g. none;
}

abbrev pub request : String → String → ℕ → Request
request submission_id token byte = record {
  assessment_id = "a";
  session_id = "s";
  submission_id = submission_id;
  enrollment_token = "t.secret";
  nonce = token;
  source_address = "127.0.0.1";
  archive = byte ∷ [];
}

abbrev pub readings : Readings
readings = record {
  received_audit = 2;
  source_check = 2;
  token_check = 2;
  grant_check = 2;
  nonce_check = 2;
  rejected_at = 2;
  rejected_audit = 2;
  quarantine_audit = 2;
  received_at = 2;
  receipt_at = 2;
  accepted_audit = 2;
  receipt_id = "r";
}

abbrev pub grant : Grant
grant = record {
  envelope_id = "e";
  nonce_digest = "sha256:ccccc";
  recipient_id = "recipient";
  expires_at = 9;
  used = false;
  submission_id = none;
  transport = none;
  operation_state = OperationState.ready;
  build_digest = none;
  profile_digest = none;
  provenance = none;
  bundle_path = none;
  network_enabled = false;
  auth_secret_digest = none;
  auth_used = false;
  requested_mode = "NOT_RECORDED";
}

abbrev pub grant_db : GrantDb
grant_db = record { grants = grant ∷ []; challenges = []; tickets = []; downloads = [] }
