-- ===== src/Console/Nonces.antt =====
-- csa_console/nonces.py: one-use submission nonces. `consume` runs under the service's lock.
pub mod OneUse
use collector_security_analy.Common.{
  ℕ, ◌+◌, ◌*◌, String, Bool, true, false, ◌&&◌, not, Option, none, some, leb, ltb, all, str_eq,
  if◌then◌else◌,
}
use collector_security_analy.Common.Dict.{lookup, insert}
use collector_security_analy.Console.Fault.{NonceFault, nonce_error, missing_file, type_error}
use collector_security_analy.Console.Action.{
  Action, pure, gets, or_raise, modify, raise_if, ◌>>=◌, ◌>>◌,
}
use collector_security_analy.Console.Paths.{codes}
use collector_security_analy.Console.State.{Session, Nonce, Files}
use collector_security_analy.Console.Sessions.{check_path}

-- `timedelta(seconds=…)` in microseconds
abbrev pub seconds : ℕ → ℕ
seconds n = n * 1_000_000

abbrev pub new_nonce : Session → String → String → ℕ → String → ℕ → ℕ → Nonce
new_nonce s submission_id source ttl token issued_at now = record {
  session_id = s.session_id;
  submission_id = submission_id;
  nonce = token;
  issued_at = issued_at;
  expires_at = now + seconds ttl;
  source_address = source;
  used = false;
}

-- `NonceService.issue`: `token` is the random token, `issued_at` and `now` the two clock readings.
unfoldable pub issue : Session → String → String → ℕ → String → ℕ → ℕ → Action Files Nonce
unfolding ◌>>=◌
issue s submission_id source ttl token issued_at now = do
  let n = new_nonce s submission_id source ttl token issued_at now
  check_path submission_id ".json"
  modify (λ f. record f { nonces = insert submission_id n f.nonces })
  pure n

-- The four bindings that `consume` compares.
unfoldable pub is_bound : Session → String → String → String → Nonce → Bool
is_bound s submission_id nonce source n =
    str_eq n.session_id s.session_id
    && (str_eq n.submission_id submission_id
        && (str_eq n.nonce nonce && str_eq n.source_address source))

-- `hmac.compare_digest` refuses texts that are not ASCII.
abbrev pub is_ascii : String → Bool
is_ascii t = all (λ c. ltb c 128) (codes t)

-- The comparison of the nonces is reached and raises.
abbrev pub is_incomparable : Session → String → String → Nonce → Bool
is_incomparable s submission_id nonce n =
    (str_eq n.session_id s.session_id && str_eq n.submission_id submission_id)
    && not (is_ascii n.nonce && is_ascii nonce)

-- `NonceService.consume`
unfoldable pub consume : Session → String → String → String → ℕ → Action Files Unit
unfolding is_bound ◌>>=◌
consume s submission_id nonce source now = do
  check_path submission_id ".json"
  found ← gets (λ f. lookup submission_id f.nonces)
  n ← or_raise found missing_file
  raise_if (is_incomparable s submission_id nonce n) type_error
  raise_if (not (is_bound s submission_id nonce source n)) (nonce_error NonceFault.bad_binding)
  raise_if n.used (nonce_error NonceFault.already_used)
  raise_if (leb n.expires_at now) (nonce_error NonceFault.expired)
  modify (λ f. record f { nonces = insert submission_id (record n { used = true }) f.nonces })
