-- ===== src/Console/Grants/Network.antt =====
-- csa_console/trusted_grants.py: the challenges, tickets and download grants of a network grant.
use collector_security_analy.Common.{
  ℕ, ◌+◌, ◌-◌, min, String, Bool, true, false, ◌&&◌, ◌||◌, not, List, [], ◌∷◌, ◌++◌, leb, ltb, ◌==◌,
  str_eq, any, keep, if◌then◌else◌,
}
use collector_security_analy.Common.Dict.{lookup, is_some}
use collector_security_analy.Console.Fault.{TrustFault, trust_error}
use collector_security_analy.Console.Action.{
  Action, pure, gets, modify, raise_if, or_raise, ◌>>=◌, ◌>>◌, ok,
}
use collector_security_analy.Console.Audit.{Detail, Hashing}
use collector_security_analy.Console.State.{
  Session, Files, GrantDb, Grant, Challenge, Ticket, Download,
}
use collector_security_analy.Console.Sessions.{audit_event}
use collector_security_analy.Console.Grants.{transaction, digest, is_locator}
use collector_security_analy.Console.Grants.Rows.{find, update_where, count, is_ready, opt_is}
use collector_security_analy.Console.Nonces.{seconds}

abbrev pub has_envelope : String → Grant → Bool
has_envelope envelope_id r = str_eq r.envelope_id envelope_id

abbrev pub mark_authorized : String → Grant → Grant
mark_authorized mode g = record g { auth_used = true; requested_mode = mode }

-- `record`
unfoldable pub record_of : Session → String → ℕ → Action Files Grant
unfolding transaction ◌>>=◌
record_of s envelope_id now = transaction false s.session_id do
  found ← gets (λ db. find (has_envelope envelope_id) db.grants)
  r ← or_raise found (trust_error TrustFault.trust_session)
  raise_if (not (is_ready r.operation_state) || leb r.expires_at now)
      (trust_error TrustFault.trust_session)
  pure r

-- The rows of `network_records`: enabled, and neither authorized, used nor expired.
abbrev pub is_offered : ℕ → Grant → Bool
is_offered now r =
    (is_ready r.operation_state && r.network_enabled)
    && ((not r.auth_used && not r.used) && ltb now r.expires_at)

-- `network_records`
unfoldable pub network_records : Session → ℕ → Action Files (List Grant)
unfolding transaction
network_records s now f =
    if is_some (lookup s.session_id f.grant_dbs)
    then transaction false s.session_id (gets (λ db. keep (is_offered now) db.grants)) f
    else (ok [], f)

-- `DELETE FROM downloads WHERE expiresAt<=?`
abbrev pub live_downloads : ℕ → GrantDb → List Download
live_downloads now db = keep (λ d. not (leb d.expires_at now)) db.downloads

module _ ⦃h : Hashing⦄ where
  -- The transaction of `challenge`: `identifier` and `nonce` are the random texts.
  unfoldable pub insert_challenge : String → String → String → ℕ → ℕ → Action GrantDb Unit
  unfolding ◌>>=◌
  insert_challenge envelope_id identifier nonce expires now = do
    modify (λ db. record db {
      challenges = keep (λ c. not (leb c.expires_at now || c.used)) db.challenges;
    })
    open_challenges ← gets (λ db. count (λ c. str_eq c.envelope_id envelope_id) db.challenges)
    raise_if (leb 32 open_challenges) (trust_error TrustFault.trust_challenge)
    taken ← gets (λ db. any (λ c. str_eq c.challenge_id identifier) db.challenges)
    raise_if taken (trust_error TrustFault.trust_replay)
    modify (λ db. record db {
      challenges =
          db.challenges
          ++ record {
            challenge_id = identifier;
            envelope_id = envelope_id;
            nonce_digest = digest nonce;
            expires_at = expires;
            used = false;
          }
            ∷ [];
    })

  -- `challenge`, which returns the time at which it expires.
  unfoldable pub challenge : Session → String → String → String → ℕ → Action Files ℕ
  unfolding record_of insert_challenge transaction ◌>>=◌
  challenge s envelope_id identifier nonce now = do
    r ← record_of s envelope_id now
    raise_if (not r.network_enabled || (r.auth_used || r.used))
        (trust_error TrustFault.trust_authorization)
    let expires = min (now + seconds 90) r.expires_at
    transaction false s.session_id (insert_challenge envelope_id identifier nonce expires now)
    pure expires

  -- The condition of `authorize` on the grant.
  unfoldable pub is_authorizable : String → String → ℕ → Grant → Bool
  is_authorizable recipient_id secret now r =
      (is_ready r.operation_state && r.network_enabled)
      && ((not r.auth_used && not r.used)
          && (ltb now r.expires_at
              && (str_eq r.recipient_id recipient_id
                  && opt_is r.auth_secret_digest (digest secret))))

  -- The condition of `authorize` on the challenge.
  unfoldable pub is_answered : String → ℕ → Challenge → Bool
  is_answered nonce now c =
      not c.used && (ltb now c.expires_at && str_eq c.nonce_digest (digest nonce))

  abbrev pub is_challenge : String → String → Challenge → Bool
  is_challenge challenge_id envelope_id c =
      str_eq c.challenge_id challenge_id && str_eq c.envelope_id envelope_id

  abbrev new_ticket : String → String → ℕ → Ticket
  new_ticket ticket envelope_id expires = record {
    token_digest = digest ticket;
    envelope_id = envelope_id;
    expires_at = expires;
    remaining = 3;
  }

  -- The transaction of `authorize`, which returns the time at which the ticket expires.
  unfoldable pub authorize_row :
      String → String → String → String → String → String → String → ℕ → Action GrantDb ℕ
  unfolding is_authorizable is_answered ◌>>=◌
  authorize_row envelope_id challenge_id nonce recipient_id secret mode ticket now = do
    found ← gets (λ db. find (has_envelope envelope_id) db.grants)
    asked ← gets (λ db. find (is_challenge challenge_id envelope_id) db.challenges)
    r ← or_raise found (trust_error TrustFault.trust_authorization)
    raise_if (not (is_authorizable recipient_id secret now r))
        (trust_error TrustFault.trust_authorization)
    c ← or_raise asked (trust_error TrustFault.trust_authorization)
    raise_if (not (is_answered nonce now c)) (trust_error TrustFault.trust_authorization)
    taken ← gets (λ db. any (λ t. str_eq t.token_digest (digest ticket)) db.tickets)
    raise_if taken (trust_error TrustFault.trust_replay)
    let expires = min (now + seconds 120) r.expires_at
    modify (λ db. record db {
      challenges =
          update_where (λ x. str_eq x.challenge_id challenge_id) (λ x. record x { used = true })
            db.challenges;
      grants = update_where (has_envelope envelope_id) (mark_authorized mode) db.grants;
      tickets = db.tickets ++ new_ticket ticket envelope_id expires ∷ [];
    })
    pure expires

  abbrev pub is_mode : String → Bool
  is_mode m = str_eq m "STANDARD_POLICY" || str_eq m "QUICK_RUN_PROCESS_BYPASS"

  -- `authorize`
  unfoldable pub authorize :
      Session
      → String
      → String
      → String
      → String
      → String
      → String
      → String
      → ℕ
      → ℕ
      → Action Files ℕ
  unfolding authorize_row transaction audit_event ◌>>=◌
  authorize s envelope_id challenge_id nonce recipient_id secret mode ticket now audited = do
    raise_if
        (not (
          (is_locator envelope_id && is_locator challenge_id)
          && (is_locator nonce && (is_locator recipient_id && is_locator secret))))
        (trust_error TrustFault.trust_authorization)
    raise_if (not (is_mode mode)) (trust_error TrustFault.trust_mode)
    expires ←
        transaction false s.session_id
          (authorize_row envelope_id challenge_id nonce recipient_id secret mode ticket now)
    audit_event audited "trusted_endpoint_authorized" (
        ("sessionId", Detail.text s.session_id)
        ∷ ("envelopeId", Detail.text envelope_id)
        ∷ ("purpose", Detail.text "COLLECTOR_DOWNLOAD")
        ∷ ("expiresAt", Detail.number expires)
        ∷ ("requestedExecutionMode", Detail.text mode)
        ∷ [])
    pure expires

  -- A grant that downloads are served for: authorized, unused and unexpired.
  abbrev pub serves : String → ℕ → Grant → Bool
  serves envelope_id now r =
      has_envelope envelope_id r
      && ((is_ready r.operation_state && r.network_enabled)
          && (r.auth_used && (not r.used && ltb now r.expires_at)))

  abbrev pub is_ticket : String → String → Ticket → Bool
  is_ticket envelope_id ticket t =
      str_eq t.token_digest (digest ticket) && str_eq t.envelope_id envelope_id

  -- The transaction of `mint_download`: `grant` is the random text.
  unfoldable pub mint_row : String → String → String → ℕ → Action GrantDb ℕ
  unfolding ◌>>=◌
  mint_row envelope_id ticket grant now = do
    found ← gets (λ db. find (is_ticket envelope_id ticket) db.tickets)
    served ← gets (λ db. any (serves envelope_id now) db.grants)
    t ← or_raise found (trust_error TrustFault.trust_download)
    raise_if (not served || (leb t.expires_at now || t.remaining == 0))
        (trust_error TrustFault.trust_download)
    taken ← gets (λ db. any (λ d. str_eq d.token_digest (digest grant)) (live_downloads now db))
    raise_if taken (trust_error TrustFault.trust_replay)
    let expires = min (now + seconds 45) t.expires_at
    modify (λ db. record db {
      tickets =
          update_where (λ x. str_eq x.token_digest (digest ticket))
            (λ x. record x { remaining = x.remaining - 1 }) db.tickets;
      downloads =
          live_downloads now db
          ++ record {
            token_digest = digest grant;
            envelope_id = envelope_id;
            expires_at = expires;
            used = false;
          }
            ∷ [];
    })
    pure expires

  -- `mint_download`
  unfoldable pub mint_download : Session → String → String → String → ℕ → Action Files ℕ
  unfolding mint_row transaction ◌>>=◌
  mint_download s envelope_id ticket grant now = do
    raise_if (not (is_locator ticket)) (trust_error TrustFault.trust_download)
    transaction false s.session_id (mint_row envelope_id ticket grant now)

  abbrev pub is_download : String → String → ℕ → Download → Bool
  is_download envelope_id grant now d =
      (str_eq d.token_digest (digest grant) && str_eq d.envelope_id envelope_id)
      && (not d.used && ltb now d.expires_at)

  -- The transaction of `consume_download`
  unfoldable pub consume_download_row : String → String → ℕ → Action GrantDb Unit
  unfolding ◌>>=◌
  consume_download_row envelope_id grant now = do
    served ← gets (λ db. any (serves envelope_id now) db.grants)
    matched ← gets (λ db. count (is_download envelope_id grant now) db.downloads)
    raise_if (not (served && matched == 1)) (trust_error TrustFault.trust_download)
    modify (λ db. record db {
      downloads =
          update_where (is_download envelope_id grant now) (λ d. record d { used = true })
            db.downloads;
    })

  -- `consume_download`
  unfoldable pub consume_download : Session → String → String → ℕ → Action Files Unit
  unfolding consume_download_row transaction ◌>>=◌
  consume_download s envelope_id grant now = do
    raise_if (not (is_locator grant)) (trust_error TrustFault.trust_download)
    transaction false s.session_id (consume_download_row envelope_id grant now)
