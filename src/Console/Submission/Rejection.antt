-- ===== src/Console/Submission/Rejection.antt =====
-- What a rejected submission leaves alone.
use collector_security_analy.Common.{
  ℕ, ◌≡◌, refl, ap, String, Bool, true, false, Option, none, some, List, [], ◌∷◌, arith, Bool-cases,
  inl, inr, if◌then◌else◌, any, str_eq,
}
use collector_security_analy.Common.Dict.{Dict}
use collector_security_analy.Console.Fault.{Fault, SubmissionState, rejected}
use collector_security_analy.Console.Action.{
  Action, Result, ok, err, pure, gets, or_raise, modify, raise_if, continue, handled, try_except,
  ◌>>=◌, ◌>>◌,
}
use collector_security_analy.Console.Keeps.{Keeps, Keeps-lift, keeps_rules}
use collector_security_analy.Console.Audit
use collector_security_analy.Console.Audit.{Detail, Hashing}
use collector_security_analy.Console.State.{Files, Session, IndexItem}
use collector_security_analy.Console.Network.{Ipaddress}
use collector_security_analy.Console.Sessions.{
  audit_event, load_session, write_session, record_token_use,
}
use collector_security_analy.Console.Submission.{
  Package, Services, Request, Readings, refuse, discard, same_submission,
}
use collector_security_analy.Console.Submission.Accept.{
  is_record_error, move_accepted, store, acknowledge, record_provenance, accept,
}
use collector_security_analy.Console.Submission.Frame.{
  Same, Same-refl, discard-Same, audit_event-Same, load_session-Same, refuse-Same, examine-Same,
}

-- `SubmissionRejected`
abbrev pub is_rejected : Fault → Bool
is_rejected (rejected st) = true
is_rejected _ = false

abbrev pub is_rejection : {A : Type 0} → Result A → Bool
is_rejection (ok a) = false
is_rejection (err e) = is_rejected e

-- An action that never raises `SubmissionRejected`.
pub record NeverRejects {S A : Type 0} (m : Action S A) : Type 0 where
  pub at : (s : S) → is_rejection (m s).0 ≡ false

-- An action that leaves the accepted evidence as `f` has it where it raises `SubmissionRejected`.
pub record Careful {A : Type 0} (f : Files) (m : Action Files A) : Type 0 where
  pub at : (g : Files) → Same f g → is_rejection (m g).0 ≡ true → Same f (m g).1

module _ {S A : Type 0} where
  NeverRejects-pure : (a : A) → NeverRejects {S = S} (pure a)
  NeverRejects-pure a = record { at = λ s. refl }

  NeverRejects-gets : (u : S → A) → NeverRejects (gets u)
  NeverRejects-gets u = record { at = λ s. refl }

  NeverRejects-or_raise :
      (o : Option A) (e : Fault) → is_rejected e ≡ false → NeverRejects {S = S} (or_raise o e)
  NeverRejects-or_raise none e p = record { at = λ s. p }
  NeverRejects-or_raise (some a) e p = record { at = λ s. refl }

module _ {S : Type 0} where
  NeverRejects-modify : (u : S → S) → NeverRejects (modify u)
  NeverRejects-modify u = record { at = λ s. refl }

  NeverRejects-raise_if :
      (b : Bool) (e : Fault) → is_rejected e ≡ false → NeverRejects {S = S} (raise_if b e)
  NeverRejects-raise_if true e p = record { at = λ s. p }
  NeverRejects-raise_if false e p = record { at = λ s. refl }

module _ {S A B : Type 0} where
  continue_lem :
      (r : Result A) (k : A → Action S B) (s : S)
      → is_rejection r ≡ false
      → ((a : A) → NeverRejects (k a))
      → is_rejection (continue r k s).0 ≡ false
  continue_lem (ok a) k s p nk = (nk a).at s
  continue_lem (err e) k s p nk = p

  NeverRejects-bind :
      (m : Action S A) (k : A → Action S B)
      → NeverRejects m
      → ((a : A) → NeverRejects (k a))
      → NeverRejects (m >>= k)
  unfolding ◌>>=◌
  NeverRejects-bind m k nm nk = record { at = λ s. continue_lem (m s).0 k (m s).1 (nm.at s) nk }

ruleset never_rules = (
  NeverRejects-pure, NeverRejects-gets, NeverRejects-or_raise, NeverRejects-modify,
  NeverRejects-raise_if, NeverRejects-bind,
)

module _ {A B : Type 0} (f : Files) where
  careful_continue :
      (r : Result A) (k : A → Action Files B) (g : Files)
      → (is_rejection r ≡ true → Same f g)
      → ((a : A) → r ≡ ok a → is_rejection (k a g).0 ≡ true → Same f (k a g).1)
      → is_rejection (continue r k g).0 ≡ true
      → Same f (continue r k g).1
  careful_continue (ok a) k g s0 sk e = sk a refl e
  careful_continue (err x) k g s0 sk e = s0 e

  Careful-after :
      (m : Action Files A) (k : A → Action Files B)
      → Keeps (Same f) m
      → ((a : A) → Careful f (k a))
      → Careful f (m >>= k)
  unfolding ◌>>=◌
  Careful-after m k km ck = record {
    at = λ g s.
        careful_continue (m g).0 k (m g).1 (λ _. km.at g s) (λ a _. (ck a).at (m g).1 (km.at g s));
  }

  Careful-before :
      (m : Action Files A) (k : A → Action Files B)
      → Careful f m
      → ((a : A) → NeverRejects (k a))
      → Careful f (m >>= k)
  unfolding ◌>>=◌
  Careful-before m k cm nk = record {
    at = λ g s.
        careful_continue (m g).0 k (m g).1 (cm.at g s)
          (λ a _ r. absurd (ground (arith, r, (nk a).at (m g).1)));
  }

careful_if :
    {A : Type 0} (f : Files) (b : Bool) (x y : Result A × Files)
    → Same f x.1
    → is_rejection y.0 ≡ false
    → is_rejection (if b then x else y).0 ≡ true
    → Same f (if b then x else y).1
careful_if f true x y sx ny r = sx
careful_if f false x y sx ny r = absurd (ground (arith, ny, r))

module _ {A : Type 0} (caught : Fault → Bool) (m : Action Files A)
    (k : Fault → Action Files A) where
  NeverRejects-try_except :
      ((e : Fault) → caught e ≡ false → is_rejected e ≡ false)
      → ((e : Fault) → NeverRejects (k e))
      → NeverRejects (try_except caught m k)
  unfolding try_except
  NeverRejects-try_except other nk = record { at = λ s. go (m s).0 (m s).1 }
    where
      go : (r : Result A) (s : Files) → is_rejection (handled caught k r s).0 ≡ false
      go (ok a) s = refl
      go (err e) s = elim (Bool-cases (caught e)) [
        | inl hit ↦ rw (hit, (nk e).at s)
        | inr miss ↦ rw (miss, other e miss)
      ]

is_record_error-rejected : (e : Fault) → is_record_error e ≡ false → is_rejected e ≡ false
unfolding is_record_error
is_record_error-rejected e p = ground arith

last_hash-rejection : (ls : List Audit.Line) → is_rejection (Audit.last_hash ls) ≡ false
unfolding Audit.last_hash
last_hash-rejection [] = refl
last_hash-rejection (Audit.malformed ∷ []) = refl
last_hash-rejection (Audit.parsed e ∷ []) = refl
last_hash-rejection (l ∷ m ∷ ls) = last_hash-rejection (m ∷ ls)

final_hash-rejection : (f : Audit.LogFile) → is_rejection (Audit.final_hash f) ≡ false
unfolding Audit.final_hash
final_hash-rejection none = refl
final_hash-rejection (some ls) = last_hash-rejection ls

module _ ⦃h : Hashing⦄ where
  audit_event-NeverRejects :
      (now : ℕ) (e : String) (d : Dict Detail) → NeverRejects (audit_event now e d)
  unfolding audit_event Audit.append
  audit_event-NeverRejects now e d = record {
    at = λ s. ground (arith, final_hash-rejection s.audit_log);
  }

  record_token_use-NeverRejects : (s : Session) → NeverRejects (record_token_use s)
  unfolding record_token_use load_session write_session
  record_token_use-NeverRejects s = search never_rules depth 20

  module _ ⦃ip : Ipaddress⦄ (services : Services) (s : Session) (q : Request) (t : Readings)
      (p : Package) where
    move_accepted-NeverRejects : NeverRejects (move_accepted q t p)
    unfolding move_accepted
    move_accepted-NeverRejects = search never_rules depth 20

    abbrev replay : Action Files Bool
    replay = discard q.submission_id >> refuse q t SubmissionState.rejected_replay p.package_digest

    abbrev fresh : Bool → Action Files Bool
    fresh b = do move_accepted q t p; record_token_use s; pure b

    replay-Same : (f : Files) → Keeps (Same f) replay
    replay-Same f = search (keeps_rules, discard-Same, refuse-Same)

    fresh-NeverRejects : (b : Bool) → NeverRejects (fresh b)
    fresh-NeverRejects b =
        search (never_rules, move_accepted-NeverRejects, record_token_use-NeverRejects) depth 20

    store-Careful : (f : Files) → Careful f (store s q t p)
    unfolding store
    store-Careful f = record {
      at = λ g same r.
          let seen = any (λ (i : IndexItem). str_eq i.device_id p.device_id) g.index in
          careful_if f (any (same_submission q.submission_id p.package_digest) g.index) (replay g)
            (fresh seen g) ((replay-Same f).at g same) ((fresh-NeverRejects seen).at g) r;
    }

    record_provenance-NeverRejects : NeverRejects (record_provenance services q t s p)
    unfolding record_provenance
    record_provenance-NeverRejects =
        NeverRejects-try_except _ _ _ is_record_error-rejected
          (λ _. NeverRejects-try_except _ _ _ is_record_error-rejected (λ _. NeverRejects-pure _))

    acknowledge-NeverRejects :
        (repeated : Bool) → NeverRejects (acknowledge services s q t p repeated)
    unfolding acknowledge
    acknowledge-NeverRejects repeated =
        search (never_rules, record_provenance-NeverRejects, audit_event-NeverRejects) depth 20

  module _ ⦃ip : Ipaddress⦄ (services : Services) (q : Request) (t : Readings) where
    accept-Careful : (f : Files) → Careful f (accept services q t)
    unfolding accept
    accept-Careful f = Careful-after f _ _ (load_session-Same f q.session_id) λ s.
        Careful-after f _ _ (audit_event-Same f _ _ _) λ _. Careful-after f _ _ (Keeps-lift _) λ _.
          Careful-after f _ _ (examine-Same f s q t services) λ p.
            Careful-before f _ _ (store-Careful services s q t p f) λ repeated.
              NeverRejects-bind _ _ (acknowledge-NeverRejects services s q t p repeated)
                λ r. NeverRejects-pure _

    -- A submission that `accept` rejects changes no evidence: where it raises `SubmissionRejected`, with
    -- any state, the index, the accepted archives, the receipts and the sessions with their token counts
    -- are those from before the call.
    pub rejected_frame :
        (st : SubmissionState) (f : Files)
        → (accept services q t f).0 ≡ err (rejected st)
        → Same f (accept services q t f).1
    rejected_frame st f e = (accept-Careful f).at f (Same-refl f) (ap is_rejection e)
