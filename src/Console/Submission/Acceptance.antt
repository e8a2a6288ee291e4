-- ===== src/Console/Submission/Acceptance.antt =====
-- What a submission that `accept` returned for has passed, and what it wrote.
use collector_security_analy.Common.{
  ℕ, ◌≡◌, ◌<◌, ◌≤◌, List, length, contains, Bool-cases, inl, inr, refl, ap, subst, sym, ◌∙◌, String,
  Bool, true, false, Option, none, some, [], ◌∷◌, ◌++◌, arith, any, str_eq,
}
use mathlib.Core.List.{Permᴰ}
use mathlib.Core.List.Permᴰ
use collector_security_analy.Common.Texts.{text_le}
use collector_security_analy.Common.Dict.{Dict, lookup, lookup-insert_self}
use collector_security_analy.Console.Action.{Result, ok, pure, lift, ◌>>=◌, ◌>>◌}
use collector_security_analy.Console.Keeps.{Keeps, Keeps-modify, keeps_rules}
use collector_security_analy.Console.Returns.{otherwise_ok, bind_ok}
use collector_security_analy.Console.Audit.{Detail, Hashing}
use collector_security_analy.Console.State.{
  Files, Session, Nonce, Grant, Receipt, IndexItem, GrantDb,
}
use collector_security_analy.Console.Network.{Ipaddress, source_is_allowed}
use collector_security_analy.Console.Sessions.{
  audit_event, load_session, write_session, verify_token, record_token_use,
}
use collector_security_analy.Console.Grants.Frame.{provenance-Keeps}
use collector_security_analy.Console.Submission.{
  Package, valid, insert_item, Services, Request, Readings, require_source, discard,
  same_submission, sort_index,
}
use collector_security_analy.Console.Nonces.{is_bound}
use collector_security_analy.Console.Submission.Checks.{expected}
use collector_security_analy.Console.Submission.Accept.{
  new_item, move_accepted, store, acknowledge, record_provenance, record_trust, examine, accept,
}
use collector_security_analy.Console.Submission.Stages.{
  refuse_after, load_session-ok, require_source-ok, examine-Examined, audit_event-nonces,
  audit_event-index,
}
use collector_security_analy.Console.Submission.Frame.{Same-refl, examine-Same}

insert_item_perm : (x : IndexItem) (is : List IndexItem) → Permᴰ (insert_item x is) (x ∷ is)
unfolding insert_item
insert_item_perm x [] = Permᴰ.refl (x ∷ [])
insert_item_perm x (i ∷ is) = elim (Bool-cases (text_le x.submission_id i.submission_id)) [
  | inl low ↦ rw low (Permᴰ.refl (x ∷ i ∷ is))
  | inr high ↦
      rw high (Permᴰ.trans (Permᴰ.cons refl (insert_item_perm x is)) (Permᴰ.swap refl refl))
]

sort_index_perm : (is : List IndexItem) → Permᴰ (sort_index is) is
unfolding sort_index
sort_index_perm [] = Permᴰ.nil
sort_index_perm (i ∷ is) =
    Permᴰ.trans (insert_item_perm i (sort_index is)) (Permᴰ.cons refl (sort_index_perm is))

snoc_perm : (x : IndexItem) (is : List IndexItem) → Permᴰ (is ++ x ∷ []) (x ∷ is)
snoc_perm x [] = Permᴰ.refl (x ∷ [])
snoc_perm x (i ∷ is) = Permᴰ.trans (Permᴰ.cons refl (snoc_perm x is)) (Permᴰ.swap refl refl)

-- A call of `accept` that returned: the session was loaded and unexpired and its networks allow the
-- source, every stage passed, and the item, the archive and the receipt were written.
pub record Accepted ⦃h : Hashing⦄ ⦃ip : Ipaddress⦄ (services : Services) (q : Request)
    (t : Readings) (p : Package) (f g : Files) : Type 0 where
  pub session : Session
  pub loaded : lookup q.session_id f.sessions ≡ some session
  pub live : t.source_check < session.expires_at
  pub allowed : source_is_allowed session q.source_address ≡ true
  pub token : verify_token session q.enrollment_token t.token_check ≡ ok tt
  pub nonce : Nonce
  pub issued : lookup q.submission_id f.nonces ≡ some nonce
  pub bound : is_bound session q.submission_id q.nonce q.source_address nonce ≡ true
  pub unused : nonce.used ≡ false
  pub early : t.nonce_check < nonce.expires_at
  pub spent : lookup q.submission_id g.nonces ≡ some (record nonce { used = true })
  pub fits : length q.archive ≤ session.maximum_package_size
  pub valid_package : services.validate (expected session q) q.archive ≡ valid p
  pub trusted : contains p.collector_build_digest session.trusted_builds ≡ true
  pub first : any (same_submission q.submission_id p.package_digest) f.index ≡ false
  pub indexed : g.index ≡ sort_index (f.index ++ new_item q t p ∷ [])
  pub added : Permᴰ g.index (new_item q t p ∷ f.index)
  pub archived : lookup q.submission_id g.accepted ≡ some q.archive

module _ ⦃h : Hashing⦄ ⦃ip : Ipaddress⦄ (services : Services) (s : Session) (q : Request)
    (t : Readings) (p : Package) where
  move_accepted-ok :
      (f g : Files)
      → move_accepted q t p f ≡ (ok tt, g)
      → lookup q.submission_id f.quarantine ≡ some q.archive
      → (g.index ≡ sort_index (f.index ++ new_item q t p ∷ []))
        × (lookup q.submission_id g.accepted ≡ some q.archive)
        × (g.nonces ≡ f.nonces)
  unfolding move_accepted ◌>>=◌
  move_accepted-ok f g e staged =
      ground (arith, lookup-insert_self q.submission_id q.archive f.accepted)

  -- The index, the archives and the nonces of `g`.
  abbrev Kept : Files → Files → Type 0
  Kept g k = (k.index ≡ g.index) × (k.accepted ≡ g.accepted) × (k.nonces ≡ g.nonces)

  token_use-Kept : (g : Files) → Keeps (Kept g) (record_token_use s)
  unfolding record_token_use load_session write_session
  token_use-Kept g = search (keeps_rules, Keeps-modify) depth 20

  store-ok :
      (f g : Files) (b : Bool)
      → store s q t p f ≡ (ok b, g)
      → lookup q.submission_id f.quarantine ≡ some q.archive
      → (any (same_submission q.submission_id p.package_digest) f.index ≡ false)
        × (g.index ≡ sort_index (f.index ++ new_item q t p ∷ []))
        × (lookup q.submission_id g.accepted ≡ some q.archive)
        × (g.nonces ≡ f.nonces)
  unfolding store
  store-ok f g b e staged =
      let seen = any (λ (i : IndexItem). str_eq i.device_id p.device_id) f.index in
      let o =
        otherwise_ok (any (same_submission q.submission_id p.package_digest) f.index) _
          (do move_accepted q t p; record_token_use s; pure seen) f
          (refuse_after (discard q.submission_id) q t _ _) e in
      let m = bind_ok (move_accepted q t p) _ f o.1 in
      let u = bind_ok (record_token_use s) _ m.1 m.3 in
      let moved = move_accepted-ok f m.1 m.2 staged in
      let kept =
        subst (λ (r : Result Session × Files). Kept m.1 r.1) u.2
          ((token_use-Kept m.1).at m.1 (refl, refl, refl)) in
      let fin : u.1 ≡ g = ground (arith, u.3) in (o.0, cc, cc, cc)

  dbs-Kept : (g k : Files) (dbs : Dict GrantDb) → Kept g k → Kept g (record k { grant_dbs = dbs })
  dbs-Kept g k dbs e = e

  audit-Kept :
      (g : Files) (now : ℕ) (ev : String) (d : Dict Detail) → Keeps (Kept g) (audit_event now ev d)
  unfolding audit_event
  audit-Kept g now ev d = record { at = λ k e. e }

  trust-Kept : (g : Files) (o : Option Grant) → Keeps (Kept g) (record_trust services q t s p o)
  trust-Kept g none = record { at = λ k e. e }
  trust-Kept g (some x) = search (keeps_rules, Keeps-modify, audit-Kept) depth 20

  provenance-Kept : (g : Files) → Keeps (Kept g) (record_provenance services q t s p)
  unfolding record_provenance
  provenance-Kept g =
      search (keeps_rules, audit-Kept, trust-Kept, provenance-Keeps (Kept g) (dbs-Kept g)) depth 20

  acknowledge-Kept : (g : Files) (b : Bool) → Keeps (Kept g) (acknowledge services s q t p b)
  unfolding acknowledge
  acknowledge-Kept g b = search (keeps_rules, Keeps-modify, audit-Kept, provenance-Kept) depth 20

module _ ⦃h : Hashing⦄ ⦃ip : Ipaddress⦄ (services : Services) (q : Request) (t : Readings) where
  assemble :
      (s : Session) (p : Package) (r' : Receipt) (b : Bool) (f c d w k : Files)
      → lookup q.session_id f.sessions ≡ some s
      → c.nonces ≡ f.nonces
      → c.index ≡ f.index
      → t.source_check < s.expires_at
      → source_is_allowed s q.source_address ≡ true
      → examine services s q t c ≡ (ok p, d)
      → store s q t p d ≡ (ok b, w)
      → acknowledge services s q t p b w ≡ (ok r', k)
      → Accepted services q t p f k
  assemble s p r' b f c d w k loaded nonces index live allowed examined stored receipt =
      let x = examine-Examined services s q t p c d examined in
      let y = store-ok services s q t p d w b stored x.staged in
      let z =
        subst (λ (r : Result Receipt × Files). Kept services s q t p w r.1) receipt
          ((acknowledge-Kept services s q t p w b).at w (refl, refl, refl)) in
      let i : d.index ≡ f.index =
        subst (λ (r : Result Package × Files). r.1.index ≡ c.index) examined
          ((examine-Same c s q t services).at c (Same-refl c)).index
        ∙ index in
      let indexed = z.0 ∙ y.1 ∙ ap (λ l. sort_index (l ++ new_item q t p ∷ [])) i in
      record {
        session = s;
        loaded = loaded;
        live = live;
        allowed = allowed;
        token = x.token;
        nonce = x.nonce;
        issued = ap (lookup q.submission_id) (sym nonces) ∙ x.issued;
        bound = x.bound;
        unused = x.unused;
        early = x.early;
        spent = ap (lookup q.submission_id) (z.2 ∙ y.3) ∙ x.spent;
        fits = x.fits;
        valid_package = x.valid_package;
        trusted = x.trusted;
        first = subst (λ l. any (same_submission q.submission_id p.package_digest) l ≡ false) i y.0;
        indexed = indexed;
        added =
            subst (λ l. Permᴰ l (new_item q t p ∷ f.index)) (sym indexed)
              (Permᴰ.trans (sort_index_perm (f.index ++ new_item q t p ∷ []))
                (snoc_perm (new_item q t p) f.index));
        archived = ap (lookup q.submission_id) z.1 ∙ y.2;
      }

  -- Where `accept` returns a receipt and a package, the session exists, is unexpired and allows the
  -- source; its token was verified; the nonce issued for the submission was bound to the call, unused
  -- and unexpired, and is spent; the archive fits the limit, its package is valid and its build trusted;
  -- no item of the index has its identifier or digest; the index then holds exactly the old items and
  -- the new one, and the archive is stored.
  pub accept-Accepted :
      (r : Receipt) (p : Package) (f g : Files)
      → accept services q t f ≡ (ok (r, p), g)
      → Accepted services q t p f g
  unfolding accept
  accept-Accepted r p f g e =
      let a = bind_ok (load_session q.session_id) _ f e in
      let s = a.0 in
      let b = bind_ok (audit_event t.received_audit "submission_received" _) _ a.1 a.3 in
      let c = bind_ok (lift (require_source s q.source_address t.source_check)) _ b.1 b.3 in
      let d = bind_ok (examine services s q t) _ c.1 c.3 in
      let w = bind_ok (store s q t d.0) _ d.1 d.3 in
      let k = bind_ok (acknowledge services s q t d.0 w.0) _ w.1 w.3 in
      let l = load_session-ok q.session_id f a.1 s a.2 in
      let kept_nonces : b.1.nonces ≡ f.nonces =
        audit_event-nonces t.received_audit _ _ a.1 b.1 b.2 ∙ ap (λ x. x.nonces) l.1 in
      let kept_index : b.1.index ≡ f.index =
        audit_event-index t.received_audit _ _ a.1 b.1 b.2 ∙ ap (λ x. x.index) l.1 in
      let checked = require_source-ok s q t t.source_check (ap (λ x. x.0) c.2) in
      let same : b.1 ≡ c.1 = ap (λ x. x.1) c.2 in
      let done =
        assemble s d.0 k.0 w.0 f c.1 d.1 w.1 k.1 l.0 (ap (λ x. x.nonces) (sym same) ∙ kept_nonces)
          (ap (λ x. x.index) (sym same) ∙ kept_index) checked.0 checked.1 d.2 w.2 k.2 in
      let same_package : d.0 ≡ p = ground (arith, k.3) in
      let same_files : k.1 ≡ g = ap (λ x. x.1) k.3 in
      subst (λ p. Accepted services q t p f g) same_package
        (subst (λ g. Accepted services q t d.0 f g) same_files done)
