-- ===== src/Console/Submission/Index.antt =====
-- csa_console/submission.py: listing, updating and removing the accepted submissions.
use collector_security_analy.Common.{
  ℕ, ◌≡◌, refl, ap, ◌∙◌, String, Bool, true, false, not, ◌&&◌, none, some, List, [], ◌∷◌, arith,
  if◌then◌else◌, any, contains, keep, map, str_eq, eq_iff, ◌==◌,
}
use Prim.Native.Char.{code}
use collector_security_analy.Common.Dict.{Dict, lookup, erase, lookup-erase}
use collector_security_analy.Console.Fault.{unknown_state, not_found}
use collector_security_analy.Console.Action.{Action, ok, gets, modify, raise_if, ◌>>=◌, ◌>>◌}
use collector_security_analy.Console.Audit.{Detail, Hashing}
use collector_security_analy.Console.State.{Files, IndexItem}
use collector_security_analy.Console.Sessions.{check_path, audit_event}
use collector_security_analy.Console.Grants.Rows.{opt_is}

-- The set `allowed` of `update_processing_state`
abbrev pub processing_states : List String
processing_states =
    "RECEIVED" ∷ "VALIDATING" ∷ "NORMALIZING" ∷ "ANALYZING" ∷ "COMPLETE" ∷ "ERROR" ∷ []

abbrev pub is_item : String → IndexItem → Bool
is_item submission_id i = str_eq i.submission_id submission_id

-- The loop of `update_processing_state`: it sets the first item that matches.
unfoldable pub set_first : String → String → List IndexItem → List IndexItem
set_first submission_id state [] = []
set_first submission_id state (i ∷ is) =
    let rest = set_first submission_id state is in
    if is_item submission_id i then record i { processing_state = some state } ∷ is else i ∷ rest

-- `path.glob(f"{submission_id}*")` over the names of the files
unfoldable pub starts_with : String → String → Bool
starts_with String.[] name = true
starts_with (String.◌∷◌ c p) String.[] = false
starts_with (String.◌∷◌ c p) (String.◌∷◌ d n) =
    let rest = starts_with p n in (code c == code d) && rest

abbrev pub unlink_prefix : String → Dict String → Dict String
unlink_prefix p = keep (λ e. not (starts_with p e.0))

-- `list_submissions`
abbrev pub list_submissions : Files → List IndexItem
list_submissions f = f.index

module _ ⦃h : Hashing⦄ where
  -- `update_processing_state`
  unfoldable pub update_processing_state : String → String → ℕ → Action Files Unit
  unfolding audit_event ◌>>=◌
  update_processing_state submission_id state now = do
    raise_if (not (contains state processing_states)) unknown_state
    found ← gets (λ f. any (is_item submission_id) f.index)
    raise_if (not found) not_found
    modify (λ f. record f { index = set_first submission_id state f.index })
    audit_event now "submission_processing_state_changed"
        (("submissionId", Detail.text submission_id) ∷ ("processingState", Detail.text state) ∷ [])

  -- `remove_submission`; the trust receipt stays.
  unfoldable pub remove_submission : String → ℕ → Action Files Unit
  unfolding audit_event ◌>>=◌
  remove_submission submission_id now = do
    found ← gets (λ f. any (is_item submission_id) f.index)
    raise_if (not found) not_found
    check_path submission_id ".csa.zip"
    modify (λ f. record f { accepted = erase submission_id f.accepted })
    check_path submission_id ".evidence.json"
    modify (λ f. record f { evidence = erase submission_id f.evidence })
    check_path submission_id ".receipt.json"
    modify (λ f. record f { receipts = erase submission_id f.receipts })
    check_path submission_id ".json"
    modify (λ f. record f {
      normalized = erase submission_id f.normalized;
      findings = erase submission_id f.findings;
      endpoint_reports = unlink_prefix submission_id f.endpoint_reports;
      index = keep (λ i. not (is_item submission_id i)) f.index;
    })
    audit_event now "submission_removed" (("submissionId", Detail.text submission_id) ∷ [])

-- An item without its processing state
abbrev pub blank : IndexItem → IndexItem
blank i = record i { processing_state = none }

abbrev pub in_state : String → String → IndexItem → Bool
in_state submission_id state i = is_item submission_id i && opt_is i.processing_state state

module _ (id state : String) where
  set_first-blank : (is : List IndexItem) → map blank (set_first id state is) ≡ map blank is
  unfolding set_first
  set_first-blank [] = refl
  set_first-blank (i ∷ is) = ground (arith, set_first-blank is)

  set_first-others :
      (is : List IndexItem)
      → keep (λ i. not (is_item id i)) (set_first id state is) ≡ keep (λ i. not (is_item id i)) is
  unfolding set_first
  set_first-others [] = refl
  set_first-others (i ∷ is) = ground (arith, set_first-others is)

  set_first-in_state :
      (is : List IndexItem)
      → any (is_item id) is ≡ true
      → any (in_state id state) (set_first id state is) ≡ true
  unfolding set_first
  set_first-in_state [] h = absurd (ground (arith, h))
  set_first-in_state (i ∷ is) h = ground (arith, h, set_first-in_state is, eq_iff state state)

module _ ⦃h : Hashing⦄ where
  -- Where `update_processing_state` returns, the state is one of the six allowed, an item of that
  -- identifier now has it, the items of other identifiers are as before and in their order, and no
  -- field of an item but its processing state has changed.
  updated_state :
      (id state : String) (now : ℕ) (f g : Files)
      → update_processing_state id state now f ≡ (ok tt, g)
      → (contains state processing_states ≡ true)
        × (any (in_state id state) g.index ≡ true)
        × (keep (λ i. not (is_item id i)) g.index ≡ keep (λ i. not (is_item id i)) f.index)
        × (map blank g.index ≡ map blank f.index)
  unfolding update_processing_state audit_event ◌>>=◌
  updated_state id state now f g e =
      let known : contains state processing_states ≡ true = ground arith in
      let found : any (is_item id) f.index ≡ true = ground arith in
      let new : g.index ≡ set_first id state f.index = ground arith in
      (
        known,
        ap (any (in_state id state)) new ∙ set_first-in_state id state f.index found,
        ap (keep (λ i. not (is_item id i))) new ∙ set_first-others id state f.index,
        ap (map blank) new ∙ set_first-blank id state f.index,
      )

any-keep-not : {A : Type 0} (p : A → Bool) (xs : List A) → any p (keep (λ x. not (p x)) xs) ≡ false
any-keep-not p [] = refl
any-keep-not p (x ∷ xs) = ground (arith, any-keep-not p xs)

-- What `remove_submission` leaves: nothing of the submission, but its trust receipt, and all of the others.
pub record Removed (id : String) (f g : Files) : Type 0 where
  pub listed : any (is_item id) f.index ≡ true
  pub unlisted : any (is_item id) g.index ≡ false
  pub others : g.index ≡ keep (λ i. not (is_item id i)) f.index
  pub archive :
      (j : String) → lookup j g.accepted ≡ (if str_eq id j then none else lookup j f.accepted)
  pub evidence :
      (j : String) → lookup j g.evidence ≡ (if str_eq id j then none else lookup j f.evidence)
  pub receipt :
      (j : String) → lookup j g.receipts ≡ (if str_eq id j then none else lookup j f.receipts)
  pub normalized :
      (j : String) → lookup j g.normalized ≡ (if str_eq id j then none else lookup j f.normalized)
  pub findings :
      (j : String) → lookup j g.findings ≡ (if str_eq id j then none else lookup j f.findings)
  pub reports : any (λ e. starts_with id e.0) g.endpoint_reports ≡ false
  pub trust : g.trust_receipts ≡ f.trust_receipts

module _ ⦃h : Hashing⦄ where
  -- Where `remove_submission` returns, the submission was listed and is not any more, its archive,
  -- evidence, receipt, normalized data, findings and endpoint reports are gone, the files of the other
  -- submissions in those directories and their items are as before, and so are all trust receipts, the
  -- removed submission's own among them.
  pub remove_submission-Removed :
      (id : String) (now : ℕ) (f g : Files)
      → remove_submission id now f ≡ (ok tt, g)
      → Removed id f g
  unfolding remove_submission audit_event ◌>>=◌
  remove_submission-Removed id now f g e =
      let others : g.index ≡ keep (λ i. not (is_item id i)) f.index = ground arith in
      let archive : g.accepted ≡ erase id f.accepted = ground arith in
      let evidence : g.evidence ≡ erase id f.evidence = ground arith in
      let receipt : g.receipts ≡ erase id f.receipts = ground arith in
      let normalized : g.normalized ≡ erase id f.normalized = ground arith in
      let findings : g.findings ≡ erase id f.findings = ground arith in
      let reports : g.endpoint_reports ≡ unlink_prefix id f.endpoint_reports = ground arith in
      record {
        listed = ground arith;
        unlisted = ap (any (is_item id)) others ∙ any-keep-not (is_item id) f.index;
        others = others;
        archive = λ j. ap (lookup j) archive ∙ lookup-erase id j f.accepted;
        evidence = λ j. ap (lookup j) evidence ∙ lookup-erase id j f.evidence;
        receipt = λ j. ap (lookup j) receipt ∙ lookup-erase id j f.receipts;
        normalized = λ j. ap (lookup j) normalized ∙ lookup-erase id j f.normalized;
        findings = λ j. ap (lookup j) findings ∙ lookup-erase id j f.findings;
        reports =
            ap (any (λ e. starts_with id e.0)) reports
            ∙ any-keep-not (λ e. starts_with id e.0) f.endpoint_reports;
        trust = ground arith;
      }
