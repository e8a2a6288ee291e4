-- ===== src/Console/Package/Safe.antt =====
-- What an archive whose members were read keeps to.
use collector_security_analy.Common.{
  ℕ, String, Bool, true, false, not, ◌&&◌, ◌||◌, ◌≤◌, ◌≡◌, refl, ap, ◌∙◌, Option, none, some, List,
  [], ◌∷◌, ltb, Bool-cases, inl, inr, length, all, contains, are_distinct, All, arith, eq_iff,
  str_eq,
}
use collector_security_analy.Common.Dict.{Dict, lookup, is_some}
use collector_security_analy.Console.Fault.{SubmissionState}
use collector_security_analy.Console.Package.{
  ZipInfo, ZipFile, Limits, ok, refused, required_files, names, are_required, check_entries,
  safe_members,
}
use collector_security_analy.Console.Package.Entries.{
  unless-ok, total_size, IsRead, entries_known, entries_bounded, entries_read,
}

-- A text of a list, all of which are in another
contains_mono :
    (xs ys : List String) (n : String)
    → all (λ x. contains x ys) xs ≡ true
    → contains n xs ≡ true
    → contains n ys ≡ true
contains_mono [] ys n h k = cc k
contains_mono (x ∷ xs) ys n h k = elim (Bool-cases (str_eq n x)) [
  | inl own ↦
      let same : n ≡ x = ground (arith, own, eq_iff n x) in
      ap (λ t. contains t ys) same ∙ ground (arith, h)
  | inr other ↦ contains_mono xs ys n (ground (arith, h)) (ground (arith, other, k))
]

Bool_iff : (a b : Bool) → (a ≡ true → b ≡ true) → (b ≡ true → a ≡ true) → a ≡ b
Bool_iff a b f g = ground (arith, f, g)

are_required-contains :
    (ns : List String) (n : String)
    → are_required ns ≡ true
    → contains n ns ≡ contains n required_files
are_required-contains ns n h =
    Bool_iff (contains n ns) (contains n required_files)
      (contains_mono ns required_files n (both _ _ h).0)
      (contains_mono required_files ns n (both _ _ h).1)
  where
    both : (a b : Bool) → (a && b) ≡ true → (a ≡ true) × (b ≡ true)
    both a b e = (ground (arith, e), ground (arith, e))

known_only : (a b c d : Bool) → a ≡ (b || c) → c ≡ false → b ≡ d → a ≡ d
known_only a b c d h k e = ground (arith, h, k, e)

nothing_known : (n : String) → is_some (lookup {V = List ℕ} n []) ≡ false
unfolding lookup
nothing_known n = refl

-- An archive within the limits, and its members
pub record IsSafe (zip : ZipFile) (limits : Limits) (archive : List ℕ) (members : Dict (List ℕ))
    (infos : List ZipInfo) : Type 0 where
  pub archive_fits : length archive ≤ limits.maximum_package_size
  pub listed : zip.infolist archive ≡ some infos
  pub few : length infos ≤ limits.maximum_files
  pub distinct : are_distinct (names infos) ≡ true
  pub size_fits : total_size infos ≤ limits.maximum_uncompressed_size
  pub entries : All (IsRead zip limits archive members) infos
  pub exact : (n : String) → is_some (lookup n members) ≡ contains n required_files

refused_never : {A : Type 0} {st : SubmissionState} {a : A} → refused st ≡ ok a → ⊥
refused_never h = ground (arith, h)

module _ (zip : ZipFile) (limits : Limits) (archive : List ℕ) where
  check-ok :
      (listing : Option (List ZipInfo)) (m : Dict (List ℕ))
      → zip.infolist archive ≡ listing
      → length archive ≤ limits.maximum_package_size
      → check_entries zip limits archive listing ≡ ok m
      → (infos : List ZipInfo) × IsSafe zip limits archive m infos
  unfolding check_entries
  check-ok none m listed fits h = absurd (refused_never h)
  check-ok (some infos) m listed fits h =
      let few = unless-ok (ltb limits.maximum_files (length infos)) _ _ h (λ out r. cc r) in
      let distinct = unless-ok (not (are_distinct (names infos))) _ _ few.1 (λ out r. cc r) in
      let required = unless-ok (not (are_required (names infos))) _ _ distinct.1 (λ out r. cc r) in
      let one : are_distinct (names infos) ≡ true = ground (arith, distinct.0) in
      let same : are_required (names infos) ≡ true = ground (arith, required.0) in
      (
        infos,
        record {
          archive_fits = fits;
          listed = listed;
          few = ground (arith, few.0);
          distinct = one;
          size_fits =
              omega
                (arith, entries_bounded zip limits archive 0 infos [] m required.1 (omega arith));
          entries = entries_read zip limits archive 0 infos [] m required.1 one;
          exact = λ n.
              known_only (is_some (lookup n m)) (contains n (names infos)) _ _
                (entries_known zip limits archive 0 infos [] m n required.1) (nothing_known n)
                (are_required-contains (names infos) n same);
        },
      )

  -- An archive whose members are read is within the limit of its size; its entries are within the limits
  -- of their number and of their total uncompressed size, have distinct names, no unsafe path, and each
  -- is at most 100 times as large as it is compressed; its members are exactly the six required files,
  -- each with the content of its entry.
  pub safe_members-IsSafe :
      (members : Dict (List ℕ))
      → safe_members zip limits archive ≡ ok members
      → (infos : List ZipInfo) × IsSafe zip limits archive members infos
  unfolding safe_members
  safe_members-IsSafe m h =
      let fits =
        unless-ok (ltb limits.maximum_package_size (length archive)) _ _ h (λ out r. cc r) in
      check-ok (zip.infolist archive) m refl (ground (arith, fits.0)) fits.1
