-- ===== src/Console/Package.antt =====
-- csa_console/package.py: `_safe_members`, the reading of an archive within limits.
pub mod Entries
pub mod Safe
pub mod Complete
use collector_security_analy.Common.{
  ℕ, String, Bool, true, false, not, ◌&&◌, ◌||◌, ◌+◌, ◌*◌, ◌/◌, max, Option, none, some, List, [],
  ◌∷◌, map, ltb, ◌==◌, if◌then◌else◌, length, any, all, contains, are_distinct,
}
use Prim.Native.Nat.{◌%◌}
use collector_security_analy.Common.Dict.{Dict, insert}
use collector_security_analy.Console.Fault.{
  SubmissionState, rejected_package_limit, rejected_archive_safety,
}
use collector_security_analy.Console.Paths.{codes}

-- `ZipInfo` of zipfile
pub record ZipInfo : Type 0 where
  pub filename : String
  pub file_size : ℕ
  pub compress_size : ℕ
  pub external_attr : ℕ

-- The archive format: the entries of an archive, or none where it is not one, and the content of an
-- entry, or none where reading it fails.
pub record ZipFile : Type 0 where
  pub infolist : List ℕ → Option (List ZipInfo)
  pub read : List ℕ → ZipInfo → Option (List ℕ)

-- The limits of `EvidencePackageValidator`
pub record Limits : Type 0 where
  pub maximum_package_size : ℕ
  pub maximum_uncompressed_size : ℕ
  pub maximum_files : ℕ

-- A value, a `PackageValidationError` with its state, or an exception of `archive.read`
pub data Extracted (A : Type 0) : Type 0 where
  ok : A → Extracted A
  refused : SubmissionState → Extracted A
  unreadable : Extracted A

-- `REQUIRED_FILES`
abbrev pub required_files : List String
required_files =
    "manifest.json" ∷ "evidence.json" ∷ "capability-results.json" ∷ "collection-log.json"
    ∷ "integrity.json" ∷ "signatures/submission.sig" ∷ []

abbrev prepend : ℕ → List (List ℕ) → List (List ℕ)
prepend c [] = (c ∷ []) ∷ []
prepend c (s ∷ ss) = (c ∷ s) ∷ ss

-- The texts between the slashes
unfoldable pub segments : List ℕ → List (List ℕ)
segments [] = [] ∷ []
segments (c ∷ cs) = let rest = segments cs in if c == b'/' then [] ∷ rest else prepend c rest

abbrev is_parent : List ℕ → Bool
is_parent (c ∷ d ∷ []) = c == b'.' && d == b'.'
is_parent _ = false

abbrev starts_with_slash : List ℕ → Bool
starts_with_slash [] = false
starts_with_slash (c ∷ _) = c == b'/'

unfoldable pub ends_with_slash : List ℕ → Bool
ends_with_slash [] = false
ends_with_slash (c ∷ []) = c == b'/'
ends_with_slash (c ∷ d ∷ cs) = ends_with_slash (d ∷ cs)

-- `stat.S_ISLNK(external_attr >> 16)`
abbrev pub is_link : ZipInfo → Bool
is_link i = i.external_attr / 65536 / 4096 % 16 == 10

-- The test of a path: absolute, with a parent component or a backslash, a link or a directory
unfoldable pub is_unsafe_path : ZipInfo → Bool
unfolding segments ends_with_slash
is_unsafe_path i =
    let name = codes i.filename in
    starts_with_slash name
    || (any is_parent (segments name)
        || (any (λ c. c == 92) name || (is_link i || ends_with_slash name)))

-- `ratio > 100`. Within the limit of the size, the floating division decides as the exact one does.
abbrev pub is_bomb : ZipInfo → Bool
is_bomb i =
    if i.compress_size == 0 && ltb 0 i.file_size
    then true
    else ltb (100 * max 1 i.compress_size) i.file_size

abbrev pub and_then : {A B : Type 0} → (A → Extracted B) → Extracted A → Extracted B
and_then next (ok a) = next a
and_then next (refused st) = refused st
and_then next unreadable = unreadable

-- `archive.read(info)`
abbrev pub content : Option (List ℕ) → Extracted (List ℕ)
content none = unreadable
content (some bytes) = ok bytes

abbrev pub names : List ZipInfo → List String
names = map (λ (i : ZipInfo). i.filename)

-- `set(names) == set(REQUIRED_FILES)`
abbrev pub are_required : List String → Bool
are_required ns = all (λ n. contains n required_files) ns && all (λ n. contains n ns) required_files

module _ (zip : ZipFile) (limits : Limits) (archive : List ℕ) where
  -- One entry, at the total size before it
  unfoldable pub read_entry : (total : ℕ) → ZipInfo → Extracted (List ℕ)
  unfolding is_unsafe_path
  read_entry total i =
      if is_unsafe_path i
      then refused rejected_archive_safety
      else if ltb limits.maximum_uncompressed_size (total + i.file_size)
      then refused rejected_package_limit
      else if is_bomb i
      then refused rejected_archive_safety
      else content (zip.read archive i)

  unfoldable pub read_entries :
      (total : ℕ) → List ZipInfo → Dict (List ℕ) → Extracted (Dict (List ℕ))
  unfolding read_entry
  read_entries total [] members = ok members
  read_entries total (i ∷ is) members =
      and_then (λ bytes. read_entries (total + i.file_size) is (insert i.filename bytes members))
        (read_entry total i)

  unfoldable pub check_entries : Option (List ZipInfo) → Extracted (Dict (List ℕ))
  unfolding read_entries
  check_entries none = refused rejected_archive_safety
  check_entries (some infos) =
      if ltb limits.maximum_files (length infos)
      then refused rejected_package_limit
      else if not (are_distinct (names infos))
      then refused rejected_archive_safety
      else if not (are_required (names infos))
      then refused rejected_archive_safety
      else read_entries 0 infos []

  -- `_safe_members`
  unfoldable pub safe_members : Extracted (Dict (List ℕ))
  unfolding check_entries
  safe_members =
      if ltb limits.maximum_package_size (length archive)
      then refused rejected_package_limit
      else check_entries (zip.infolist archive)
