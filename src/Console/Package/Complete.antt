-- ===== src/Console/Package/Complete.antt =====
-- When the members of an archive are read.
use collector_security_analy.Common.{
  ℕ, Bool, true, false, not, ◌&&◌, ◌+◌, ◌≤◌, ◌≡◌, refl, ◌∙◌, Option, none, some, List, [], ◌∷◌, leb,
  length, all, are_distinct, arith, Bool-cases, inl, inr, leb→le,
}
use collector_security_analy.Common.Dict.{Dict, insert, is_some}
use collector_security_analy.Console.Package.{
  ZipInfo, ZipFile, Limits, Extracted, ok, refused, unreadable, and_then, content, is_unsafe_path,
  is_bomb, names, are_required, read_entry, read_entries, check_entries, safe_members,
}
use collector_security_analy.Console.Package.Entries.{total_size}

abbrev pub returns : {A : Type 0} → Extracted A → Bool
returns (ok a) = true
returns (refused st) = false
returns unreadable = false

returns-content : (o : Option (List ℕ)) → returns (content o) ≡ is_some o
returns-content none = refl
returns-content (some b) = refl

returns-and_then :
    {A B : Type 0} (next : A → Extracted B) (call : Extracted A) (b : Bool)
    → ((a : A) → returns (next a) ≡ b)
    → returns (and_then next call) ≡ (returns call && b)
returns-and_then next (ok a) b h = h a
returns-and_then next (refused st) b h = refl
returns-and_then next unreadable b h = refl

never-and_then :
    {A B : Type 0} (next : A → Extracted B) (call : Extracted A)
    → returns call ≡ false
    → returns (and_then next call) ≡ false
never-and_then next (ok a) h = cc h
never-and_then next (refused st) h = refl
never-and_then next unreadable h = refl

module _ (zip : ZipFile) (limits : Limits) (archive : List ℕ) where
  -- An entry with a safe path that is no bomb and can be read
  abbrev pub is_readable : ZipInfo → Bool
  is_readable i = (not (is_unsafe_path i) && not (is_bomb i)) && is_some (zip.read archive i)

  abbrev pub are_readable : List ZipInfo → Bool
  are_readable infos =
      (leb (length infos) limits.maximum_files
        && (are_distinct (names infos) && are_required (names infos)))
      && (leb (total_size infos) limits.maximum_uncompressed_size && all is_readable infos)

  abbrev pub is_listed : Option (List ZipInfo) → Bool
  is_listed none = false
  is_listed (some infos) = are_readable infos

  entry-returns :
      (total : ℕ) (i : ZipInfo)
      → returns (read_entry zip limits archive total i)
        ≡ (leb (total + i.file_size) limits.maximum_uncompressed_size && is_readable i)
  unfolding read_entry
  entry-returns total i = ground (arith, returns-content (zip.read archive i))

  entries_returns :
      (total : ℕ) (is : List ZipInfo) (d : Dict (List ℕ))
      → total ≤ limits.maximum_uncompressed_size
      → returns (read_entries zip limits archive total is d)
        ≡ (leb (total + total_size is) limits.maximum_uncompressed_size && all is_readable is)
  unfolding read_entries
  entries_returns total [] d h = ground (arith, h)
  entries_returns total (i ∷ is) d h =
      elim (Bool-cases (leb (total + i.file_size) limits.maximum_uncompressed_size)) [
        | inl small ↦
            returns-and_then _ (read_entry zip limits archive total i) _ (λ bytes.
              entries_returns (total + i.file_size) is (insert i.filename bytes d)
                (leb→le _ _ small))
            ∙ ground (arith, entry-returns total i, small)
        | inr large ↦
            never-and_then _ (read_entry zip limits archive total i)
              (ground (arith, entry-returns total i, large))
            ∙ ground (arith, large)
      ]

  check-returns :
      (listing : Option (List ZipInfo))
      → returns (check_entries zip limits archive listing) ≡ is_listed listing
  unfolding check_entries
  check-returns none = refl
  check-returns (some infos) = ground (arith, entries_returns 0 infos [])

  -- The members of an archive are read exactly where the archive is within the limit of its size and is
  -- a list of entries within the limits of their number and of their total uncompressed size, with
  -- distinct names that are the six required ones, each with a safe path, no bomb and readable.
  pub safe_members-returns :
      returns (safe_members zip limits archive)
      ≡ (leb (length archive) limits.maximum_package_size && is_listed (zip.infolist archive))
  unfolding safe_members
  safe_members-returns = ground (arith, check-returns (zip.infolist archive))
