-- ===== src/Console/Package/Entries.antt =====
-- What the entries of an archive that were read keep to.
use collector_security_analy.Common.{
  ℕ, String, Bool, true, false, ◌||◌, ◌+◌, ◌*◌, ◌≤◌, ◌≡◌, refl, max, Option, none, some, List, [],
  ◌∷◌, ltb, if◌then◌else◌, contains, are_distinct, All, arith, eq_iff,
}
use collector_security_analy.Common.Dict.{Dict, lookup, insert, is_some, lookup-insert}
use collector_security_analy.Console.Package.{
  ZipInfo, ZipFile, Limits, Extracted, ok, refused, unreadable, and_then, content, is_unsafe_path,
  is_bomb, names, read_entry, read_entries,
}

and_then-ok :
    {A B : Type 0} (next : A → Extracted B) (call : Extracted A) {b : B}
    → and_then next call ≡ ok b
    → (a : A) × (call ≡ ok a) × (next a ≡ ok b)
and_then-ok next (ok a) h = (a, refl, h)
and_then-ok next (refused st) h = cc h
and_then-ok next unreadable h = cc h

content-ok : (o : Option (List ℕ)) (b : List ℕ) → content o ≡ ok b → o ≡ some b
content-ok none b h = cc h
content-ok (some a) b h = ground (arith, h)

pub unless-ok :
    {A : Type 0} (b : Bool) (call rest : Extracted A) {a : A}
    → (if b then call else rest) ≡ ok a
    → ((out : A) → call ≡ ok out → false ≡ true)
    → (b ≡ false) × (rest ≡ ok a)
unless-ok true call rest h never = absurd (cc (never _ h))
unless-ok false call rest h never = (refl, h)

abbrev pub total_size : List ZipInfo → ℕ
total_size [] = 0
total_size (i ∷ is) = i.file_size + total_size is

module _ (zip : ZipFile) (limits : Limits) (archive : List ℕ) where
  entry-ok :
      (total : ℕ) (i : ZipInfo) (b : List ℕ)
      → read_entry zip limits archive total i ≡ ok b
      → (is_unsafe_path i ≡ false)
        × (total + i.file_size ≤ limits.maximum_uncompressed_size)
        × (is_bomb i ≡ false)
        × (zip.read archive i ≡ some b)
  unfolding read_entry
  entry-ok total i b h =
      let safe = unless-ok (is_unsafe_path i) _ _ h (λ out r. cc r) in
      let small =
        unless-ok (ltb limits.maximum_uncompressed_size (total + i.file_size)) _ _ safe.1
          (λ out r. cc r) in
      let no_bomb = unless-ok (is_bomb i) _ _ small.1 (λ out r. cc r) in
      (safe.0, ground (arith, small.0), no_bomb.0, content-ok (zip.read archive i) b no_bomb.1)

  entries_kept :
      (total : ℕ) (is : List ZipInfo) (d m : Dict (List ℕ)) (n : String)
      → read_entries zip limits archive total is d ≡ ok m
      → contains n (names is) ≡ false
      → lookup n m ≡ lookup n d
  unfolding read_entries
  entries_kept total [] d m n h k = ground (arith, h)
  entries_kept total (i ∷ is) d m n h k =
      let step = and_then-ok _ (read_entry zip limits archive total i) h in
      let ih =
        entries_kept (total + i.file_size) is (insert i.filename step.0 d) m n step.2
          (ground (arith, k)) in
      ground (
        arith,
        ih,
        k,
        lookup-insert i.filename n step.0 d,
        eq_iff i.filename n,
        eq_iff n i.filename,
      )

  pub entries_known :
      (total : ℕ) (is : List ZipInfo) (d m : Dict (List ℕ)) (n : String)
      → read_entries zip limits archive total is d ≡ ok m
      → is_some (lookup n m) ≡ (contains n (names is) || is_some (lookup n d))
  unfolding read_entries
  entries_known total [] d m n h = ground (arith, h)
  entries_known total (i ∷ is) d m n h =
      let step = and_then-ok _ (read_entry zip limits archive total i) h in
      let ih = entries_known (total + i.file_size) is (insert i.filename step.0 d) m n step.2 in
      ground
        (arith, ih, lookup-insert i.filename n step.0 d, eq_iff i.filename n, eq_iff n i.filename)

  pub entries_bounded :
      (total : ℕ) (is : List ZipInfo) (d m : Dict (List ℕ))
      → read_entries zip limits archive total is d ≡ ok m
      → total ≤ limits.maximum_uncompressed_size
      → total + total_size is ≤ limits.maximum_uncompressed_size
  unfolding read_entries
  entries_bounded total [] d m h k = omega (arith, k)
  entries_bounded total (i ∷ is) d m h k =
      let step = and_then-ok _ (read_entry zip limits archive total i) h in
      let entry = entry-ok total i step.0 step.1 in
      let ih = entries_bounded (total + i.file_size) is _ m step.2 entry.1 in omega (arith, ih)

  -- An entry that was read: its path is safe, it is no bomb, and its member is its content.
  abbrev pub IsRead : Dict (List ℕ) → ZipInfo → Type 0
  IsRead m i =
      (is_unsafe_path i ≡ false)
      × (i.file_size ≤ 100 * max 1 i.compress_size)
      × (i.compress_size ≡ 0 → i.file_size ≡ 0)
      × (b : List ℕ) × (zip.read archive i ≡ some b)
      × (lookup i.filename m ≡ some b)

  pub entries_read :
      (total : ℕ) (is : List ZipInfo) (d m : Dict (List ℕ))
      → read_entries zip limits archive total is d ≡ ok m
      → are_distinct (names is) ≡ true
      → All (IsRead m) is
  unfolding read_entries
  entries_read total [] d m h k = tt
  entries_read total (i ∷ is) d m h k =
      let step = and_then-ok _ (read_entry zip limits archive total i) h in
      let entry = entry-ok total i step.0 step.1 in
      let kept =
        entries_kept (total + i.file_size) is (insert i.filename step.0 d) m i.filename step.2
          (ground (arith, k)) in
      (
        (
          entry.0,
          ground (arith, entry.2),
          λ e. ground (arith, entry.2, e),
          step.0,
          entry.3,
          ground (
            arith,
            kept,
            lookup-insert i.filename i.filename step.0 d,
            eq_iff i.filename i.filename,
          ),
        ),
        entries_read (total + i.file_size) is (insert i.filename step.0 d) m step.2
            (ground (arith, k)),
      )
