-- ===== src/Console/Tests/Packages.antt =====
-- The package theorem at an archive with the six files.
use collector_security_analy.Common.{
  ◌*◌, ◌&&◌, leb, length, ℕ, String, ◌≡◌, refl, some, List, [], ◌∷◌, map,
}
use collector_security_analy.Common.Dict.{Dict, insert}
use collector_security_analy.Console.Package.{
  ZipInfo, ZipFile, Limits, ok, required_files, is_unsafe_path, segments, ends_with_slash,
  read_entry, read_entries, check_entries, safe_members,
}
use collector_security_analy.Console.Package.Complete.{returns, is_listed, safe_members-returns}
use collector_security_analy.Console.Package.Safe.{IsSafe, safe_members-IsSafe}

abbrev info : String → ZipInfo
info name = record {
  filename = name;
  file_size = 300;
  compress_size = 3;
  external_attr = 384 * 65536;
}

abbrev zip : ZipFile
zip = record {
  infolist = λ archive. some (map info required_files);
  read = λ archive i. some (b'{' ∷ b'}' ∷ []);
}

abbrev limits : Limits
limits = record {
  maximum_package_size = 25 * 1024 * 1024;
  maximum_uncompressed_size = 100 * 1024 * 1024;
  maximum_files = 8;
}

abbrev members : Dict (List ℕ)
members = map (λ (n : String). (n, b'{' ∷ b'}' ∷ [])) required_files

read_members : safe_members zip limits (80 ∷ 75 ∷ []) ≡ ok members
unfolding safe_members check_entries read_entries read_entry is_unsafe_path segments ends_with_slash
    insert
read_members = refl

safe_members-IsSafe_example :
    (infos : List ZipInfo) × IsSafe zip limits (80 ∷ 75 ∷ []) members infos
safe_members-IsSafe_example = safe_members-IsSafe zip limits (80 ∷ 75 ∷ []) members read_members

safe_members-returns_example : returns (safe_members zip limits (80 ∷ 75 ∷ [])) ≡ (
    leb (length {A = ℕ} (80 ∷ 75 ∷ [])) limits.maximum_package_size
    && is_listed zip limits (80 ∷ 75 ∷ []) (zip.infolist (80 ∷ 75 ∷ [])))
safe_members-returns_example = safe_members-returns zip limits (80 ∷ 75 ∷ [])
