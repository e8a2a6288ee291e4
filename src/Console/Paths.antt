-- ===== src/Console/Paths.antt =====
-- The file names that csa_console/storage.py lets into an assessment's directory.
use Prim.Native.Char.{code}
use collector_security_analy.Common.{
  ℕ, String, Bool, false, ◌&&◌, ◌||◌, List, [], ◌∷◌, leb, ◌==◌, length, all,
}

-- The code points of a text.
abbrev pub codes : String → List ℕ
codes String.[] = []
codes (String.◌∷◌ c s) = code c ∷ codes s

-- `[A-Za-z0-9]`
pub is_alnum : ℕ → Bool
is_alnum c = (leb b'A' c && leb c b'Z') || (leb b'a' c && leb c b'z') || (leb b'0' c && leb c b'9')

-- `[A-Za-z0-9._-]`
pub is_name_char : ℕ → Bool
unfolding is_alnum
is_name_char c = is_alnum c || (c == b'.' || (c == b'_' || c == b'-'))

-- `SAFE_COMPONENT.fullmatch`: `^[A-Za-z0-9][A-Za-z0-9._-]{0,127}$`
unfoldable pub safe_component : List ℕ → Bool
unfolding is_alnum is_name_char
safe_component [] = false
safe_component (c ∷ cs) = is_alnum c && (all is_name_char cs && leb (length cs) 127)
