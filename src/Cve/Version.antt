-- ===== src/Cve/Version.antt =====
-- software/version.py: `compare_applicability_versions`, with its numeric scheme. The other schemes
-- (`_scheme_key`) are a parameter.

pub mod Meaning
use collector_security_analy.Common.{
  ℕ, ◌+◌, ◌-◌, ◌*◌, String, Bool, true, false, not, ◌&&◌, ◌||◌, Option, none, some, List, [], ◌∷◌,
  leb, ltb, ◌==◌, str_eq, length, if◌then◌else◌,
}
use collector_security_analy.Console.Paths.{codes}

-- The orders -1, 0 and 1
pub data Place : Type 0 where
  before same after : Place

-- `VersionComparison`
pub data Comparison : Type 0 where
  ordered : Place → Comparison
  unordered : String → Comparison

abbrev pub is_digit : ℕ → Bool
is_digit c = leb b'0' c && leb c b'9'

-- One digit more, where the parse of the rest succeeds
abbrev pub push : ℕ → Option (List ℕ) → Option (List ℕ)
push v none = none
push v (some vs) = some (v ∷ vs)

-- The parts of a text that matches `[0-9]{1,12}(?:\.[0-9]{1,12})*`; `n` digits of the value `v` are read.
unfoldable pub read_parts : List ℕ → ℕ → ℕ → Option (List ℕ)
read_parts [] n v = if n == 0 then none else some (v ∷ [])
read_parts (c ∷ cs) n v =
    let more = read_parts cs (n + 1) (v * 10 + (c - b'0')) in
    let next = read_parts cs 0 0 in
    if is_digit c
    then (if ltb n 12 then more else none)
    else if c == b'.' && not (n == 0)
    then push v next
    else none

-- `_NUMERIC.fullmatch` and `tuple(map(int, value.split(".")))`
abbrev pub at_most_four : Option (List ℕ) → Option (List ℕ)
at_most_four none = none
at_most_four (some vs) = if leb (length vs) 4 then some vs else none

unfoldable pub numeric_parts : String → Option (List ℕ)
unfolding read_parts
numeric_parts t = at_most_four (read_parts (codes t) 0 0)

-- Four parts, with zeros for those that are missing
pub record Quad : Type 0 where
  pub major : ℕ
  pub minor : ℕ
  pub micro : ℕ
  pub build : ℕ

abbrev head_or_zero : List ℕ → ℕ
head_or_zero [] = 0
head_or_zero (v ∷ vs) = v

abbrev rest_of : List ℕ → List ℕ
rest_of [] = []
rest_of (v ∷ vs) = vs

abbrev pub pad : List ℕ → Quad
pad vs = record {
  major = head_or_zero vs;
  minor = head_or_zero (rest_of vs);
  micro = head_or_zero (rest_of (rest_of vs));
  build = head_or_zero (rest_of (rest_of (rest_of vs)));
}

-- The order of two numbers, or else of what follows them
abbrev pub place : ℕ → ℕ → Place → Place
place a b rest = if ltb a b then before else if ltb b a then after else rest

-- `(lhs > rhs) - (lhs < rhs)` on tuples
abbrev pub quad_order : Quad → Quad → Place
quad_order x y =
    place x.major y.major
      (place x.minor y.minor (place x.micro y.micro (place x.build y.build same)))

abbrev pub has_build : List ℕ → Bool
has_build vs = length vs == 4

abbrev pub differ : Bool → Bool → Bool
differ true b = not b
differ false b = b

-- Only one version has a build, and nothing but the builds decides.
abbrev pub is_mixed : Quad → Quad → Bool
is_mixed x y =
    ((x.major == y.major) && ((x.minor == y.minor) && (x.micro == y.micro)))
    && not (x.build == y.build)

unfoldable pub order_parts : List ℕ → List ℕ → Comparison
order_parts l r =
    if differ (has_build l) (has_build r) && is_mixed (pad l) (pad r)
    then unordered "VERSION_INCOMPARABLE"
    else ordered (quad_order (pad l) (pad r))

abbrev pub order_options : Option (List ℕ) → Option (List ℕ) → Comparison
order_options (some l) (some r) = order_parts l r
order_options _ _ = unordered "VERSION_SCHEME_UNSUPPORTED"

unfoldable pub compare_numeric : String → String → Comparison
unfolding numeric_parts order_parts
compare_numeric left right = order_options (numeric_parts left) (numeric_parts right)

-- `compare_applicability_versions`; `none` is a value that is no text.
unfoldable pub compare_applicability_versions :
    (String → String → String → Comparison) → Option String → Option String → String → Comparison
unfolding compare_numeric
compare_applicability_versions other none right scheme = unordered "VERSION_INCOMPARABLE"
compare_applicability_versions other (some l) none scheme = unordered "VERSION_INCOMPARABLE"
compare_applicability_versions other (some l) (some r) scheme =
    if str_eq l "" || str_eq r ""
    then unordered "VERSION_INCOMPARABLE"
    else if str_eq scheme "numeric"
    then compare_numeric l r
    else other l r scheme
