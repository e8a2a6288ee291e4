-- ===== src/Cve/Range/Decided.antt =====
-- The ranges for which `_evaluate_version` goes on to compare the installed version.
use collector_security_analy.Common.{
  ◌≡◌, ◌↔◌, ◌⊎◌, inl, inr, refl, String, Bool, true, false, not, ◌&&◌, ◌||◌, Option, none, some,
  arith, str_eq,
}
use collector_security_analy.Cve.Version.{before, same, after, Comparison, ordered}
use collector_security_analy.Cve.Range.Bounds.{are_in_order, is_usable}
use collector_security_analy.Cve.Range.{is_na, Range, has_limit, Bound, is_present, limit}

-- A statement about a bound, where the match has it
abbrev pub Where : Bound → (Option String → Type 0) → Type 0
Where none P = Unit
Where (some t) P = P t

-- A value other than `-`
abbrev pub IsVersion : Option String → Type 0
IsVersion none = Unit
IsVersion (some t) = str_eq t "-" ≡ false

abbrev pub IsAbsent : Bound → Type 0
IsAbsent b = b ≡ none

abbrev pub IsGiven : Bound → Type 0
IsGiven none = ⊥
IsGiven (some t) = Unit

-- Neither the version nor a bound is `-`, no bound stands twice, and a vulnerable criterion names a version
-- or has a bound.
abbrev pub IsDecided : String → Range → Bool → Type 0
IsDecided exact r vulnerable =
    (str_eq exact "-" ≡ false)
    × Where r.start_including IsVersion
    × Where r.start_excluding IsVersion
    × Where r.end_including IsVersion
    × Where r.end_excluding IsVersion
    × (IsAbsent r.start_including ⊎ IsAbsent r.start_excluding)
    × (IsAbsent r.end_including ⊎ IsAbsent r.end_excluding)
    × ((vulnerable ≡ false)
        ⊎ (str_eq exact "*" ≡ false)
        ⊎ IsGiven r.start_including
        ⊎ IsGiven r.start_excluding
        ⊎ IsGiven r.end_including
        ⊎ IsGiven r.end_excluding)

is_na-IsVersion : (b : Bound) → (is_na b ≡ false) ↔ Where b IsVersion
is_na-IsVersion none = (λ h. tt, λ h. refl)
is_na-IsVersion (some none) = (λ h. tt, λ h. refl)
is_na-IsVersion (some (some t)) = (λ h. h, λ h. h)

once-IsAbsent : (a b : Bound) → ((is_present a && is_present b) ≡ false) ↔ (IsAbsent a ⊎ IsAbsent b)
once-IsAbsent none b = (λ h. inl refl, λ h. refl)
once-IsAbsent (some s) none = (λ h. inr refl, λ h. refl)
once-IsAbsent (some s) (some t) = ground arith

open-IsGiven :
    (star vulnerable : Bool) (si se ei ee : Bound)
    → (((star && not (has_limit (limit si se))) && (not (has_limit (limit ei ee)) && vulnerable))
        ≡ false)
      ↔ ((vulnerable ≡ false) ⊎ (star ≡ false) ⊎ IsGiven si ⊎ IsGiven se ⊎ IsGiven ei ⊎ IsGiven ee)
open-IsGiven star vulnerable (some s) se ei ee = ground arith
open-IsGiven star vulnerable none (some s) ei ee = ground arith
open-IsGiven star vulnerable none none (some e) ee = ground arith
open-IsGiven star vulnerable none none none (some e) = ground arith
open-IsGiven star vulnerable none none none none = ground arith

all_hold :
    (x a b c d twice_start twice_end in_order unbound : Bool)
    → (((not (x || ((a || b) || (c || d))) && not (twice_start || twice_end))
          && (in_order && not unbound))
        ≡ true)
      ↔ ((x ≡ false)
          × (a ≡ false)
          × (b ≡ false)
          × (c ≡ false)
          × (d ≡ false)
          × (twice_start ≡ false)
          × (twice_end ≡ false)
          × (unbound ≡ false)
          × (in_order ≡ true))
all_hold x a b c d twice_start twice_end in_order unbound = ground arith

none_twice : (a b : Bool) → a ≡ false → b ≡ false → (a || b) ≡ false
none_twice a b h k = ground (arith, h, k)

module _ (compare : Option String → Option String → Comparison) where
  abbrev pub Before : Option String → Option String → Type 0
  Before a b = compare a b ≡ ordered before

  abbrev pub Same : Option String → Option String → Type 0
  Same a b = compare a b ≡ ordered same

  abbrev pub After : Option String → Option String → Type 0
  After a b = compare a b ≡ ordered after

  -- The place of the start of a range before its end
  abbrev pub IsOrdered : Range → Type 0
  IsOrdered r =
      Where r.start_including (λ s. Where r.end_including (λ e. Before s e ⊎ Same s e))
      × Where r.start_including (λ s. Where r.end_excluding (λ e. Before s e))
      × Where r.start_excluding (λ s. Where r.end_including (λ e. Before s e))
      × Where r.start_excluding (λ s. Where r.end_excluding (λ e. Before s e))

  limits-IsOrdered :
      (si se ei ee : Bound)
      → ((is_present si && is_present se) || (is_present ei && is_present ee)) ≡ false
      → (are_in_order compare (limit si se) (limit ei ee) ≡ true) ↔ (
          Where si (λ s. Where ei (λ e. Before s e ⊎ Same s e))
          × Where si (λ s. Where ee (λ e. Before s e))
          × Where se (λ s. Where ei (λ e. Before s e))
          × Where se (λ s. Where ee (λ e. Before s e)))
  limits-IsOrdered (some s) (some s') ei ee h = absurd (ground (arith, h))
  limits-IsOrdered (some s) none (some e) (some e') h = absurd (ground (arith, h))
  limits-IsOrdered none se (some e) (some e') h = absurd (ground (arith, h))
  limits-IsOrdered none none none none h = (λ k. (tt, tt, tt, tt), λ k. refl)
  limits-IsOrdered none none none (some e) h = (λ k. (tt, tt, tt, tt), λ k. refl)
  limits-IsOrdered none none (some e) none h = (λ k. (tt, tt, tt, tt), λ k. refl)
  limits-IsOrdered (some s) none none none h = (λ k. (tt, tt, tt, tt), λ k. refl)
  limits-IsOrdered (some s) none (some e) none h = ground arith
  limits-IsOrdered (some s) none none (some e) h = ground arith
  limits-IsOrdered none (some s) none none h = (λ k. (tt, tt, tt, tt), λ k. refl)
  limits-IsOrdered none (some s) (some e) none h = ground arith
  limits-IsOrdered none (some s) none (some e) h = ground arith

  pub usable-IsDecided :
      (exact : String) (r : Range) (vulnerable : Bool)
      → (is_usable compare r exact vulnerable ≡ true) ↔ (IsDecided exact r vulnerable × IsOrdered r)
  usable-IsDecided exact r vulnerable =
      let si = r.start_including in
      let se = r.start_excluding in
      let ei = r.end_including in
      let ee = r.end_excluding in
      let parts = all_hold (str_eq exact "-") (is_na si) (is_na se) (is_na ei) (is_na ee) _ _ _ _ in
      let free = open-IsGiven (str_eq exact "*") vulnerable si se ei ee in
      (
        λ h.
            let (x, a, b, c, d, start, end, unbound, order) = parts.0 h in
            (
              (
                x,
                (is_na-IsVersion si).0 a,
                (is_na-IsVersion se).0 b,
                (is_na-IsVersion ei).0 c,
                (is_na-IsVersion ee).0 d,
                (once-IsAbsent si se).0 start,
                (once-IsAbsent ei ee).0 end,
                free.0 unbound,
              ),
              (limits-IsOrdered si se ei ee (none_twice _ _ start end)).0 order,
            ),
        λ h.
            let ((x, a, b, c, d, start, end, unbound), order) = h in
            let start = (once-IsAbsent si se).1 start in
            let end = (once-IsAbsent ei ee).1 end in
            parts.1 (
              x,
              (is_na-IsVersion si).1 a,
              (is_na-IsVersion se).1 b,
              (is_na-IsVersion ei).1 c,
              (is_na-IsVersion ee).1 d,
              start,
              end,
              free.1 unbound,
              (limits-IsOrdered si se ei ee (none_twice _ _ start end)).1 order,
            ),
      )
