-- ===== src/Cve/Version/Meaning.antt =====
-- What the numeric comparison of two versions says of the numbers in their texts.
use collector_security_analy.Common.{
  ℕ, zero, suc, ◌+◌, ◌*◌, ◌-◌, ◌<◌, ◌≤◌, ◌≡◌, ◌≢◌, ◌⊎◌, ◌↔◌, refl, ap, ◌∙◌, subst, sym, String,
  Bool, true, ◌&&◌, some, List, [], ◌∷◌, ◌++◌, map, arith, all, length, ltb, leb,
}
use mathlib.Core.List.{append-nil}
use collector_security_analy.Console.Paths.{codes}
use collector_security_analy.Cve.Version.{
  before, same, after, Comparison, ordered, unordered, is_digit, push, read_parts, numeric_parts,
  at_most_four, pad, order_parts, order_options, compare_numeric,
}

-- The number that digits write, after a number that was read before them
abbrev pub number : ℕ → List ℕ → ℕ
number v [] = v
number v (c ∷ cs) = number (v * 10 + (c - b'0')) cs

-- Groups of characters with a dot between each two
abbrev pub dotted : List (List ℕ) → List ℕ
dotted [] = []
dotted (g ∷ []) = g
dotted (g ∷ h ∷ gs) = g ++ (b'.' ∷ dotted (h ∷ gs))

-- One to twelve digits
abbrev pub is_group : List ℕ → Bool
is_group g = all is_digit g && (ltb 0 (length g) && leb (length g) 12)

-- A text of one to four groups of digits
abbrev pub IsNumeric : String → List (List ℕ) → Type 0
IsNumeric t gs =
    (codes t ≡ dotted gs) × (all is_group gs ≡ true) × (0 < length gs) × (length gs ≤ 4)

abbrev pub numbers : List (List ℕ) → List ℕ
numbers = map (number 0)

read_group :
    (g rest : List ℕ) (n v : ℕ)
    → all is_digit g ≡ true
    → n + length g ≤ 12
    → read_parts (g ++ rest) n v ≡ read_parts rest (n + length g) (number v g)
unfolding read_parts
read_group [] rest n v h k = ap (λ m. read_parts rest m v) (omega arith)
read_group (c ∷ cs) rest n v h k =
    let ih =
      read_group cs rest (n + 1) (v * 10 + (c - b'0')) (ground (arith, h)) (omega (arith, k)) in
    let moved : n + 1 + length cs ≡ n + length (c ∷ cs) = omega arith in
    ground (arith, h, k, ih, ap (λ m. read_parts rest m (number (v * 10 + (c - b'0')) cs)) moved)

read_end : (n v : ℕ) → 0 < n → read_parts [] n v ≡ some (v ∷ [])
unfolding read_parts
read_end n v h = ground (arith, h)

read_dot : (cs : List ℕ) (n v : ℕ) → 0 < n → read_parts (b'.' ∷ cs) n v ≡ push v (read_parts cs 0 0)
unfolding read_parts
read_dot cs n v h = ground (arith, h)

read_whole :
    (g rest : List ℕ)
    → is_group g ≡ true
    → (read_parts (g ++ rest) 0 0 ≡ read_parts rest (0 + length g) (number 0 g))
      × (0 < 0 + length g)
read_whole g rest h =
    (read_group g rest 0 0 (ground (arith, h)) (ground (arith, h)), ground (arith, h))

read_dotted :
    (g : List ℕ) (gs : List (List ℕ))
    → all is_group (g ∷ gs) ≡ true
    → read_parts (dotted (g ∷ gs)) 0 0 ≡ some (numbers (g ∷ gs))
read_dotted g [] h =
    let whole = read_whole g [] (ground (arith, h)) in
    ap (λ cs. read_parts cs 0 0) (sym (append-nil g))
    ∙ whole.0
    ∙ read_end (0 + length g) (number 0 g) whole.1
read_dotted g (k ∷ gs) h =
    let whole = read_whole g (b'.' ∷ dotted (k ∷ gs)) (ground (arith, h)) in
    whole.0
    ∙ read_dot (dotted (k ∷ gs)) (0 + length g) (number 0 g) whole.1
    ∙ ap (push (number 0 g)) (read_dotted k gs (ground (arith, h)))

length-numbers : (gs : List (List ℕ)) → length (numbers gs) ≡ length gs
length-numbers [] = refl
length-numbers (g ∷ gs) = ap suc (length-numbers gs)

-- The numbers of a numeric text are read.
numeric_parts-numbers :
    (t : String) (gs : List (List ℕ)) → IsNumeric t gs → numeric_parts t ≡ some (numbers gs)
unfolding numeric_parts
numeric_parts-numbers t [] h = absurd (omega (arith, h.2))
numeric_parts-numbers t (g ∷ gs) h =
    ap (λ cs. at_most_four (read_parts cs 0 0)) h.0 ∙ ap at_most_four (read_dotted g gs h.1) ∙ few
  where
    few : at_most_four (some (numbers (g ∷ gs))) ≡ some (numbers (g ∷ gs))
    few = ground (arith, length-numbers gs, h.3)

-- The number at a place, 0 where there is none
abbrev pub part : ℕ → List ℕ → ℕ
part n [] = 0
part zero (v ∷ vs) = v
part (suc n) (v ∷ vs) = part n vs

-- The first four numbers are the same.
abbrev pub Agree : List ℕ → List ℕ → Type 0
Agree xs ys =
    (part 0 xs ≡ part 0 ys)
    × (part 1 xs ≡ part 1 ys)
    × (part 2 xs ≡ part 2 ys)
    × (part 3 xs ≡ part 3 ys)

-- At the first of the four places where the numbers differ, the first list has the smaller one.
abbrev pub Precedes : List ℕ → List ℕ → Type 0
Precedes xs ys =
    (part 0 xs < part 0 ys)
    ⊎ ((part 0 xs ≡ part 0 ys)
        × ((part 1 xs < part 1 ys)
            ⊎ ((part 1 xs ≡ part 1 ys)
                × ((part 2 xs < part 2 ys) ⊎ ((part 2 xs ≡ part 2 ys) × (part 3 xs < part 3 ys))))))

-- One list has a fourth number and the other none, and only that place decides.
abbrev pub IsMixed : List ℕ → List ℕ → Type 0
IsMixed xs ys =
    (((length xs ≡ 4) × (length ys ≢ 4)) ⊎ ((length xs ≢ 4) × (length ys ≡ 4)))
    × (part 0 xs ≡ part 0 ys)
    × (part 1 xs ≡ part 1 ys)
    × (part 2 xs ≡ part 2 ys)
    × (part 3 xs ≢ part 3 ys)

pad-part :
    (xs : List ℕ)
    → ((pad xs).major ≡ part 0 xs)
      × ((pad xs).minor ≡ part 1 xs)
      × ((pad xs).micro ≡ part 2 xs)
      × ((pad xs).build ≡ part 3 xs)
pad-part [] = (refl, refl, refl, refl)
pad-part (a ∷ []) = (refl, refl, refl, refl)
pad-part (a ∷ b ∷ []) = (refl, refl, refl, refl)
pad-part (a ∷ b ∷ c ∷ []) = (refl, refl, refl, refl)
pad-part (a ∷ b ∷ c ∷ d ∷ xs) = (refl, refl, refl, refl)

-- What a comparison of two lists of numbers says
abbrev pub Denotes : Comparison → List ℕ → List ℕ → Type 0
Denotes c xs ys =
    ((c ≡ ordered before) ↔ (Precedes xs ys × ¬ IsMixed xs ys))
    × ((c ≡ ordered after) ↔ (Precedes ys xs × ¬ IsMixed xs ys))
    × ((c ≡ ordered same) ↔ Agree xs ys)
    × ((c ≡ unordered "VERSION_INCOMPARABLE") ↔ IsMixed xs ys)

order_parts-before :
    (xs ys : List ℕ) → (order_parts xs ys ≡ ordered before) ↔ (Precedes xs ys × ¬ IsMixed xs ys)
unfolding order_parts
order_parts-before xs ys = ground (arith, pad-part xs, pad-part ys)

order_parts-after :
    (xs ys : List ℕ) → (order_parts xs ys ≡ ordered after) ↔ (Precedes ys xs × ¬ IsMixed xs ys)
unfolding order_parts
order_parts-after xs ys = ground (arith, pad-part xs, pad-part ys)

order_parts-same : (xs ys : List ℕ) → (order_parts xs ys ≡ ordered same) ↔ Agree xs ys
unfolding order_parts
order_parts-same xs ys = ground (arith, pad-part xs, pad-part ys)

order_parts-unordered :
    (xs ys : List ℕ) → (order_parts xs ys ≡ unordered "VERSION_INCOMPARABLE") ↔ IsMixed xs ys
unfolding order_parts
order_parts-unordered xs ys = ground (arith, pad-part xs, pad-part ys)

-- Two versions of one to four groups of one to twelve digits are compared by the numbers that they write, with
-- zeros for missing ones: the first comes before the second exactly where it has the smaller number at the
-- first place where they differ, after it where it has the larger one, and is the same where none differs;
-- but they are incomparable exactly where one of them alone has a fourth number and only that place differs.
pub compare_numeric-Denotes :
    (left right : String) (ls rs : List (List ℕ))
    → IsNumeric left ls
    → IsNumeric right rs
    → Denotes (compare_numeric left right) (numbers ls) (numbers rs)
unfolding compare_numeric
compare_numeric-Denotes left right ls rs h k =
    let read : compare_numeric left right ≡ order_parts (numbers ls) (numbers rs) =
      ap (λ o. order_options o (numeric_parts right)) (numeric_parts-numbers left ls h)
      ∙ ap (order_options (some (numbers ls))) (numeric_parts-numbers right rs k) in
    subst (λ c. Denotes c (numbers ls) (numbers rs)) (sym read)
      (
        order_parts-before (numbers ls) (numbers rs),
        order_parts-after (numbers ls) (numbers rs),
        order_parts-same (numbers ls) (numbers rs),
        order_parts-unordered (numbers ls) (numbers rs),
      )
