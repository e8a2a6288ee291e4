-- ===== src/Cve/Limiter/Queue.antt =====
-- The queue of the limiter, beside the times that left it.
use collector_security_analy.Common.{
  ℕ, ◌+◌, ◌-◌, ◌≤◌, ◌≡◌, refl, List, [], ◌∷◌, ◌++◌, arith, All, length, leb, Bool-cases, inl, inr,
  suc, zero, if◌then◌else◌,
}
use collector_security_analy.Cve.Limiter.{Limiter, drop_expired}

abbrev pub skip : ℕ → List ℕ → List ℕ
skip zero ts = ts
skip (suc n) [] = []
skip (suc n) (t ∷ ts) = skip n ts

-- Of the grants, the newest first: each came at least a window after the grant that lies `requests`
-- before it, and so after all before that one.
abbrev pub IsSpaced : ℕ → ℕ → List ℕ → Type 0
IsSpaced requests window [] = Unit
IsSpaced requests window (t ∷ ts) =
    All (λ d. d + window ≤ t) (skip (requests - 1) ts) × IsSpaced requests window ts

-- A queue pushed on the times that left it
abbrev pub back : List ℕ → List ℕ → List ℕ
back [] ds = ds
back (t ∷ ts) ds = back ts (t ∷ ds)

pub back-snoc : (ts ds : List ℕ) (t : ℕ) → back (ts ++ t ∷ []) ds ≡ t ∷ back ts ds
back-snoc [] ds t = refl
back-snoc (x ∷ ts) ds t = back-snoc ts (x ∷ ds) t

module _ (P : ℕ → Type 0) where
  pub All-skip : (n : ℕ) (ts : List ℕ) → All P ts → All P (skip n ts)
  All-skip zero ts a = a
  All-skip (suc n) [] a = a
  All-skip (suc n) (t ∷ ts) a = All-skip n ts a.1

  pub All-skip_more : (m n : ℕ) (ts : List ℕ) → m ≤ n → All P (skip m ts) → All P (skip n ts)
  All-skip_more zero n ts h a = All-skip n ts a
  All-skip_more (suc m) zero ts h a = absurd (omega (arith, h))
  All-skip_more (suc m) (suc n) [] h a = a
  All-skip_more (suc m) (suc n) (t ∷ ts) h a = All-skip_more m n ts (omega (arith, h)) a

  pub All-skip-back :
      (k m : ℕ) (ts ds : List ℕ)
      → All P (skip m ds)
      → m + length ts ≤ k
      → All P (skip k (back ts ds))
  All-skip-back k m [] ds a h = All-skip_more m k ds (omega (arith, h)) a
  All-skip-back k m (t ∷ ts) ds a h = All-skip-back k (suc m) ts (t ∷ ds) a (omega (arith, h))

pub All-later :
    (w c n : ℕ) (ds : List ℕ) → c ≤ n → All (λ d. d + w ≤ c) ds → All (λ d. d + w ≤ n) ds
All-later w c n [] h a = a
All-later w c n (d ∷ ds) h a = (omega (arith, h, a.0), All-later w c n ds h a.1)

-- The grants so far, up to the time of the clock: those in the queue, and those that left it.
pub record IsPaced (l : Limiter) (clock : ℕ) (grants : List ℕ) : Type 0 where
  pub left : List ℕ
  pub all : grants ≡ back l.timestamps left
  pub old : All (λ d. d + l.window ≤ clock) left
  pub spaced : IsSpaced l.requests l.window grants

-- What has left the queue when the clock shows `now`.
pub expired : ℕ → ℕ → List ℕ → List ℕ → List ℕ
expired w now [] ds = ds
expired w now (t ∷ ts) ds =
    let rest = expired w now ts (t ∷ ds) in if leb (t + w) now then rest else ds

pub drop_expired-back :
    (w now : ℕ) (ts ds : List ℕ) → back (drop_expired w now ts) (expired w now ts ds) ≡ back ts ds
unfolding drop_expired expired
drop_expired-back w now [] ds = refl
drop_expired-back w now (t ∷ ts) ds = elim (Bool-cases (leb (t + w) now)) [
  | inl late ↦ rw late (drop_expired-back w now ts (t ∷ ds))
  | inr early ↦ rw early refl
]

pub expired-All :
    (w now : ℕ) (ts ds : List ℕ)
    → All (λ d. d + w ≤ now) ds
    → All (λ d. d + w ≤ now) (expired w now ts ds)
unfolding expired
expired-All w now [] ds a = a
expired-All w now (t ∷ ts) ds a = elim (Bool-cases (leb (t + w) now)) [
  | inl late ↦ rw late (expired-All w now ts (t ∷ ds) (ground arith, a))
  | inr early ↦ rw early a
]
