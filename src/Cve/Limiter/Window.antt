-- ===== src/Cve/Limiter/Window.antt =====
-- No window of the limiter's length grants more than its requests.
use collector_security_analy.Cve.Limiter.Queue.{
  skip, IsSpaced, back, back-snoc, All-skip-back, All-later, IsPaced, expired, drop_expired-back,
  expired-All,
}
use collector_security_analy.Common.{
  ℕ, ◌+◌, ◌-◌, ◌≤◌, ◌<◌, ◌≡◌, refl, ap, sym, subst, ◌∙◌, Bool, true, false, List, [], ◌∷◌, ◌++◌,
  arith, All, length, ltb, Bool-cases, inl, inr, max,
}
use collector_security_analy.Cve.Limiter.{
  Limiter, new_limiter, Outcome, acquired, cancelled, waiting, drop_expired, attempt, acquire,
}

module _ (l : Limiter) (c now : ℕ) (grants : List ℕ) (some_request : 0 < l.requests)
    (later : c ≤ now) (paced : IsPaced l c grants) where
  abbrev queue : List ℕ
  queue = drop_expired l.window now l.timestamps

  abbrev gone : List ℕ
  gone = expired l.window now l.timestamps paced.left

  gone-old : All (λ d. d + l.window ≤ now) gone
  gone-old =
      expired-All l.window now l.timestamps paced.left
        (All-later l.window c now paced.left later paced.old)

  kept : grants ≡ back queue gone
  kept = paced.all ∙ sym (drop_expired-back l.window now l.timestamps paced.left)

  waited : IsPaced (record l { timestamps = queue }) now grants
  waited = record { left = gone; all = kept; old = gone-old; spaced = paced.spaced }

  admitted :
      length queue < l.requests
      → IsPaced (record l { timestamps = queue ++ now ∷ [] }) now (now ∷ grants)
  admitted room = record {
    left = gone;
    all = ap (λ ts. now ∷ ts) kept ∙ sym (back-snoc queue gone now);
    old = gone-old;
    spaced = (
      subst (λ ts. All (λ d. d + l.window ≤ now) (skip (l.requests - 1) ts)) (sym kept)
          (All-skip-back (λ d. d + l.window ≤ now) (l.requests - 1) 0 queue gone gone-old
            (omega (arith, room))),
      paced.spaced,
    );
  }

-- The readings of a clock that starts at `c` and never goes back, and the last of them
abbrev pub IsRising : ℕ → List (Bool × ℕ) → Type 0
IsRising c [] = Unit
IsRising c ((b, now) ∷ rs) = (c ≤ now) × IsRising now rs

abbrev pub last_time : ℕ → List (Bool × ℕ) → ℕ
last_time c [] = c
last_time c ((b, now) ∷ rs) = last_time now rs

IsRising-last_time : (c : ℕ) (rs : List (Bool × ℕ)) → IsRising c rs → c ≤ last_time c rs
IsRising-last_time c [] r = omega arith
IsRising-last_time c ((b, now) ∷ rs) r = omega (arith, r.0, IsRising-last_time now rs r.1)

IsPaced-later :
    (l : Limiter) (c n : ℕ) (grants : List ℕ) → c ≤ n → IsPaced l c grants → IsPaced l n grants
IsPaced-later l c n grants h p = record {
  left = p.left;
  all = p.all;
  old = All-later l.window c n p.left h p.old;
  spaced = p.spaced;
}

abbrev pub with_grant : Outcome → List ℕ → List ℕ
with_grant (acquired now) grants = now ∷ grants
with_grant cancelled grants = grants
with_grant waiting grants = grants

module _ (now : ℕ) (rs : List (Bool × ℕ)) (l : Limiter) where
  acquire-granted :
      ltb (length (drop_expired l.window now l.timestamps)) l.requests ≡ true
      → acquire ((false, now) ∷ rs) l ≡ (
        acquired now,
        record l { timestamps = drop_expired l.window now l.timestamps ++ now ∷ [] },
      )
  unfolding acquire attempt
  acquire-granted room = ground (arith, room)

  acquire-waits :
      ltb (length (drop_expired l.window now l.timestamps)) l.requests ≡ false
      → acquire ((false, now) ∷ rs) l
        ≡ acquire rs (record l { timestamps = drop_expired l.window now l.timestamps })
  unfolding acquire attempt
  acquire-waits full = ground (arith, full)

-- The result `r` of a call on the limiter `l` is paced.
abbrev IsPacedResult : Limiter → ℕ → List ℕ → Outcome × Limiter → Type 0
IsPacedResult l clock grants r =
    IsPaced r.1 clock (with_grant r.0 grants)
    × (r.1.requests ≡ l.requests)
    × (r.1.window ≡ l.window)

acquire-IsPaced :
    (rs : List (Bool × ℕ)) (l : Limiter) (c : ℕ) (grants : List ℕ)
    → 0 < l.requests
    → IsRising c rs
    → IsPaced l c grants
    → IsPacedResult l (last_time c rs) grants (acquire rs l)
unfolding acquire
acquire-IsPaced [] l c grants some_request r p = (p, refl, refl)
acquire-IsPaced ((true, now) ∷ rs) l c grants some_request r p = (
  IsPaced-later l c (last_time now rs) grants (IsRising-last_time c ((true, now) ∷ rs) r) p,
  refl,
  refl,
)
acquire-IsPaced ((false, now) ∷ rs) l c grants some_request r p =
    elim (Bool-cases (ltb (length (drop_expired l.window now l.timestamps)) l.requests)) [
      | inl room ↦
          subst (IsPacedResult l (last_time now rs) grants) (sym (acquire-granted now rs l room)) (
            IsPaced-later
                (record l { timestamps = drop_expired l.window now l.timestamps ++ now ∷ [] }) now
                (last_time now rs) (now ∷ grants) (IsRising-last_time now rs r.1)
                (admitted l c now grants some_request r.0 p (ground (arith, room))),
            refl,
            refl,
          )
      | inr full ↦
          subst (IsPacedResult l (last_time now rs) grants) (sym (acquire-waits now rs l full)) (
            acquire-IsPaced rs (record l { timestamps = drop_expired l.window now l.timestamps })
              now grants some_request r.1 (waited l c now grants some_request r.0 p))
    ]

-- Several calls of `acquire`, and their grants, the newest first
pub call_all : List (List (Bool × ℕ)) → Limiter → List ℕ → List ℕ
call_all [] l grants = grants
call_all (rs ∷ calls) l grants = let (o, k) = acquire rs l in call_all calls k (with_grant o grants)

abbrev pub AreRising : ℕ → List (List (Bool × ℕ)) → Type 0
AreRising c [] = Unit
AreRising c (rs ∷ calls) = IsRising c rs × AreRising (last_time c rs) calls

call_all-IsSpaced :
    (calls : List (List (Bool × ℕ))) (l : Limiter) (c : ℕ) (grants : List ℕ)
    → 0 < l.requests
    → AreRising c calls
    → IsPaced l c grants
    → IsSpaced l.requests l.window (call_all calls l grants)
unfolding call_all
call_all-IsSpaced [] l c grants some_request r p = p.spaced
call_all-IsSpaced (rs ∷ calls) l c grants some_request r p =
    let a = acquire-IsPaced rs l c grants some_request r.0 p in
    let k = (acquire rs l).1 in
    let rest =
      call_all-IsSpaced calls k (last_time c rs) (with_grant (acquire rs l).0 grants)
        (rw a.1 some_request) r.1 a.0 in
    subst (λ n. IsSpaced n l.window (call_all calls k (with_grant (acquire rs l).0 grants))) a.1
      (subst (λ w. IsSpaced k.requests w (call_all calls k (with_grant (acquire rs l).0 grants)))
        a.2 rest)

-- For a limiter of `requests` in a window, of at least a second, and any calls on a clock that never goes
-- back: each grant comes at least one window after the grant that lies `requests` before it, so no window has more.
pub rate_limited :
    (requests window : ℕ) (calls : List (List (Bool × ℕ)))
    → AreRising 0 calls
    → IsSpaced
        (max 1 requests)
        (max 1_000_000 window)
        (call_all calls (new_limiter requests window) [])
rate_limited requests window calls r =
    call_all-IsSpaced calls (new_limiter requests window) 0 [] (omega arith) r
      (record { left = []; all = refl; old = tt; spaced = tt })
