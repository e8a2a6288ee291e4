-- ===== src/Cve/Limiter/Waiting.antt =====
-- A turn of the limiter that waits waits for long enough.
use collector_security_analy.Common.{
  ℕ, ◌+◌, ◌-◌, ◌≤◌, ◌<◌, ◌≡◌, refl, ap, List, [], ◌∷◌, arith, length,
}
use collector_security_analy.Cve.Limiter.{Limiter, granted, wait, drop_expired, attempt, oldest}

pub length-drop_expired : (w now : ℕ) (ts : List ℕ) → length (drop_expired w now ts) ≤ length ts
unfolding drop_expired
length-drop_expired w now [] = omega arith
length-drop_expired w now (t ∷ ts) = ground (arith, length-drop_expired w now ts)

pub drop_expired-shorter :
    (w now t : ℕ) (ts : List ℕ) → t + w ≤ now → length (drop_expired w now (t ∷ ts)) ≤ length ts
unfolding drop_expired
drop_expired-shorter w now t ts h = ground (arith, h, length-drop_expired w now ts)

pub attempt-waits :
    (l k : Limiter) (now n : ℕ)
    → attempt now l ≡ (wait n, k)
    → (l.requests ≤ length k.timestamps)
      × (n ≡ (oldest k.timestamps now + k.window) - now)
      × (k.requests ≡ l.requests)
      × (k.timestamps ≡ drop_expired l.window now l.timestamps)
unfolding attempt
attempt-waits l k now n e = ground (arith, e)

pub attempt-granted :
    (l : Limiter) (now : ℕ)
    → length (drop_expired l.window now l.timestamps) < l.requests
    → (attempt now l).0 ≡ granted
unfolding attempt
attempt-granted l now h = ground (arith, h)

pub granted_after :
    (k : Limiter) (ts : List ℕ) (now later : ℕ)
    → k.timestamps ≡ ts
    → 0 < k.requests
    → length ts ≤ k.requests
    → k.requests ≤ length ts
    → (oldest ts now + k.window) ≤ later
    → length (drop_expired k.window later ts) < k.requests
granted_after k [] now later same some_request within full h =
    absurd (omega (arith, some_request, full))
granted_after k (t ∷ ts) now later same some_request within full h =
    omega (arith, within, drop_expired-shorter k.window later t ts h)

-- A turn that waits waits for long enough: after the wait that it asks for, the next turn is granted.
pub wait_enough :
    (l k : Limiter) (now n later : ℕ)
    → 0 < l.requests
    → length l.timestamps ≤ l.requests
    → attempt now l ≡ (wait n, k)
    → now + n ≤ later
    → (attempt later k).0 ≡ granted
wait_enough l k now n later some_request within e h =
    let a = attempt-waits l k now n e in
    attempt-granted k later (
      granted_after k k.timestamps now later refl (omega (arith, some_request, a.2))
        (omega (arith, a.2, within, ap length a.3, length-drop_expired l.window now l.timestamps))
        (omega (arith, a.0, a.2)) (omega (arith, h, a.1)))
