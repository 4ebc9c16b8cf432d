-- ===== src/Devicelogin/Ending.antt =====
-- The end of the poll, and of the login around it.
use porte.Base.{
  ℕ, zero, suc, ◌+◌, ◌≤◌, String, Bool, true, false, some, ◌≡◌, refl, ◌⊎◌, inl, inr, string_eq,
  nat_eq, if◌then◌else◌, arith,
}
use porte.Base.{◌*◌}
use porte.Base.Int.{pos}
use porte.Devicelogin.Transport.{Result, err, expired, cancelled}
use porte.Devicelogin.Poll.{
  Schedule, Round, Progress, finished, waiting, slower, step, poll_from, poll,
}

Progress-cases :
    (p : Progress) → ((r : Result String) × (p ≡ finished r)) ⊎ ((slow : Bool) × (p ≡ waiting slow))
Progress-cases (finished r) = inl (r, refl)
Progress-cases (waiting slow) = inr (slow, refl)

mul_grows : (fuel a b : ℕ) → a ≤ b → fuel * a ≤ fuel * b
mul_grows zero a b h = ground arith
mul_grows (suc fuel) a b h = ground (arith, mul_grows fuel a b h)

-- Past the deadline a round always stops.
step_late :
    (s : Schedule) (now : ℕ) (round : Round)
    → s.deadline ≤ now
    → (r : Result String) × (step s now round ≡ finished r)
unfolding step
step_late s now round h = (err (if round.is_cancelled then cancelled else expired), ground arith)

next-interval : (s : Schedule) (slow : Bool) → s.interval ≤ (if slow then slower s else s).interval
unfolding slower
next-interval s true = ground arith
next-interval s false = ground arith

next-deadline : (s : Schedule) (slow : Bool) → (if slow then slower s else s).deadline ≡ s.deadline
unfolding slower
next-deadline s true = refl
next-deadline s false = refl

poll_from_ends :
    (fuel : ℕ) (world : ℕ → Round) (n now : ℕ) (s : Schedule)
    → s.deadline ≤ now + fuel * s.interval
    → (r : Result String) × (poll_from (suc fuel) world n now s ≡ some r)
unfolding poll_from
poll_from_ends zero world n now s h =
    let (r, stops) = step_late s now (world n) (ground arith) in (r, ground arith)
poll_from_ends (suc fuel) world n now s h = elim (Progress-cases (step s now (world n))) [
  | inl (r, stops) ↦ (r, ground arith)
  | inr (slow, goes_on) ↦
      let s' : Schedule = if slow then slower s else s in
      let now' = now + s.interval + (world n).lag in
      let grows = mul_grows fuel s.interval s'.interval (next-interval s slow) in
      let same : s'.deadline ≡ s.deadline = next-deadline s slow in
      let (r, ends) = poll_from_ends fuel world (suc n) now' s' (ground arith) in (r, ground arith)
]

-- Polling ends: with an interval of at least one nanosecond, and whatever the provider answers, the
-- clock alone bounds the rounds, at the code's lifetime over the interval and one more.
pub poll_ends :
    (fuel : ℕ) (world : ℕ → Round) (now interval lifetime : ℕ)
    → lifetime ≤ fuel * interval
    → (r : Result String) × (poll (suc fuel) world now (pos interval) (pos lifetime) ≡ some r)
unfolding poll
poll_ends fuel world now interval lifetime h = poll_from_ends fuel world 0 now _ (ground arith)
