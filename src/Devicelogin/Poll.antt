-- ===== src/Devicelogin/Poll.antt =====
-- devicelogin/poll.go. What the world does in each round of the loop is an argument: a round says
-- whether the context ended, how long the wait and the request took beyond the interval, and what
-- the provider answered. An interval that is not positive lets a timer fire at once.
use porte.Base.{
  ℕ, zero, suc, ◌+◌, String, Bool, true, false, not, Option, none, some, string_eq, nat_eq, ◌==◌,
  ltb, if◌then◌else◌,
}
use porte.Base.Int.{ℤ, pos_part}
use porte.Devicelogin.Transport.{
  Doc, text, is_ok, denied, expired, cancelled, refused, no_token, Result, ok, err,
}

pub record Schedule : Type 0 where
  pub interval : ℕ
  pub step : ℕ
  pub deadline : ℕ

pub record Round : Type 0 where
  pub is_cancelled : Bool
  pub lag : ℕ
  pub answer : Option (ℕ × Doc)

-- Five seconds.
abbrev pub slow_down_step : ℕ
slow_down_step = 5000000000

unfoldable pub slower : Schedule → Schedule
slower s = record s { interval = s.interval + s.step }

-- One poll answer: the token, keep waiting and whether to slow down, or stop.
pub data Progress : Type 0 where
  finished : Result String → Progress
  waiting : Bool → Progress

unfoldable pub read : ℕ → Doc → Progress
unfolding text
read status doc =
    if is_ok status
    then (let token = text doc "access_token" in
        if token == "" then finished (err no_token) else finished (ok token))
    else let reason = text doc "error" in
      if reason == "authorization_pending"
      then waiting false
      else if reason == "slow_down"
      then waiting true
      else if reason == "access_denied"
      then finished (err denied)
      else if reason == "expired_token"
      then finished (err expired)
      else finished (err refused)

-- What a round at a time does: the wait refuses, or the request is made; a lost one is retried.
unfoldable pub step : Schedule → ℕ → Round → Progress
unfolding read
step s now round =
    if not (ltb now s.deadline)
    then finished (err (if round.is_cancelled then cancelled else expired))
    else if round.is_cancelled
    then finished (err cancelled)
    else elim round.answer [ none ↦ waiting false | some (status, doc) ↦ read status doc ]

-- The loop, from round n at time now; none is out of fuel.
unfoldable pub poll_from : ℕ → (ℕ → Round) → ℕ → ℕ → Schedule → Option (Result String)
unfolding step slower
poll_from zero world n now s = none
poll_from (suc fuel) world n now s = elim (step s now (world n)) [
  | finished r ↦ some r
  | waiting slow ↦
      poll_from fuel world (suc n) (now + s.interval + (world n).lag) (if slow then slower s else s)
]

unfoldable pub poll : ℕ → (ℕ → Round) → ℕ → ℤ → ℤ → Option (Result String)
poll fuel world now interval expires_in = poll_from fuel world 0 now (record {
  interval = pos_part interval;
  step = slow_down_step;
  deadline = now + pos_part expires_in;
})
