-- ===== src/Benchmark/Limiter.antt =====
-- benchmark/rate.go: the limiter of the rate of operations. Times and durations are in nanoseconds; the
-- clock is an argument, and the answer is how long the call sleeps.
use multipipelinehs.Prelude.{
  ℕ, ◌+◌, ◌/◌, ◌≡◌, refl, inl, inr, false, Option, none, some, arith, if◌then◌else◌, Bool-cases,
  Option-cases,
}
use multipipelinehs.Prelude.Int.{ℤ, pos, negsuc, diff, ◌+ℤ◌}
use multipipelinehs.Types.{Result, ok, fault, panic}
use multipipelinehs.Benchmark.{lt_int}

-- `last` is `none` while it is the zero time.
pub record Limiter : Type 0 where
  pub last : Option ℕ
  pub sleep : ℤ
  pub interval : ℕ
  pub slack : ℤ

unfoldable pub negative : ℕ → ℤ
negative n = diff 0 n

-- `NewLimiter`, of a rate that is not negative; division by 0 panics.
unfoldable pub new_limiter : ℕ → Result Limiter
unfolding negative
new_limiter ℕ.zero = fault panic
new_limiter (ℕ.suc n) = ok (record {
  last = none;
  sleep = pos 0;
  interval = 1_000_000_000 / ℕ.suc n;
  slack = negative (10_000_000_000 / ℕ.suc n);
})

-- The end of `Wait`, from the sleep that was found.
unfoldable pub pause : Limiter → ℕ → ℤ → Limiter × ℕ
pause l now (pos (ℕ.suc d)) = (record l { last = some (now + ℕ.suc d); sleep = pos 0 }, ℕ.suc d)
pause l now s = (record l { last = some now; sleep = s }, 0)

unfoldable pub wait : Limiter → ℕ → Limiter × ℕ
wait l now = elim l.last [
  | none ↦ (record l { last = some now }, 0)
  | some last ↦
      let sleep = l.sleep +ℤ diff (l.interval + last) now in
      pause l now (if lt_int sleep l.slack then l.slack else sleep)
]

-- The sleep that is carried over is not positive and not below the slack, which is not positive.
pub record IsPaced (l : Limiter) : Type 0 where
  pub slack : lt_int (pos 0) l.slack ≡ false
  pub low : lt_int l.sleep l.slack ≡ false
  pub high : lt_int (pos 0) l.sleep ≡ false

lt_int_irrefl : (a : ℤ) → lt_int a a ≡ false
unfolding lt_int
lt_int_irrefl (pos n) = ground arith
lt_int_irrefl (negsuc n) = ground arith

pause-IsPaced :
    (l : Limiter) (now : ℕ) (s : ℤ)
    → lt_int (pos 0) l.slack ≡ false
    → lt_int s l.slack ≡ false
    → IsPaced (pause l now s).0
unfolding pause lt_int
pause-IsPaced l now (pos ℕ.zero) h low = record { slack = h; low = low; high = refl }
pause-IsPaced l now (pos (ℕ.suc d)) h low = record { slack = h; low = ground arith; high = refl }
pause-IsPaced l now (negsuc n) h low = record { slack = h; low = low; high = refl }

pub wait-IsPaced : (l : Limiter) (now : ℕ) → IsPaced l → IsPaced (wait l now).0
unfolding wait
wait-IsPaced l now h = elim (Option-cases l.last) [
  | inl fresh ↦ rw (fresh, wait) (record { slack = h.slack; low = h.low; high = h.high })
  | inr (last, e) ↦
      let sleep = l.sleep +ℤ diff (l.interval + last) now in
      rw (e, wait)
        (elim (Bool-cases (lt_int sleep l.slack)) [
          | inl under ↦ rw under (pause-IsPaced l now l.slack h.slack (lt_int_irrefl l.slack))
          | inr fine ↦ rw fine (pause-IsPaced l now sleep h.slack fine)
        ])
]
