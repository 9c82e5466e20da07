-- ===== src/Utils/Attempts.antt =====
-- How often `Retry` of utils/utils.go calls its function.
use multipipelinehs.Prelude.{
  ℕ, zero, suc, ◌+◌, ◌-◌, ◌≤◌, ◌<◌, ◌≡◌, refl, subst, ℕ_discrete, inl, inr, Bool, false, arith,
  Bool-cases,
}
use multipipelinehs.Utils.{retry_from, retry}

-- The calls that were made: all before the last one failed, and the last one succeeded if and only if
-- the answer says so; if it failed, there were as many as allowed.
pub record Tried (f : ℕ → Bool) (i allowed : ℕ) (r : Bool × ℕ) : Type 0 where
  pub last : ℕ
  pub counted : r.1 ≡ last + 1
  pub within : last ≤ allowed
  pub answered : f last ≡ r.0
  pub before : (j : ℕ) → i ≤ j → j < last → f j ≡ false
  pub exhausted : r.0 ≡ false → last ≡ allowed

Tried-later :
    (f : ℕ → Bool) (i allowed : ℕ) (r : Bool × ℕ)
    → f i ≡ false
    → Tried f (i + 1) allowed r
    → Tried f i allowed r
Tried-later f i allowed r failed h = record {
  last = h.last;
  counted = h.counted;
  within = h.within;
  answered = h.answered;
  before = λ j low high. elim (ℕ_discrete i j) [
    | yes same ↦ subst (λ k. f k ≡ false) same failed
    | no other ↦ h.before j (omega arith) high
  ];
  exhausted = h.exhausted;
}

retry_from-Tried : (f : ℕ → Bool) (i left : ℕ) → Tried f i (i + left) (retry_from f i left)
unfolding retry_from
retry_from-Tried f i zero = record {
  last = i;
  counted = refl;
  within = omega arith;
  answered = refl;
  before = λ j low high. absurd (omega arith);
  exhausted = λ failed. omega arith;
}
retry_from-Tried f i (suc left) = elim (Bool-cases (f i)) [
  | inl good ↦
      rw (good, retry_from)
        (record {
          last = i;
          counted = refl;
          within = omega arith;
          answered = good;
          before = λ j low high. absurd (omega arith);
          exhausted = λ failed. absurd (cc);
        })
  | inr failed ↦
      let same : i + suc left ≡ (i + 1) + left = omega arith in
      rw (failed, same)
        (Tried-later f i ((i + 1) + left) _ failed (retry_from-Tried f (i + 1) left))
]

-- Retry calls its function until it succeeds, at most as often as allowed and at least once: all calls
-- before the last fail, its answer is that of the last, and after a failure no attempt is left.
pub retry-Tried : (f : ℕ → Bool) (attempts : ℕ) → Tried f 0 (attempts - 1) (retry f attempts)
unfolding retry
retry-Tried f attempts =
    subst (λ k. Tried f 0 k (retry f attempts)) (omega arith) (retry_from-Tried f 0 (attempts - 1))
