-- ===== src/Utils.antt =====
-- utils/utils.go: searching and comparing numbers, drawing distinct numbers, and trying again. Numbers are
-- not negative here. Sleeping is left out.
pub mod Attempts
pub mod Draws
use multipipelinehs.Prelude.{
  ℕ, zero, suc, ◌+◌, ◌-◌, Bool, true, false, Option, none, some, List, [], ◌∷◌, ◌++◌, ltb, ◌==◌,
  if◌then◌else◌,
}
use multipipelinehs.Types.{Result, ok, fault, panic, diverged, ◌>>=◌}

unfoldable pub find_int_slice : List ℕ → ℕ → Bool
find_int_slice [] val = false
find_int_slice (item ∷ slice) val = if item == val then true else find_int_slice slice val

unfoldable pub max_int : ℕ → ℕ → ℕ
max_int a b = if ltb a b then b else a

-- The loop of `VMax`.
unfoldable pub v_max_from : ℕ → List ℕ → ℕ
v_max_from max [] = max
v_max_from max (i ∷ v) = v_max_from (if ltb max i then i else max) v

-- `VMax`, which panics on no numbers.
unfoldable pub v_max : List ℕ → Result ℕ
v_max [] = fault panic
v_max (i ∷ v) = ok (v_max_from i (i ∷ v))

-- The inner loop of `RandomPick`: `draws` are the numbers that the generator gives, each below n. It does
-- not end while each of them was picked before.
unfoldable pub pick_new : List ℕ → List ℕ → Result (ℕ × List ℕ)
pick_new picked [] = fault diverged
pick_new picked (id ∷ draws) =
    let later = pick_new picked draws in if find_int_slice picked id then later else ok (id, draws)

-- The outer loop.
unfoldable pub pick_more : ℕ → List ℕ → List ℕ → Result (List ℕ)
pick_more zero picked draws = ok picked
pick_more (suc f) picked draws = do
  (id, rest) ← pick_new picked draws
  pick_more f (picked ++ id ∷ []) rest

unfoldable pub random_pick : ℕ → List ℕ → Result (List ℕ)
random_pick f draws = pick_more f [] draws

-- What is left of the loop of `Retry` when `left` more attempts are allowed after this one, which is the
-- i-th: whether one succeeded, and how many were made.
unfoldable pub retry_from : (ℕ → Bool) → ℕ → ℕ → Bool × ℕ
retry_from f i zero = (f i, i + 1)
retry_from f i (suc left) =
    let later = retry_from f (i + 1) left in if f i then (true, i + 1) else later

-- `Retry`, where `f i` is whether the i-th call returns nil.
unfoldable pub retry : (ℕ → Bool) → ℕ → Bool × ℕ
retry f attempts = retry_from f 0 (attempts - 1)
