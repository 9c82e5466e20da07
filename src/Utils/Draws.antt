-- ===== src/Utils/Draws.antt =====
-- What `RandomPick` of utils/utils.go picks.
use multipipelinehs.Prelude.{
  ℕ, zero, suc, ◌+◌, ◌≤◌, ◌<◌, ◌≡◌, refl, sym, ap, ◌∙◌, inl, inr, true, false, List, [], ◌∷◌, ◌++◌,
  arith, Bool-cases, ℕ_discrete, length, length-append, All, All-append, All-mono,
}
use multipipelinehs.Prelude.Count.{elem, IsDistinct, length-le_of_Within, elem-append}
use multipipelinehs.Types.{ok, Yields, Yields-bind, Yields-mono, Yields-ok}
use multipipelinehs.Utils.{find_int_slice, pick_new, pick_more, random_pick}

pub find_int_slice-elem : (xs : List ℕ) (v : ℕ) → find_int_slice xs v ≡ elem ℕ_discrete v xs
unfolding find_int_slice elem
find_int_slice-elem [] v = refl
find_int_slice-elem (x ∷ xs) v = ground (arith, find_int_slice-elem xs v)

-- Distinct numbers, each below n.
pub record Picked (n : ℕ) (xs : List ℕ) : Type 0 where
  pub distinct : IsDistinct ℕ_discrete xs
  pub below : All (λ x. x < n) xs

IsDistinct-append :
    (xs : List ℕ) (x : ℕ)
    → IsDistinct ℕ_discrete xs
    → elem ℕ_discrete x xs ≡ false
    → IsDistinct ℕ_discrete (xs ++ x ∷ [])
unfolding elem
IsDistinct-append [] x d fresh = (refl, tt)
IsDistinct-append (y ∷ xs) x d fresh = (
  ground (arith, elem-append ℕ_discrete y xs (x ∷ [])),
  IsDistinct-append xs x d.1 (ground arith),
)

module _ (n : ℕ) where
  pick_new-Picked :
      (picked draws : List ℕ)
      → All (λ x. x < n) draws
      → Yields
          (λ r. (r.0 < n) × (elem ℕ_discrete r.0 picked ≡ false) × All (λ x. x < n) r.1)
          (pick_new picked draws)
  unfolding pick_new
  pick_new-Picked picked [] h = tt
  pick_new-Picked picked (id ∷ draws) h = elim (Bool-cases (find_int_slice picked id)) [
    | inl old ↦ rw old (pick_new-Picked picked draws h.1)
    | inr fresh ↦ rw fresh (h.0, sym (find_int_slice-elem picked id) ∙ fresh, h.1)
  ]

  pick_more-Picked :
      (f : ℕ) (picked draws : List ℕ)
      → Picked n picked
      → All (λ x. x < n) draws
      → Yields (λ r. Picked n r × (length r ≡ length picked + f)) (pick_more f picked draws)
  unfolding pick_more
  pick_more-Picked zero picked draws p h = (p, omega arith)
  pick_more-Picked (suc f) picked draws p h =
      Yields-bind _ _ (pick_new picked draws) _ (pick_new-Picked picked draws h)
        (λ (id, rest) (small, fresh, later).
          let p' : Picked n (picked ++ id ∷ []) = record {
            distinct = IsDistinct-append picked id p.distinct fresh;
            below = All-append (λ x. x < n) picked (id ∷ []) p.below (small, tt);
          } in
          Yields-mono (λ r. Picked n r × (length r ≡ length (picked ++ id ∷ []) + f)) _
            (pick_more f (picked ++ id ∷ []) rest)
            (λ r (good, long). (good, omega (arith, length-append picked (id ∷ []))))
            (pick_more-Picked f (picked ++ id ∷ []) rest p' later))

  -- RandomPick, if it returns, picks as many numbers as asked, which differ and are below the bound of
  -- the draws.
  pub random_pick-Picked :
      (f : ℕ) (draws r : List ℕ)
      → All (λ x. x < n) draws
      → random_pick f draws ≡ ok r
      → Picked n r × (length r ≡ f)
  unfolding random_pick
  random_pick-Picked f draws r h e =
      let (good, long) =
        Yields-ok (λ r. Picked n r × (length r ≡ 0 + f)) (pick_more f [] draws) r
          (pick_more-Picked f [] draws (record { distinct = tt; below = tt }) h) e in
      (good, omega arith)

-- The numbers below n.
abbrev range : ℕ → List ℕ
range zero = []
range (suc n) = n ∷ range n

length-range : (n : ℕ) → length (range n) ≡ n
length-range zero = refl
length-range (suc n) = ap suc (length-range n)

elem-range : (n x : ℕ) → x < n → elem ℕ_discrete x (range n) ≡ true
unfolding elem
elem-range zero x h = absurd (omega arith)
elem-range (suc n) x h = elim (ℕ_discrete n x) [
  | yes e ↦ ground arith
  | no other ↦ ground (arith, elem-range n x (omega arith))
]

Picked-length : (n : ℕ) (xs : List ℕ) → Picked n xs → length xs ≤ n
Picked-length n xs h = omega (
  arith,
  length-range n,
  length-le_of_Within ℕ_discrete xs (range n) h.distinct
      (All-mono (λ x. x < n) (λ x. elem ℕ_discrete x (range n) ≡ true) xs (elem-range n) h.below),
)

-- Asked for more numbers than there are, RandomPick never returns.
pub random_pick-stuck :
    (n f : ℕ) (draws r : List ℕ) → n < f → All (λ x. x < n) draws → ¬ (random_pick f draws ≡ ok r)
random_pick-stuck n f draws r many h e =
    let (good, long) = random_pick-Picked n f draws r h e in omega (arith, Picked-length n r good)
