-- ===== src/Prelude/Count.antt =====
-- Lists without repetition, membership as a Boolean, and counting in them.
use mathlib.Core.Path.{◌≡◌, refl}
use mathlib.Core.Logic.{◌≢◌}
use mathlib.Core.List.{List, [], ◌∷◌, ◌++◌, map}
use mathlib.Core.Bool.{Bool, true, false, false≢true}
use Prim.Native.Nat.{suc, ◌+◌, ◌≤◌}
use native.Mathlib.Omega.{arith}
use multipipelinehs.Prelude.Lists.{length, length-append, All}
use multipipelinehs.Prelude.Maps.{put}
use multipipelinehs.Prelude.Tests.{Bool-cases, if◌then◌else◌}
use mathlib.Core.Logic.{inl, inr}

module _ {ℓ} {K : Type ℓ} (dec : Discrete K) where
  unfoldable pub elem : K → List K → Bool
  elem k [] = false
  elem k (x ∷ xs) = elim (dec x k) [ yes _ ↦ true | no _ ↦ elem k xs ]

  abbrev pub IsDistinct : List K → Type 0
  IsDistinct [] = Unit
  IsDistinct (x ∷ xs) = (elem x xs ≡ false) × IsDistinct xs

  abbrev pub Within : List K → List K → Type 0
  Within zs = All (λ x. elem x zs ≡ true)

  -- The list without the first occurrence of a key.
  erase : K → List K → List K
  erase k [] = []
  erase k (x ∷ xs) = elim (dec x k) [ yes _ ↦ xs | no _ ↦ x ∷ erase k xs ]

  -- The members of the second list that stand in the first, in order.
  unfoldable pub common : List K → List K → List K
  common ys [] = []
  common ys (x ∷ xs) = let r = common ys xs in if elem x ys then x ∷ r else r

  unfoldable pub rest : List K → List K → List K
  rest ys [] = []
  rest ys (x ∷ xs) = let r = rest ys xs in if elem x ys then r else x ∷ r

  length-erase : (k : K) (zs : List K) → elem k zs ≡ true → suc (length (erase k zs)) ≡ length zs
  unfolding elem erase
  length-erase k [] h = absurd (false≢true h)
  length-erase k (z ∷ zs) h = ground (arith, length-erase k zs)

  elem-erase : (k q : K) (zs : List K) → k ≢ q → elem q zs ≡ true → elem q (erase k zs) ≡ true
  unfolding elem erase
  elem-erase k q [] n h = h
  elem-erase k q (z ∷ zs) n h = ground (arith, elem-erase k q zs n)

  Within-erase :
      (k : K) (xs zs : List K) → elem k xs ≡ false → Within zs xs → Within (erase k zs) xs
  unfolding elem
  Within-erase k [] zs n w = tt
  Within-erase k (x ∷ xs) zs n w =
      (elem-erase k x zs (λ e. ground arith) w.0, Within-erase k xs zs (ground arith) w.1)

  -- Distinct members of a list are no more than the list.
  pub length-le_of_Within : (xs zs : List K) → IsDistinct xs → Within zs xs → length xs ≤ length zs
  length-le_of_Within [] zs d w = omega arith
  length-le_of_Within (x ∷ xs) zs d w = omega (
    arith,
    length-erase x zs w.0,
    length-le_of_Within xs (erase x zs) d.1 (Within-erase x xs zs d.0 w.1),
  )

  elem-rest : (ys xs : List K) (k : K) → elem k xs ≡ false → elem k (rest ys xs) ≡ false
  unfolding elem rest
  elem-rest ys [] k h = refl
  elem-rest ys (x ∷ xs) k h = ground (arith, elem-rest ys xs k)

  pub length-common-rest :
      (ys xs : List K) → length (common ys xs) + length (rest ys xs) ≡ length xs
  unfolding common rest
  length-common-rest ys [] = refl
  length-common-rest ys (x ∷ xs) = ground (arith, length-common-rest ys xs)

  pub elem-append :
      (k : K) (xs ys : List K) → elem k (xs ++ ys) ≡ (if elem k xs then true else elem k ys)
  unfolding elem
  elem-append k [] ys = refl
  elem-append k (x ∷ xs) ys = ground (arith, elem-append k xs ys)

  rest-IsDistinct : (ys xs : List K) → IsDistinct ys → IsDistinct xs → IsDistinct (rest ys xs ++ ys)
  unfolding rest
  rest-IsDistinct ys [] dy dx = dy
  rest-IsDistinct ys (x ∷ xs) dy dx = elim (Bool-cases (elem x ys)) [
    | inl e ↦ rw e (rest-IsDistinct ys xs dy dx.1)
    | inr e ↦ rw e (
      rw (elem-append x (rest ys xs) ys, elem-rest ys xs x dx.0) e,
      rest-IsDistinct ys xs dy dx.1,
    )
  ]

  rest-Within : (ys xs zs : List K) → Within zs ys → Within zs xs → Within zs (rest ys xs ++ ys)
  unfolding rest
  rest-Within ys [] zs wy wx = wy
  rest-Within ys (x ∷ xs) zs wy wx = elim (Bool-cases (elem x ys)) [
    | inl e ↦ rw e (rest-Within ys xs zs wy wx.1)
    | inr e ↦ rw e (wx.0, rest-Within ys xs zs wy wx.1)
  ]

  -- Two sets inside a third overlap at least by what their sizes exceed it.
  pub common_bound :
      (xs ys zs : List K)
      → IsDistinct xs
      → IsDistinct ys
      → Within zs xs
      → Within zs ys
      → length xs + length ys ≤ length zs + length (common ys xs)
  common_bound xs ys zs dx dy wx wy = omega (
    arith,
    length-common-rest ys xs,
    length-append (rest ys xs) ys,
    length-le_of_Within (rest ys xs ++ ys) zs (rest-IsDistinct ys xs dy dx)
        (rest-Within ys xs zs wy wx),
  )

  Within-cons : (z : K) (zs xs : List K) → Within zs xs → Within (z ∷ zs) xs
  unfolding elem
  Within-cons z zs [] w = tt
  Within-cons z zs (x ∷ xs) w = (ground arith, Within-cons z zs xs w.1)

  pub elem_here : (x : K) (xs : List K) → elem x (x ∷ xs) ≡ true
  unfolding elem
  elem_here x xs = ground arith

  -- What is common to two lists is within both.
  pub common-Within : (ys xs : List K) → Within ys (common ys xs) × Within xs (common ys xs)
  unfolding common
  common-Within ys [] = (tt, tt)
  common-Within ys (x ∷ xs) =
      let (in_ys, in_xs) = common-Within ys xs in
      elim (Bool-cases (elem x ys)) [
        | inl e ↦ rw e ((e, in_ys), (elem_here x xs, Within-cons x xs (common ys xs) in_xs))
        | inr e ↦ rw e (in_ys, Within-cons x xs (common ys xs) in_xs)
      ]

  elem-common : (ys xs : List K) (k : K) → elem k xs ≡ false → elem k (common ys xs) ≡ false
  unfolding elem common
  elem-common ys [] k h = refl
  elem-common ys (x ∷ xs) k h = ground (arith, elem-common ys xs k)

  pub common-IsDistinct : (ys xs : List K) → IsDistinct xs → IsDistinct (common ys xs)
  unfolding common
  common-IsDistinct ys [] d = tt
  common-IsDistinct ys (x ∷ xs) d = elim (Bool-cases (elem x ys)) [
    | inl e ↦ rw e (elem-common ys xs x d.0, common-IsDistinct ys xs d.1)
    | inr e ↦ rw e (common-IsDistinct ys xs d.1)
  ]

-- The keys of a map, and that a write keeps them distinct.
module _ {V : Type 0} {K : Type 0} (dec : Discrete K) where
  abbrev pub keys : List (K × V) → List K
  keys = map (λ e. e.0)

  pub elem-keys-put :
      (k q : K) (v : V) (m : List (K × V))
      → elem dec q (keys (put dec k v m))
        ≡ (if elem dec q (keys m) then true else elem dec q (k ∷ []))
  unfolding elem put
  elem-keys-put k q v [] = refl
  elem-keys-put k q v ((j, w) ∷ m) = ground (arith, elem-keys-put k q v m)

  pub keys-put-IsDistinct :
      (k : K) (v : V) (m : List (K × V))
      → IsDistinct dec (keys m)
      → IsDistinct dec (keys (put dec k v m))
  unfolding elem put
  keys-put-IsDistinct k v [] d = (refl, tt)
  keys-put-IsDistinct k v ((j, w) ∷ m) d = elim (dec j k) [
    | yes e ↦ ground arith
    | no n ↦ ground (arith, elem-keys-put k j v m, keys-put-IsDistinct k v m d.1)
  ]
