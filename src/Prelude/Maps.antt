-- ===== src/Prelude/Maps.antt =====
-- Go maps as association lists: a key is present at most once, `put` overwrites in place and adds
-- new keys at the end, `delete` drops the key, `len` counts the entries.
use Prim.Native.Nat.{suc}
use mathlib.Core.Path.{◌≡◌, refl, subst}
use mathlib.Core.Logic.{◌≢◌, ite, if_pos, if_neg}
use mathlib.Core.List.{List, [], ◌∷◌}
use mathlib.Core.Option.{Option, none, some}
use native.Mathlib.Omega.{arith}
use multipipelinehs.Prelude.Lists.{length, All}

module _ {ℓ} {K V : Type ℓ} (dec : Discrete K) where
  unfoldable pub get : K → List (K × V) → Option V
  get k [] = none
  get k ((j, v) ∷ m) = ite (dec j k) (some v) (get k m)

  unfoldable pub put : K → V → List (K × V) → List (K × V)
  put k v [] = (k, v) ∷ []
  put k v ((j, w) ∷ m) = ite (dec j k) ((k, v) ∷ m) ((j, w) ∷ put k v m)

  unfoldable pub delete : K → List (K × V) → List (K × V)
  delete k [] = []
  delete k ((j, w) ∷ m) = ite (dec j k) (delete k m) ((j, w) ∷ delete k m)

  pub get-put :
      (k q : K) (v : V) (m : List (K × V)) → get q (put k v m) ≡ ite (dec k q) (some v) (get q m)
  unfolding get put
  get-put k q v [] = refl
  get-put k q v ((j, w) ∷ m) = ground (arith, get-put k q v m)

  pub get-delete : (k q : K) (m : List (K × V)) → get q (delete k m) ≡ ite (dec k q) none (get q m)
  unfolding get delete
  get-delete k q [] = ground arith
  get-delete k q ((j, w) ∷ m) = ground (arith, get-delete k q m)

  pub get-put_self : (k : K) (v : V) (m : List (K × V)) → get k (put k v m) ≡ some v
  get-put_self k v m = ground (arith, get-put k k v m)

  pub get-put_ne : (k q : K) (v : V) (m : List (K × V)) → k ≢ q → get q (put k v m) ≡ get q m
  get-put_ne k q v m h = ground (arith, get-put k q v m)

  -- Writing a key adds one entry exactly when the key is new.
  pub length-put :
      (k : K) (v : V) (m : List (K × V))
      → length (put k v m) ≡ elim (get k m) [ none ↦ suc (length m) | some _ ↦ length m ]
  unfolding get put
  length-put k v [] = refl
  length-put k v ((j, w) ∷ m) = ground (arith, length-put k v m)

  -- A property of all entries, under the operations.
  module _ {μ} (P : K × V → Type μ) where
    pub All-put : (k : K) (v : V) (m : List (K × V)) → P (k, v) → All P m → All P (put k v m)
    unfolding put
    All-put k v [] p h = (p, tt)
    All-put k v ((j, w) ∷ m) p h = elim (dec j k) [
      | yes e ↦ rw (if_pos _ e) (p, h.1)
      | no n ↦ rw (if_neg _ n) (h.0, All-put k v m p h.1)
    ]

    pub All-delete : (k : K) (m : List (K × V)) → All P m → All P (delete k m)
    unfolding delete
    All-delete k [] h = tt
    All-delete k ((j, w) ∷ m) h = elim (dec j k) [
      | yes e ↦ rw (if_pos _ e) (All-delete k m h.1)
      | no n ↦ rw (if_neg _ n) (h.0, All-delete k m h.1)
    ]

    pub All-get : (k : K) (m : List (K × V)) (v : V) → get k m ≡ some v → All P m → P (k, v)
    unfolding get
    All-get k [] v e h = absurd (cc)
    All-get k ((j, w) ∷ m) v e h = elim (dec j k) [
      | yes same ↦
          let e' : w ≡ v = ground arith in
          subst (λ (t : K). P (t, v)) same (subst (λ (t : V). P (j, t)) e' h.0)
      | no n ↦ All-get k m v (ground arith) h.1
    ]
