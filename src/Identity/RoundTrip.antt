-- ===== src/Identity/RoundTrip.antt =====
-- `NewNodeID` and `Node` of identity/identity.go, one after the other.
use multipipelinehs.Prelude.{
  ℕ, zero, suc, ◌+◌, ◌-◌, ◌*◌, ◌/◌, ◌%◌, ◌<◌, ◌≡◌, ◌≢◌, refl, ap, ◌∙◌, some, List, [], ◌∷◌, ◌++◌,
  arith, ltb, inl, inr, Bool-cases,
}
use Prim.Native.Nat.{◌^◌}
use multipipelinehs.Identity.{itoa, itoa_fuel, new_node_id, parse_digits, parse_uint, node}

-- Reading on after some digits.
parse_digits-append :
    (acc : ℕ) (xs ys : List ℕ) (v : ℕ)
    → parse_digits acc xs ≡ some v
    → parse_digits acc (xs ++ ys) ≡ parse_digits v ys
unfolding parse_digits
parse_digits-append acc [] ys v h = ground arith
parse_digits-append acc (c ∷ cs) ys v h =
    ground (arith, parse_digits-append (10 * acc + (c - b'0')) cs ys v)

parse_digit : (acc d : ℕ) → d < 10 → parse_digits acc ((b'0' + d) ∷ []) ≡ some (10 * acc + d)
unfolding parse_digits
parse_digit acc d h = ground arith

parse-itoa_fuel : (fuel n : ℕ) → n < fuel → parse_digits 0 (itoa_fuel fuel n) ≡ some n
unfolding itoa_fuel
parse-itoa_fuel zero n h = elim h [ ]
parse-itoa_fuel (suc fuel) n h = elim (Bool-cases (ltb n 10)) [
  | inl small ↦ rw small (parse_digit 0 n (ground arith) ∙ ap some (omega arith))
  | inr large ↦ rw large (
      parse_digits-append 0 (itoa_fuel fuel (n / 10)) ((b'0' + n % 10) ∷ []) (n / 10)
        (parse-itoa_fuel fuel (n / 10) (ground arith))
      ∙ parse_digit (n / 10) (n % 10) (omega arith)
      ∙ ap some (omega arith))
]

parse_uint-digits :
    (xs : List ℕ) (n : ℕ)
    → xs ≢ []
    → parse_digits 0 xs ≡ some n
    → n < 2 ^ 64
    → parse_uint xs ≡ some n
unfolding parse_uint
parse_uint-digits [] n ne h lt = absurd (ne refl)
parse_uint-digits (c ∷ cs) n ne h lt = ground arith

append-ne-nil : (xs : List ℕ) (c : ℕ) → xs ++ c ∷ [] ≢ []
append-ne-nil [] c e = ground arith
append-ne-nil (x ∷ xs) c e = ground arith

itoa-ne-nil : (n : ℕ) → itoa_fuel (suc n) n ≢ []
unfolding itoa_fuel
itoa-ne-nil n e = ground (arith, append-ne-nil (itoa_fuel n (n / 10)) (b'0' + n % 10))

pub node-itoa : (n : ℕ) → n < 2 ^ 64 → node (itoa n) ≡ n
unfolding node itoa
node-itoa n lt = ground (
  arith,
  parse_uint-digits (itoa_fuel (suc n) n) n (itoa-ne-nil n)
      (parse-itoa_fuel (suc n) n (omega arith)) (omega arith),
)

pub node-new_node_id : (n : ℕ) → n < 2 ^ 63 → node (new_node_id n) ≡ n
unfolding new_node_id
node-new_node_id n lt = ground (arith, node-itoa n (omega arith))

-- The id that is made of a number below 2 ^ 63, and the id that is made of its negative, both have
-- that number.
pub node-new_node_id_abs :
    (n : ℕ)
    → n < 2 ^ 63
    → (node (new_node_id n) ≡ n) × (node (new_node_id ((2 ^ 64 - n) % 2 ^ 64)) ≡ n)
unfolding new_node_id
node-new_node_id_abs n lt = (node-new_node_id n lt, ground (arith, node-itoa n (omega arith)))
