-- ===== src/Identity.antt =====
-- identity/identity.go: node ids as decimal strings.
pub mod RoundTrip
use multipipelinehs.Prelude.{
  ℕ, zero, suc, ◌+◌, ◌-◌, ◌*◌, ◌/◌, ◌%◌, Bool, true, false, ◌&&◌, Option, none, some, List, [], ◌∷◌,
  ◌++◌, ltb, leb, ◌==◌, if◌then◌else◌,
}
use Prim.Native.Nat.{◌^◌}
use multipipelinehs.Types.{NodeId}

-- `strconv.Itoa` of a number that is not negative, with more rounds than it has digits.
unfoldable pub itoa_fuel : ℕ → ℕ → List ℕ
itoa_fuel zero n = []
itoa_fuel (suc fuel) n =
    let front = itoa_fuel fuel (n / 10) in
    if ltb n 10 then (b'0' + n) ∷ [] else front ++ (b'0' + n % 10) ∷ []

unfoldable pub itoa : ℕ → List ℕ
unfolding itoa_fuel
itoa n = itoa_fuel (suc n) n

-- `NewNodeID` of the 64 bits of an `int`, so that a number from 2 ^ 63 on stands for a negative one. The
-- negation of the least `int` is that number itself, which is written with its sign.
unfoldable pub new_node_id : ℕ → NodeId
unfolding itoa
new_node_id node =
    if ltb node (2 ^ 63)
    then itoa node
    else if node == 2 ^ 63
    then b'-' ∷ itoa node
    else itoa (2 ^ 64 - node)

abbrev pub is_digit : ℕ → Bool
is_digit c = leb b'0' c && leb c b'9'

-- The digits of `strconv.ParseUint`; `none` is its syntax error.
unfoldable pub parse_digits : ℕ → List ℕ → Option ℕ
parse_digits acc [] = some acc
parse_digits acc (c ∷ cs) =
    let rest = parse_digits (10 * acc + (c - b'0')) cs in if is_digit c then rest else none

-- `strconv.ParseUint(s, 10, 64)`; `none` is either error.
unfoldable pub parse_uint : List ℕ → Option ℕ
unfolding parse_digits
parse_uint [] = none
parse_uint (c ∷ cs) = elim (parse_digits 0 (c ∷ cs)) [
  | none ↦ none
  | some n ↦ if ltb n (2 ^ 64) then some n else none
]

-- `Node`: the 64 bits of the `int`, so a number from 2 ^ 63 on stands for a negative one.
unfoldable pub node : NodeId → ℕ
unfolding parse_uint
node id = elim (parse_uint id) [ none ↦ 0 | some n ↦ n ]
