-- ===== src/Benchmark.antt =====
-- benchmark/operation.go and benchmark/history.go: what a client recorded, and its reading from a file;
-- the keys of benchmark/benchmark.go. A time is an `int64`; a value is text, or nil.
pub mod Shards
pub mod Limiter
use multipipelinehs.Prelude.{
  ℕ, suc, ◌+◌, ◌-◌, ◌%◌, Bool, true, false, not, ◌&&◌, ◌||◌, Option, none, some, List, [], ◌∷◌,
  ◌++◌, ltb, ◌==◌, if◌then◌else◌, get, put, ℕ_discrete,
}
use Prim.Native.Nat.{◌^◌}
use multipipelinehs.Prelude.Int.{ℤ, pos, negsuc}
use multipipelinehs.Config.{Text}

pub record Operation : Type 0 where
  pub input : Option Text
  pub output : Option Text
  pub start : ℤ
  pub end_time : ℤ

unfoldable pub text_discrete : Discrete (Option Text)
text_discrete = hlevel ℕ_discrete

abbrev pub same_text : Option Text → Option Text → Bool
same_text a b = elim (text_discrete a b) [ yes _ ↦ true | no _ ↦ false ]

-- `<` and `==` of two `int64`s.
unfoldable pub lt_int : ℤ → ℤ → Bool
lt_int (pos m) (pos n) = ltb m n
lt_int (pos m) (negsuc n) = false
lt_int (negsuc m) (pos n) = true
lt_int (negsuc m) (negsuc n) = ltb n m

unfoldable pub eq_int : ℤ → ℤ → Bool
eq_int (pos m) (pos n) = m == n
eq_int (pos m) (negsuc n) = false
eq_int (negsuc m) (pos n) = false
eq_int (negsuc m) (negsuc n) = m == n

unfoldable pub happen_before : Operation → Operation → Bool
happen_before a b = lt_int a.end_time b.start

unfoldable pub concurrent : Operation → Operation → Bool
unfolding happen_before
concurrent a b = not (happen_before a b) && not (happen_before b a)

unfoldable pub equal_operations : Operation → Operation → Bool
unfolding text_discrete
equal_operations a b =
    same_text a.input b.input
    && same_text a.output b.output
    && eq_int a.start b.start
    && eq_int a.end_time b.end_time

pub record History : Type 0 where
  pub shard : List (ℤ × List Operation)
  pub operations : List Operation

unfoldable pub new_history : History
new_history = record { shard = []; operations = [] }

unfoldable pub int_discrete : Discrete ℤ
int_discrete = hlevel ℕ_discrete

unfoldable pub shard_of : History → ℤ → List Operation
shard_of h key = elim (get int_discrete key h.shard) [ none ↦ [] | some os ↦ os ]

-- `AddOperation`, and `Add`, which makes the operation.
unfoldable pub add_operation : History → ℤ → Operation → History
unfolding shard_of
add_operation h key o = record h {
  shard = put int_discrete key (shard_of h key ++ o ∷ []) h.shard;
  operations = h.operations ++ o ∷ [];
}

unfoldable pub add_to_history : History → ℤ → Option Text → Option Text → ℤ → ℤ → History
unfolding add_operation
add_to_history h key input output start end_time =
    add_operation h key
      (record { input = input; output = output; start = start; end_time = end_time })

-- How `ReadFile` ends: it has read all records, it returns an error, or it ends the program. What was
-- read before stays.
pub data Reading : Type 0 where
  complete failed fatal : History → Reading

-- `null` and the empty text stand for nil.
unfoldable pub field_value : Text → Option Text
unfolding text_discrete
field_value t =
    if same_text (some t) (some (b'n' ∷ b'u' ∷ b'l' ∷ b'l' ∷ [])) || same_text (some t) (some [])
    then none
    else some t

module _ (atoi : Text → Option ℤ) (parse_int : Text → Option ℤ) where
  -- The numbers of a record: the key, which is an error, and the times, which are fatal.
  unfoldable pub read_times : History → ℤ → Option Text → Option Text → Text → Text → Reading
  unfolding add_operation
  read_times h key input output start end_time = elim (parse_int start) [
    | none ↦ fatal h
    | some s ↦ elim (parse_int end_time) [
      | none ↦ fatal h
      | some e ↦
          complete (
            add_operation h key
              (record { input = input; output = output; start = s; end_time = e }))
    ]
  ]

  unfoldable pub read_record : History → List Text → Reading
  unfolding field_value
  read_record h (id ∷ input ∷ output ∷ start ∷ end_time ∷ _) = elim (atoi id) [
    | none ↦ failed h
    | some key ↦ read_times h key (field_value input) (field_value output) start end_time
  ]
  read_record h _ = failed h

  -- The loop of `ReadFile` over the records of the file; `none` is a record that the CSV reader refuses.
  unfoldable pub read_records : History → List (Option (List Text)) → Reading
  read_records h [] = complete h
  read_records h (none ∷ rest) = failed h
  read_records h (some r ∷ rest) = elim (read_record h r) [
    | complete t ↦ read_records t rest
    | failed t ↦ failed t
    | fatal t ↦ fatal t
  ]

-- The key of `next` for uniform keys, and the counter after it, an unsigned number of 64 bits.
unfoldable pub next_key : ℕ → ℕ → ℕ → ℕ × ℕ
next_key n byz_no count = (count, (count + n + 2 ^ 64 - byz_no % 2 ^ 64) % 2 ^ 64)
