-- ===== src/Forest/Verify.antt =====
-- `VerifyVertex` of blockchain/leveled_forrest.go and its two helpers. `true` stands for the nil error.
use multipipelinehs.Prelude.{
  Bool, true, false, not, ◌&&◌, none, some, ltb, leb, ◌==◌, if◌then◌else◌,
}
use multipipelinehs.Types.{Block, Result, ok, ◌>>=◌}
use multipipelinehs.Forest.{Forest, get_vertex, parent}

-- What `isEquivalentToStoredVertex` answers: not stored, stored, or the error of a conflict.
pub data Equivalence : Type 0 where
  unknown equivalent conflicting : Equivalence

unfoldable pub is_equivalent_to_stored_vertex : Forest → Block → Result Equivalence
unfolding get_vertex parent
is_equivalent_to_stored_vertex f b = elim (get_vertex f b.id) [
  | none ↦ ok unknown
  | some stored ↦
      if not (b.seq == stored.seq)
      then ok conflicting
      else if leb b.seq f.lowest_level
      then ok equivalent
      else do
        (new_id, new_seq) ← parent b
        (stored_id, stored_seq) ← parent stored
        ok (if new_id == stored_id && new_seq == stored_seq then equivalent else conflicting)
]

unfoldable pub verify_parent : Forest → Block → Result Bool
unfolding get_vertex parent
verify_parent f b = do
  (parent_id, parent_seq) ← parent b
  if not (ltb parent_seq b.seq)
      then ok false
      else elim (get_vertex f parent_id) [ none ↦ ok true | some p ↦ ok (p.seq == parent_seq) ]

unfoldable pub verify_vertex : Forest → Block → Result Bool
unfolding is_equivalent_to_stored_vertex verify_parent
verify_vertex f b = if ltb b.seq f.lowest_level then ok true else do
  e ← is_equivalent_to_stored_vertex f b
  elim e [
    | conflicting ↦ ok false
    | equivalent ↦ ok true
    | unknown ↦ if b.seq == f.lowest_level then ok true else verify_parent f b
  ]
