-- ===== src/MHotStuff/Pending.antt =====
-- How many blocks `ProcessBlock` may still take from its buffer.
use multipipelinehs.Prelude.{
  ℕ, suc, ◌+◌, ◌≤◌, ◌<◌, ◌≡◌, some, List, [], ◌∷◌, arith, leb, if◌then◌else◌, get, ℕ_discrete,
  length,
}
use multipipelinehs.Types.{View, Block}

-- The blocks buffered at a view or later ones.
abbrev pub pending : View → List (View × Block) → ℕ
pending v [] = 0
pending v ((k, b) ∷ bs) = let rest = pending v bs in if leb v k then suc rest else rest

pub pending-le-length : (v : View) (bs : List (View × Block)) → pending v bs ≤ length bs
pending-le-length v [] = omega arith
pending-le-length v ((k, b) ∷ bs) = ground (arith, pending-le-length v bs)

pending_mono : (v : View) (bs : List (View × Block)) → pending (v + 1) bs ≤ pending v bs
pending_mono v [] = omega arith
pending_mono v ((k, b) ∷ bs) = ground (arith, pending_mono v bs)

pub pending-lt :
    (v : View) (bs : List (View × Block)) (b : Block)
    → get ℕ_discrete v bs ≡ some b
    → pending (v + 1) bs < pending v bs
unfolding get
pending-lt v [] b e = absurd (cc)
pending-lt v ((k, c) ∷ bs) b e = ground (arith, pending-lt v bs b, pending_mono v bs)
