-- ===== src/Client/Consensus.antt =====
-- What the comparison of histories of client.go tells.
use multipipelinehs.Prelude.{
  ℕ, zero, suc, ◌+◌, ◌≤◌, ◌<◌, ◌≡◌, ◌≢◌, ◌↔◌, refl, sym, subst, inl, inr, Bool, true, Option, none,
  some, List, [], ◌∷◌, arith, ltb, Option-cases, if◌then◌else◌, length, get_elem?, put, length-put,
  All, ℕ_discrete, dec_lt,
}
use multipipelinehs.Types.{NodeId, node_id_discrete}
use multipipelinehs.Config.{Text}
use multipipelinehs.Client.{Histories, longest, values_at, agree_from, consensus}

-- No value, or the given one.
abbrev pub Is : Text → Option Text → Type 0
Is v none = Unit
Is v (some w) = w ≡ v

-- The i-th value of a history, if it has one, is the given one.
abbrev pub Has : ℕ → Text → List Text → Type 0
Has i v h = Is v (get_elem? h i)

-- All histories that are long enough have the same i-th value.
abbrev pub SameAt : ℕ → Histories → Type 0
SameAt i hs = (v : Text) × All (λ h. Has i v h.1) hs

Is-elim : (v w : Text) (o : Option Text) → o ≡ some w → Is v o → w ≡ v
Is-elim v w none e h = absurd (cc)
Is-elim v w (some u) e h = ground arith

Is-some : (v w : Text) (o : Option Text) → o ≡ some w → w ≡ v → Is v o
Is-some v w none e same = tt
Is-some v w (some u) e same = ground arith

Is-none : (v : Text) (o : Option Text) → o ≡ none → Is v o
Is-none v none e = tt
Is-none v (some u) e = absurd (cc)

put_same : (v : Text) → put node_id_discrete v true ((v, true) ∷ []) ≡ (v, true) ∷ []
unfolding put
put_same v = ground arith

put_other : (v w : Text) → w ≢ v → 1 < length (put node_id_discrete w true ((v, true) ∷ []))
unfolding put
put_other v w other = ground arith

put-grows :
    (w : Text) (set : List (Text × Bool)) → length set ≤ length (put node_id_discrete w true set)
put-grows w set = ground (arith, length-put node_id_discrete w true set)

values_at-grows :
    (i : ℕ) (hs : Histories) (set : List (Text × Bool)) → length set ≤ length (values_at i hs set)
unfolding values_at
values_at-grows i [] set = omega arith
values_at-grows i (x ∷ hs) set = elim (Option-cases (get_elem? x.1 i)) [
  | inl short ↦ rw short (values_at-grows i hs set)
  | inr (w, e) ↦
      rw e (omega (arith, put-grows w set, values_at-grows i hs (put node_id_discrete w true set)))
]

-- From one value on, the set stays one exactly if all others are the same.
values_at-one :
    (i : ℕ) (v : Text) (hs : Histories)
    → All (λ h. Has i v h.1) hs
    → values_at i hs ((v, true) ∷ []) ≡ (v, true) ∷ []
unfolding values_at
values_at-one i v [] h = refl
values_at-one i v (x ∷ hs) h = elim (Option-cases (get_elem? x.1 i)) [
  | inl short ↦ rw short (values_at-one i v hs h.1)
  | inr (w, e) ↦
      let same : w ≡ v = Is-elim v w (get_elem? x.1 i) e h.0 in
      rw (e, same, put_same v) (values_at-one i v hs h.1)
]

one-values_at :
    (i : ℕ) (v : Text) (hs : Histories)
    → length (values_at i hs ((v, true) ∷ [])) ≤ 1
    → All (λ h. Has i v h.1) hs
unfolding values_at
one-values_at i v [] few = tt
one-values_at i v (x ∷ hs) few = elim (Option-cases (get_elem? x.1 i)) [
  | inl short ↦ (
    Is-none v (get_elem? x.1 i) short,
    one-values_at i v hs (
        subst
          (λ o.
            length (
              values_at i hs (elim o as (λ _. List (Text × Bool)) [
                | none ↦ (v, true) ∷ []
                | some w ↦ put node_id_discrete w true ((v, true) ∷ [])
              ]))
            ≤ 1)
          short few),
  )
  | inr (w, e) ↦ found (one-values_at i v hs) w e (
      subst
        (λ o.
          length (
            values_at i hs (elim o as (λ _. List (Text × Bool)) [
              | none ↦ (v, true) ∷ []
              | some w ↦ put node_id_discrete w true ((v, true) ∷ [])
            ]))
          ≤ 1)
        e few)
]
  where
    found :
        (length (values_at i hs ((v, true) ∷ [])) ≤ 1 → All (λ h. Has i v h.1) hs)
        → (w : Text) → get_elem? x.1 i ≡ some w
        → length (values_at i hs (put node_id_discrete w true ((v, true) ∷ []))) ≤ 1
        → Has i v x.1 × All (λ h. Has i v h.1) hs
    found again w e small = elim (node_id_discrete w v) [
      | no other ↦ absurd (
          omega (
            arith,
            put_other v w other,
            values_at-grows i hs (put node_id_discrete w true ((v, true) ∷ [])),
          ))
      | yes same ↦ (
        Is-some v w (get_elem? x.1 i) e same,
        again (
            subst (λ set. length (values_at i hs set) ≤ 1)
              (subst (λ u. put node_id_discrete u true ((v, true) ∷ []) ≡ (v, true) ∷ []) (sym same)
                (put_same v))
              small),
      )
    ]

-- What the i-th value of a history does to the set, which is empty before.
abbrev add_value : Option Text → List (Text × Bool)
add_value none = []
add_value (some w) = (w, true) ∷ []

values_at-step :
    (i : ℕ) (x : NodeId × List Text) (hs : Histories)
    → values_at i (x ∷ hs) [] ≡ values_at i hs (add_value (get_elem? x.1 i))
unfolding values_at put
values_at-step i x hs = ground arith

values_at-SameAt : (i : ℕ) (hs : Histories) → length (values_at i hs []) ≤ 1 → SameAt i hs
values_at-SameAt i [] few = ([], tt)
values_at-SameAt i (x ∷ hs) few = elim (Option-cases (get_elem? x.1 i)) [
  | inl short ↦
      let (v, all) = values_at-SameAt i hs (few_at none short) in
      (v, (Is-none v (get_elem? x.1 i) short, all))
  | inr (w, e) ↦
      (w, (Is-some w w (get_elem? x.1 i) e refl, one-values_at i w hs (few_at (some w) e)))
]
  where
    few_at : (o : Option Text) → get_elem? x.1 i ≡ o → length (values_at i hs (add_value o)) ≤ 1
    few_at o e =
        subst (λ o. length (values_at i hs (add_value o)) ≤ 1) e
          (subst (λ set. length set ≤ 1) (values_at-step i x hs) few)

SameAt-values_at : (i : ℕ) (hs : Histories) → SameAt i hs → length (values_at i hs []) ≤ 1
unfolding values_at
SameAt-values_at i [] h = omega arith
SameAt-values_at i (x ∷ hs) (v, h) = elim (Option-cases (get_elem? x.1 i)) [
  | inl short ↦ at none short (SameAt-values_at i hs (v, h.1))
  | inr (w, e) ↦
      let same = Is-elim v w (get_elem? x.1 i) e h.0 in
      at (some w) e (
        subst (λ u. length (values_at i hs ((u, true) ∷ [])) ≤ 1) (sym same)
          (subst (λ set. length set ≤ 1) (sym (values_at-one i v hs h.1)) (omega arith)))
]
  where
    at :
        (o : Option Text)
        → get_elem? x.1 i ≡ o
        → length (values_at i hs (add_value o)) ≤ 1
        → length (values_at i (x ∷ hs) []) ≤ 1
    at o e few =
        subst (λ set. length set ≤ 1) (sym (values_at-step i x hs))
          (subst (λ o. length (values_at i hs (add_value o)) ≤ 1) (sym e) few)

agree_from-SameAt :
    (left i j : ℕ) (hs : Histories)
    → agree_from left i hs ≡ true
    → i ≤ j
    → j < i + left
    → SameAt j hs
unfolding agree_from
agree_from-SameAt zero i j hs e low high = absurd (omega arith)
agree_from-SameAt (suc left) i j hs e low high = elim (ℕ_discrete i j) [
  | yes here ↦ subst (λ k. SameAt k hs) here (values_at-SameAt i hs (ground arith))
  | no later ↦ agree_from-SameAt left (i + 1) j hs (ground arith) (omega arith) (omega arith)
]

SameAt-agree_from :
    (left i : ℕ) (hs : Histories) → ((j : ℕ) → SameAt j hs) → agree_from left i hs ≡ true
unfolding agree_from
SameAt-agree_from zero i hs h = refl
SameAt-agree_from (suc left) i hs h =
    ground (arith, SameAt-values_at i hs (h i), SameAt-agree_from left (i + 1) hs h)

longest-le : (n : ℕ) (hs : Histories) → n ≤ longest n hs
unfolding longest
longest-le n [] = omega arith
longest-le n (x ∷ hs) = ground (arith, longest-le (length x.1) hs, longest-le n hs)

get_elem?-short : (h : List Text) (i : ℕ) → length h ≤ i → get_elem? h i ≡ none
get_elem?-short [] i short = refl
get_elem?-short (x ∷ h) zero short = absurd (omega arith)
get_elem?-short (x ∷ h) (suc i) short = get_elem?-short h i (omega arith)

-- Past the end of all histories there is no value.
past-All : (n j : ℕ) (hs : Histories) → longest n hs ≤ j → All (λ h. Has j [] h.1) hs
unfolding longest
past-All n j [] late = tt
past-All n j (x ∷ hs) late =
    let next = if ltb n (length x.1) then length x.1 else n in
    let bigger : length x.1 ≤ next = ground arith in
    (
      Is-none [] (get_elem? x.1 j)
          (get_elem?-short x.1 j (omega (arith, bigger, longest-le next hs))),
      past-All next j hs late,
    )

-- The comparison of histories succeeds exactly if for each place there is a value that every
-- history that reaches the place has there.
pub consensus_iff : (hs : Histories) → (consensus hs ≡ true) ↔ ((i : ℕ) → SameAt i hs)
unfolding consensus
consensus_iff hs = (
  λ e i. elim (dec_lt i (longest 0 hs)) [
    | yes lt ↦ agree_from-SameAt (longest 0 hs) 0 i hs e (omega arith) (omega arith)
    | no late ↦ ([], past-All 0 i hs (omega arith))
  ],
  SameAt-agree_from (longest 0 hs) 0 hs,
)
