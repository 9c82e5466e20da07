-- ===== src/Forest/Pruned.antt =====
-- `PruneUpToLevel` of blockchain/leveled_forrest.go and its specification by ids and levels.
use multipipelinehs.Prelude.{
  ℕ, zero, suc, ◌+◌, ◌-◌, ◌≤◌, ◌≡◌, refl, ◌∙◌, Bool, true, not, ◌&&◌, none, some, List, [], ◌∷◌,
  ◌++◌, arith, length, ltb, leb, inl, inr, Bool-cases, Option-cases, ℕ_discrete, get, delete,
  get-delete, get_elem?, if◌then◌else◌, ◌==◌, subst, length-append, ◌≢◌,
}
use multipipelinehs.Prelude.Count.{elem}
use multipipelinehs.Types.{Identifier, ok, ◌>>=◌, >>=-eq-ok, ok-injective}
use multipipelinehs.Forest.{Address, Container, Forest, at_level, delete_vertice}
use multipipelinehs.Forest.Prune.{
  Pruning, committed_levels, is_committed, prune_container, prune_containers, prune_level,
  prune_levels, prune_up_to_level, level_fuel,
}

-- The ids of some containers.
abbrev pub ids_of : List Container → List Address → List Identifier
ids_of cs [] = []
ids_of cs (a ∷ more) = elim (get_elem? cs a) [
  | none ↦ ids_of cs more
  | some c ↦ c.id ∷ ids_of cs more
]

-- The ids of the containers of `n` levels from one on.
abbrev pub ids_between : Forest → ℕ → ℕ → List Identifier
ids_between f l zero = []
ids_between f l (suc n) = ids_of f.containers (at_level f l) ++ ids_between f (l + 1) n

-- What is left when the containers of some ids have gone.
record Drops (s : Pruning) (ids : List Identifier) (t : Pruning) : Type 0 where
  containers : t.forest.containers ≡ s.forest.containers
  lowest : t.forest.lowest_level ≡ s.forest.lowest_level
  vertices :
      (q : Identifier)
      → get ℕ_discrete q t.forest.vertices
        ≡ (if elem ℕ_discrete q ids then none else get ℕ_discrete q s.forest.vertices)
  counted : t.pruned ≡ s.pruned + length ids

elem-append :
    (q : Identifier) (xs ys : List Identifier)
    → elem ℕ_discrete q (xs ++ ys) ≡ (if elem ℕ_discrete q xs then true else elem ℕ_discrete q ys)
unfolding elem
elem-append q [] ys = refl
elem-append q (x ∷ xs) ys = ground (arith, elem-append q xs ys)

Drops-refl : (s : Pruning) → Drops s [] s
unfolding elem
Drops-refl s = record {
  containers = refl;
  lowest = refl;
  vertices = λ q. refl;
  counted = omega arith;
}

Drops-trans :
    (s t u : Pruning) (xs ys : List Identifier) → Drops s xs t → Drops t ys u → Drops s (xs ++ ys) u
Drops-trans s t u xs ys a b = record {
  containers = b.containers ∙ a.containers;
  lowest = b.lowest ∙ a.lowest;
  vertices = λ q. ground (arith, a.vertices q, b.vertices q, elem-append q xs ys);
  counted = omega (arith, a.counted, b.counted, length-append xs ys);
}

prune_container-Drops :
    (is_fork : Bool) (a : Address) (s t : Pruning) (c : Container)
    → get_elem? s.forest.containers a ≡ some c
    → prune_container is_fork a s ≡ ok t
    → Drops s (c.id ∷ []) t × (t.forest.vertices_at_level ≡ s.forest.vertices_at_level)
unfolding prune_container delete_vertice elem
prune_container-Drops is_fork a s t c at e = (
  record {
    containers = ground arith;
    lowest = ground arith;
    vertices = λ q. ground (arith, get-delete ℕ_discrete c.id q s.forest.vertices);
    counted = ground arith;
  },
  ground arith,
)

prune_container_dangling :
    (is_fork : Bool) (a : Address) (s t : Pruning)
    → get_elem? s.forest.containers a ≡ none
    → prune_container is_fork a s ≢ ok t
unfolding prune_container
prune_container_dangling is_fork a s t dangling e = ground arith

prune_containers-Drops :
    (is_fork : Bool) (more : List Address) (s t : Pruning)
    → prune_containers is_fork more s ≡ ok t
    → Drops s (ids_of s.forest.containers more) t
      × (t.forest.vertices_at_level ≡ s.forest.vertices_at_level)
unfolding prune_containers
prune_containers-Drops is_fork [] s t e =
    subst (λ t. Drops s [] t × (t.forest.vertices_at_level ≡ s.forest.vertices_at_level))
      (ok-injective s e) (Drops-refl s, refl)
prune_containers-Drops is_fork (a ∷ more) s t e =
    let (u, rest, one) =
      >>=-eq-ok (prune_containers is_fork more) (prune_container is_fork a s) e in
    elim (Option-cases (get_elem? s.forest.containers a)) [
      | inl dangling ↦ absurd (prune_container_dangling is_fork a s u dangling one)
      | inr (c, at) ↦
          let (d, levels) = prune_container-Drops is_fork a s u c at one in
          let (d', levels') = prune_containers-Drops is_fork more u t rest in
          let d2 : Drops u (ids_of s.forest.containers more) t =
            subst (λ cs. Drops u (ids_of cs more) t) d.containers d' in
          (
            rw (at, ids_of) (Drops-trans s u t (c.id ∷ []) (ids_of s.forest.containers more) d d2),
            levels' ∙ levels,
          )
    ]

-- One level.
prune_level-Drops :
    (committed : List (ℕ × Bool)) (l : ℕ) (s t : Pruning)
    → prune_level committed l s ≡ ok t
    → Drops s (ids_of s.forest.containers (at_level s.forest l)) t
      × ((k : ℕ) → at_level t.forest k ≡ (if l == k then [] else at_level s.forest k))
unfolding prune_level at_level
prune_level-Drops committed l s t e =
    let vs = at_level s.forest l in
    let is_fork = not (is_committed committed l) && ltb 1 l in
    let (u, rest, done) = >>=-eq-ok _ (prune_containers is_fork vs s) e in
    let (d, levels) = prune_containers-Drops is_fork vs s u done in
    let forest = u.forest in
    let left : Pruning = record u {
      forest = record forest { vertices_at_level = delete ℕ_discrete l forest.vertices_at_level };
    } in
    subst
      (λ t.
        Drops s (ids_of s.forest.containers vs) t
        × ((k : ℕ) → at_level t.forest k ≡ (if l == k then [] else at_level s.forest k)))
      (ok-injective s rest)
      (
        record {
          containers = d.containers;
          lowest = d.lowest;
          vertices = d.vertices;
          counted = d.counted;
        },
        λ k. ground (arith, get-delete ℕ_discrete l k forest.vertices_at_level, levels),
      )

ids_between-eq :
    (f g : Forest) (l n : ℕ)
    → g.containers ≡ f.containers
    → ((k : ℕ) → l ≤ k → at_level g k ≡ at_level f k)
    → ids_between g l n ≡ ids_between f l n
unfolding at_level
ids_between-eq f g l zero e h = refl
ids_between-eq f g l (suc n) e h =
    let le : l ≤ l = omega arith in
    rw (e, h l le, ids_between-eq f g (l + 1) n e (λ k m. h k (omega arith)), ids_between) refl

-- The levels of the second loop.
prune_levels-Drops :
    (n : ℕ) (committed : List (ℕ × Bool)) (l : ℕ) (s t : Pruning)
    → prune_levels n committed l s ≡ ok t
    → Drops s (ids_between s.forest l n) t
      × ((k : ℕ)
          → at_level t.forest k ≡ (if leb l k && ltb k (l + n) then [] else at_level s.forest k))
unfolding prune_levels
prune_levels-Drops zero committed l s t e =
    subst
      (λ t.
        Drops s [] t
        × ((k : ℕ)
            → at_level t.forest k ≡ (if leb l k && ltb k (l + 0) then [] else at_level s.forest k)))
      (ok-injective s e) (Drops-refl s, λ k. ground arith)
prune_levels-Drops (suc n) committed l s t e =
    let (u, rest, one) = >>=-eq-ok _ (prune_level committed l s) e in
    let (d, empty) = prune_level-Drops committed l s u one in
    let (d', empties) = prune_levels-Drops n committed (l + 1) u t rest in
    let same =
      ids_between-eq s.forest u.forest (l + 1) n d.containers (λ k m. ground (arith, empty k)) in
    (
      Drops-trans s u t _ _ d (subst (λ ids. Drops u ids t) same d'),
      λ k. ground (arith, empties k, empty k),
    )

-- What a successful `PruneUpToLevel` leaves.
pub record Prunes (f : Forest) (level : ℕ) (p : Pruning) : Type 0 where
  pub ahead : f.lowest_level ≤ level
  pub lowest : p.forest.lowest_level ≡ level
  pub containers : p.forest.containers ≡ f.containers
  pub levels :
      (k : ℕ)
      → at_level p.forest k ≡ (if leb f.lowest_level k && ltb k level then [] else at_level f k)
  pub vertices :
      (q : Identifier)
      → get ℕ_discrete q p.forest.vertices ≡ (
          if elem ℕ_discrete q (ids_between f f.lowest_level (level - f.lowest_level))
          then none
          else get ℕ_discrete q f.vertices)
  pub counted : p.pruned ≡ length (ids_between f f.lowest_level (level - f.lowest_level))

-- A PruneUpToLevel that succeeds, whose level is then not below the lowest one, makes the level
-- the lowest, empties exactly the levels from the old lowest one up to below it, takes exactly the
-- ids of their containers out of the map, counts those containers, and leaves the containers as
-- they are.
pub prune_up_to_level-Prunes :
    (f : Forest) (level : ℕ) (p : Pruning)
    → prune_up_to_level f level ≡ ok (some p)
    → Prunes f level p
unfolding prune_up_to_level at_level
prune_up_to_level-Prunes f level p e = elim (Bool-cases (ltb level f.lowest_level)) [
  | inl below ↦ absurd (ground arith)
  | inr above ↦
      let e' : (do
        committed ← committed_levels (level_fuel f level) f level []
        s ←
            prune_levels (level - f.lowest_level) committed f.lowest_level
              (record { forest = f; forked = []; pruned = 0 })
        let g = s.forest
        ok (some (record s { forest = record g { lowest_level = level } })))
          ≡ ok (some p) =
        ground arith in
      let start : Pruning = record { forest = f; forked = []; pruned = 0 } in
      let n = level - f.lowest_level in
      let (committed, more, walked) =
        >>=-eq-ok _ (committed_levels (level_fuel f level) f level []) e' in
      let (t, last, done) = >>=-eq-ok _ (prune_levels n committed f.lowest_level start) more in
      let (d, empty) = prune_levels-Drops n committed f.lowest_level start t done in
      record {
        ahead = ground arith;
        lowest = ground arith;
        containers = ground (arith, d.containers);
        levels = λ k. ground (arith, empty k);
        vertices = λ q. ground (arith, d.vertices q);
        counted = ground (arith, d.counted);
      }
]
