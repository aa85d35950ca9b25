-- ===== src/Blockchain/Forest/Prune/Swept.antt =====
-- What `PruneUpToLevel` leaves of a forest and what it reports.
use bamboo.Prelude.{
  ℕ, suc, ◌+◌, ◌≡◌, refl, sym, ◌∙◌, ap, Bool, true, false, ◌||◌, Option, none, some, List, [], ◌∷◌,
  ◌++◌, length, mem, ltb, ge→ltb, ◌==◌, if◌then◌else◌, arith, Option-cases, Bool-cases, inl, inr,
}
use mathlib.Core.List.{append-nil, append_assoc}
use bamboo.Types.{Identifier}
use bamboo.Blockchain.Forest.{Container, Forest, full_vertices}
use bamboo.Blockchain.Forest.Invariant.{IsValid}
use bamboo.Blockchain.Forest.Prune.{Sweep, sweep_level, sweep_one, drop_level, forked_block}

-- Whether a list of containers has one with this id.
pub has_id : (ℕ → Container) → Identifier → List ℕ → Bool
has_id c i [] = false
has_id c i (r ∷ rs) = (c r).id == i || has_id c i rs

has_id-mem :
    (c : ℕ → Container) (i r : ℕ) (rs : List ℕ)
    → mem r rs ≡ true
    → (c r).id ≡ i
    → has_id c i rs ≡ true
unfolding has_id
has_id-mem c i r [] m e = cc
has_id-mem c i r (x ∷ rs) m e = ground (arith, has_id-mem c i r rs)

has_id_found :
    (c : ℕ → Container) (i : ℕ) (rs : List ℕ)
    → has_id c i rs ≡ true
    → (r : ℕ) × (mem r rs ≡ true) × ((c r).id ≡ i)
unfolding has_id
has_id_found c i [] h = cc
has_id_found c i (x ∷ rs) h = elim (Bool-cases ((c x).id == i)) [
  | inl e ↦ (x, ground arith, ground arith)
  | inr e ↦ let (r, m, same) = has_id_found c i rs (ground arith) in (r, ground arith, same)
]

-- One level: its containers leave the vertex map, and nothing else of the forest changes.
pub record LevelSwept (b : Bool) (rs : List ℕ) (s t : Sweep) : Type 0 where
  pub containers : t.forest.containers ≡ s.forest.containers
  pub next : t.forest.next ≡ s.forest.next
  pub lists : t.forest.vertices_at_level ≡ s.forest.vertices_at_level
  pub lowest : t.forest.lowest_level ≡ s.forest.lowest_level
  pub vertices :
      (i : Identifier)
      → t.forest.vertices i
        ≡ (if has_id s.forest.containers i rs then none else s.forest.vertices i)
  pub forked : t.forked ≡ s.forked ++ (if b then full_vertices s.forest.containers rs else [])
  pub pruned : t.pruned ≡ s.pruned + length rs

reported :
    (b : Bool) (r : ℕ) (rs : List ℕ) (at : ℕ → Container)
    → forked_block b (at r).vertex ++ (if b then full_vertices at rs else [])
      ≡ (if b then full_vertices at (r ∷ rs) else [])
unfolding forked_block full_vertices
reported b r rs at = ground arith

pub sweep_level-LevelSwept :
    (b : Bool) (rs : List ℕ) (s : Sweep) → LevelSwept b rs s (sweep_level b rs s)
unfolding sweep_level sweep_one has_id full_vertices forked_block
sweep_level-LevelSwept b [] s = record {
  containers = refl;
  next = refl;
  lists = refl;
  lowest = refl;
  vertices = λ i. refl;
  forked = ground (arith, sym (append-nil s.forked));
  pruned = omega arith;
}
sweep_level-LevelSwept b (r ∷ rs) s =
    let ih = sweep_level-LevelSwept b rs (sweep_one b r s) in
    record {
      containers = ih.containers;
      next = ih.next;
      lists = ih.lists;
      lowest = ih.lowest;
      vertices = λ i. ground (arith, ih.vertices i);
      forked =
          ih.forked
          ∙ append_assoc s.forked _ _
          ∙ ap (◌++◌ s.forked) (reported b r rs s.forest.containers);
      pruned = omega (arith, ih.pruned);
    }

-- The vertex map without the containers below a level.
abbrev pub kept : Forest → ℕ → Option ℕ → Option ℕ
kept f l none = none
kept f l (some r) = if ltb (f.containers r).level l then none else some r

-- A forest whose levels below l were swept away, and which is as before from l on.
pub record Swept (f : Forest) (l : ℕ) (g : Forest) : Type 0 where
  pub containers : g.containers ≡ f.containers
  pub next : g.next ≡ f.next
  pub lowest : g.lowest_level ≡ f.lowest_level
  pub vertices : (i : Identifier) → g.vertices i ≡ kept f l (f.vertices i)
  pub lists : (k : ℕ) → g.vertices_at_level k ≡ (if ltb k l then [] else f.vertices_at_level k)

-- In a valid forest an id is among a level's containers exactly if it is known at that level.
kept-suc :
    (f : Forest) (l : ℕ) (i : Identifier)
    → IsValid f
    → (if has_id f.containers i (f.vertices_at_level l) then none else kept f l (f.vertices i))
      ≡ kept f (suc l) (f.vertices i)
kept-suc f l i v = elim (Bool-cases (has_id f.containers i (f.vertices_at_level l))) [
  | inl here ↦
      let (r, m, e) = has_id_found f.containers i (f.vertices_at_level l) here in
      ground (arith, here, v.indexed l r m, v.placed l r m, e)
  | inr gone ↦ elim (Option-cases (f.vertices i)) [
    | inl e ↦ ground (arith, e)
    | inr (r, e) ↦ ground (
      arith,
      gone,
      e,
      v.listed i r e,
      v.named i r e,
      has_id-mem f.containers i r (f.vertices_at_level l),
    )
  ]
]

pub sweep_step :
    (b : Bool) (f : Forest) (l : ℕ) (s : Sweep)
    → IsValid f
    → Swept f l s.forest
    → Swept f (suc l) (drop_level l (sweep_level b (s.forest.vertices_at_level l) s)).forest
unfolding drop_level
sweep_step b f l s v h =
    let rs = s.forest.vertices_at_level l in
    let q = sweep_level-LevelSwept b rs s in
    record {
      containers = q.containers ∙ h.containers;
      next = q.next ∙ h.next;
      lowest = q.lowest ∙ h.lowest;
      vertices = λ i.
          q.vertices i
          ∙ rw (h.containers, h.lists l, h.vertices i, ge→ltb l l (omega arith)) (kept-suc f l i v);
      lists = λ k. rw q.lists (ground (arith, h.lists k));
    }

-- What one level reports.
pub level_reports :
    (b : Bool) (f : Forest) (l : ℕ) (s : Sweep)
    → Swept f l s.forest
    → let t = drop_level l (sweep_level b (s.forest.vertices_at_level l) s) in
      (t.forked
        ≡ s.forked ++ (if b then full_vertices f.containers (f.vertices_at_level l) else []))
      × (t.pruned ≡ s.pruned + length (f.vertices_at_level l))
unfolding drop_level
level_reports b f l s h =
    let q = sweep_level-LevelSwept b (s.forest.vertices_at_level l) s in
    let same : s.forest.vertices_at_level l ≡ f.vertices_at_level l =
      h.lists l ∙ rw (ge→ltb l l (omega arith)) in
    (rw (← same, ← h.containers) q.forked, rw (← same) q.pruned)
