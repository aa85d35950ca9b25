-- ===== src/Blockchain/Forest/Prune/Pruned.antt =====
-- `PruneUpToLevel` as a whole: what it keeps, what it reports, and when it ends.
use mathlib.Core.List.{append-nil, append_assoc}
use bamboo.Prelude.{
  ℕ, zero, suc, ◌+◌, ◌-◌, ◌≤◌, ◌<◌, ◌≡◌, ◌≢◌, refl, sym, ◌∙◌, Bool, true, false, not, ◌&&◌, Option,
  none, some, List, [], ◌∷◌, ◌++◌, length, mem, ltb, ltb→ge, ge→ltb, if◌then◌else◌, arith,
  Option-cases, Bool-cases, inl, inr,
}
use bamboo.Outcome.{ok, fault, out_of_fuel, >>=-eq-ok, ok-injective}
use bamboo.Types.{Identifier, Block}
use bamboo.Blockchain.Forest.{Forest, full_vertices}
use bamboo.Blockchain.Forest.Invariant.{IsValid}
use bamboo.Blockchain.Forest.Levels.{IsLevelled}
use bamboo.Blockchain.Forest.Prune.Marking.{mark_committed_ends}
use bamboo.Blockchain.Forest.Prune.{Sweep, sweep, finish, prune_up_to_level, mark_committed}
use bamboo.Blockchain.Forest.Prune.Swept.{Swept, sweep_step, kept, level_reports}

Swept-start : (f : Forest) → IsValid f → Swept f f.lowest_level f
Swept-start f v = record {
  containers = refl;
  next = refl;
  lowest = refl;
  vertices = λ i. elim (Option-cases (f.vertices i)) [
    | inl e ↦ rw e
    | inr (r, e) ↦ ground (arith, e, v.listed i r e, v.retained (f.containers r).level r)
  ];
  lists = λ k. below_empty k (f.vertices_at_level k) refl;
}
  where
    below_empty :
        (k : ℕ) (rs : List ℕ)
        → f.vertices_at_level k ≡ rs
        → f.vertices_at_level k ≡ (if ltb k f.lowest_level then [] else f.vertices_at_level k)
    below_empty k [] e = ground arith
    below_empty k (r ∷ rs) e = ground (arith, v.retained k r)

sweep-Swept :
    (committed : ℕ → Bool) (n l : ℕ) (f : Forest) (s : Sweep)
    → IsValid f
    → Swept f l s.forest
    → Swept f (l + n) (sweep committed n l s).forest
unfolding sweep
sweep-Swept committed zero l f s v h = let e : l + 0 ≡ l = omega arith in rw e h
sweep-Swept committed (suc n) l f s v h =
    let e : l + suc n ≡ suc l + n = omega arith in
    rw e (sweep-Swept committed n (suc l) f _ v (sweep_step _ f l s v h))

-- The blocks that n levels from l on report, and how many containers they hold.
pub forks : (ℕ → Bool) → Forest → ℕ → ℕ → List Block
forks committed f zero l = []
forks committed f (suc n) l =
    (if not (committed l) && ltb 1 l
      then full_vertices f.containers (f.vertices_at_level l)
      else [])
    ++ forks committed f n (suc l)

pub population : Forest → ℕ → ℕ → ℕ
population f zero l = 0
population f (suc n) l = length (f.vertices_at_level l) + population f n (suc l)

-- What the sweep reports, from a forest of which the levels below l are gone.
sweep-forks :
    (committed : ℕ → Bool) (n l : ℕ) (f : Forest) (s : Sweep)
    → IsValid f
    → Swept f l s.forest
    → ((sweep committed n l s).forked ≡ s.forked ++ forks committed f n l)
      × ((sweep committed n l s).pruned ≡ s.pruned + population f n l)
unfolding sweep forks population
sweep-forks committed zero l f s v h = (sym (append-nil s.forked), omega arith)
sweep-forks committed (suc n) l f s v h =
    let now = level_reports (not (committed l) && ltb 1 l) f l s h in
    let rest = sweep-forks committed n (suc l) f _ v (sweep_step _ f l s v h) in
    (rest.0 ∙ rw now.0 (append_assoc s.forked _ _), omega (arith, now.1, rest.1))

abbrev start : Forest → Sweep
start f = record { forest = f; forked = []; pruned = 0 }

-- What pruning up to a level leaves: the containers from that level on, found as before.
pub record Pruned (f : Forest) (l : ℕ) (g : Forest) : Type 0 where
  pub valid : IsValid g
  pub lowest : g.lowest_level ≡ l
  pub containers : g.containers ≡ f.containers
  pub vertices : (i : Identifier) → g.vertices i ≡ kept f l (f.vertices i)

pub kept-some :
    (f : Forest) (l : ℕ) (o : Option ℕ) (r : ℕ)
    → kept f l o ≡ some r
    → (o ≡ some r) × (l ≤ (f.containers r).level)
kept-some f l none r e = cc
kept-some f l (some s) r e = ground arith

mem-list_above :
    (l k r : ℕ) (rs : List ℕ)
    → mem r (if ltb k l then [] else rs) ≡ true
    → (l ≤ k) × (mem r rs ≡ true)
mem-list_above l k r rs h = ground arith

Swept-IsValid :
    (f : Forest) (l : ℕ) (g : Forest)
    → IsValid f
    → Swept f l g
    → IsValid (record g { lowest_level = l })
Swept-IsValid f l g v h = record {
  fresh = λ i r e. rw h.next (v.fresh i r (known i r e).0);
  named = λ i r e. rw h.containers (v.named i r (known i r e).0);
  listed = λ i r e.
      let (at, above) = known i r e in
      rw (h.containers, h.lists (f.containers r).level, ge→ltb _ _ above) (v.listed i r at);
  indexed = λ k r m.
      let (above, m') = in_list k r m in
      rw (h.containers, h.vertices (f.containers r).id, v.indexed k r m')
        (rw (v.placed k r m', ge→ltb k l above));
  placed = λ k r m. rw h.containers (v.placed k r (in_list k r m).1);
  retained = λ k r m. (in_list k r m).0;
  full = λ i r b e w. v.full i r b (known i r e).0 (rw h.containers at w);
}
  where
    known :
        (i r : ℕ) → g.vertices i ≡ some r → (f.vertices i ≡ some r) × (l ≤ (f.containers r).level)
    known i r e = kept-some f l (f.vertices i) r (sym (h.vertices i) ∙ e)

    in_list :
        (k r : ℕ)
        → mem r (g.vertices_at_level k) ≡ true
        → (l ≤ k) × (mem r (f.vertices_at_level k) ≡ true)
    in_list k r m = mem-list_above l k r (f.vertices_at_level k) (rw h.lists at m)

-- The parts of a pruning that succeeds.
pub prune_parts :
    (fuel l : ℕ) (f : Forest) (s : Sweep)
    → prune_up_to_level fuel l f ≡ ok s
    → (committed : ℕ → Bool) × (f.lowest_level ≤ l)
      × (mark_committed fuel f l (λ _. false) ≡ ok committed)
      × (s ≡ finish l (sweep committed (l - f.lowest_level) f.lowest_level (start f)))
unfolding prune_up_to_level
prune_parts fuel l f s e = elim (Bool-cases (ltb l f.lowest_level)) [
  | inl low ↦ cc (rw low at e)
  | inr high ↦
      let (committed, marked, done) =
        >>=-eq-ok (mark_committed fuel f l (λ _. false)) _ (rw high at e) in
      (committed, ltb→ge _ _ high, marked, sym (ok-injective done))
]

-- Pruning keeps the forest well formed. Of the known containers exactly those below the new lowest
-- level are forgotten, and the others are found as before. It counts the containers of the levels
-- from the old lowest level to the new one, and reports as forked the full vertices of those of the
-- levels that are above 1 and were not marked as committed.
pub prune_up_to_level-Pruned :
    (fuel l : ℕ) (f : Forest) (s : Sweep)
    → IsValid f
    → prune_up_to_level fuel l f ≡ ok s
    → Pruned f l s.forest
      × (s.pruned ≡ population f (l - f.lowest_level) f.lowest_level)
      × ((committed : ℕ → Bool) × (mark_committed fuel f l (λ _. false) ≡ ok committed)
          × (s.forked ≡ forks committed f (l - f.lowest_level) f.lowest_level))
unfolding finish
prune_up_to_level-Pruned fuel l f s v e =
    let (committed, le, marked, done) = prune_parts fuel l f s e in
    let n = l - f.lowest_level in
    let before = Swept-start f v in
    let swept = sweep-Swept committed n f.lowest_level f (start f) v before in
    let counts = sweep-forks committed n f.lowest_level f (start f) v before in
    let end : f.lowest_level + n ≡ l = omega arith in
    let after : Swept f l (sweep committed n f.lowest_level (start f)).forest = rw end at swept in
    rw done (
      record {
        valid = Swept-IsValid f l _ v after;
        lowest = refl;
        containers = after.containers;
        vertices = after.vertices;
      },
      omega (arith, counts.1),
      (committed, marked, counts.0),
    )

-- Pruning up to a level that the fuel exceeds does not run out of it.
pub prune_up_to_level_ends :
    (fuel l : ℕ) (f : Forest)
    → IsValid f
    → IsLevelled f
    → l < fuel
    → prune_up_to_level fuel l f ≢ fault out_of_fuel
unfolding prune_up_to_level
prune_up_to_level_ends fuel l f v h lt =
    ground (arith, mark_committed_ends fuel l f (λ _. false) v h lt)
