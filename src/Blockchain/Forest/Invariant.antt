-- ===== src/Blockchain/Forest/Invariant.antt =====
-- The well-formedness of a forest, kept by `AddVertex`.
use bamboo.Prelude.{
  ℕ, ◌≤◌, ◌<◌, ◌≡◌, refl, true, ◌||◌, ◌&&◌, none, some, List, [], ◌∷◌, ◌++◌, update, mem,
  mem-append, ◌==◌, arith, Option-cases, inl, inr,
}
use bamboo.Outcome.{ok}
use bamboo.Types.{Block}
use bamboo.Blockchain.Forest.{
  Container, Forest, new_forest, create_container, get_or_create, add_child, add_vertex,
}
use bamboo.Blockchain.Forest.Steps.{write, store, Registered, add_vertex-Added}

-- The vertex map and the level lists hold the same containers, each under its own id and its own
-- level, none below the lowest level; a full container holds the block with its id.
pub record IsValid (f : Forest) : Type 0 where
  pub fresh : (i r : ℕ) → f.vertices i ≡ some r → r < f.next
  pub named : (i r : ℕ) → f.vertices i ≡ some r → (f.containers r).id ≡ i
  pub listed :
      (i r : ℕ) → f.vertices i ≡ some r → mem r (f.vertices_at_level (f.containers r).level) ≡ true
  pub indexed :
      (l r : ℕ) → mem r (f.vertices_at_level l) ≡ true → f.vertices (f.containers r).id ≡ some r
  pub placed : (l r : ℕ) → mem r (f.vertices_at_level l) ≡ true → (f.containers r).level ≡ l
  pub retained : (l r : ℕ) → mem r (f.vertices_at_level l) ≡ true → f.lowest_level ≤ l
  pub full :
      (i r : ℕ) (b : Block) → f.vertices i ≡ some r → (f.containers r).vertex ≡ some b → b.id ≡ i

-- Writing a container without its id and level keeps the forest valid.
pub write-IsValid :
    (f : Forest) (r : ℕ) (c : Container)
    → c.id ≡ (f.containers r).id
    → c.level ≡ (f.containers r).level
    → ((b : Block) → c.vertex ≡ some b → b.id ≡ c.id)
    → IsValid f
    → IsValid (write f r c)
write-IsValid f r c ei el ev v = record {
  fresh = v.fresh;
  named = λ i s e. grind (arith, v.named i s e);
  listed = λ i s e. ground (arith, v.listed i s e);
  indexed = λ l s e. ground (arith, v.indexed l s e);
  placed = λ l s e. ground (arith, v.placed l s e);
  retained = v.retained;
  full = λ i s b e h. ground (arith, v.named i s e, v.full i s b e, ev b);
}

-- A level's list after one more container was put on the list of level l.
mem-update-append :
    (lists : ℕ → List ℕ) (l n k r : ℕ)
    → mem r (update lists l (lists l ++ n ∷ []) k) ≡ (mem r (lists k) || (l == k && n == r))
mem-update-append lists l n k r = ground (arith, mem-append r (lists l) (n ∷ []))

create-IsValid :
    (i l : ℕ) (f : Forest)
    → f.vertices i ≡ none
    → f.lowest_level ≤ l
    → IsValid f
    → IsValid (create_container i l f).1
unfolding create_container
create-IsValid i l f e h v = record {
  fresh = λ j r p. ground (arith, v.fresh j r);
  named = λ j r p. ground (arith, v.named j r, v.fresh j r);
  listed = λ j r p. ground (
    arith,
    v.listed j r,
    v.fresh j r,
    mem-update-append f.vertices_at_level l f.next l r,
    mem-update-append f.vertices_at_level l f.next (f.containers r).level r,
  );
  indexed = λ k r p. ground (
    arith,
    e,
    v.indexed k r,
    v.fresh (f.containers r).id r,
    mem-update-append f.vertices_at_level l f.next k r,
  );
  placed = λ k r p. ground (
    arith,
    v.placed k r,
    v.indexed k r,
    v.fresh (f.containers r).id r,
    mem-update-append f.vertices_at_level l f.next k r,
  );
  retained =
      λ k r p. ground (arith, v.retained k r, mem-update-append f.vertices_at_level l f.next k r);
  full = λ j r b p q. ground (arith, v.full j r b, v.fresh j r);
}

-- What a caller knows of the container that it is given.
pub record Found (i : ℕ) (f : Forest) (r : ℕ) (g : Forest) : Type 0 where
  pub valid : IsValid g
  pub known : g.vertices i ≡ some r
  pub same_lowest : g.lowest_level ≡ f.lowest_level

get_or_create-Found :
    (i l : ℕ) (f : Forest)
    → f.lowest_level ≤ l
    → IsValid f
    → Found i f (get_or_create i l f).0 (get_or_create i l f).1
unfolding get_or_create
get_or_create-Found i l f h v = elim (Option-cases (f.vertices i)) [
  | inl e ↦
      rw (e, get_or_create)
        (record {
          valid = create-IsValid i l f e h v;
          known = unfold create_container in ground arith;
          same_lowest = unfold create_container in refl;
        })
  | inr (r, e) ↦ rw (e, get_or_create) (record { valid = v; known = e; same_lowest = refl })
]

pub Found-at :
    (i l : ℕ) (f : Forest) (r : ℕ) (c : Forest)
    → f.lowest_level ≤ l
    → IsValid f
    → get_or_create i l f ≡ (r, c)
    → Found i f r c
Found-at i l f r c h v e = rw e at (get_or_create-Found i l f h v)

add_child-IsValid :
    (child i r : ℕ) (f : Forest)
    → f.vertices i ≡ some r
    → IsValid f
    → IsValid (add_child child (r, f))
unfolding add_child
add_child-IsValid child i r f e v =
    write-IsValid f r _ refl refl (λ b h. ground (arith, v.full i r b e h, v.named i r e)) v

Registered-IsValid : (r : ℕ) (b : Block) (f g : Forest) → IsValid f → Registered r b f g → IsValid g
Registered-IsValid r b f g v (inl e) = rw e v
Registered-IsValid r b f g v (inr (p, _, _, le, e)) =
    let found = get_or_create-Found p.id p.level f le v in
    rw e (add_child-IsValid r p.id _ _ found.known found.valid)

pub store-IsValid :
    (b : Block) (r : ℕ) (f c : Forest)
    → IsValid f
    → f.lowest_level ≤ b.view
    → get_or_create b.id b.view f ≡ (r, c)
    → IsValid (store r b c)
store-IsValid b r f c v le e =
    let found = Found-at b.id b.view f r c le v e in
    write-IsValid c r _ refl refl (λ a h. ground (arith, found.valid.named b.id r found.known))
      found.valid

-- `AddVertex` keeps the forest well formed, whatever block it is given.
pub add_vertex-IsValid : (b : Block) (f g : Forest) → IsValid f → add_vertex b f ≡ ok g → IsValid g
add_vertex-IsValid b f g v h = elim (add_vertex-Added b f g h) [
  | inl (e, _) ↦ rw e v
  | inr (r, c, created, le, empty, registered) ↦
      Registered-IsValid r b (store r b c) g (store-IsValid b r f c v le created) registered
]

pub new_forest-IsValid : IsValid new_forest
unfolding new_forest
new_forest-IsValid = record {
  fresh = λ i r e. cc;
  named = λ i r e. cc;
  listed = λ i r e. cc;
  indexed = λ l r e. cc;
  placed = λ l r e. cc;
  retained = λ l r e. cc;
  full = λ i r b e h. cc;
}
