-- ===== src/Blockchain/Forest/Lookup.antt =====
-- What `GetVertex` finds after `AddVertex`.
use bamboo.Prelude.{
  ℕ, ◌≡◌, refl, ◌∙◌, ◌&&◌, Option, none, some, leb, ◌==◌, if◌then◌else◌, arith, inl, inr,
  Option-cases,
}
use bamboo.Outcome.{ok}
use bamboo.Types.{Block}
use bamboo.Blockchain.Forest.{
  Forest, get_vertex, create_container, get_or_create, add_child, add_vertex,
}
use bamboo.Blockchain.Forest.Steps.{
  store, Registered, get_or_create_known, get_or_create_new, get_vertex_at, add_vertex-Added,
}
use bamboo.Blockchain.Forest.Invariant.{IsValid, Found-at, store-IsValid}

-- The vertex stored first wins.
abbrev pub or_else : Option Block → Block → Option Block
or_else none b = some b
or_else (some a) b = some a

get_vertex-create :
    (i l j : ℕ) (f : Forest)
    → IsValid f
    → f.vertices i ≡ none
    → get_vertex (create_container i l f).1 j ≡ get_vertex f j
unfolding get_vertex create_container
get_vertex-create i l j f v e = elim (Option-cases (f.vertices j)) [
  | inl missing ↦ ground arith
  | inr (r, found) ↦ ground (arith, v.fresh j r)
]

get_vertex-get_or_create :
    (i l j : ℕ) (f : Forest) (r : ℕ) (c : Forest)
    → IsValid f
    → get_or_create i l f ≡ (r, c)
    → get_vertex c j ≡ get_vertex f j
get_vertex-get_or_create i l j f r c v h = elim (Option-cases (f.vertices i)) [
  | inl new ↦ cc (get_vertex-create i l j f v new, get_or_create_new i l f new, h)
  | inr (s, old) ↦ cc (get_or_create_known i l s f old, h)
]

get_vertex-store :
    (b : Block) (r j : ℕ) (f : Forest)
    → IsValid f
    → f.vertices b.id ≡ some r
    → get_vertex (store r b f) j ≡ (if b.id == j then some b else get_vertex f j)
unfolding get_vertex
get_vertex-store b r j f v e = elim (Option-cases (f.vertices j)) [
  | inl missing ↦ ground arith
  | inr (s, found) ↦ ground (arith, v.named j s, v.named b.id r)
]

get_vertex-add_child :
    (child r j : ℕ) (f : Forest) → get_vertex (add_child child (r, f)) j ≡ get_vertex f j
unfolding get_vertex add_child
get_vertex-add_child child r j f = ground arith

get_vertex-Registered :
    (r j : ℕ) (b : Block) (f g : Forest)
    → IsValid f
    → Registered r b f g
    → get_vertex g j ≡ get_vertex f j
get_vertex-Registered r j b f g v (inl e) = rw e
get_vertex-Registered r j b f g v (inr (p, _, _, le, e)) =
    let made = get_or_create p.id p.level f in
    rw e (
      get_vertex-add_child r made.0 j made.1
      ∙ get_vertex-get_or_create p.id p.level j f made.0 made.1 v refl)

-- An added block is found under its id unless another block is there already or it is below the
-- lowest level; every other lookup is unchanged.
pub get_vertex-add_vertex :
    (b : Block) (f g : Forest) (j : ℕ)
    → IsValid f
    → add_vertex b f ≡ ok g
    → get_vertex g j ≡ (
        if b.id == j && leb f.lowest_level b.view
        then or_else (get_vertex f j) b
        else get_vertex f j)
get_vertex-add_vertex b f g j v h = elim (add_vertex-Added b f g h) [
  | inl (e, inl low) ↦ rw e (ground arith)
  | inl (e, inr (a, taken)) ↦ rw e (ground (arith, taken))
  | inr (r, c, created, le, empty, registered) ↦
      let found = Found-at b.id b.view f r c le v created in
      ground (
        arith,
        get_vertex-Registered r j b (store r b c) g (store-IsValid b r f c v le created) registered,
        get_vertex-store b r j c found.valid found.known,
        get_vertex-get_or_create b.id b.view j f r c v created,
        get_vertex_at c b.id r found.known,
      )
]
