-- ===== src/Blockchain/Forest/Steps.antt =====
-- What `AddVertex` does to a forest, case by case.
use bamboo.Prelude.{
  ℕ, ◌≤◌, ◌<◌, ◌≡◌, sym, ◌∙◌, ltb→ge, ltb→lt, false, ◌⊎◌, none, some, ltb, leb, update, arith,
  Option-cases, Bool-cases, inl, inr,
}
use bamboo.Outcome.{ok}
use bamboo.Types.{Block}
use bamboo.Blockchain.Block.{Parent, parent}
use bamboo.Blockchain.Forest.{
  Container, Forest, get_vertex, create_container, get_or_create, add_child, register_with_parent,
  fill, add_vertex,
}

abbrev pub write : Forest → ℕ → Container → Forest
write f r c = record f { containers = update f.containers r c }

-- The block is put into the container that its id has.
abbrev pub store : ℕ → Block → Forest → Forest
store r b f = write f r (record (f.containers r) { vertex = some b })

-- What registering changed, if it did not stop at a nil certificate.
abbrev pub Registered : ℕ → Block → Forest → Forest → Type 0
Registered r b f g =
    (g ≡ f)
    ⊎ ((p : Parent) × (parent b ≡ ok p)
        × (f.lowest_level < (f.containers r).level)
        × (f.lowest_level ≤ p.level)
        × (g ≡ add_child r (get_or_create p.id p.level f)))

pub register_with_parent-Registered :
    (r : ℕ) (b : Block) (f g : Forest) → register_with_parent r b f ≡ ok g → Registered r b f g
unfolding register_with_parent
register_with_parent-Registered r b f g h = elim (Option-cases b.qc) [
  | inl e ↦ inl (ground arith)
  | inr (q, e) ↦ elim (Bool-cases (leb (f.containers r).level f.lowest_level)) [
    | inl low ↦ inl (ground arith)
    | inr high ↦ elim (Bool-cases (ltb q.view f.lowest_level)) [
      | inl old ↦ inl (ground arith)
      | inr new ↦ inr (
        record { id = b.prev_id; level = q.view },
        ground arith,
        ground arith,
        ground arith,
        ground arith,
      )
    ]
  ]
]

-- Why a block is not stored: it is below the lowest level, or its id is taken.
abbrev pub Refused : Block → Forest → Type 0
Refused b f = (b.view < f.lowest_level) ⊎ ((a : Block) × (get_vertex f b.id ≡ some a))

-- `AddVertex` leaves the forest alone, or stores the block and registers it.
abbrev pub Added : Block → Forest → Forest → Type 0
Added b f g =
    (g ≡ f) × Refused b f
    ⊎ ((r : ℕ) × (c : Forest) × (get_or_create b.id b.view f ≡ (r, c))
        × (f.lowest_level ≤ b.view)
        × ((c.containers r).vertex ≡ none)
        × Registered r b (store r b c) g)

fill-Registered :
    (b : Block) (r : ℕ) (c g : Forest)
    → (c.containers r).vertex ≡ none
    → fill b (r, c) ≡ ok g
    → Registered r b (store r b c) g
unfolding fill
fill-Registered b r c g e h = register_with_parent-Registered r b (store r b c) g (ground arith)

fill_full :
    (b a : Block) (r : ℕ) (c : Forest) → (c.containers r).vertex ≡ some a → fill b (r, c) ≡ ok c
unfolding fill
fill_full b a r c e = ground arith

pub get_or_create_known :
    (i l r : ℕ) (f : Forest) → f.vertices i ≡ some r → get_or_create i l f ≡ (r, f)
unfolding get_or_create
get_or_create_known i l r f e = rw (e, get_or_create)

pub get_or_create_new :
    (i l : ℕ) (f : Forest)
    → f.vertices i ≡ none
    → get_or_create i l f ≡ (f.next, (create_container i l f).1)
unfolding get_or_create create_container
get_or_create_new i l f e = rw (e, get_or_create)

created_empty :
    (i l : ℕ) (f : Forest) → ((create_container i l f).1.containers f.next).vertex ≡ none
unfolding create_container
created_empty i l f = ground arith

add_vertex_above :
    (b : Block) (f : Forest)
    → ltb b.view f.lowest_level ≡ false
    → add_vertex b f ≡ fill b (get_or_create b.id b.view f)
unfolding add_vertex
add_vertex_above b f e = rw e

pub get_vertex_at :
    (f : Forest) (i r : ℕ) → f.vertices i ≡ some r → get_vertex f i ≡ (f.containers r).vertex
unfolding get_vertex
get_vertex_at f i r e = rw e

pub add_vertex-Added : (b : Block) (f g : Forest) → add_vertex b f ≡ ok g → Added b f g
add_vertex-Added b f g h = elim (Bool-cases (ltb b.view f.lowest_level)) [
  | inl low ↦ inl (unfold add_vertex in ground arith, inl (ltb→lt _ _ low))
  | inr high ↦
      let filled = sym (add_vertex_above b f high) ∙ h in
      elim (Option-cases (f.vertices b.id)) [
        | inl new ↦
            let e = get_or_create_new b.id b.view f new in
            inr (
              f.next,
              (create_container b.id b.view f).1,
              e,
              ltb→ge _ _ high,
              created_empty b.id b.view f,
              fill-Registered b f.next (create_container b.id b.view f).1 g
                  (created_empty b.id b.view f) (rw e at filled),
            )
        | inr (r, old) ↦
            let e = get_or_create_known b.id b.view r f old in
            elim (Option-cases (f.containers r).vertex) [
              | inl empty ↦
                  inr (
                    r,
                    f,
                    e,
                    ltb→ge _ _ high,
                    empty,
                    fill-Registered b r f g empty (rw e at filled),
                  )
              | inr (a, stored) ↦ inl (
                cc (fill_full b a r f stored, filled, e),
                inr (a, get_vertex_at f b.id r old ∙ stored),
              )
            ]
      ]
]
