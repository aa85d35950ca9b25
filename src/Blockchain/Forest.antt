-- ===== src/Blockchain/Forest.antt =====
-- blockchain/leveled_forrest.go. Containers are shared by pointer between the vertex map, the
-- level lists and their parents' children: they stand on a heap, a pointer is a heap index, and a
-- new container takes the index `next`.
pub mod Steps
pub mod Invariant
pub mod Lookup
pub mod Levels
pub mod Lowest
pub mod Flag
pub mod Prune
pub mod Iterator
pub mod Verify
pub mod Tests
use bamboo.Prelude.{
  ℕ, suc, ◌+◌, ◌-◌, ◌≡◌, refl, Bool, true, false, not, ◌&&◌, Option, none, some, List, [], ◌∷◌,
  ◌++◌, update, ltb, leb, ◌==◌, if◌then◌else◌,
}
use bamboo.Outcome.{
  Outcome, ok, err, fault, Error, deref, bad_lowest_level, nil_pointer, index_range, out_of_fuel,
  conflicting_vertices, parent_level_too_high, parent_level_differs, ◌>>=◌,
}
use bamboo.Types.{Identifier, Block}
use bamboo.Blockchain.Block.{Parent, parent, vertex_id, level}

-- A container is empty while its `vertex` is `none`.
pub record Container : Type 0 where
  pub id : Identifier
  pub level : ℕ
  pub children : List ℕ
  pub vertex : Option Block

-- A missing level is the nil list.
pub record Forest : Type 0 where
  pub containers : ℕ → Container
  pub next : ℕ
  pub vertices : Identifier → Option ℕ
  pub vertices_at_level : ℕ → List ℕ
  pub lowest_level : ℕ

abbrev pub no_container : Container
no_container = record { id = 0; level = 0; children = []; vertex = none }

unfoldable pub new_forest : Forest
new_forest = record {
  containers = λ _. no_container;
  next = 0;
  vertices = λ _. none;
  vertices_at_level = λ _. [];
  lowest_level = 0;
}

abbrev vertex_at : Forest → Option ℕ → Option Block
vertex_at f none = none
vertex_at f (some r) = (f.containers r).vertex

-- `GetVertex`: the full vertex with this id.
unfoldable pub get_vertex : Forest → Identifier → Option Block
get_vertex f id = vertex_at f (f.vertices id)

abbrev is_some {ℓ} : {A : Type ℓ} → Option A → Bool
is_some none = false
is_some (some a) = true

pub has_vertex : Forest → Identifier → Bool
has_vertex f id = is_some (vertex_at f (f.vertices id))

pub create_container : Identifier → ℕ → Forest → ℕ × Forest
create_container id level f = (
  f.next,
  record f {
    containers =
        update f.containers f.next
          (record { id = id; level = level; children = []; vertex = none });
    next = suc f.next;
    vertices = update f.vertices id (some f.next);
    vertices_at_level = update f.vertices_at_level level (f.vertices_at_level level ++ f.next ∷ []);
  },
)

-- `getOrCreateVertexContainer`: a known id is returned whatever level is asked for.
pub get_or_create : Identifier → ℕ → Forest → ℕ × Forest
unfolding create_container
get_or_create id level f = elim (f.vertices id) [
  | some r ↦ (r, f)
  | none ↦ create_container id level f
]

pub add_child : ℕ → ℕ × Forest → Forest
add_child child (r, f) =
    let c = f.containers r in
    record f {
      containers = update f.containers r (record c { children = c.children ++ child ∷ [] });
    }

-- `registerWithParent`, for the container r that holds the block.
pub register_with_parent : ℕ → Block → Forest → Outcome Forest
unfolding get_or_create add_child
register_with_parent r block f = if leb (f.containers r).level f.lowest_level then ok f else do
  p ← parent block
  if ltb p.level f.lowest_level then ok f else ok (add_child r (get_or_create p.id p.level f))

pub fill : Block → ℕ × Forest → Outcome Forest
unfolding register_with_parent
fill block (r, f) =
    let c = f.containers r in
    if is_some c.vertex
    then ok f
    else register_with_parent r block
        (record f { containers = update f.containers r (record c { vertex = some block }) })

unfoldable pub add_vertex : Block → Forest → Outcome Forest
unfolding fill
add_vertex block f =
    if ltb (level block) f.lowest_level
    then ok f
    else fill block (get_or_create (vertex_id block) (level block) f)

-- The full vertices among the containers of a list, in order.
pub full_vertices : (ℕ → Container) → List ℕ → List Block
full_vertices at [] = []
full_vertices at (r ∷ rs) =
    let rest = full_vertices at rs in elim (at r).vertex [ none ↦ rest | some b ↦ b ∷ rest ]

count_full : (ℕ → Container) → List ℕ → ℕ
count_full at [] = 0
count_full at (r ∷ rs) = (if is_some (at r).vertex then 1 else 0) + count_full at rs

-- An unknown id gives a nil container, whose children are read all the same.
pub children_of : Forest → Identifier → Outcome (List ℕ)
children_of f id = do r ← deref (f.vertices id); ok (f.containers r).children

pub get_number_of_children : Forest → Identifier → Outcome ℕ
unfolding count_full children_of
get_number_of_children f id = do rs ← children_of f id; ok (count_full f.containers rs)

pub get_number_of_vertices_at_level : Forest → ℕ → ℕ
unfolding count_full
get_number_of_vertices_at_level f l = count_full f.containers (f.vertices_at_level l)
