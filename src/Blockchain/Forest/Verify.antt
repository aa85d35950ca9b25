-- ===== src/Blockchain/Forest/Verify.antt =====
-- `VerifyVertex`, `isEquivalentToStoredVertex` and `verifyParent` of blockchain/leveled_forrest.go.
use bamboo.Prelude.{
  Bool, true, false, not, Option, none, some, ltb, leb, ◌==◌, if◌then◌else◌, ◌≤◌, ◌<◌, ◌≡◌, ◌⊎◌,
  inl, inr, arith, Bool-cases, refl, sym, ◌∙◌, ap,
}
use bamboo.Outcome.{
  Outcome, ok, err, conflicting_vertices, parent_level_too_high, parent_level_differs, ◌>>=◌,
  >>=-eq-ok, Outcome-cases,
}
use bamboo.Types.{Block}
use bamboo.Blockchain.Block.{Parent, parent, vertex_id, level}
use bamboo.Blockchain.Forest.{Forest, get_vertex}

-- The comparison of the two parents, ids first.
same_parent : Block → Parent → Parent → Outcome Bool
same_parent v new stored =
    if not (new.id == stored.id)
    then err (conflicting_vertices (vertex_id v))
    else if not (new.level == stored.level)
    then err (conflicting_vertices (vertex_id v))
    else ok true

compare_stored : Forest → Block → Option Block → Outcome Bool
unfolding same_parent
compare_stored f v none = ok false
compare_stored f v (some stored) =
    if not (level v == level stored)
    then err (conflicting_vertices (vertex_id v))
    else if leb (level v) f.lowest_level
    then ok true
    else (do new ← parent v; old ← parent stored; same_parent v new old)

pub is_equivalent_to_stored_vertex : Forest → Block → Outcome Bool
unfolding compare_stored
is_equivalent_to_stored_vertex f v = compare_stored f v (get_vertex f (vertex_id v))

check_level : Block → Parent → Option Block → Outcome (Unit {0})
check_level v p none = ok tt
check_level v p (some stored) =
    if not (level stored == p.level) then err (parent_level_differs (vertex_id v)) else ok tt

pub verify_parent : Forest → Block → Outcome (Unit {0})
unfolding check_level
verify_parent f v = do
  p ← parent v
  if not (ltb p.level (level v))
      then err (parent_level_too_high p.level)
      else check_level v p (get_vertex f p.id)

unfoldable pub verify_vertex : Forest → Block → Outcome (Unit {0})
unfolding is_equivalent_to_stored_vertex verify_parent
verify_vertex f v = if ltb (level v) f.lowest_level then ok tt else (do
  known ← is_equivalent_to_stored_vertex f v
  if known then ok tt else if level v == f.lowest_level then ok tt else verify_parent f v)

-- What a verified vertex is worth.
abbrev pub Sound : Forest → Block → Type 0
Sound f v =
    (v.view ≤ f.lowest_level)
    ⊎ ((stored : Block) × (get_vertex f v.id ≡ some stored)
        × (v.view ≡ stored.view)
        × (parent v ≡ parent stored))
    ⊎ ((p : Parent) × (parent v ≡ ok p)
        × (p.level < v.view)
        × ((stored : Block) → get_vertex f p.id ≡ some stored → stored.view ≡ p.level))

Parent-ext : (p q : Parent) → p.id ≡ q.id → p.level ≡ q.level → p ≡ q
Parent-ext p q a b = cc

same_parent-ok : (v : Block) (p q : Parent) → same_parent v p q ≡ ok true → p ≡ q
unfolding same_parent
same_parent-ok v p q e = Parent-ext p q (ground (arith, e)) (ground (arith, e))

compare_stored-ok :
    (f : Forest) (v stored : Block)
    → compare_stored f v (some stored) ≡ ok true
    → (v.view ≤ f.lowest_level) ⊎ ((v.view ≡ stored.view) × (parent v ≡ parent stored))
unfolding compare_stored
compare_stored-ok f v stored e = elim (Outcome-cases (parent v)) [
  | inl (p, a) ↦ elim (Outcome-cases (parent stored)) [
    | inl (q, b) ↦
        let same : (v.view ≤ f.lowest_level)
            ⊎ ((v.view ≡ stored.view) × (same_parent v p q ≡ ok true)) =
          ground (arith, e, a, b) in
        elim same [
          | inl low ↦ inl low
          | inr (level', parents) ↦ inr (level', a ∙ ap ok (same_parent-ok v p q parents) ∙ sym b)
        ]
    | inr (inl (x, b)) ↦ ground (arith, e, a, b)
    | inr (inr (x, b)) ↦ ground (arith, e, a, b)
  ]
  | inr (inl (x, a)) ↦ ground (arith, e, a)
  | inr (inr (x, a)) ↦ ground (arith, e, a)
]

verify_parent-ok :
    (f : Forest) (v : Block)
    → verify_parent f v ≡ ok tt
    → (p : Parent) × (parent v ≡ ok p)
      × (p.level < v.view)
      × ((stored : Block) → get_vertex f p.id ≡ some stored → stored.view ≡ p.level)
unfolding verify_parent check_level
verify_parent-ok f v e =
    let (p, at, e1) = >>=-eq-ok (parent v) _ e in
    (p, at, ground (arith, e1), λ stored there. ground (arith, e1, there))

-- A vertex that `VerifyVertex` accepts is at or below the lowest level, or has the level and the
-- parent of the vertex stored under its id, or its parent is on a smaller level and, if it is stored,
-- on the level that the vertex says.
pub verify_vertex-Sound : (f : Forest) (v : Block) → verify_vertex f v ≡ ok tt → Sound f v
unfolding verify_vertex is_equivalent_to_stored_vertex
verify_vertex-Sound f v e = elim (Bool-cases (ltb v.view f.lowest_level)) [
  | inl low ↦ inl (ground (arith, low))
  | inr high ↦
      let (known, stored, e1) =
        >>=-eq-ok (compare_stored f v (get_vertex f v.id)) _ (rw high at e) in
      elim (Bool-cases known) [
        | inl k ↦ known-Sound (get_vertex f v.id) refl (rw k at stored)
        | inr u ↦ elim (Bool-cases (v.view == f.lowest_level)) [
          | inl at ↦ inl (ground (arith, at))
          | inr off ↦ inr (inr (verify_parent-ok f v (rw (u, off) at e1)))
        ]
      ]
]
  where
    known-Sound :
        (o : Option Block) → get_vertex f v.id ≡ o → compare_stored f v o ≡ ok true → Sound f v
    known-Sound none at h = absurd (ground (arith, h))
    known-Sound (some stored) at h = elim (compare_stored-ok f v stored h) [
      | inl low ↦ inl low
      | inr (same, parents) ↦ inr (inl (stored, at, same, parents))
    ]
