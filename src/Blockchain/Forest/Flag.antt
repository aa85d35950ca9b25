-- ===== src/Blockchain/Forest/Flag.antt =====
-- A write through the pointer that `GetBlock` gives out: the protocols set `CommitFromThis` of the
-- block that they are about to commit, and the forest's block changes with it.
use bamboo.Prelude.{
  ℕ, ◌≡◌, refl, sym, ◌∙◌, true, Option, none, some, update, ◌==◌, if◌then◌else◌, arith,
  Option-cases, inl, inr,
}
use bamboo.Types.{Identifier, Block}
use bamboo.Blockchain.Forest.{Forest, get_vertex}
use bamboo.Blockchain.Forest.Invariant.{IsValid, write-IsValid}

abbrev pub flagged : Block → Block
flagged b = record b { commit_from_this = true }

abbrev pub flagged? : Option Block → Option Block
flagged? none = none
flagged? (some b) = some (flagged b)

flag_at : Option ℕ → Forest → Forest
flag_at none f = f
flag_at (some r) f =
    let c = f.containers r in
    record f { containers = update f.containers r (record c { vertex = flagged? c.vertex }) }

pub flag_commit : Identifier → Forest → Forest
unfolding flag_at
flag_commit id f = flag_at (f.vertices id) f

flagged?-some :
    (o : Option Block) (b : Block)
    → flagged? o ≡ some b
    → (a : Block) × (o ≡ some a) × (a.id ≡ b.id)
flagged?-some none b e = absurd (cc)
flagged?-some (some a) b e = (a, refl, cc)

pub flag_commit-IsValid : (id : Identifier) (f : Forest) → IsValid f → IsValid (flag_commit id f)
unfolding flag_commit
flag_commit-IsValid id f v = elim (Option-cases (f.vertices id)) [
  | inl e ↦ rw e v
  | inr (r, e) ↦ rw e (
      write-IsValid f r _ refl refl
        (λ b h.
          let (a, old, same) = flagged?-some (f.containers r).vertex b h in
          sym same ∙ v.full id r a e old ∙ sym (v.named id r e))
        v)
]

-- The flag of one block is set, and every lookup is the same otherwise.
pub get_vertex-flag_commit :
    (id j : Identifier) (f : Forest)
    → IsValid f
    → get_vertex (flag_commit id f) j
      ≡ (if id == j then flagged? (get_vertex f j) else get_vertex f j)
unfolding flag_commit get_vertex
get_vertex-flag_commit id j f v = elim (Option-cases (f.vertices id)) [
  | inl e ↦ elim (Option-cases (f.vertices j)) [
    | inl gone ↦ ground (arith, e, gone)
    | inr (s, there) ↦ ground (arith, e, there)
  ]
  | inr (r, e) ↦ elim (Option-cases (f.vertices j)) [
    | inl gone ↦ ground (arith, e, gone)
    | inr (s, there) ↦ ground (arith, e, there, v.named j s there, v.named id r e)
  ]
]

pub lowest_level-flag_commit :
    (id : Identifier) (f : Forest) → (flag_commit id f).lowest_level ≡ f.lowest_level
unfolding flag_commit
lowest_level-flag_commit id f = ground arith
