-- ===== src/Chained/Log.antt =====
-- What a replica promises of the log of its committed blocks: it is built by appending chains of
-- blocks, each block of a chain followed by its parent, and no block of a chain is as low as the
-- newest block of an earlier one.
use bamboo.Prelude.{
  ℕ, ◌≤◌, ◌<◌, All, ◌≡◌, refl, sym, ◌∙◌, List, [], ◌∷◌, ◌++◌, Option, none, some, Option-cases, inl,
  inr, arith, ◌==◌, if◌then◌else◌,
}
use bamboo.Outcome.{ok, err, fault}
use bamboo.Types.{View, Identifier, Block}
use bamboo.Blockchain.Forest.{Forest, get_vertex}
use bamboo.Blockchain.Forest.Flag.{flagged}
use bamboo.Blockchain.Chain.Heightest.{flag_in, flag_committed}
use bamboo.Blockchain.Forest.Invariant as Forest
use bamboo.Blockchain.Chain.{BlockChain, Commits, commit_block}
use bamboo.Blockchain.Chain.Commit.{Ancestors, stop, last, next}
use bamboo.Blockchain.Chain.Once.{commit_block-Committed}

-- Newest first, the parent of each block next.
abbrev pub IsLinked : List Block → Type 0
IsLinked [] = Unit {0}
IsLinked (b ∷ []) = Unit {0}
IsLinked (b ∷ (p ∷ bs)) = (b.prev_id ≡ p.id) × IsLinked (p ∷ bs)

-- The newest block is not above a level.
abbrev pub IsTopped : ℕ → List Block → Type 0
IsTopped level [] = Unit {0}
IsTopped level (b ∷ bs) = b.view ≤ level

-- A chain whose blocks are all above one level and whose newest is not above another.
pub record IsChain (low level : ℕ) (chain : List Block) : Type 0 where
  pub linked : IsLinked chain
  pub above : All (λ (b : Block). low < b.view) chain
  pub topped : IsTopped level chain

-- The steps of a log together with a level that every chain's newest block has reached: all blocks of
-- the next chain are above it.
pub data Appends (low : ℕ) (log : List Block) : ℕ → List Block → Type 0 where
  same : (level : ℕ) → low ≤ level → Appends low log level log
  append :
      (mid level : ℕ) (before chain after : List Block)
      → Appends low log mid before
      → mid ≤ level
      → IsChain mid level chain
      → after ≡ before ++ chain
      → Appends low log level after

IsTopped-mono :
    {mid level : ℕ} (chain : List Block) → mid ≤ level → IsTopped mid chain → IsTopped level chain
IsTopped-mono [] le t = tt
IsTopped-mono (b ∷ bs) le t = omega (arith, le, t)

-- The level may rise without a chain.
pub Appends-mono :
    {low mid level : ℕ} {log after : List Block}
    → mid ≤ level
    → Appends low log mid after
    → Appends low log level after
Appends-mono le (same mid le') = same _ (omega (arith, le, le'))
Appends-mono le (append m mid before chain after a le' c e) =
    append m _ before chain after a (omega (arith, le, le'))
      (record { linked = c.linked; above = c.above; topped = IsTopped-mono chain le c.topped }) e

pub Appends-trans :
    {low mid : ℕ} {first middle : List Block} {level : ℕ} {last : List Block}
    → Appends low first mid middle
    → Appends mid middle level last
    → Appends low first level last
Appends-trans a (same level le) = Appends-mono le a
Appends-trans a (append m level before chain after b le c e) =
    append m level before chain after (Appends-trans a b) le c e

-- The blocks that a commit hands over.
abbrev pub handed_over : Commits → List Block
handed_over (ok (blocks, forked)) = blocks
handed_over (err e) = []
handed_over (fault x) = []

-- These blocks in the log, where one of them is flagged.
abbrev pub released : Option Block → Commits → List Block
released o (ok (blocks, forked)) = flag_committed o blocks
released o (err e) = []
released o (fault x) = []

id-flagged : (i : Identifier) (b : Block) → (if b.id == i then flagged b else b).id ≡ b.id
id-flagged i b = ground arith

prev_id-flagged :
    (i : Identifier) (b : Block) → (if b.id == i then flagged b else b).prev_id ≡ b.prev_id
prev_id-flagged i b = ground arith

view-flagged : (i : Identifier) (b : Block) → (if b.id == i then flagged b else b).view ≡ b.view
view-flagged i b = ground arith

IsLinked-flag_in :
    (i : Identifier) (blocks : List Block) → IsLinked blocks → IsLinked (flag_in i blocks)
IsLinked-flag_in i [] linked = tt
IsLinked-flag_in i (b ∷ []) linked = tt
IsLinked-flag_in i (b ∷ (p ∷ bs)) (e, linked) =
    (prev_id-flagged i b ∙ e ∙ sym (id-flagged i p), IsLinked-flag_in i (p ∷ bs) linked)

above-flag_in :
    (i : Identifier) (low : ℕ) (blocks : List Block)
    → All (λ (b : Block). low < b.view) blocks
    → All (λ (b : Block). low < b.view) (flag_in i blocks)
above-flag_in i low [] a = tt
above-flag_in i low (b ∷ bs) a = (omega (arith, a.0, view-flagged i b), above-flag_in i low bs a.1)

IsTopped-flag_in :
    (i : Identifier) (level : ℕ) (blocks : List Block)
    → IsTopped level blocks
    → IsTopped level (flag_in i blocks)
IsTopped-flag_in i level [] t = tt
IsTopped-flag_in i level (b ∷ bs) t = omega (arith, t, view-flagged i b)

IsChain-flag_committed :
    (o : Option Block) {low level : ℕ} (blocks : List Block)
    → IsChain low level blocks
    → IsChain low level (flag_committed o blocks)
IsChain-flag_committed none blocks c = c
IsChain-flag_committed (some b) {low} {level} blocks c = record {
  linked = IsLinked-flag_in b.id blocks c.linked;
  above = above-flag_in b.id low blocks c.above;
  topped = IsTopped-flag_in b.id level blocks c.topped;
}

id-get_vertex :
    (f : Forest) (i : Identifier) (b : Block)
    → Forest.IsValid f
    → get_vertex f i ≡ some b
    → b.id ≡ i
unfolding get_vertex
id-get_vertex f i b v e = elim (Option-cases (f.vertices i)) [
  | inl unknown ↦ ground (arith, e, unknown)
  | inr (r, found) ↦
      let held : (f.containers r).vertex ≡ some b = ground (arith, e, found) in
      v.full i r b found held
]

-- A block on top of the ancestors of its parent.
IsLinked-cons :
    {f : Forest} {low : ℕ} {p : Block} {rest : List Block} (b : Block)
    → b.prev_id ≡ p.id
    → Ancestors f low p rest
    → IsLinked rest
    → IsLinked (b ∷ rest)
IsLinked-cons b e (stop p le) linked = tt
IsLinked-cons b e (last p lt no_parent) linked = (e, linked)
IsLinked-cons b e (next p q rest lt at above) linked = (e, linked)

IsLinked-Ancestors :
    {f : Forest} {low : ℕ} {b : Block} {blocks : List Block}
    → Forest.IsValid f
    → Ancestors f low b blocks
    → IsLinked blocks
IsLinked-Ancestors v (stop b le) = tt
IsLinked-Ancestors v (last b lt no_parent) = tt
IsLinked-Ancestors {f} v (next b p rest lt at above) =
    IsLinked-cons b (sym (id-get_vertex f b.prev_id p v at)) above (IsLinked-Ancestors v above)

above-Ancestors :
    {f : Forest} {low : ℕ} {b : Block} {blocks : List Block}
    → Ancestors f low b blocks
    → All (λ (c : Block). low < c.view) blocks
above-Ancestors (stop b le) = tt
above-Ancestors (last b lt no_parent) = (lt, tt)
above-Ancestors (next b p rest lt at more) = (lt, above-Ancestors more)

IsTopped-Ancestors :
    {f : Forest} {low : ℕ} {b : Block} {blocks : List Block} (level : ℕ)
    → b.view ≤ level
    → Ancestors f low b blocks
    → IsTopped level blocks
IsTopped-Ancestors level le (stop b le') = tt
IsTopped-Ancestors level le (last b lt no_parent) = le
IsTopped-Ancestors level le (next b p rest lt at more) = le

-- Whatever a commit hands over is a chain above the lowest level, and its newest block is not above
-- the new lowest level.
IsChain-released :
    (o : Option Block) (fuel : ℕ) (id : Identifier) (view : View) (bc bc' : BlockChain)
    (c : Commits)
    → Forest.IsValid bc.forrest
    → commit_block fuel id view bc ≡ (c, bc')
    → IsChain bc.forrest.lowest_level bc'.forrest.lowest_level (released o c)
IsChain-released o fuel id view bc bc' (ok (blocks, forked)) v e =
    let (b, at, c) = commit_block-Committed fuel id view bc bc' blocks forked v e in
    IsChain-flag_committed o blocks (record {
      linked = IsLinked-Ancestors v c.ancestors;
      above = above-Ancestors c.ancestors;
      topped = IsTopped-Ancestors _ (omega (arith, c.pruned.lowest)) c.ancestors;
    })
IsChain-released o fuel id view bc bc' (err x) v e = record { linked = tt; above = tt; topped = tt }
IsChain-released o fuel id view bc bc' (fault x) v e = record {
  linked = tt;
  above = tt;
  topped = tt;
}

pub Appends-commit_block :
    {low : ℕ} (log before : List Block) (o : Option Block) (fuel : ℕ) (id : Identifier)
    (view : View) (bc : BlockChain)
    → Forest.IsValid bc.forrest
    → bc.forrest.lowest_level ≤ (commit_block fuel id view bc).1.forrest.lowest_level
    → Appends low log bc.forrest.lowest_level before
    → Appends low log
        (commit_block fuel id view bc).1.forrest.lowest_level
        (before ++ released o (commit_block fuel id view bc).0)
Appends-commit_block log before o fuel id view bc v le a =
    let r = commit_block fuel id view bc in
    append bc.forrest.lowest_level r.1.forrest.lowest_level before (released o r.0)
      (before ++ released o r.0) a le (IsChain-released o fuel id view bc r.1 r.0 v refl) refl
