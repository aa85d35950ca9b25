-- ===== src/Blockchain/Chain/Validity.antt =====
-- The chain as a whole stays well formed: through added blocks, votes, flags and commits, those that
-- end in an error included.
use bamboo.Prelude.{
  ℕ, ◌≤◌, ◌≡◌, Bool, none, List, mem, arith, Option-cases, Bool-cases, inl, inr, if◌then◌else◌,
}
use bamboo.Outcome.{ok, ok-injective, Outcome-cases, >>=-eq-ok}
use bamboo.Types.{View, Identifier, Block, Vote}
use bamboo.Blockchain.Forest.{get_vertex, add_vertex}
use bamboo.Blockchain.Forest.Invariant as Forest
use bamboo.Blockchain.Forest.Prune.{prune_up_to_level}
use bamboo.Blockchain.Forest.Prune.Pruned.{prune_up_to_level-Pruned}
use bamboo.Blockchain.Forest.Lowest.{lowest_level-add_vertex, lowest_level-prune_up_to_level}
use bamboo.Blockchain.Forest.Flag.{flag_commit, flag_commit-IsValid, lowest_level-flag_commit}
use bamboo.Blockchain.Quorum.{Quorum}
use bamboo.Blockchain.Quorum.Votes as Votes
use bamboo.Blockchain.Chain.{
  BlockChain, new_blockchain, add_block, add_vote, walk, finish_commit, prune_after_walk,
  commit_vertex, commit_block,
}
use bamboo.Blockchain.Chain.Commit.{ids, walk-Walks}

-- The forest is well formed, and so are the votes of every block.
pub record IsValid (byz_no : ℕ) (bc : BlockChain) : Type 0 where
  pub forrest : Forest.IsValid bc.forrest
  pub quorum : Votes.IsValid byz_no bc.quorum

-- What a chain becomes: well formed still, with nothing that was pruned or counted taken back.
pub record Follows (byz_no : ℕ) (bc bc' : BlockChain) : Type 0 where
  pub valid : IsValid byz_no bc'
  pub lowest : bc.forrest.lowest_level ≤ bc'.forrest.lowest_level
  pub committed : bc.committed_block_no ≤ bc'.committed_block_no
  pub pruned : bc.pruned_block_no ≤ bc'.pruned_block_no

pub stays : (byz_no : ℕ) (bc : BlockChain) → IsValid byz_no bc → Follows byz_no bc bc
stays byz_no bc v = record {
  valid = v;
  lowest = omega arith;
  committed = omega arith;
  pruned = omega arith;
}

pub Follows-trans :
    (byz_no : ℕ) (a b c : BlockChain) → Follows byz_no a b → Follows byz_no b c → Follows byz_no a c
Follows-trans byz_no a b c h k = record {
  valid = k.valid;
  lowest = omega (arith, h.lowest, k.lowest);
  committed = omega (arith, h.committed, k.committed);
  pruned = omega (arith, h.pruned, k.pruned);
}

dropped-IsValid :
    (byz_no : ℕ) (p q : Quorum) (gone : Identifier → Bool)
    → ((i : Identifier) → q.votes i ≡ (if gone i then none else p.votes i))
    → Votes.IsValid byz_no p
    → Votes.IsValid byz_no q
dropped-IsValid byz_no p q gone e h = record {
  distinct =
      λ j. elim (Bool-cases (gone j)) [ inl g ↦ rw (e, g) tt | inr g ↦ rw (e, g) (h.distinct j) ];
  bounded = λ j. elim (Bool-cases (gone j)) [
    | inl g ↦ rw (e, g) (omega arith)
    | inr g ↦ rw (e, g) (h.bounded j)
  ];
  own = λ j. elim (Bool-cases (gone j)) [ inl g ↦ rw (e, g) tt | inr g ↦ rw (e, g) (h.own j) ];
}

finish_commit-Follows :
    (byz_no fuel : ℕ) (level : View) (bs : List Block) (bc walked : BlockChain)
    → Follows byz_no bc walked
    → Follows byz_no bc (finish_commit bs walked (prune_up_to_level fuel level walked.forrest)).1
unfolding finish_commit
finish_commit-Follows byz_no fuel level bs bc walked v =
    elim (Outcome-cases (prune_up_to_level fuel level walked.forrest)) [
      | inl (s, e) ↦
          let pruned = (prune_up_to_level-Pruned fuel level walked.forrest s v.valid.forrest e).0 in
          rw e (record {
            valid = record { forrest = pruned.valid; quorum = v.valid.quorum };
            lowest = omega (
              arith,
              v.lowest,
              pruned.lowest,
              lowest_level-prune_up_to_level fuel level walked.forrest s e,
            );
            committed = v.committed;
            pruned = omega (arith, v.pruned);
          })
      | inr (inl (x, e)) ↦ rw e v
      | inr (inr (x, e)) ↦ rw e v
    ]

-- The walk alone.
walk-Follows :
    (byz_no fuel : ℕ) (view : View) (b : Block) (bc walked : BlockChain) (bs : List Block)
    → IsValid byz_no bc
    → walk fuel view b (record bc { highest_comitted = b.view }) ≡ ok (bs, walked)
    → Follows byz_no bc walked
walk-Follows byz_no fuel view b bc walked bs v e =
    let w = (walk-Walks fuel view b (record bc { highest_comitted = b.view }) (bs, walked) e).1 in
    record {
      valid = record {
        forrest = rw w.forrest v.forrest;
        quorum =
            dropped-IsValid byz_no bc.quorum walked.quorum (λ i. mem i (ids bs)) w.votes v.quorum;
      };
      lowest = rw w.forrest (omega arith);
      committed = omega (arith, w.counted);
      pruned = omega (arith, w.pruned);
    }

prune_after_walk-Follows :
    (byz_no fuel : ℕ) (view : View) (b : Block) (bc : BlockChain)
    → IsValid byz_no bc
    → Follows byz_no bc
        (prune_after_walk fuel b.view bc
          (walk fuel view b (record bc { highest_comitted = b.view }))).1
unfolding prune_after_walk
prune_after_walk-Follows byz_no fuel view b bc v =
    elim (Outcome-cases (walk fuel view b (record bc { highest_comitted = b.view }))) [
      | inl ((bs, walked), e) ↦ rw e (
          finish_commit-Follows byz_no fuel b.view bs bc walked
            (walk-Follows byz_no fuel view b bc walked bs v e))
      | inr (inl (x, e)) ↦ rw e (stays byz_no bc v)
      | inr (inr (x, e)) ↦ rw e (stays byz_no bc v)
    ]

-- However a commit ends, with blocks, an error or a panic, the chain stays well formed, and neither
-- the lowest level nor the counts of committed and of pruned blocks fall.
pub commit_block-Follows :
    (byz_no fuel : ℕ) (id : Identifier) (view : View) (bc : BlockChain)
    → IsValid byz_no bc
    → Follows byz_no bc (commit_block fuel id view bc).1
unfolding commit_block commit_vertex
commit_block-Follows byz_no fuel id view bc v = elim (Option-cases (get_vertex bc.forrest id)) [
  | inl e ↦ rw e (stays byz_no bc v)
  | inr (b, e) ↦ rw e (prune_after_walk-Follows byz_no fuel view b bc v)
]

-- Adding a block that does not panic.
pub add_block-Follows :
    (byz_no : ℕ) (b : Block) (bc bc' : BlockChain)
    → IsValid byz_no bc
    → add_block b bc ≡ ok bc'
    → Follows byz_no bc bc'
unfolding add_block
add_block-Follows byz_no b bc bc' v e =
    let (f, added, done) = >>=-eq-ok (add_vertex b bc.forrest) _ e in
    rw (← ok-injective done) (record {
      valid = record {
        forrest = Forest.add_vertex-IsValid b bc.forrest f v.forrest added;
        quorum = v.quorum;
      };
      lowest = omega (arith, lowest_level-add_vertex b bc.forrest f added);
      committed = omega arith;
      pruned = omega arith;
    })

pub add_vote-Follows :
    (byz_no : ℕ) (v : Vote) (bc : BlockChain)
    → IsValid byz_no bc
    → Follows byz_no bc (add_vote byz_no v bc).1
unfolding add_vote
add_vote-Follows byz_no v bc h = record {
  valid = record { forrest = h.forrest; quorum = Votes.add-IsValid byz_no bc.quorum v h.quorum };
  lowest = omega arith;
  committed = omega arith;
  pruned = omega arith;
}

pub flag_commit-Follows :
    (byz_no : ℕ) (id : Identifier) (bc : BlockChain)
    → IsValid byz_no bc
    → Follows byz_no bc (record bc { forrest = flag_commit id bc.forrest })
flag_commit-Follows byz_no id bc h = record {
  valid = record { forrest = flag_commit-IsValid id bc.forrest h.forrest; quorum = h.quorum };
  lowest = omega (arith, lowest_level-flag_commit id bc.forrest);
  committed = omega arith;
  pruned = omega arith;
}

pub new_blockchain-IsValid : (byz_no n : ℕ) → IsValid byz_no (new_blockchain n)
unfolding new_blockchain
new_blockchain-IsValid byz_no n = record {
  forrest = Forest.new_forest-IsValid;
  quorum = Votes.new_quorum-IsValid byz_no n;
}
