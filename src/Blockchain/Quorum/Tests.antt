-- ===== src/Blockchain/Quorum/Tests.antt =====
-- The theorems on the votes with one faulty node among four: three votes make a certificate.
use bamboo.Prelude.{insert, ◌<◌, ◌≡◌, refl, Option, none, some, [], arith}
use bamboo.Types.{Vote, Qc, NodeId}
use bamboo.Blockchain.Quorum.{
  Quorum, new_quorum, size, certificate, add, super_majority, record_vote, voters, forget_votes,
  signatures,
}
use bamboo.Blockchain.Quorum.Votes.{
  IsValid, IsQuorumOf, add-IsValid, add-IsQuorumOf, add_once, now, voted, forgot,
  new_quorum-IsValid,
}
use bamboo.Blockchain.Quorum.Overlap.{common, certificates_overlap}

abbrev vote_of : NodeId → Vote
vote_of node = record { view = 5; voter = node; block_id = 15; signature = [] }

-- Two votes are in.
abbrev two_votes : Quorum
two_votes = (add 1 (add 1 (new_quorum 4) (vote_of 1)).1 (vote_of 2)).1

two_votes-IsValid : IsValid 1 two_votes
two_votes-IsValid =
    add-IsValid 1 (add 1 (new_quorum 4) (vote_of 1)).1 (vote_of 2)
      (add-IsValid 1 (new_quorum 4) (vote_of 1) (new_quorum-IsValid 1 4))

or_empty : Option Qc → Qc
or_empty none = record {
  leader = 0;
  view = 0;
  block_id = 0;
  signers = [];
  agg_sig = [];
  signature = [];
}
or_empty (some qc) = qc

qc_of : NodeId → Qc
unfolding or_empty
qc_of node = or_empty (add 1 two_votes (vote_of node)).0

built_3 : (add 1 two_votes (vote_of 3)).0 ≡ some (qc_of 3)
unfolding add new_quorum qc_of super_majority size record_vote insert certificate voters signatures
built_3 = refl

built_4 : (add 1 two_votes (vote_of 4)).0 ≡ some (qc_of 4)
unfolding add new_quorum qc_of super_majority size record_vote insert certificate voters signatures
built_4 = refl

add-IsQuorumOf_example : IsQuorumOf 1 (vote_of 3) (qc_of 3)
add-IsQuorumOf_example = add-IsQuorumOf 1 two_votes (vote_of 3) (qc_of 3) two_votes-IsValid built_3

-- A vote for another block comes in, and then that block's votes are deleted.
abbrev later_votes : Quorum
later_votes =
    forget_votes 16 (add 1 (add 1 two_votes (vote_of 3)).1 (record (vote_of 4) { block_id = 16 })).1

add_once_example : add 1 later_votes (vote_of 4) ≡ (none, later_votes)
add_once_example =
    add_once 1 two_votes later_votes (vote_of 3) (vote_of 4) (qc_of 3) built_3
      (forgot 16 (λ e. absurd (omega (arith, e)))
        (voted (record (vote_of 4) { block_id = 16 }) now))
      refl

two_votes-size : size two_votes 15 ≡ 2
unfolding add new_quorum super_majority size record_vote insert
two_votes-size = refl

certificates_overlap_example : 1 < common (qc_of 3).signers (qc_of 4).signers
unfolding add new_quorum qc_of super_majority size record_vote insert certificate voters signatures
certificates_overlap_example =
    certificates_overlap 1 4 two_votes two_votes (vote_of 3) (vote_of 4) (qc_of 3) (qc_of 4)
      (omega arith) two_votes-IsValid two_votes-IsValid built_3 built_4 (omega arith) (omega arith)
