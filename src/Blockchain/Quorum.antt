-- ===== src/Blockchain/Quorum.antt =====
-- blockchain/quorum.go: the votes of each block and the certificate that a quorum of them yields.
-- `config.GetConfig().ByzNo` is the argument `byz_no`. The inner map of votes is counted and ranged
-- over: it is an association list, and its order stands for the order in which Go ranges over it.
pub mod Votes
pub mod Overlap
pub mod Tests
use bamboo.Prelude.{
  ℕ, ◌+◌, ◌*◌, Bool, Option, none, some, List, [], ◌∷◌, length, update, insert, leb, if◌then◌else◌,
}
use bamboo.Outcome.{Outcome, ok, err, fault, exit, ◌>>=◌}
use bamboo.Types.{View, Identifier, NodeId, Signature, AggSig, Vote, Qc}
use bamboo.Crypto.{Keys, priv_sign}

pub record Quorum : Type 0 where
  pub total : ℕ
  pub votes : Identifier → Option (List (NodeId × Vote))

pub new_quorum : ℕ → Quorum
new_quorum total = record { total = total; votes = λ _. none }

-- A signing error is fatal: it ends in `log.Fatalf`.
abbrev or_exit : Outcome Signature → Outcome Signature
or_exit (ok s) = ok s
or_exit (err e) = fault exit
or_exit (fault x) = fault x

pub make_vote : Keys → View → NodeId → Identifier → Outcome Vote
make_vote keys view voter id = do
  sig ← or_exit (priv_sign keys id voter)
  ok (record { view = view; voter = voter; block_id = id; signature = sig })

abbrev pub votes_of : Option (List (NodeId × Vote)) → List (NodeId × Vote)
votes_of none = []
votes_of (some m) = m

pub size : Quorum → Identifier → ℕ
size q id = length (votes_of (q.votes id))

pub super_majority : ℕ → Quorum → Identifier → Bool
unfolding size
super_majority byz_no q id = leb (byz_no * 2 + 1) (size q id)

-- `getSigs`: the signatures and the voters, in one order.
signatures : List (NodeId × Vote) → AggSig
signatures [] = []
signatures ((_, v) ∷ m) = v.signature ∷ signatures m

voters : List (NodeId × Vote) → List NodeId
voters [] = []
voters ((_, v) ∷ m) = v.voter ∷ voters m

pub record_vote : Quorum → Vote → Quorum
record_vote q vote =
    let m = votes_of (q.votes vote.block_id) in
    record q { votes = update q.votes vote.block_id (some (insert vote.voter vote m)) }

pub certificate : Quorum → Vote → Qc
unfolding signatures voters
certificate q vote =
    let m = votes_of (q.votes vote.block_id) in
    record {
      leader = 0;
      view = vote.view;
      block_id = vote.block_id;
      signers = voters m;
      agg_sig = signatures m;
      signature = [];
    }

-- `Add`: the certificate if this vote completes a quorum, and the votes afterwards.
pub add : ℕ → Quorum → Vote → Option Qc × Quorum
add byz_no q vote =
    let q' = record_vote q vote in
    if super_majority byz_no q vote.block_id
    then (none, q)
    else if super_majority byz_no q' vote.block_id
    then (some (certificate q' vote), q')
    else (none, q')

-- `delete(bc.quorum.votes, id)`
pub forget_votes : Identifier → Quorum → Quorum
forget_votes id q = record q { votes = update q.votes id none }
