-- ===== src/Blockchain/Quorum/Votes.antt =====
-- The invariant of a quorum's votes, and what `Add` answers.
use bamboo.Prelude.{
  ℕ, ◌+◌, ◌*◌, ◌≤◌, ◌<◌, ◌≡◌, ◌≢◌, ne→==, refl, true, false, none, some, List, [], ◌∷◌, length,
  length-keys, leb→le, keys, All, AllDistinct, mem, insert, insert-AllDistinct, insert-All,
  length-insert, leb, ◌==◌, if◌then◌else◌, arith, Bool-cases, inl, inr, subst, ==_iff,
}
use bamboo.Types.{Identifier, NodeId, Vote, Qc}
use bamboo.Blockchain.Quorum.{
  Quorum, votes_of, size, super_majority, record_vote, certificate, signatures, voters, add,
  forget_votes, new_quorum,
}

-- A stored vote is kept under its voter and is for the block.
abbrev pub IsFor : Identifier → NodeId × Vote → Type 0
IsFor id e = (e.1.voter ≡ e.0) × (e.1.block_id ≡ id)

-- No voter counts twice, and a block never has more than a quorum of votes.
pub record IsValid (byz_no : ℕ) (q : Quorum) : Type 0 where
  pub distinct : (id : Identifier) → AllDistinct (keys (votes_of (q.votes id)))
  pub bounded : (id : Identifier) → length (votes_of (q.votes id)) ≤ byz_no * 2 + 1
  pub own : (id : Identifier) → All (IsFor id) (votes_of (q.votes id))

length-insert-le : (k : ℕ) (v : Vote) (m : List (ℕ × Vote)) → length (insert k v m) ≤ length m + 1
length-insert-le k v m = ground (arith, length-insert k v m)

record_vote-at :
    (q : Quorum) (v : Vote) (id : Identifier)
    → votes_of ((record_vote q v).votes id) ≡ (
        if v.block_id == id
        then insert v.voter v (votes_of (q.votes v.block_id))
        else votes_of (q.votes id))
unfolding record_vote
record_vote-at q v id = ground arith

-- What holds of the changed votes and of all the others holds after the vote is recorded.
record_vote_cases :
    (P : Identifier → List (NodeId × Vote) → Type 0) (q : Quorum) (v : Vote)
    → P v.block_id (insert v.voter v (votes_of (q.votes v.block_id)))
    → ((id : Identifier) → P id (votes_of (q.votes id)))
    → (id : Identifier) → P id (votes_of ((record_vote q v).votes id))
record_vote_cases P q v new old id = elim (Bool-cases (v.block_id == id)) [
  | inl e ↦
      rw (record_vote-at q v id, e)
        (subst (λ i. P i (insert v.voter v (votes_of (q.votes v.block_id)))) ((==_iff _ _).0 e) new)
  | inr e ↦ rw (record_vote-at q v id, e) (old id)
]

record_vote-IsValid :
    (byz_no : ℕ) (q : Quorum) (v : Vote)
    → super_majority byz_no q v.block_id ≡ false
    → IsValid byz_no q
    → IsValid byz_no (record_vote q v)
unfolding super_majority
record_vote-IsValid byz_no q v few h =
    let m = votes_of (q.votes v.block_id) in
    record {
      distinct =
          record_vote_cases (λ id m. AllDistinct (keys m)) q v
            (insert-AllDistinct v.voter v m (h.distinct v.block_id)) h.distinct;
      bounded =
          record_vote_cases (λ id m. length m ≤ byz_no * 2 + 1) q v
            (ground (arith, length-insert-le v.voter v m)) h.bounded;
      own =
          record_vote_cases (λ id m. All (IsFor id) m) q v
            (insert-All (IsFor v.block_id) v.voter v m (refl, refl) (h.own v.block_id)) h.own;
    }

-- A vote keeps the votes well formed, whether it is counted, refused or completes a quorum.
pub add-IsValid :
    (byz_no : ℕ) (q : Quorum) (v : Vote) → IsValid byz_no q → IsValid byz_no (add byz_no q v).1
unfolding add
add-IsValid byz_no q v h = elim (Bool-cases (super_majority byz_no q v.block_id)) [
  | inl full ↦ rw full h
  | inr few ↦ rw few (elim (Bool-cases (super_majority byz_no (record_vote q v) v.block_id)) [
    | inl done ↦ rw done (record_vote-IsValid byz_no q v few h)
    | inr more ↦ rw more (record_vote-IsValid byz_no q v few h)
  ])
]

voters-keys : (id : Identifier) (m : List (NodeId × Vote)) → All (IsFor id) m → voters m ≡ keys m
unfolding voters
voters-keys id [] h = refl
voters-keys id ((k, v) ∷ m) h = cc (voters-keys id m h.1)

length-signatures : (m : List (NodeId × Vote)) → length (signatures m) ≡ length m
unfolding signatures
length-signatures [] = refl
length-signatures ((k, v) ∷ m) = omega (arith, length-signatures m)

-- What a certificate owes to its block: a quorum of voters, no one twice, and a signature of each.
pub record IsQuorumOf (byz_no : ℕ) (v : Vote) (qc : Qc) : Type 0 where
  pub block : qc.block_id ≡ v.block_id
  pub view : qc.view ≡ v.view
  pub enough : length qc.signers ≡ byz_no * 2 + 1
  pub distinct : AllDistinct qc.signers
  pub signed : length qc.agg_sig ≡ length qc.signers

-- The two answers that a certificate rests on.
add_built :
    (byz_no : ℕ) (q : Quorum) (v : Vote) (qc : Qc)
    → (add byz_no q v).0 ≡ some qc
    → (super_majority byz_no q v.block_id ≡ false)
      × (super_majority byz_no (record_vote q v) v.block_id ≡ true)
      × (qc ≡ certificate (record_vote q v) v)
      × ((add byz_no q v).1 ≡ record_vote q v)
unfolding add
add_built byz_no q v qc e = ground arith

certificate-IsQuorumOf :
    (byz_no : ℕ) (q : Quorum) (v : Vote)
    → IsValid byz_no q
    → super_majority byz_no q v.block_id ≡ true
    → IsQuorumOf byz_no v (certificate q v)
unfolding certificate super_majority
certificate-IsQuorumOf byz_no q v h full =
    let m = votes_of (q.votes v.block_id) in
    let names = voters-keys v.block_id m (h.own v.block_id) in
    record {
      block = refl;
      view = refl;
      enough = rw names (omega (arith, length-keys m, h.bounded v.block_id, leb→le _ _ full));
      distinct = rw names (h.distinct v.block_id);
      signed = rw names (omega (arith, length-keys m, length-signatures m));
    }

-- A certificate carries the signatures of exactly a quorum of different voters. Its view is that of
-- the vote that completed it.
pub add-IsQuorumOf :
    (byz_no : ℕ) (q : Quorum) (v : Vote) (qc : Qc)
    → IsValid byz_no q
    → (add byz_no q v).0 ≡ some qc
    → IsQuorumOf byz_no v qc
add-IsQuorumOf byz_no q v qc h e =
    let (few, full, same, _) = add_built byz_no q v qc e in
    rw same (
      certificate-IsQuorumOf byz_no (record_vote q v) v (record_vote-IsValid byz_no q v few h) full)

-- What the votes become by further votes, for any block, and by deletions of other blocks' votes.
pub data Later (byz_no : ℕ) (block : Identifier) (q : Quorum) : Quorum → Type 0 where
  now : Later byz_no block q q
  voted : (u : Vote) {p : Quorum} → Later byz_no block q p → Later byz_no block q (add byz_no p u).1
  forgot :
      (id : Identifier) {p : Quorum}
      → id ≢ block
      → Later byz_no block q p
      → Later byz_no block q (forget_votes id p)

super_majority-add :
    (byz_no : ℕ) (block : Identifier) (q : Quorum) (u : Vote)
    → super_majority byz_no q block ≡ true
    → super_majority byz_no (add byz_no q u).1 block ≡ true
unfolding add super_majority size
super_majority-add byz_no block q u full = elim (Bool-cases (u.block_id == block)) [
  | inl e ↦
      let same : u.block_id ≡ block = (==_iff _ _).0 e in
      let full' : super_majority byz_no q u.block_id ≡ true = rw same full in rw full' full
  | inr e ↦ let old = record_vote-at q u block in ground (arith, full, old, e)
]

super_majority-forget_votes :
    (byz_no : ℕ) (block id : Identifier) (q : Quorum)
    → id ≢ block
    → super_majority byz_no q block ≡ true
    → super_majority byz_no (forget_votes id q) block ≡ true
unfolding super_majority size forget_votes
super_majority-forget_votes byz_no block id q ne full = ground (arith, full, ne→== id block ne)

super_majority-Later :
    (byz_no : ℕ) (block : Identifier) (q p : Quorum)
    → super_majority byz_no q block ≡ true
    → Later byz_no block q p
    → super_majority byz_no p block ≡ true
super_majority-Later byz_no block q p full now = full
super_majority-Later byz_no block q _ full (voted u {p} l) =
    super_majority-add byz_no block p u (super_majority-Later byz_no block q p full l)
super_majority-Later byz_no block q _ full (forgot id {p} ne l) =
    super_majority-forget_votes byz_no block id p ne (super_majority-Later byz_no block q p full l)

-- A block gets one certificate: once a vote completed it, and whatever votes come and whatever other
-- blocks' votes are deleted, every further vote for the block is refused and changes nothing, as long
-- as the block's own votes are not deleted.
pub add_once :
    (byz_no : ℕ) (q p : Quorum) (v w : Vote) (qc : Qc)
    → (add byz_no q v).0 ≡ some qc
    → Later byz_no v.block_id (add byz_no q v).1 p
    → w.block_id ≡ v.block_id
    → add byz_no p w ≡ (none, p)
unfolding add
add_once byz_no q p v w qc e l same =
    let (_, full, _, next) = add_built byz_no q v qc e in
    let full' = super_majority-Later byz_no v.block_id (add byz_no q v).1 p (rw next full) l in
    rw (same, full') refl

-- The number of votes for a block once this vote is recorded.
abbrev pub grown : Quorum → Vote → ℕ
grown q v =
    size q v.block_id + (if mem v.voter (keys (votes_of (q.votes v.block_id))) then 0 else 1)

size-record_vote :
    (q : Quorum) (v : Vote) (id : Identifier)
    → size (record_vote q v) id ≡ (if v.block_id == id then grown q v else size q id)
unfolding size
size-record_vote q v id = elim (Bool-cases (v.block_id == id)) [
  | inl e ↦ rw (record_vote-at q v id, e) (length-insert v.voter v (votes_of (q.votes v.block_id)))
  | inr e ↦ rw (record_vote-at q v id, e)
]

add_few :
    (byz_no : ℕ) (q : Quorum) (v : Vote)
    → size q v.block_id < byz_no * 2 + 1
    → add byz_no q v ≡ (
        if leb (byz_no * 2 + 1) (grown q v)
        then (some (certificate (record_vote q v) v), record_vote q v)
        else (none, record_vote q v))
unfolding add super_majority
add_few byz_no q v few = ground (arith, size-record_vote q v v.block_id)

-- Before its quorum, a block's count of votes grows by one with each new voter and by none with a
-- known one, the counts of other blocks stay, and a certificate comes exactly with the vote that
-- fills the quorum.
pub add-size :
    (byz_no : ℕ) (q : Quorum) (v : Vote) (id : Identifier)
    → size q v.block_id < byz_no * 2 + 1
    → (size (add byz_no q v).1 id ≡ (if v.block_id == id then grown q v else size q id))
      × ((add byz_no q v).0
          ≡ (if grown q v == byz_no * 2 + 1 then some (certificate (add byz_no q v).1 v) else none))
add-size byz_no q v id few = ground (arith, add_few byz_no q v few, size-record_vote q v id)

pub votes-forget_votes :
    (i j : Identifier) (q : Quorum)
    → (forget_votes i q).votes j ≡ (if i == j then none else q.votes j)
unfolding forget_votes
votes-forget_votes i j q = refl

pub forget_votes-IsValid :
    (byz_no : ℕ) (i : Identifier) (q : Quorum)
    → IsValid byz_no q
    → IsValid byz_no (forget_votes i q)
unfolding forget_votes
forget_votes-IsValid byz_no i q h = record {
  distinct = λ j. elim (Bool-cases (i == j)) [ inl e ↦ rw e tt | inr e ↦ rw e (h.distinct j) ];
  bounded = λ j. ground (arith, h.bounded j);
  own = λ j. elim (Bool-cases (i == j)) [ inl e ↦ rw e tt | inr e ↦ rw e (h.own j) ];
}

pub new_quorum-IsValid : (byz_no n : ℕ) → IsValid byz_no (new_quorum n)
unfolding new_quorum
new_quorum-IsValid byz_no n = record {
  distinct = λ j. tt;
  bounded = λ j. omega arith;
  own = λ j. tt;
}
