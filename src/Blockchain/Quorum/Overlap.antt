-- ===== src/Blockchain/Quorum/Overlap.antt =====
-- Two quorums among few enough nodes share an honest one.
use bamboo.Prelude.{
  ℕ, zero, suc, ◌+◌, ◌*◌, ◌≤◌, ◌<◌, ◌≡◌, refl, false, ◌||◌, List, [], ◌∷◌, length, mem, AllDistinct,
  All, ◌==◌, if◌then◌else◌, arith, some,
}
use bamboo.Types.{Vote, Qc}
use bamboo.Blockchain.Quorum.{Quorum, add}
use bamboo.Blockchain.Quorum.Votes.{IsValid, add-IsQuorumOf}

-- How many entries of the first list stand in the second too.
pub common : List ℕ → List ℕ → ℕ
common [] ys = 0
common (x ∷ xs) ys = (if mem x ys then 1 else 0) + common xs ys

-- The entries of the first list that are not in the second, before the second.
join : List ℕ → List ℕ → List ℕ
join [] ys = ys
join (x ∷ xs) ys = let rest = join xs ys in if mem x ys then rest else x ∷ rest

length-join : (xs ys : List ℕ) → length (join xs ys) + common xs ys ≡ length xs + length ys
unfolding join common
length-join [] ys = omega arith
length-join (x ∷ xs) ys = ground (arith, length-join xs ys)

mem-join : (a : ℕ) (xs ys : List ℕ) → mem a (join xs ys) ≡ (mem a xs || mem a ys)
unfolding join
mem-join a [] ys = refl
mem-join a (x ∷ xs) ys = ground (arith, mem-join a xs ys)

join-AllDistinct : (xs ys : List ℕ) → AllDistinct xs → AllDistinct ys → AllDistinct (join xs ys)
unfolding join
join-AllDistinct [] ys hx hy = hy
join-AllDistinct (x ∷ xs) ys hx hy =
    ground (arith, join-AllDistinct xs ys hx.1 hy, mem-join x xs ys)

abbrev pub IsNode : ℕ → ℕ → Type 0
IsNode n x = (1 ≤ x) × (x ≤ n)

join-All :
    (n : ℕ) (xs ys : List ℕ) → All (IsNode n) xs → All (IsNode n) ys → All (IsNode n) (join xs ys)
unfolding join
join-All n [] ys hx hy = hy
join-All n (x ∷ xs) ys hx hy = ground (arith, join-All n xs ys hx.1 hy)

remove : ℕ → List ℕ → List ℕ
remove a [] = []
remove a (x ∷ xs) = let rest = remove a xs in if x == a then rest else x ∷ rest

mem-remove : (a b : ℕ) (xs : List ℕ) → mem b xs ≡ false → mem b (remove a xs) ≡ false
unfolding remove
mem-remove a b [] h = refl
mem-remove a b (x ∷ xs) h = ground (arith, mem-remove a b xs)

remove-AllDistinct : (a : ℕ) (xs : List ℕ) → AllDistinct xs → AllDistinct (remove a xs)
unfolding remove
remove-AllDistinct a [] h = tt
remove-AllDistinct a (x ∷ xs) h = ground (arith, remove-AllDistinct a xs h.1, mem-remove a x xs)

remove_none : (a : ℕ) (xs : List ℕ) → mem a xs ≡ false → length (remove a xs) ≡ length xs
unfolding remove
remove_none a [] h = refl
remove_none a (x ∷ xs) h = ground (arith, remove_none a xs)

length-remove : (a : ℕ) (xs : List ℕ) → AllDistinct xs → length xs ≤ length (remove a xs) + 1
unfolding remove
length-remove a [] h = omega arith
length-remove a (x ∷ xs) h = ground (arith, length-remove a xs h.1, remove_none a xs)

remove-All : (n : ℕ) (xs : List ℕ) → All (IsNode (suc n)) xs → All (IsNode n) (remove (suc n) xs)
unfolding remove
remove-All n [] h = tt
remove-All n (x ∷ xs) h = ground (arith, remove-All n xs h.1)

-- The pigeonhole principle.
pigeonhole : (n : ℕ) (xs : List ℕ) → AllDistinct xs → All (IsNode n) xs → length xs ≤ n
pigeonhole n [] d h = omega arith
pigeonhole zero (x ∷ xs) d h = absurd (omega arith)
pigeonhole (suc n) (x ∷ xs) d h =
    let zs = remove (suc n) (x ∷ xs) in
    omega (
      arith,
      length-remove (suc n) (x ∷ xs) d,
      pigeonhole n zs (remove-AllDistinct (suc n) (x ∷ xs) d) (remove-All n (x ∷ xs) h),
    )

common_bound :
    (n : ℕ) (xs ys : List ℕ)
    → AllDistinct xs
    → AllDistinct ys
    → All (IsNode n) xs
    → All (IsNode n) ys
    → length xs + length ys ≤ n + common xs ys
common_bound n xs ys dx dy hx hy = omega (
  arith,
  length-join xs ys,
  pigeonhole n (join xs ys) (join-AllDistinct xs ys dx dy) (join-All n xs ys hx hy),
)

-- Any two certificates, of whatever replicas and blocks, share more than `byz_no` signers, if there
-- are at most 3 * byz_no + 1 nodes, numbered from 1, and only they vote.
pub certificates_overlap :
    (byz_no n : ℕ) (p q : Quorum) (v w : Vote) (qc qd : Qc)
    → n ≤ 3 * byz_no + 1
    → IsValid byz_no p
    → IsValid byz_no q
    → (add byz_no p v).0 ≡ some qc
    → (add byz_no q w).0 ≡ some qd
    → All (IsNode n) qc.signers
    → All (IsNode n) qd.signers
    → byz_no < common qc.signers qd.signers
certificates_overlap byz_no n p q v w qc qd few hp hq ep eq np nq =
    let c = add-IsQuorumOf byz_no p v qc hp ep in
    let d = add-IsQuorumOf byz_no q w qd hq eq in
    omega
      (arith, c.enough, d.enough, common_bound n qc.signers qd.signers c.distinct d.distinct np nq)
