-- ===== src/Crypto.antt =====
-- crypto/sign.go. The key pairs come from the ECDSA library (crypto/ecdsa.go only calls it): what a
-- key signs and what it accepts are the parameter `Keys`; the two tables, their indexing by node
-- and the loop over an aggregated signature are the source's.
pub mod Verified
pub mod Tests
use bamboo.Prelude.{
  ℕ, zero, suc, Bool, true, false, Option, none, some, List, [], ◌∷◌, get_elem?, ltb, if◌then◌else◌,
}
use bamboo.Outcome.{Outcome, ok, err, fault, signing_failed, index_range, ◌>>=◌, Error}
use bamboo.Types.{Signature, AggSig, Identifier, NodeId}

-- `keys[i].Sign` and `pubKeys[i].Verify` for i below `count`; `none` is an error.
pub record Keys : Type 0 where
  pub count : ℕ
  pub sign : ℕ → Identifier → Option Signature
  pub verify : ℕ → Signature → Identifier → Option Bool

-- The index `nodeID.Node() - 1` of a table with `count` entries.
pub key_index : Keys → NodeId → Outcome ℕ
key_index keys zero = fault index_range
key_index keys (suc i) = if ltb i keys.count then ok i else fault index_range

abbrev or_fail {ℓ} : {A : Type ℓ} → Option A → Error → Outcome A
or_fail none e = err e
or_fail (some a) e = ok a

pub priv_sign : Keys → Identifier → NodeId → Outcome Signature
unfolding key_index
priv_sign keys block_id node = do
  i ← key_index keys node
  or_fail (keys.sign i block_id) signing_failed

pub pub_verify : Keys → Signature → Identifier → NodeId → Outcome Bool
unfolding key_index
pub_verify keys sig block_id node = do
  i ← key_index keys node
  or_fail (keys.verify i sig block_id) signing_failed

abbrev nth_sig : AggSig → ℕ → Outcome Signature
nth_sig sigs i = elim (get_elem? sigs i) [ none ↦ fault index_range | some s ↦ ok s ]

-- The loop of `VerifyQuorumSignature` from its i-th signer on.
verify_from : Keys → AggSig → Identifier → ℕ → List NodeId → Outcome Bool
verify_from keys sigs block_id i [] = ok true
verify_from keys sigs block_id i (signer ∷ signers) =
    let rest = verify_from keys sigs block_id (suc i) signers in
    do
      sig ← nth_sig sigs i
      good ← pub_verify keys sig block_id signer
      if good then rest else ok false

pub verify_quorum_signature : Keys → AggSig → Identifier → List NodeId → Outcome Bool
unfolding verify_from
verify_quorum_signature keys sigs block_id signers = verify_from keys sigs block_id 0 signers
