-- ===== src/Crypto/Verified.antt =====
-- What an accepted certificate has been checked for.
use bamboo.Prelude.{
  ℕ, suc, ◌≡◌, ◌↔◌, refl, true, some, List, [], ◌∷◌, get_elem?, arith, Option-cases, Bool-cases,
  inl, inr,
}
use bamboo.Outcome.{ok, >>=-eq-ok}
use bamboo.Types.{Signature, AggSig, Identifier, NodeId}
use bamboo.Crypto.{Keys, pub_verify, nth_sig, verify_from, verify_quorum_signature}

-- From the i-th signer on, the signature at the signer's place is accepted for the signer.
abbrev pub AllSigned : Keys → AggSig → Identifier → ℕ → List NodeId → Type 0
AllSigned keys sigs id i [] = Unit {0}
AllSigned keys sigs id i (n ∷ ns) =
    ((sig : Signature) × (get_elem? sigs i ≡ some sig) × (pub_verify keys sig id n ≡ ok true))
    × AllSigned keys sigs id (suc i) ns

nth_sig-ok :
    (sigs : AggSig) (i : ℕ) (sig : Signature)
    → nth_sig sigs i ≡ ok sig
    → get_elem? sigs i ≡ some sig
nth_sig-ok sigs i sig e = elim (Option-cases (get_elem? sigs i)) [
  | inl gone ↦ absurd (ground (arith, e, gone))
  | inr (s, there) ↦ ground (arith, e, there)
]

verify_from-AllSigned :
    (keys : Keys) (sigs : AggSig) (id : Identifier) (i : ℕ) (ns : List NodeId)
    → verify_from keys sigs id i ns ≡ ok true
    → AllSigned keys sigs id i ns
unfolding verify_from
verify_from-AllSigned keys sigs id i [] e = tt
verify_from-AllSigned keys sigs id i (n ∷ ns) e =
    let (sig, there, e1) = >>=-eq-ok (nth_sig sigs i) _ e in
    let (good, verdict, e2) = >>=-eq-ok (pub_verify keys sig id n) _ e1 in
    elim (Bool-cases good) [
      | inl yes' ↦ (
        (sig, nth_sig-ok sigs i sig there, rw yes' at verdict),
        verify_from-AllSigned keys sigs id (suc i) ns (rw yes' at e2),
      )
      | inr no' ↦ absurd (cc (rw no' at e2))
    ]

AllSigned-verify_from :
    (keys : Keys) (sigs : AggSig) (id : Identifier) (i : ℕ) (ns : List NodeId)
    → AllSigned keys sigs id i ns
    → verify_from keys sigs id i ns ≡ ok true
unfolding verify_from
AllSigned-verify_from keys sigs id i [] h = refl
AllSigned-verify_from keys sigs id i (n ∷ ns) ((sig, there, good), h) =
    ground (arith, there, good, AllSigned-verify_from keys sigs id (suc i) ns h)

-- `VerifyQuorumSignature` accepts exactly the certificates in which every signer named has, at the
-- signer's own place in the aggregated signature, a signature that the signer's key accepts. It asks
-- nothing of how many signers there are: with none it accepts, and a signer may be named twice.
pub verify_quorum_signature_iff :
    (keys : Keys) (sigs : AggSig) (id : Identifier) (signers : List NodeId)
    → (verify_quorum_signature keys sigs id signers ≡ ok true) ↔ AllSigned keys sigs id 0 signers
unfolding verify_quorum_signature
verify_quorum_signature_iff keys sigs id signers =
    (verify_from-AllSigned keys sigs id 0 signers, AllSigned-verify_from keys sigs id 0 signers)
