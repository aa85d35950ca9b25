-- ===== src/Crypto/Tests.antt =====
-- The check of a certificate with two signers.
use bamboo.Prelude.{◌≡◌, ◌↔◌, true, some, [], ◌∷◌}
use bamboo.Outcome.{ok}
use bamboo.Crypto.{Keys, verify_quorum_signature}
use bamboo.Crypto.Verified.{AllSigned, verify_quorum_signature_iff}

abbrev keys : Keys
keys = record { count = 4; sign = λ i id. some []; verify = λ i sig id. some true }

verify_quorum_signature_iff_example :
    (verify_quorum_signature keys ([] ∷ [] ∷ []) 7 (1 ∷ 2 ∷ []) ≡ ok true)
    ↔ AllSigned keys ([] ∷ [] ∷ []) 7 0 (1 ∷ 2 ∷ [])
verify_quorum_signature_iff_example = verify_quorum_signature_iff keys ([] ∷ [] ∷ []) 7 (1 ∷ 2 ∷ [])
