-- ===== src/Client/Tests.antt =====
-- Three nodes: one has a longer history than another, and one does not answer.
use bamboo.Prelude.{
  true, false, Option, none, some, List, [], ◌∷◌, ◌≡◌, refl, ◌↔◌, ◌==◌, if◌then◌else◌,
}
use bamboo.Types.{NodeId}
use bamboo.Identity.{Text}
use bamboo.Db.{Value, same_bytes}
use bamboo.Client.{Web, histories, consensus}
use bamboo.Client.Consensus.{AllAlike, consensus_iff}

abbrev answers : NodeId → Option (List Value)
answers id =
    if id == 1
    then some (some (7 ∷ []) ∷ (none ∷ []))
    else (if id == 2
        then some (some (7 ∷ []) ∷ [])
        else (if id == 4 then some (some (8 ∷ []) ∷ []) else none))

-- A body is a history already.
abbrev sample_web : Web NodeId
sample_web = record {
  get = λ id url. some id;
  read_all = λ id. some (id ∷ []);
  unmarshal = λ body. elim body [ [] ↦ none | id ∷ rest ↦ answers id ];
}

abbrev addresses : List (NodeId × Text)
addresses = (1, []) ∷ ((2, []) ∷ ((3, []) ∷ []))

agreed : consensus sample_web 5 addresses ≡ true
unfolding consensus same_bytes
agreed = refl

-- Nodes that answer with different values do not agree.
differs : consensus sample_web 5 ((4, []) ∷ addresses) ≡ false
unfolding consensus same_bytes
differs = refl

consensus_iff_example :
    (consensus sample_web 5 addresses ≡ true) ↔ AllAlike (histories sample_web 5 addresses)
consensus_iff_example = consensus_iff sample_web 5 addresses
