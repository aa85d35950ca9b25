-- ===== src/Blockchain/Block.antt =====
-- blockchain/block.go, blockchain/container.go and the vertex interface of blockchain/vertex.go.
-- Hashing (crypto.MakeID, over a gob encoding and SHA-3) is the parameter `make_id`.
use bamboo.Prelude.{◌≡◌, sym, ap, ℕ, Bool, false, Option, some, List, [], ◌∷◌, ℤ}
use bamboo.Outcome.{Outcome, ok, err, fault, deref, ◌>>=◌, >>=-eq-ok, ok-injective}
use bamboo.Types.{View, Identifier, NodeId, Signature, Transaction, Qc, Block}
use bamboo.Crypto.{Keys, priv_sign}

-- What the hash of a block is taken of; its signature and id are empty then.
pub record RawBlock : Type 0 where
  pub view : View
  pub qc : Option Qc
  pub proposer : NodeId
  pub payload : List (List ℕ)
  pub prev_id : Identifier

payload_ids : List Transaction → List (List ℕ)
payload_ids [] = []
payload_ids (t ∷ ts) = t.id ∷ payload_ids ts

-- `b.Sig, _ = PrivSign(…)`: an error leaves the empty signature.
abbrev or_unsigned : Outcome Signature → Outcome Signature
or_unsigned (ok s) = ok s
or_unsigned (err e) = ok []
or_unsigned (fault x) = fault x

pub make_id : (RawBlock → Identifier) → Keys → NodeId → Block → Outcome Block
unfolding payload_ids
make_id hash keys node b =
    let block_id = hash (record {
      view = b.view;
      qc = b.qc;
      proposer = b.proposer;
      payload = payload_ids b.payload;
      prev_id = b.prev_id;
    }) in
    do s ← or_unsigned (priv_sign keys block_id node); ok (record b { id = block_id; sig = s })

pub make_block :
    (RawBlock → Identifier)
    → Keys
    → View
    → Qc
    → Identifier
    → List Transaction
    → NodeId
    → Bool
    → ℤ
    → ℕ
    → Outcome Block
unfolding make_id
make_block hash keys view qc prev_id payload proposer mali fork_num height =
    make_id hash keys proposer (record {
      view = view;
      qc = some qc;
      proposer = proposer;
      payload = payload;
      prev_id = prev_id;
      sig = [];
      id = 0;
      mali = mali;
      fork_num = fork_num;
      height = height;
      commit_from_this = false;
    })

-- The vertex that a block is: its id, its level and its parent's id and level.
abbrev pub vertex_id : Block → Identifier
vertex_id b = b.id

abbrev pub level : Block → ℕ
level b = b.view

pub record Parent : Type 0 where
  pub id : Identifier
  pub level : ℕ

-- `Parent()` reads the view of the block's certificate, which may be nil.
abbrev pub parent : Block → Outcome Parent
parent b = do q ← deref b.qc; ok (record { id = b.prev_id; level = q.view })

make_id_view :
    (hash : RawBlock → Identifier) (keys : Keys) (node : NodeId) (b b' : Block)
    → make_id hash keys node b ≡ ok b'
    → b'.view ≡ b.view
unfolding make_id
make_id_view hash keys node b b' e =
    let block_id = hash (record {
      view = b.view;
      qc = b.qc;
      proposer = b.proposer;
      payload = payload_ids b.payload;
      prev_id = b.prev_id;
    }) in
    let (s, _, done) = >>=-eq-ok (or_unsigned (priv_sign keys block_id node)) _ e in
    let same : record b { id = block_id; sig = s } ≡ b' = ok-injective done in
    sym (ap (λ (x : Block). x.view) same)

-- A block that is made is of the view that was asked for.
pub view-make_block :
    (hash : RawBlock → Identifier) (keys : Keys) (view : View) (qc : Qc) (prev_id : Identifier)
    (payload : List Transaction) (proposer : NodeId) (mali : Bool) (fork_num : ℤ) (height : ℕ)
    (b : Block)
    → make_block hash keys view qc prev_id payload proposer mali fork_num height ≡ ok b
    → b.view ≡ view
unfolding make_block
view-make_block hash keys view qc prev_id payload proposer mali fork_num height b e =
    make_id_view hash keys proposer
      (record {
        view = view;
        qc = some qc;
        proposer = proposer;
        payload = payload;
        prev_id = prev_id;
        sig = [];
        id = 0;
        mali = mali;
        fork_num = fork_num;
        height = height;
        commit_from_this = false;
      })
      b e
