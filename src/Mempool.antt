-- ===== src/Mempool.antt =====
-- mempool/: the pool of transactions that wait for a block (backend.go, mempool.go, producer.go) and
-- its Bloom filter (bloom.go). The bit set is a library's and the parameter `BitSet`. The pool's list
-- stands first to last; the size limit and the batch size are configuration.
pub mod Bloom
pub mod Payload
pub mod Tests
use bamboo.Prelude.{
  ℕ, zero, suc, ◌+◌, Bool, true, false, Option, none, some, List, [], ◌∷◌, ◌++◌, length, ltb, leb,
  if◌then◌else◌,
}
use bamboo.Types.{Transaction}
use Bloom.{BitSet, new_bloom_filter, add}

pub record Backend (B : BitSet) : Type 0 where
  pub txns : List Transaction
  pub limit : ℕ
  pub total_received : ℕ
  pub bloom : B.Bits

module _ (B : BitSet) where
  -- `NewBackend`, `NewMemPool` and `NewProducer`
  unfoldable pub new_backend : ℕ → Backend B
  new_backend limit = record {
    txns = [];
    limit = limit;
    total_received = 0;
    bloom = new_bloom_filter B;
  }

  pub size : Backend B → ℕ
  size b = length b.txns

  pub insert_back : Option Transaction → Backend B → Backend B
  unfolding size
  insert_back none b = b
  insert_back (some txn) b =
      if ltb b.limit (size b)
      then b
      else record b { total_received = b.total_received + 1; txns = b.txns ++ txn ∷ [] }

  pub insert_front : Option Transaction → Backend B → Backend B
  insert_front none b = b
  insert_front (some txn) b = record b { txns = txn ∷ b.txns }

  -- The first transaction leaves the list; nil if there is none.
  front_of : List Transaction → Backend B → Option Transaction × Backend B
  front_of [] b = (none, b)
  front_of (txn ∷ txns) b = (some txn, record b { txns = txns })

  pub front : Backend B → Option Transaction × Backend B
  unfolding front_of
  front b = front_of b.txns b

  -- The loop of `some`: n rounds of `front`, appended to a batch.
  pub fetch : ℕ → Backend B → List (Option Transaction) × Backend B
  fetch zero b = ([], b)
  fetch (suc n) b = let (txn, b') = front b in let (rest, b'') = fetch n b' in (txn ∷ rest, b'')

  -- `some`
  pub some_txns : ℕ → Backend B → List (Option Transaction) × Backend B
  unfolding fetch size
  some_txns n b = fetch (if leb n (size b) then n else size b) b

  -- `addNew` stamps the transaction; it enters the filter even if the pool is full.
  pub add_new : ℕ → Transaction → Backend B → Backend B
  unfolding insert_back
  add_new now txn b =
      let b' = insert_back (some (record txn { timestamp = now })) b in
      record b' { bloom = add B txn.id b'.bloom }

  pub add_old : Transaction → Backend B → Backend B
  unfolding insert_front
  add_old txn b = insert_front (some txn) b

  -- The methods of Producer: `GeneratePayload`, `AddTxn` and `CollectTxn`.
  pub generate_payload : ℕ → Backend B → List (Option Transaction) × Backend B
  unfolding some_txns
  generate_payload b_size b = some_txns b_size b

  pub add_txn : ℕ → Transaction → Backend B → Backend B
  unfolding add_new
  add_txn now txn b = add_new now txn b

  pub collect_txn : Transaction → Backend B → Backend B
  unfolding add_old
  collect_txn txn b = add_old txn b
