-- ===== src/Mempool/Payload.antt =====
-- What goes into the pool comes out of it, in order and once, and the filter knows it.
use mathlib.Core.List.{append-nil, append_assoc}
use bamboo.Prelude.{
  ℕ, zero, suc, ◌≤◌, ◌≡◌, refl, sym, ◌∙◌, ap, true, Option, some, List, [], ◌∷◌, ◌++◌, length, take,
  drop, map, ltb, leb, if◌then◌else◌, arith, Bool-cases, inl, inr, leb→le,
}
use bamboo.Types.{Transaction}
use bamboo.Mempool.{Backend, size, front, fetch, some_txns, generate_payload, add_txn, collect_txn}
use bamboo.Mempool.Bloom.{BitSet, IsBitSet, contains, add, contains-add, contains-add_other}

-- A call of Producer; `collect` puts a transaction of a forked block back.
pub data Op : Type 0 where
  insert : ℕ → Transaction → Op
  collect : Transaction → Op
  generate : ℕ → Op

take_all : (n : ℕ) (l : List Transaction) → length l ≤ n → (take n l ≡ l) × (drop n l ≡ [])
take_all zero [] le = (refl, refl)
take_all (suc n) [] le = (refl, refl)
take_all zero (t ∷ l) le = absurd (omega arith)
take_all (suc n) (t ∷ l) le = let (a, b) = take_all n l (omega arith) in (ap (λ r. t ∷ r) a, b)

take-drop : (n : ℕ) (l : List Transaction) → take n l ++ drop n l ≡ l
take-drop zero l = refl
take-drop (suc n) [] = refl
take-drop (suc n) (t ∷ l) = ap (λ r. t ∷ r) (take-drop n l)

abbrev wrapped : List Transaction → List (Option Transaction)
wrapped l = map some l

wrapped-append : (l r : List Transaction) → wrapped (l ++ r) ≡ wrapped l ++ wrapped r
wrapped-append [] r = refl
wrapped-append (t ∷ l) r = ap (λ (m : List (Option Transaction)). some t ∷ m) (wrapped-append l r)

module _ (B : BitSet) where
  fetch_lem :
      (n : ℕ) (l : List Transaction) (b : Backend B)
      → n ≤ length l
      → fetch B n (record b { txns = l }) ≡ (map some (take n l), record b { txns = drop n l })
  unfolding fetch front
  fetch_lem zero l b le = refl
  fetch_lem (suc n) [] b le = absurd (omega arith)
  fetch_lem (suc n) (t ∷ l) b le = rw (fetch_lem n l b (omega arith)) refl

  -- A payload is the first transactions of the pool, at most as many as asked for and never a nil,
  -- and they leave the pool.
  pub generate_payload_lem :
      (n : ℕ) (b : Backend B)
      → generate_payload B n b ≡ (map some (take n b.txns), record b { txns = drop n b.txns })
  unfolding generate_payload some_txns size
  generate_payload_lem n b = elim (Bool-cases (leb n (length b.txns))) [
    | inl enough ↦ rw enough (fetch_lem n b.txns b (leb→le _ _ enough))
    | inr few ↦
        let (a, c) = take_all n b.txns (ground (arith, few)) in
        let (d, e) = take_all (length b.txns) b.txns (omega arith) in
        rw few (fetch_lem (length b.txns) b.txns b (omega arith) ∙ rw (a, c, d, e) refl)
  ]

  pub step : Op → Backend B → List (Option Transaction) × Backend B
  step (insert now txn) b = ([], add_txn B now txn b)
  step (collect txn) b = ([], collect_txn B txn b)
  step (generate n) b = generate_payload B n b

  pub run : List Op → Backend B → List (Option Transaction) × Backend B
  unfolding step
  run [] b = ([], b)
  run (op ∷ ops) b = let (out, b') = step op b in let (rest, b'') = run ops b' in (out ++ rest, b'')

  -- The transactions that calls put at the end of the pool: those that find it within its limit.
  pub accepted : List Op → Backend B → List Transaction
  unfolding step
  accepted [] b = []
  accepted (insert now txn ∷ ops) b =
      let rest = accepted ops (step (insert now txn) b).1 in
      if ltb b.limit (size B b) then rest else record txn { timestamp = now } ∷ rest
  accepted (collect txn ∷ ops) b = accepted ops (step (collect txn) b).1
  accepted (generate n ∷ ops) b = accepted ops (step (generate n) b).1

  abbrev pub NoCollect : List Op → Type 0
  NoCollect [] = Unit {0}
  NoCollect (insert now txn ∷ ops) = NoCollect ops
  NoCollect (collect txn ∷ ops) = Option.none ≡ some txn
  NoCollect (generate n ∷ ops) = NoCollect ops

  txns-add_txn :
      (now : ℕ) (txn : Transaction) (b : Backend B)
      → (add_txn B now txn b).txns
        ≡ (if ltb b.limit (size B b) then b.txns else b.txns ++ record txn { timestamp = now } ∷ [])
  unfolding add_txn
  txns-add_txn now txn b = ground arith

  -- Without transactions put back, the payloads and what is left in the pool are, in order, what was
  -- in the pool and what it accepted: nothing is lost, repeated or overtaken.
  pub run-accepted :
      (ops : List Op) (b : Backend B)
      → NoCollect ops
      → (run ops b).0 ++ map some (run ops b).1.txns ≡ map some (b.txns ++ accepted ops b)
  unfolding run accepted
  run-accepted [] b none_back = ap wrapped (sym (append-nil b.txns))
  run-accepted (insert now txn ∷ ops) b none_back =
      let rest = run-accepted ops (add_txn B now txn b) none_back in
      elim (Bool-cases (ltb b.limit (size B b))) [
        | inl full ↦
            let same : (add_txn B now txn b).txns ≡ b.txns = rw full at (txns-add_txn now txn b) in
            rw full (rest ∙ ap (λ l. wrapped (l ++ accepted ops (add_txn B now txn b))) same)
        | inr open' ↦
            let x = record txn { timestamp = now } in
            let more : (add_txn B now txn b).txns ≡ b.txns ++ x ∷ [] =
              rw open' at (txns-add_txn now txn b) in
            rw open' (
              rest
              ∙ ap (λ l. wrapped (l ++ accepted ops (add_txn B now txn b))) more
              ∙ ap wrapped (append_assoc b.txns (x ∷ []) (accepted ops (add_txn B now txn b))))
      ]
  run-accepted (collect txn ∷ ops) b none_back = absurd (cc)
  run-accepted (generate n ∷ ops) b none_back =
      let after = record b { txns = drop n b.txns } in
      let acc = accepted ops after in
      rw (generate_payload_lem n b) (
        append_assoc (wrapped (take n b.txns)) (run ops after).0 (wrapped (run ops after).1.txns)
        ∙ ap (λ (r : List (Option Transaction)). wrapped (take n b.txns) ++ r)
            (run-accepted ops after none_back)
        ∙ sym (wrapped-append (take n b.txns) (drop n b.txns ++ acc))
        ∙ ap wrapped (
            sym (append_assoc (take n b.txns) (drop n b.txns) acc)
            ∙ ap (λ (l : List Transaction). l ++ acc) (take-drop n b.txns)))

  bloom-add_txn :
      (now : ℕ) (txn : Transaction) (b : Backend B)
      → (add_txn B now txn b).bloom ≡ add B txn.id b.bloom
  unfolding add_txn
  bloom-add_txn now txn b = ground arith

  bloom-generate_payload : (n : ℕ) (b : Backend B) → (generate_payload B n b).1.bloom ≡ b.bloom
  bloom-generate_payload n b = rw (generate_payload_lem n b) refl

  module _ (law : IsBitSet B) where
    contains-run :
        (ops : List Op) (value : List ℕ) (b : Backend B)
        → contains B value b.bloom ≡ true
        → contains B value (run ops b).1.bloom ≡ true
    unfolding run collect_txn
    contains-run [] value b h = h
    contains-run (insert now txn ∷ ops) value b h =
        contains-run ops value (add_txn B now txn b)
          (rw (bloom-add_txn now txn b) (contains-add_other B law value txn.id b.bloom h))
    contains-run (collect txn ∷ ops) value b h = contains-run ops value (collect_txn B txn b) h
    contains-run (generate n ∷ ops) value b h =
        contains-run ops value (generate_payload B n b).1 (rw (bloom-generate_payload n b) h)

  -- With a bit set that keeps what was set, the filter knows every transaction with an id that was
  -- ever added, whether or not the pool had room, and whatever calls follow.
  pub run-contains :
      (law : IsBitSet B) (now : ℕ) (txn : Transaction) (c : ℕ) (id : List ℕ) (ops : List Op)
      (b : Backend B)
      → txn.id ≡ c ∷ id
      → contains B txn.id (run (insert now txn ∷ ops) b).1.bloom ≡ true
  unfolding run
  run-contains law now txn c id ops b e =
      contains-run law ops txn.id (add_txn B now txn b)
        (rw (bloom-add_txn now txn b, e) (contains-add B law c id b.bloom))
