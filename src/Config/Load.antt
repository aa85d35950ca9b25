-- ===== src/Config/Load.antt =====
-- What `Load` makes of the lines of ips.txt, and which nodes are Byzantine.
use bamboo.Prelude.{
  ℕ, zero, suc, ◌+◌, ◌≤◌, ◌<◌, ◌^◌, true, false, Option, none, some, List, [], ◌∷◌, ℤ, pos, leb,
  keys, insert, lookup, length, get_elem?, mem, lookup-insert, length-insert, mem-keys-insert, ◌≡◌,
  refl, sym, ◌∙◌, arith, subst,
}
use bamboo.Types.{NodeId}
use bamboo.Outcome.{ok}
use bamboo.Identity.{Text, node, new_node_id, parse_uint}
use bamboo.Identity.RoundTrip.{node-new_node_id}
use bamboo.Config.{
  Config, tcp_scheme, http_scheme, address, assign, load_line, load_lines, counted, size_of, load,
  is_byzantine,
}

-- The map after so many lines.
table : Text → ℕ → ℕ → List Text → List (NodeId × Text) → List (NodeId × Text)
table scheme base i [] m = m
table scheme base i (ip ∷ ips) m =
    table scheme base (suc i) ips (insert i (address scheme ip base i) m)

load_lines-table :
    (ips : List Text) (i : ℕ) (m h : List (NodeId × Text)) (byz_no : ℤ) (n : ℕ)
    → load_lines i ips (record { addrs = some m; http_addrs = some h; byz_no = byz_no; n = n })
      ≡ ok (record {
        addrs = some (table tcp_scheme 3734 i ips m);
        http_addrs = some (table http_scheme 8069 i ips h);
        byz_no = byz_no;
        n = n;
      })
unfolding load_lines load_line assign table
load_lines-table [] i m h byz_no n = refl
load_lines-table (ip ∷ ips) i m h byz_no n = load_lines-table ips (suc i) _ _ byz_no n

abbrev address_of : Text → ℕ → NodeId → Option Text → Option Text
address_of scheme base k none = none
address_of scheme base k (some ip) = some (address scheme ip base k)

-- The address that a line gives to a node: node 1 has the first line.
abbrev pub line_address : Text → ℕ → List Text → NodeId → Option Text
line_address scheme base ips zero = none
line_address scheme base ips (suc j) = address_of scheme base (suc j) (get_elem? ips j)

abbrev pub entry : NodeId → Option (List (NodeId × Text)) → Option Text
entry k none = none
entry k (some m) = lookup k m

-- No key from i on.
abbrev IsBelow : ℕ → List (NodeId × Text) → Type 0
IsBelow i m = (k : ℕ) → i ≤ k → mem k (keys m) ≡ false

insert-IsBelow :
    (i : ℕ) (v : Text) (m : List (NodeId × Text)) → IsBelow i m → IsBelow (suc i) (insert i v m)
insert-IsBelow i v m low k le = ground (arith, mem-keys-insert i k v m, low k (omega (arith, le)))

module _ (scheme : Text) (base : ℕ) where
  lookup-table_old :
      (i : ℕ) (ips : List Text) (m : List (NodeId × Text)) (k : NodeId)
      → k < i
      → lookup k (table scheme base i ips m) ≡ lookup k m
  unfolding table
  lookup-table_old i [] m k lt = refl
  lookup-table_old i (ip ∷ ips) m k lt =
      lookup-table_old (suc i) ips _ k (omega (arith, lt))
      ∙ ground (arith, lt, lookup-insert i k (address scheme ip base i) m)

  lookup-none : (k : NodeId) (m : List (NodeId × Text)) → mem k (keys m) ≡ false → lookup k m ≡ none
  lookup-none k [] e = refl
  lookup-none k ((j, v) ∷ m) e = ground (arith, e, lookup-none k m)

  lookup-table :
      (i : ℕ) (ips : List Text) (m : List (NodeId × Text)) (d : ℕ)
      → IsBelow i m
      → lookup (i + d) (table scheme base i ips m)
        ≡ address_of scheme base (i + d) (get_elem? ips d)
  unfolding table
  lookup-table i [] m d low = lookup-none (i + d) m (low (i + d) (omega arith))
  lookup-table i (ip ∷ ips) m zero low =
      let v = address scheme ip base i in
      let same : i + 0 ≡ i = omega arith in
      rw same (
        lookup-table_old (suc i) ips (insert i v m) i (omega arith)
        ∙ lookup-insert i i v m
        ∙ ground arith)
  lookup-table i (ip ∷ ips) m (suc d) low =
      let same : i + suc d ≡ suc i + d = omega arith in
      rw same (lookup-table (suc i) ips _ d (insert-IsBelow i (address scheme ip base i) m low))

  length-table :
      (i : ℕ) (ips : List Text) (m : List (NodeId × Text))
      → IsBelow i m
      → length (table scheme base i ips m) ≡ length m + length ips
  unfolding table
  length-table i [] m low = omega arith
  length-table i (ip ∷ ips) m low =
      let v = address scheme ip base i in
      let more : length (insert i v m) ≡ length m + 1 =
        ground (arith, length-insert i v m, low i (omega arith)) in
      omega (arith, more, length-table (suc i) ips (insert i v m) (insert-IsBelow i v m low))

  lookup-lines :
      (ips : List Text) (k : NodeId)
      → lookup k (table scheme base 1 ips []) ≡ line_address scheme base ips k
  lookup-lines ips zero = lookup-table_old 1 ips [] 0 (omega arith)
  lookup-lines ips (suc j) =
      let same : suc j ≡ 1 + j = omega arith in
      subst
        (λ k. lookup k (table scheme base 1 ips []) ≡ address_of scheme base k (get_elem? ips j))
        (sym same) (lookup-table 1 ips [] j (λ k le. refl))

-- Loading the lines of ips.txt into empty maps ends without a panic and counts as many nodes as there
-- are lines: node k has the address of the k-th line, with the port 3734 + k, and for clients the
-- port 8069 + k, and no other node has an address.
pub load-lines :
    (ips : List Text) (c : Config)
    → c.addrs ≡ some []
    → c.http_addrs ≡ some []
    → (c' : Config) × (load ips c ≡ ok c')
      × (c'.n ≡ length ips)
      × ((k : NodeId) → entry k c'.addrs ≡ line_address tcp_scheme 3734 ips k)
      × ((k : NodeId) → entry k c'.http_addrs ≡ line_address http_scheme 8069 ips k)
unfolding load counted size_of
load-lines ips c a h = (
  record {
    addrs = some (table tcp_scheme 3734 1 ips []);
    http_addrs = some (table http_scheme 8069 1 ips []);
    byz_no = c.byz_no;
    n = length (table tcp_scheme 3734 1 ips []);
  },
  rw (a, h) (rw (load_lines-table ips 1 [] [] c.byz_no c.n) refl),
  omega (arith, length-table tcp_scheme 3734 1 ips [] (λ k le. refl)),
  λ k. lookup-lines tcp_scheme 3734 ips k,
  λ k. lookup-lines http_scheme 8069 ips k,
)

node_unread : (id : Text) → parse_uint id ≡ none → node id ≡ pos 0
unfolding node
node_unread id e = rw e refl

-- With a limit that is not negative, the Byzantine nodes are those with a number up to it; and a text
-- that is no numeral of 64 bits is taken for a Byzantine node too.
pub is_byzantine_iff :
    (c : Config) (limit : ℕ)
    → c.byz_no ≡ pos limit
    → ((i : ℕ) → i < 2 ^ 63 → is_byzantine c (new_node_id (pos i)) ≡ leb i limit)
      × ((id : Text) → parse_uint id ≡ none → is_byzantine c id ≡ true)
unfolding is_byzantine
is_byzantine_iff c limit e = (
  λ i fits. rw (e, node-new_node_id (pos i) fits) (ground arith),
  λ id none'. rw (e, node_unread id none') (ground arith),
)
