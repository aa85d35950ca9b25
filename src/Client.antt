-- ===== src/Client.antt =====
-- client.go: the client's check that the nodes agree on the history of a key. What the packages
-- net/http, io/ioutil and encoding/json answer are parameters.
pub mod Values
pub mod Consensus
pub mod Tests
use bamboo.Prelude.{
  ℕ, zero, suc, Bool, true, false, ◌||◌, Option, none, some, List, [], ◌∷◌, ◌++◌, pos, length,
  get_elem?, ltb, if◌then◌else◌,
}
use bamboo.Types.{NodeId}
use bamboo.Identity.{Text, itoa}
use bamboo.Db.{Key, Value, same_bytes, bytes_of}

-- The answer of a node to a GET of a URL, the bytes of an answer's body, and the values they encode;
-- none is an error.
pub record Web (Response : Type 0) : Type 0 where
  pub get : NodeId → Text → Option Response
  pub read_all : Response → Option (List ℕ)
  pub unmarshal : List ℕ → Option (List Value)

-- url + "/history?key=" + strconv.Itoa(int(k))
history_url : Text → Key → Text
history_url url k =
    url
    ++ (b'/' ∷ b'h' ∷ b'i' ∷ b's' ∷ b't' ∷ b'o' ∷ b'r' ∷ b'y' ∷ b'?' ∷ b'k' ∷ b'e' ∷ b'y' ∷ b'='
        ∷ [])
    ++ itoa (pos k)

-- An error is logged and leaves the history empty.
or_empty : Option (List Value) → List Value
or_empty none = []
or_empty (some values) = values

module _ {Response : Type 0} (web : Web Response) where
  decoded : Option (List ℕ) → Option (List Value)
  decoded none = none
  decoded (some body) = web.unmarshal body

  answered : Option Response → Option (List Value)
  unfolding decoded
  answered none = none
  answered (some r) = decoded (web.read_all r)

  -- The first loop: one history for each node with an address for clients.
  unfoldable pub histories : Key → List (NodeId × Text) → List (List Value)
  unfolding history_url or_empty answered
  histories k [] = []
  histories k ((id, url) ∷ addrs) =
      or_empty (answered (web.get id (history_url url k))) ∷ histories k addrs

-- The second loop: the length of the longest history.
pub longest : ℕ → List (List Value) → ℕ
longest n [] = n
longest n (v ∷ hs) = longest (if ltb n (length v) then length v else n) hs

has : List ℕ → List (List ℕ) → Bool
has bytes [] = false
has bytes (x ∷ set) = same_bytes bytes x || has bytes set

-- set[string(v)] = struct{}{}, where v is in range; a nil value is the empty string.
insert : Option Value → List (List ℕ) → List (List ℕ)
unfolding has bytes_of
insert none set = set
insert (some v) set = if has (bytes_of v) set then set else bytes_of v ∷ set

pub values_at : ℕ → List (List Value) → List (List ℕ) → List (List ℕ)
unfolding insert
values_at i [] set = set
values_at i (v ∷ hs) set = values_at i hs (insert (get_elem? v i) set)

-- The third loop, from index i on.
rounds : ℕ → ℕ → List (List Value) → Bool
unfolding values_at
rounds zero i hs = true
rounds (suc k) i hs =
    let rest = rounds k (suc i) hs in if ltb 1 (length (values_at i hs [])) then false else rest

unfoldable pub agree : List (List Value) → Bool
unfolding longest rounds
agree hs = rounds (longest 0 hs) 0 hs

-- `Consensus`
unfoldable pub consensus : {Response : Type 0} → Web Response → Key → List (NodeId × Text) → Bool
unfolding histories agree
consensus web k addrs = agree (histories web k addrs)
