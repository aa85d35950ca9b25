-- ===== src/Config.antt =====
-- config/config.go: the addresses of the nodes, which `Load` numbers from 1, and who is Byzantine.
-- The decoded JSON file is a parameter, and so are the lines of ips.txt; a map that the file does not
-- give is nil. An id made by `NewNodeID` stands as its number.
pub mod Load
pub mod Tests
use bamboo.Prelude.{
  ℕ, suc, ◌+◌, Bool, Option, none, some, List, [], ◌∷◌, ◌++◌, ℤ, pos, pos_part, neg_part, leb, keys,
  insert, length,
}
use bamboo.Types.{NodeId}
use bamboo.Outcome.{Outcome, ok, err, fault, panicked, ◌>>=◌}
use bamboo.Identity.{Text, itoa, node}

-- The fields that are loaded or asked for; the others are the parameters of the parts that read them.
pub record Config : Type 0 where
  pub addrs : Option (List (NodeId × Text))
  pub http_addrs : Option (List (NodeId × Text))
  pub byz_no : ℤ
  pub n : ℕ

abbrev pub tcp_scheme : Text
tcp_scheme = b't' ∷ b'c' ∷ b'p' ∷ b':' ∷ b'/' ∷ b'/' ∷ []

abbrev pub http_scheme : Text
http_scheme = b'h' ∷ b't' ∷ b't' ∷ b'p' ∷ b':' ∷ b'/' ∷ b'/' ∷ []

-- A scheme, the address of a line, and the i-th port after a base.
pub address : Text → Text → ℕ → ℕ → Text
address scheme ip base i = scheme ++ (ip ++ (b':' ∷ itoa (pos (base + i))))

-- m[k] = v, which panics where the map is nil.
assign : NodeId → Text → Option (List (NodeId × Text)) → Outcome (Option (List (NodeId × Text)))
assign k v none = fault panicked
assign k v (some m) = ok (some (insert k v m))

load_line : ℕ → Text → Config → Outcome Config
unfolding assign
load_line i ip c = assign i (address tcp_scheme ip 3734 i) c.addrs >>= λ addrs.
    assign i (address http_scheme ip 8069 i) c.http_addrs >>= λ http_addrs.
    ok (record c { addrs = addrs; http_addrs = http_addrs })

load_lines : ℕ → List Text → Config → Outcome Config
unfolding load_line
load_lines i [] c = ok c
load_lines i (ip ∷ ips) c = load_line i ip c >>= λ c'. load_lines (suc i) ips c'

size_of : Option (List (NodeId × Text)) → ℕ
size_of none = 0
size_of (some m) = length m

counted : Config → Config
counted c = record c { n = size_of c.addrs }

-- `Load`, after the JSON file gave `c`.
pub load : List Text → Config → Outcome Config
unfolding load_lines counted size_of
load ips c = load_lines 1 ips c >>= λ c'. ok (counted c')

ids_of : Option (List (NodeId × Text)) → List NodeId
ids_of none = []
ids_of (some m) = keys m

pub ids : Config → List NodeId
unfolding ids_of
ids c = ids_of c.addrs

pub is_byzantine : Config → Text → Bool
is_byzantine c id =
    leb (pos_part (node id) + neg_part c.byz_no) (pos_part c.byz_no + neg_part (node id))
