-- ===== src/Config/Tests.antt =====
-- Loads, and the theorems on them at concrete lines.
use bamboo.Prelude.{ℕ, ◌^◌, ◌<◌, true, none, some, List, [], ◌∷◌, pos, leb, length, ◌≡◌, refl}
use bamboo.Types.{NodeId}
use bamboo.Outcome.{ok, fault, panicked}
use bamboo.Identity.{Text, new_node_id, parse_uint}
use bamboo.Config.{Config, tcp_scheme, http_scheme, load, ids, is_byzantine}
use bamboo.Config.Load.{entry, line_address, load-lines, is_byzantine_iff}

abbrev empty : Config
empty = record { addrs = some []; http_addrs = some []; byz_no = pos 1; n = 0 }

abbrev lines : List Text
lines = (b'a' ∷ []) ∷ (b'b' ∷ []) ∷ []

-- A configuration file without addresses leaves a nil map.
nil_map : load lines (record empty { http_addrs = none }) ≡ fault panicked
unfolding load
nil_map = refl

no_ids : ids empty ≡ []
unfolding ids
no_ids = refl

load-lines_example :
    (c' : Config) × (load lines empty ≡ ok c')
    × (c'.n ≡ length lines)
    × ((k : NodeId) → entry k c'.addrs ≡ line_address tcp_scheme 3734 lines k)
    × ((k : NodeId) → entry k c'.http_addrs ≡ line_address http_scheme 8069 lines k)
load-lines_example = load-lines lines empty refl refl

is_byzantine_iff_example :
    ((i : ℕ) → i < 2 ^ 63 → is_byzantine empty (new_node_id (pos i)) ≡ leb i 1)
    × ((id : Text) → parse_uint id ≡ none → is_byzantine empty id ≡ true)
is_byzantine_iff_example = is_byzantine_iff empty 1 refl
