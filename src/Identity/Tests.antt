-- ===== src/Identity/Tests.antt =====
-- Ids of concrete nodes, and the round trip at one of them.
use bamboo.Prelude.{◌-◌, ◌^◌, [], ◌∷◌, pos, negsuc, ◌≡◌, refl, arith}
use bamboo.Identity.{new_node_id, node, itoa, parse_uint}
use bamboo.Identity.RoundTrip.{magnitude, node-new_node_id}

id_of_10 : new_node_id (pos 10) ≡ b'1' ∷ b'0' ∷ []
unfolding new_node_id itoa
id_of_10 = refl

-- The least `int` has no absolute value: its id is the text "-9223372036854775808", which reads as 0.
least_int : node (new_node_id (negsuc (2 ^ 63 - 1))) ≡ pos 0
unfolding node new_node_id itoa parse_uint
least_int = refl

-- A number above the range of `int` reads as a negative one.
wraps : node (itoa (pos (2 ^ 63))) ≡ negsuc (2 ^ 63 - 1)
unfolding node itoa parse_uint
wraps = refl

node-new_node_id_example : node (new_node_id (negsuc 11)) ≡ pos (magnitude (negsuc 11))
node-new_node_id_example = node-new_node_id (negsuc 11) (omega arith)
