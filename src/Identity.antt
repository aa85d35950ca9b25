-- ===== src/Identity.antt =====
-- identity/identity.go: the text of a node id and the number that is read back from it. The other
-- modules let the number stand for the text. An `int` is an integer of 64 bits; a text is the list of
-- its bytes; the decimal numerals are those of strconv.Itoa and strconv.ParseUint.
pub mod RoundTrip
pub mod Tests
use bamboo.Prelude.{
  ℕ, zero, suc, ◌+◌, ◌-◌, ◌*◌, ◌/◌, ◌%◌, ◌^◌, Bool, true, false, ◌||◌, Option, none, some, List, [],
  ◌∷◌, ℤ, pos, negsuc, ltb, ◌==◌, if◌then◌else◌,
}

abbrev pub Text : Type 0
Text = List ℕ

-- The digits of a positive number, in front of a text; one round for each digit.
digits : ℕ → ℕ → Text → Text
digits zero n rest = rest
digits (suc fuel) n rest =
    let more = digits fuel (n / 10) ((b'0' + n % 10) ∷ rest) in if n == 0 then rest else more

decimal : ℕ → Text
unfolding digits
decimal n = if n == 0 then b'0' ∷ [] else digits n n []

pub itoa : ℤ → Text
unfolding decimal
itoa (pos n) = decimal n
itoa (negsuc n) = b'-' ∷ decimal (n + 1)

-- The digits of a text after a number that was read; a value above 64 bits is refused.
read_digits : Text → ℕ → Option ℕ
read_digits [] n = some n
read_digits (c ∷ text) n =
    let value = n * 10 + (c - b'0') in
    let more = read_digits text value in
    if ltb c b'0' || ltb b'9' c then none else (if ltb value (2 ^ 64) then more else none)

pub parse_uint : Text → Option ℕ
unfolding read_digits
parse_uint [] = none
parse_uint (c ∷ text) = read_digits (c ∷ text) 0

-- -node, which leaves the least `int` as it is.
negated : ℤ → ℤ
negated (pos zero) = pos zero
negated (pos (suc n)) = negsuc n
negated (negsuc n) = if n == 2 ^ 63 - 1 then negsuc n else pos (n + 1)

unsigned : ℤ → ℤ
unfolding negated
unsigned (pos n) = pos n
unsigned (negsuc n) = negated (negsuc n)

pub new_node_id : ℤ → Text
unfolding unsigned
new_node_id node = itoa (unsigned node)

-- int(node) of a 64-bit number.
to_int : ℕ → ℤ
to_int n = if ltb n (2 ^ 63) then pos n else negsuc (2 ^ 64 - 1 - n)

abbrev or_zero : Option ℕ → ℤ
unfolding to_int
or_zero none = pos 0
or_zero (some n) = to_int n

-- The number of an id; a text that is no numeral is logged and reads as 0.
unfoldable pub node : Text → ℤ
unfolding or_zero
node id = or_zero (parse_uint id)
