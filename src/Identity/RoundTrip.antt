-- ===== src/Identity/RoundTrip.antt =====
-- A node id reads back as the number that it was made of.
use bamboo.Prelude.{
  ℕ, zero, suc, ◌+◌, ◌/◌, ◌%◌, ◌^◌, ◌<◌, ◌≤◌, false, some, [], ◌∷◌, ℤ, pos, negsuc, ◌≡◌, refl, ◌∙◌,
  arith, ◌==◌, Bool-cases, inl, inr,
}
use bamboo.Identity.{
  Text, digits, decimal, itoa, read_digits, parse_uint, negated, unsigned, new_node_id, to_int,
  or_zero, node,
}

abbrev pub magnitude : ℤ → ℕ
magnitude (pos n) = n
magnitude (negsuc n) = n + 1

-- The last digit, read after the others.
read_last :
    (n : ℕ) (rest : Text)
    → n < 2 ^ 64
    → read_digits ((b'0' + n % 10) ∷ rest) (n / 10) ≡ read_digits rest n
unfolding read_digits
read_last n rest fits = ground arith

read_digits-digits :
    (fuel n : ℕ) (rest : Text)
    → n ≤ fuel
    → n < 2 ^ 64
    → read_digits (digits fuel n rest) 0 ≡ read_digits rest n
unfolding digits
read_digits-digits zero n rest enough fits = ground arith
read_digits-digits (suc fuel) n rest enough fits = elim (Bool-cases (n == 0)) [
  | inl done ↦ rw done (ground (arith, done))
  | inr more ↦ rw more (
      read_digits-digits fuel (n / 10) ((b'0' + n % 10) ∷ rest) (ground (arith, more)) (omega arith)
      ∙ read_last n rest fits)
]

-- The digits of a number stand in front of a text that is not empty.
parse_uint-digits :
    (fuel n c : ℕ) (rest : Text)
    → parse_uint (digits fuel n (c ∷ rest)) ≡ read_digits (digits fuel n (c ∷ rest)) 0
unfolding digits parse_uint
parse_uint-digits zero n c rest = refl
parse_uint-digits (suc fuel) n c rest = elim (Bool-cases (n == 0)) [
  | inl done ↦ rw done refl
  | inr more ↦ rw more (parse_uint-digits fuel (n / 10) (b'0' + n % 10) (c ∷ rest))
]

parse_uint-decimal : (n : ℕ) → n < 2 ^ 64 → parse_uint (decimal n) ≡ some n
unfolding decimal digits read_digits parse_uint
parse_uint-decimal zero fits = refl
parse_uint-decimal (suc m) fits =
    let positive : (suc m == 0) ≡ false = ground arith in
    rw positive (
      parse_uint-digits m (suc m / 10) (b'0' + suc m % 10) []
      ∙ read_digits-digits m (suc m / 10) ((b'0' + suc m % 10) ∷ []) (omega arith) (omega arith)
      ∙ read_last (suc m) [] fits)

magnitude_of : (i : ℤ) → magnitude i < 2 ^ 63 → unsigned i ≡ pos (magnitude i)
unfolding unsigned negated
magnitude_of (pos n) fits = refl
magnitude_of (negsuc n) fits = ground arith

-- The id made of an `int` other than the least one reads back as its absolute value. So no two nodes
-- with non-negative numbers share an id.
pub node-new_node_id : (i : ℤ) → magnitude i < 2 ^ 63 → node (new_node_id i) ≡ pos (magnitude i)
unfolding node new_node_id itoa to_int or_zero
node-new_node_id i fits =
    rw (magnitude_of i fits)
      (rw (parse_uint-decimal (magnitude i) (omega (arith, fits))) (ground (arith, fits)))
