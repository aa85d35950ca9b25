-- ===== src/Client/Values.antt =====
-- The set of values that the histories have at one index.
use mathlib.Core.List.{Memᴰ}
use bamboo.Prelude.{
  ℕ, ◌≤◌, Bool, true, false, Option, none, some, List, [], ◌∷◌, ◌≡◌, refl, sym, ap, subst,
  if◌then◌else◌, ◌∙◌, inl, inr, length, get_elem?, Option-cases, Bool-cases, arith, ==_refl,
}
use bamboo.Db.{Value, same_bytes, bytes_of}
use bamboo.Client.{has, insert, values_at}

same_bytes_sound : (a b : List ℕ) → same_bytes a b ≡ true → a ≡ b
unfolding same_bytes
same_bytes_sound [] [] e = refl
same_bytes_sound [] (y ∷ b) e = ground (arith, e)
same_bytes_sound (x ∷ a) [] e = ground (arith, e)
same_bytes_sound (x ∷ a) (y ∷ b) e = ground (arith, e, same_bytes_sound a b)

same_bytes_refl : (a : List ℕ) → same_bytes a a ≡ true
unfolding same_bytes
same_bytes_refl [] = refl
same_bytes_refl (x ∷ a) = ground (arith, ==_refl x, same_bytes_refl a)

has-Mem : (a : List ℕ) (set : List (List ℕ)) → has a set ≡ true → Memᴰ a set
unfolding has
has-Mem a [] e = ground (arith, e)
has-Mem a (x ∷ set) e = elim (Bool-cases (same_bytes a x)) [
  | inl same ↦ Memᴰ.head (same_bytes_sound a x same)
  | inr differs ↦ Memᴰ.tail (has-Mem a set (ground (arith, e, differs)))
]

Mem-if :
    {x : List ℕ} (b : Bool) (s t : List (List ℕ))
    → (b ≡ true → Memᴰ x s)
    → (b ≡ false → Memᴰ x t)
    → Memᴰ x (if b then s else t)
Mem-if true s t f g = f refl
Mem-if false s t f g = g refl

-- An inserted value is in the set, and so is what was.
insert-Mem : (v : Value) (set : List (List ℕ)) → Memᴰ (bytes_of v) (insert (some v) set)
unfolding insert
insert-Mem v set =
    Mem-if (has (bytes_of v) set) _ _ (λ there. has-Mem (bytes_of v) set there)
      (λ absent. Memᴰ.head refl)

insert-keeps :
    (o : Option Value) (x : List ℕ) (set : List (List ℕ)) → Memᴰ x set → Memᴰ x (insert o set)
unfolding insert
insert-keeps none x set m = m
insert-keeps (some v) x set m =
    Mem-if (has (bytes_of v) set) _ _ (λ there. m) (λ absent. Memᴰ.tail m)

values_at-keeps :
    (i : ℕ) (hs : List (List Value)) (x : List ℕ) (set : List (List ℕ))
    → Memᴰ x set
    → Memᴰ x (values_at i hs set)
unfolding values_at
values_at-keeps i [] x set m = m
values_at-keeps i (w ∷ hs) x set m =
    values_at-keeps i hs x (insert (get_elem? w i) set) (insert-keeps (get_elem? w i) x set m)

pub values_at-Mem :
    (i : ℕ) (hs : List (List Value)) (set : List (List ℕ)) (v : List Value) (a : Value)
    → Memᴰ v hs
    → get_elem? v i ≡ some a
    → Memᴰ (bytes_of a) (values_at i hs set)
unfolding values_at
values_at-Mem i [] set v a m at = elim m [ ]
values_at-Mem i (w ∷ hs) set v a (Memᴰ.head e) at =
    values_at-keeps i hs (bytes_of a) (insert (get_elem? w i) set) (
      subst (λ o. Memᴰ (bytes_of a) (insert o set)) (sym at ∙ ap (λ u. get_elem? u i) e)
        (insert-Mem a set))
values_at-Mem i (w ∷ hs) set v a (Memᴰ.tail m) at =
    values_at-Mem i hs (insert (get_elem? w i) set) v a m at

-- A set of at most one.
pub single : (x y : List ℕ) (set : List (List ℕ)) → length set ≤ 1 → Memᴰ x set → Memᴰ y set → x ≡ y
single x y [] le m n = elim m [ ]
single x y (z ∷ []) le (Memᴰ.head e) (Memᴰ.head e') = e ∙ sym e'
single x y (z ∷ []) le (Memᴰ.head e) (Memᴰ.tail m) = elim m [ ]
single x y (z ∷ []) le (Memᴰ.tail m) n = elim m [ ]
single x y (z ∷ (w ∷ set)) le m n = ground (arith, le)

-- Histories that all have one value at an index leave one in the set.
values_at-one :
    (i : ℕ) (hs : List (List Value)) (x : List ℕ)
    → ((v : List Value) (a : Value) → Memᴰ v hs → get_elem? v i ≡ some a → bytes_of a ≡ x)
    → values_at i hs (x ∷ []) ≡ x ∷ []
unfolding values_at insert has
values_at-one i [] x same = refl
values_at-one i (w ∷ hs) x same = elim (Option-cases (get_elem? w i)) [
  | inl short ↦ rw short (values_at-one i hs x λ v a m. same v a (Memᴰ.tail m))
  | inr (a, at) ↦
      let e = same w a (Memᴰ.head refl) at in
      rw (at, e, same_bytes_refl x) (values_at-one i hs x λ v b m. same v b (Memᴰ.tail m))
]

pub values_at_le :
    (i : ℕ) (hs : List (List Value))
    → ((v w : List Value) (a b : Value)
        → Memᴰ v hs
        → Memᴰ w hs
        → get_elem? v i ≡ some a
        → get_elem? w i ≡ some b
        → bytes_of a ≡ bytes_of b)
    → length (values_at i hs []) ≤ 1
unfolding values_at insert has
values_at_le i [] same = omega arith
values_at_le i (w ∷ hs) same = elim (Option-cases (get_elem? w i)) [
  | inl short ↦ rw short (values_at_le i hs λ u v a b m n. same u v a b (Memᴰ.tail m) (Memᴰ.tail n))
  | inr (a, at) ↦
      let one =
        values_at-one i hs (bytes_of a)
          λ v b m at'. same v w b a (Memᴰ.tail m) (Memᴰ.head refl) at' at in
      rw at (omega (arith, ap length one))
]
