-- ===== src/Client/Consensus.antt =====
-- What the client's check of the histories decides.
use mathlib.Core.List.{Memᴰ}
use mathlib.Core.Option.{some_inj}
use bamboo.Prelude.{
  All, ltb, ◌<◌, ℕ, zero, suc, ◌+◌, ◌≤◌, true, some, List, [], ◌∷◌, ◌≡◌, refl, sym, ap, subst,
  if◌then◌else◌, ◌∙◌, ◌↔◌, length, get_elem?, arith,
}
use bamboo.Types.{NodeId}
use bamboo.Identity.{Text}
use bamboo.Db.{Key, Value, bytes_of}
use bamboo.Client.Values.{values_at-Mem, single, values_at_le}
use bamboo.Client.{Web, histories, longest, values_at, rounds, agree, consensus}

longest_le : (n : ℕ) (hs : List (List Value)) → n ≤ longest n hs
unfolding longest
longest_le n [] = omega arith
longest_le n (v ∷ hs) = ground (arith, longest_le (if ltb n (length v) then length v else n) hs)

length-longest :
    (n : ℕ) (hs : List (List Value)) (v : List Value) → Memᴰ v hs → length v ≤ longest n hs
unfolding longest
length-longest n [] v m = elim m [ ]
length-longest n (w ∷ hs) v (Memᴰ.head e) =
    let le = longest_le (if ltb n (length w) then length w else n) hs in
    let e' = ap length e in ground (arith, le, e')
length-longest n (w ∷ hs) v (Memᴰ.tail m) =
    length-longest (if ltb n (length w) then length w else n) hs v m

get_elem?-lt : {A : Type 0} (xs : List A) (i : ℕ) (a : A) → get_elem? xs i ≡ some a → i < length xs
get_elem?-lt [] i a e = ground (arith, e)
get_elem?-lt (x ∷ xs) zero a e = omega arith
get_elem?-lt (x ∷ xs) (suc i) a e = omega (arith, get_elem?-lt xs i a e)

-- The third loop answers yes exactly where every set has one value at most.
rounds_at :
    (k i : ℕ) (hs : List (List Value)) (j : ℕ)
    → rounds k i hs ≡ true
    → j < k
    → length (values_at (i + j) hs []) ≤ 1
unfolding rounds
rounds_at zero i hs j e lt = omega (arith, lt)
rounds_at (suc k) i hs zero e lt = ground (arith, e)
rounds_at (suc k) i hs (suc j) e lt = ground (arith, e, lt, rounds_at k (suc i) hs j)

rounds-true :
    (k i : ℕ) (hs : List (List Value))
    → ((j : ℕ) → length (values_at j hs []) ≤ 1)
    → rounds k i hs ≡ true
unfolding rounds
rounds-true zero i hs le = refl
rounds-true (suc k) i hs le = ground (arith, le i, rounds-true k (suc i) hs le)

-- One history goes on where the other ends, with the same bytes up to there.
pub data Alike : List Value → List Value → Type 0 where
  left_ends : {w : List Value} → Alike [] w
  right_ends : {v : List Value} → Alike v []
  both :
      {a b : Value} {v w : List Value} → bytes_of a ≡ bytes_of b → Alike v w → Alike (a ∷ v) (b ∷ w)

Alike-at :
    {v w : List Value} (i : ℕ) (a b : Value)
    → Alike v w
    → get_elem? v i ≡ some a
    → get_elem? w i ≡ some b
    → bytes_of a ≡ bytes_of b
Alike-at i a b left_ends e e' = ground (arith, e)
Alike-at i a b right_ends e e' = ground (arith, e')
Alike-at zero a b (both same alike) e e' =
    ap bytes_of (some_inj.0 (sym e)) ∙ same ∙ ap bytes_of (some_inj.0 e')
Alike-at (suc i) a b (both same alike) e e' = Alike-at i a b alike e e'

at-Alike :
    (v w : List Value)
    → ((i : ℕ) (a b : Value)
        → get_elem? v i ≡ some a
        → get_elem? w i ≡ some b
        → bytes_of a ≡ bytes_of b)
    → Alike v w
at-Alike [] w same = left_ends
at-Alike (a ∷ v) [] same = right_ends
at-Alike (a ∷ v) (b ∷ w) same =
    both (same 0 a b refl refl) (at-Alike v w λ i x y e e'. same (suc i) x y e e')

add_zero : (i : ℕ) → 0 + i ≡ i
add_zero i = omega arith

-- Any two of the histories are alike.
abbrev pub AllAlike : List (List Value) → Type 0
AllAlike hs = All (λ v. All (Alike v) hs) hs

All-Mem : {A : Type 0} (P : A → Type 0) (xs : List A) → ((x : A) → Memᴰ x xs → P x) → All P xs
All-Mem P [] f = tt
All-Mem P (x ∷ xs) f = (f x (Memᴰ.head refl), All-Mem P xs λ y m. f y (Memᴰ.tail m))

Mem-All : {A : Type 0} (P : A → Type 0) (xs : List A) (x : A) → All P xs → Memᴰ x xs → P x
Mem-All P [] x all m = elim m [ ]
Mem-All P (y ∷ xs) x (p, all) (Memᴰ.head e) = subst P (sym e) p
Mem-All P (y ∷ xs) x (p, all) (Memᴰ.tail m) = Mem-All P xs x all m

agree-AllAlike : (hs : List (List Value)) → agree hs ≡ true → AllAlike hs
unfolding agree
agree-AllAlike hs agreed = All-Mem _ hs λ v m. All-Mem (Alike v) hs λ w n.
    at-Alike v w λ i a b e e'.
      let lt = get_elem?-lt v i a e in
      let le = length-longest 0 hs v m in
      single (bytes_of a) (bytes_of b) (values_at i hs [])
        (subst (λ m. length (values_at m hs []) ≤ 1) (add_zero i)
          (rounds_at (longest 0 hs) 0 hs i agreed (omega (arith, lt, le))))
        (values_at-Mem i hs [] v a m e) (values_at-Mem i hs [] w b n e')

AllAlike-agree : (hs : List (List Value)) → AllAlike hs → agree hs ≡ true
unfolding agree
AllAlike-agree hs alike = rounds-true (longest 0 hs) 0 hs λ j.
    values_at_le j hs
      λ v w a b m n e e'. Alike-at j a b (Mem-All (Alike v) hs w (Mem-All _ hs v alike m) n) e e'

-- The client says that the nodes agree exactly where, of any two histories that it read, one goes
-- on where the other ends, with the same bytes up to there; a node that does not answer, or not with
-- a history, counts as one with an empty history.
pub consensus_iff :
    {Response : Type 0} (web : Web Response) (k : Key) (addrs : List (NodeId × Text))
    → (consensus web k addrs ≡ true) ↔ AllAlike (histories web k addrs)
unfolding consensus
consensus_iff web k addrs =
    (agree-AllAlike (histories web k addrs), AllAlike-agree (histories web k addrs))
