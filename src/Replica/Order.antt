-- ===== src/Replica/Order.antt =====
-- The order of the proposals: the views that were announced, read and processed so far.
use mathlib.Core.List.{append-nil, append_assoc}
use bamboo.Prelude.{
  ℕ, zero, suc, ◌+◌, ◌≤◌, ◌≡◌, refl, sym, ◌∙◌, ap, some, subst, length-append, List, [], ◌∷◌, ◌++◌,
  take, drop, length, get_elem?, All, arith,
}
use bamboo.Types.{View, Block}
use bamboo.Pacemaker.Views.{Increasing}
use bamboo.Mempool.Bloom.{BitSet}
use bamboo.Chained.State.{Env}
use bamboo.Chained.Later.{IsValid}
use bamboo.Chained.Progress as Chained
use bamboo.Replica.State.{Event, view, message, Replica}

unfoldable pub views_of : List Block → List View
views_of [] = []
views_of (b ∷ bs) = b.view ∷ views_of bs

-- The views among the waiting events.
unfoldable pub queued : List Event → List View
queued [] = []
queued (view v ∷ es) = v ∷ queued es
queued (message e ∷ es) = queued es

-- The first list is what is left of the second one without some of its entries.
pub data Sub : List View → List View → Type 0 where
  empty : Sub [] []
  skipped : {y : View} {xs ys : List View} → Sub xs ys → Sub xs (y ∷ ys)
  kept : {x : View} {xs ys : List View} → Sub xs ys → Sub (x ∷ xs) (x ∷ ys)

-- What the listener has read are views that were processed, then those that wait; the proposals are
-- of processed views, in their order.
pub record Orderly (views : List View) (seen : ℕ) (queue : List Event) (blocks : List Block)
    : Type 0 where
  pub processed : List View
  pub split : processed ++ queued queue ≡ take seen views
  pub sub : Sub (views_of blocks) processed
  pub within : seen ≤ length views

pub Sub-append-kept : (v : View) {xs ys : List View} → Sub xs ys → Sub (xs ++ v ∷ []) (ys ++ v ∷ [])
Sub-append-kept v empty = kept empty
Sub-append-kept v (skipped s) = skipped (Sub-append-kept v s)
Sub-append-kept v (kept s) = kept (Sub-append-kept v s)

pub Sub-append-skipped : (v : View) {xs ys : List View} → Sub xs ys → Sub xs (ys ++ v ∷ [])
Sub-append-skipped v empty = skipped empty
Sub-append-skipped v (skipped s) = skipped (Sub-append-skipped v s)
Sub-append-skipped v (kept s) = kept (Sub-append-skipped v s)

pub views_of-append :
    (bs : List Block) (b : Block) → views_of (bs ++ b ∷ []) ≡ views_of bs ++ b.view ∷ []
unfolding views_of
views_of-append [] b = refl
views_of-append (a ∷ bs) b = ap (λ l. a.view ∷ l) (views_of-append bs b)

queued-append : (es : List Event) (e : Event) → queued (es ++ e ∷ []) ≡ queued es ++ queued (e ∷ [])
unfolding queued
queued-append [] e = refl
queued-append (view v ∷ es) e = ap (λ l. v ∷ l) (queued-append es e)
queued-append (message m ∷ es) e = queued-append es e

take-append : (n : ℕ) (l more : List View) → n ≤ length l → take n (l ++ more) ≡ take n l
take-append zero l more le = refl
take-append (suc n) [] more le = absurd (omega (arith, le))
take-append (suc n) (x ∷ l) more le = ap (λ r. x ∷ r) (take-append n l more (omega (arith, le)))

take-suc :
    (n : ℕ) (l : List View) (v : View)
    → get_elem? l n ≡ some v
    → (take (suc n) l ≡ take n l ++ v ∷ []) × (suc n ≤ length l)
take-suc n [] v e = absurd (cc)
take-suc zero (x ∷ l) v e = (cc, omega arith)
take-suc (suc n) (x ∷ l) v e =
    let (same, le) = take-suc n l v e in (ap (λ r. x ∷ r) same, omega (arith, le))

pub take_next :
    (n : ℕ) (l : List View) (v : View)
    → get_elem? l n ≡ some v
    → (take (n + 1) l ≡ take n l ++ v ∷ []) × (n + 1 ≤ length l)
take_next n l v e =
    let same : suc n ≡ n + 1 = omega arith in
    subst (λ m. (take m l ≡ take n l ++ v ∷ []) × (m ≤ length l)) same (take-suc n l v e)

-- A strictly increasing list is so at its front, and without some of its entries.
All-front : (P : View → Type 0) (xs ys : List View) → All P (xs ++ ys) → All P xs
All-front P [] ys a = tt
All-front P (x ∷ xs) ys (h, a) = (h, All-front P xs ys a)

pub Increasing-front : (xs ys : List View) → Increasing (xs ++ ys) → Increasing xs
Increasing-front [] ys i = tt
Increasing-front (x ∷ xs) ys (a, i) = (All-front _ xs ys a, Increasing-front xs ys i)

All-Sub : (P : View → Type 0) {xs ys : List View} → Sub xs ys → All P ys → All P xs
All-Sub P empty a = tt
All-Sub P (skipped s) (h, a) = All-Sub P s a
All-Sub P (kept s) (h, a) = (h, All-Sub P s a)

pub Increasing-Sub : {xs ys : List View} → Sub xs ys → Increasing ys → Increasing xs
Increasing-Sub empty i = tt
Increasing-Sub (skipped s) (a, i) = Increasing-Sub s i
Increasing-Sub (kept s) (a, i) = (All-Sub _ s a, Increasing-Sub s i)

take-drop : (n : ℕ) (l : List View) → take n l ++ drop n l ≡ l
take-drop zero l = refl
take-drop (suc n) [] = refl
take-drop (suc n) (x ∷ l) = ap (λ r. x ∷ r) (take-drop n l)

-- The proposals' views grow strictly, as the announced views do.
pub Orderly-Increasing :
    (views : List View) (seen : ℕ) (queue : List Event) (blocks : List Block)
    → Orderly views seen queue blocks
    → Increasing views
    → Increasing (views_of blocks)
Orderly-Increasing views seen queue blocks o i =
    let front =
      Increasing-front (take seen views) (drop seen views)
        (subst Increasing (sym (take-drop seen views)) i) in
    Increasing-Sub o.sub
      (Increasing-front o.processed (queued queue) (subst Increasing (sym o.split) front))

module _ {views : List View} {seen : ℕ} {queue : List Event} {blocks : List Block} where
  -- More views are announced.
  pub Orderly-grow :
      (views' : List View)
      → (added : List View) × (views' ≡ views ++ added)
      → Orderly views seen queue blocks
      → Orderly views' seen queue blocks
  Orderly-grow views' (added, e) o = record {
    processed = o.processed;
    split = o.split ∙ sym (ap (take seen) e ∙ take-append seen views added o.within);
    sub = o.sub;
    within = omega (arith, o.within, ap length e, length-append views added);
  }

  -- A message waits.
  pub Orderly-message :
      (m : Chained.Event)
      → Orderly views seen queue blocks
      → Orderly views seen (queue ++ message m ∷ []) blocks
  unfolding queued
  Orderly-message m o = record {
    processed = o.processed;
    split =
        ap (λ l. o.processed ++ l) (queued-append queue (message m) ∙ append-nil (queued queue))
        ∙ o.split;
    sub = o.sub;
    within = o.within;
  }

  -- The next announced view waits.
  pub Orderly-view :
      (v : View)
      → get_elem? views seen ≡ some v
      → Orderly views seen queue blocks
      → Orderly views (seen + 1) (queue ++ view v ∷ []) blocks
  unfolding queued
  Orderly-view v e o =
      let (same, le) = take_next seen views v e in
      record {
        processed = o.processed;
        split =
            ap (λ l. o.processed ++ l) (queued-append queue (view v))
            ∙ sym (append_assoc o.processed (queued queue) (v ∷ []))
            ∙ ap (λ l. l ++ v ∷ []) o.split
            ∙ sym same;
        sub = o.sub;
        within = le;
      }

  -- A view is processed without a proposal, or with one.
  pub Orderly-skip :
      (v : View) → Orderly views seen (view v ∷ queue) blocks → Orderly views seen queue blocks
  unfolding queued
  Orderly-skip v o = record {
    processed = o.processed ++ v ∷ [];
    split = append_assoc o.processed (v ∷ []) (queued queue) ∙ o.split;
    sub = Sub-append-skipped v o.sub;
    within = o.within;
  }

  pub Orderly-propose :
      (v : View) (b : Block)
      → b.view ≡ v
      → Orderly views seen (view v ∷ queue) blocks
      → Orderly views seen queue (blocks ++ b ∷ [])
  unfolding queued
  Orderly-propose v b e o = record {
    processed = o.processed ++ v ∷ [];
    split = append_assoc o.processed (v ∷ []) (queued queue) ∙ o.split;
    sub =
        subst (λ l. Sub l (o.processed ++ v ∷ []))
          (sym (views_of-append blocks b ∙ ap (λ w. views_of blocks ++ w ∷ []) e))
          (Sub-append-kept v o.sub);
    within = o.within;
  }

  pub Orderly-pop :
      (m : Chained.Event)
      → Orderly views seen (message m ∷ queue) blocks
      → Orderly views seen queue blocks
  unfolding queued
  Orderly-pop m o = record {
    processed = o.processed;
    split = o.split;
    sub = o.sub;
    within = o.within;
  }

-- The protocol's state is well formed, and so is the order, with views that were taken from the
-- waiting events or without.
abbrev pub Ready : {B : BitSet} {Own : Type 0} → Env → List Event → Replica B Own → Type 0
Ready env es r =
    IsValid env r.protocol
    × Orderly r.protocol.pm.new_view_chan r.views_seen (es ++ r.event_chan) r.proposals

abbrev pub Ordered : {B : BitSet} {Own : Type 0} → Env → Replica B Own → Type 0
Ordered env r = Ready env [] r
