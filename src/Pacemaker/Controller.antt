-- ===== src/Pacemaker/Controller.antt =====
-- pacemaker/timeoutController.go and pacemaker/viewChangeController.go: the messages of each view,
-- one to a node, until there are more than two thirds of the nodes.
use bamboo.Prelude.{
  ℕ, ◌+◌, ◌*◌, ◌/◌, ◌≤◌, ◌≡◌, refl, Bool, false, Option, none, some, List, [], length, keys, mem,
  AllDistinct, insert, length-insert, insert-AllDistinct, update, ltb, ◌==◌, if◌then◌else◌, arith,
  Bool-cases, inl, inr, ==_refl,
}
use bamboo.Types.{View, NodeId}

pub record Tally {ℓ} (M : Type ℓ) : Type ℓ where
  pub n : ℕ
  pub messages : View → Option (List (NodeId × M))

module _ {ℓ} {M : Type ℓ} where
  pub new_tally : ℕ → Tally M
  new_tally n = record { n = n; messages = λ _. none }

  abbrev pub messages_of : Option (List (NodeId × M)) → List (NodeId × M)
  messages_of none = []
  messages_of (some m) = m

  pub total : Tally M → View → ℕ
  total t view = length (messages_of (t.messages view))

  pub super_majority : Tally M → View → Bool
  super_majority t view = ltb (t.n * 2 / 3) (total t view)

  put : Tally M → View → NodeId → M → Tally M
  put t view node m = record t {
    messages = update t.messages view (some (insert node m (messages_of (t.messages view))));
  }

  -- `AddTmo` and `AddVmo`: whether this message completes a majority for its view.
  pub add : Tally M → View → NodeId → M → Bool × Tally M
  add t view node m =
      let t' = put t view node m in
      if super_majority t view then (false, t) else (super_majority t' view, t')

  -- No node counts twice, and a view never has more messages than complete it.
  pub record IsValid (t : Tally M) : Type ℓ where
    pub distinct : (view : View) → AllDistinct (keys (messages_of (t.messages view)))
    pub bounded : (view : View) → length (messages_of (t.messages view)) ≤ t.n * 2 / 3 + 1

  pub new_tally-IsValid : (n : ℕ) → IsValid (new_tally n)
  unfolding new_tally
  new_tally-IsValid n = record { distinct = λ v. tt; bounded = λ v. omega arith }

  -- The number of messages of the view once the node's is counted.
  abbrev pub grown : Tally M → View → NodeId → ℕ
  grown t view node =
      total t view + (if mem node (keys (messages_of (t.messages view))) then 0 else 1)

  total-put :
      (t : Tally M) (view : View) (node : NodeId) (m : M) (v : View)
      → total (put t view node m) v ≡ (if view == v then grown t view node else total t v)
  unfolding total put
  total-put t view node m v = elim (Bool-cases (view == v)) [
    | inl e ↦ rw e (length-insert node m (messages_of (t.messages view)))
    | inr e ↦ rw e
  ]

  put-IsValid :
      (t : Tally M) (view : View) (node : NodeId) (m : M)
      → super_majority t view ≡ false
      → IsValid t
      → IsValid (put t view node m)
  unfolding put super_majority total
  put-IsValid t view node m few h = record {
    distinct = λ v. elim (Bool-cases (view == v)) [
      | inl e ↦ rw e (insert-AllDistinct node m _ (h.distinct view))
      | inr e ↦ rw e (h.distinct v)
    ];
    bounded =
        λ v. ground (arith, h.bounded v, length-insert node m (messages_of (t.messages view)));
  }

  pub add-IsValid :
      (t : Tally M) (view : View) (node : NodeId) (m : M)
      → IsValid t
      → IsValid (add t view node m).1
  unfolding add
  add-IsValid t view node m h = elim (Bool-cases (super_majority t view)) [
    | inl full ↦ rw full h
    | inr few ↦ rw few (put-IsValid t view node m few h)
  ]

  super_majority-put :
      (t : Tally M) (view : View) (node : NodeId) (m : M)
      → super_majority (put t view node m) view ≡ ltb (t.n * 2 / 3) (grown t view node)
  unfolding super_majority
  super_majority-put t view node m =
      rw (total-put t view node m view, ==_refl view) (unfold put in refl)

  -- A view completes once. While it is open each new node's message counts one and a known node's
  -- none, and the message that makes it more than two thirds, and no other, completes it; once it is
  -- complete every message is refused. The messages of other views stay.
  pub add-total :
      (t : Tally M) (view : View) (node : NodeId) (m : M) (v : View)
      → ((add t view node m).0 ≡ (
          if ltb (t.n * 2 / 3) (total t view)
          then false
          else ltb (t.n * 2 / 3) (grown t view node)))
        × (total (add t view node m).1 v ≡ (
            if ltb (t.n * 2 / 3) (total t view)
            then total t v
            else if view == v
            then grown t view node
            else total t v))
  unfolding add
  add-total t view node m v = elim (Bool-cases (super_majority t view)) [
    | inl full ↦ unfold super_majority in rw full (refl, refl)
    | inr few ↦
        unfold super_majority in
        rw few (super_majority-put t view node m, total-put t view node m v)
  ]
