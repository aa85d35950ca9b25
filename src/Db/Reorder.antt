-- ===== src/Db/Reorder.antt =====
-- What the test for conflicts is for: commands without a conflict may change places.
use bamboo.Prelude.{
  ℕ, ◌+◌, Bool, true, false, not, ◌||◌, none, some, List, [], ◌∷◌, ◌≡◌, refl, ap, ◌∙◌, ◌==◌,
  if◌then◌else◌, fun_ext, arith, update,
}
use bamboo.Db.{
  Key, Value, Command, Database, new_database, put, get, execute, execute_all, is_nil, is_read,
  conflict, conflict_with, conflict_batch, note,
}

-- Two writes that are to different keys, or not both writes.
abbrev Apart : Key → Value → Key → Value → Type 0
Apart k v j w = (if k == j then not (is_nil v) || not (is_nil w) else false) ≡ false

update_comm {ℓ} :
    {A : Type ℓ} (f : ℕ → A) (k j : ℕ) (v w : A) (i : ℕ)
    → (k == j) ≡ false
    → update (update f k v) j w i ≡ update (update f j w) k v i
update_comm f k j v w i ne = ground arith

Apart-keys : (k j : Key) (a b : List ℕ) → Apart k (some a) j (some b) → (k == j) ≡ false
unfolding is_nil
Apart-keys k j a b h = ground arith

note_comm :
    (multi : Bool) (k j : Key) (a b : List ℕ) (history : Key → List (List ℕ))
    → (k == j) ≡ false
    → note multi j b (note multi k a history) ≡ note multi k a (note multi j b history)
unfolding note
note_comm false k j a b history ne = refl
note_comm true k j a b history ne = fun_ext λ i. ground arith

put_comm :
    (k j : Key) (v w : Value) (d : Database)
    → Apart k v j w
    → put j w (put k v d) ≡ put k v (put j w d)
unfolding put
put_comm k j none none d h = refl
put_comm k j none (some b) d h = refl
put_comm k j (some a) none d h = refl
put_comm k j (some a) (some b) d h =
    let ne = Apart-keys k j a b h in
    let contents : update (update d.contents k (some a)) j (some b)
        ≡ update (update d.contents j (some b)) k (some a) =
      fun_ext λ i. update_comm d.contents k j (some a) (some b) i ne in
    let history = note_comm d.multiversion k j a b d.history ne in
    λ n. record d { contents = contents n; version = d.version + 1 + 1; history = history n }

get-put_other :
    (k j : Key) (v w : Value) (d : Database) → Apart k v j w → get k (put j w d) ≡ get k d
unfolding get put is_nil
get-put_other k j v none d h = refl
get-put_other k j none (some b) d h = ground arith
get-put_other k j (some a) (some b) d h = ground arith

Apart-conflict :
    (gamma delta : Command)
    → conflict gamma delta ≡ false
    → Apart gamma.key gamma.value delta.key delta.value
unfolding conflict is_read
Apart-conflict gamma delta h = h

Apart-sym : (k j : Key) (v w : Value) → Apart k v j w → Apart j w k v
Apart-sym k j v w h = ground arith

-- A command without a conflict with a batch commutes with the batch: the same database, the same
-- answers, and the same value at the command's key.
past_batch :
    (c : Command) (batch : List Command) (d : Database)
    → conflict_with c batch ≡ false
    → ((execute_all batch (put c.key c.value d)).0 ≡ put c.key c.value (execute_all batch d).0)
      × ((execute_all batch (put c.key c.value d)).1 ≡ (execute_all batch d).1)
      × (get c.key (execute_all batch d).0 ≡ get c.key d)
unfolding conflict_with execute_all execute
past_batch c [] d h = (refl, refl, refl)
past_batch c (e ∷ batch) d h =
    let apart : conflict c e ≡ false = ground arith in
    let rest : conflict_with c batch ≡ false = ground arith in
    let far = Apart-conflict c e apart in
    let (same, says, keeps) = past_batch c batch (put e.key e.value d) rest in
    let swap = put_comm c.key e.key c.value e.value d far in
    (
      rw swap same,
      cc (
        swap,
        says,
        get-put_other e.key c.key e.value c.value d (Apart-sym c.key e.key c.value e.value far),
      ),
      keeps ∙ get-put_other c.key e.key c.value e.value d far,
    )

-- Two batches for which ConflictBatch finds no conflict can be executed in either order: the
-- database ends the same, history and version included, and each batch gets the same answers.
pub execute_all_comm :
    (batch1 batch2 : List Command) (d : Database)
    → conflict_batch batch1 batch2 ≡ false
    → ((execute_all batch2 (execute_all batch1 d).0).0
        ≡ (execute_all batch1 (execute_all batch2 d).0).0)
      × ((execute_all batch2 (execute_all batch1 d).0).1 ≡ (execute_all batch2 d).1)
      × ((execute_all batch1 (execute_all batch2 d).0).1 ≡ (execute_all batch1 d).1)
unfolding conflict_batch execute_all execute
execute_all_comm [] batch2 d h = (refl, refl, refl)
execute_all_comm (c ∷ batch1) batch2 d h =
    let apart : conflict_with c batch2 ≡ false = ground arith in
    let rest : conflict_batch batch1 batch2 ≡ false = ground arith in
    let (same, says, keeps) = past_batch c batch2 d apart in
    let (same', says', keeps') = execute_all_comm batch1 batch2 (put c.key c.value d) rest in
    (same' ∙ ap (λ x. (execute_all batch1 x).0) same, says' ∙ says, cc (keeps, keeps', same))

shows :
    (k j : Key) (v w : Value) (multi : Bool)
    → (if k == j then not (is_nil v) || not (is_nil w) else false) ≡ true
    → ¬ (
        (get j (put k v (new_database multi)) ≡ none)
        × (get k (put j w (new_database multi)) ≡ none))
unfolding get put is_nil new_database
shows k j none none multi h same = ground arith
shows k j none (some b) multi h (first, second) = ground (arith, first, second)
shows k j (some a) w multi h (first, second) = ground (arith, first, second)

-- Where two commands do conflict, one of them gets another answer from the empty database when they
-- change places.
pub conflict_shows :
    (gamma delta : Command) (multi : Bool)
    → conflict gamma delta ≡ true
    → ¬ (
        ((execute delta (execute gamma (new_database multi)).0).1
          ≡ (execute delta (new_database multi)).1)
        × ((execute gamma (execute delta (new_database multi)).0).1
            ≡ (execute gamma (new_database multi)).1))
unfolding conflict is_read execute get new_database
conflict_shows gamma delta multi h = shows gamma.key delta.key gamma.value delta.value multi h
