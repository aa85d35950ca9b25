-- ===== src/Db.antt =====
-- db/db.go: a key-value store that keeps its versions, and which commands conflict. A key is an `int`
-- that is only compared; a value is a byte string, and `none` is the nil slice. The mutex is left
-- out: each call holds it from its first read to its return.
pub mod Log
pub mod Reorder
pub mod Tests
use bamboo.Prelude.{
  ℕ, ◌+◌, Bool, true, false, not, ◌&&◌, ◌||◌, Option, none, some, List, [], ◌∷◌, ◌++◌, ◌==◌,
  if◌then◌else◌, update,
}
use bamboo.Types.{NodeId}

abbrev pub Key : Type 0
Key = ℕ

abbrev pub Value : Type 0
Value = Option (List ℕ)

pub record Command : Type 0 where
  pub key : Key
  pub value : Value
  pub client_id : NodeId
  pub command_id : ℕ

-- A history that was never made is the nil slice, which reads as the empty one.
pub record Database : Type 0 where
  pub contents : Key → Value
  pub version : ℕ
  pub multiversion : Bool
  pub history : Key → List (List ℕ)

is_nil : Value → Bool
is_nil none = true
is_nil (some bytes) = false

pub is_read : Command → Bool
unfolding is_nil
is_read c = is_nil c.value

pub is_write : Command → Bool
unfolding is_nil
is_write c = not (is_nil c.value)

-- The empty string is node 0.
pub is_empty : Command → Bool
unfolding is_nil
is_empty c = c.key == 0 && is_nil c.value && c.client_id == 0 && c.command_id == 0

unfoldable pub same_bytes : List ℕ → List ℕ → Bool
same_bytes [] [] = true
same_bytes [] (b ∷ bs) = false
same_bytes (a ∷ as') [] = false
same_bytes (a ∷ as') (b ∷ bs) = a == b && same_bytes as' bs

unfoldable pub bytes_of : Value → List ℕ
bytes_of none = []
bytes_of (some bytes) = bytes

-- `bytes.Equal` takes the nil slice for an empty one.
pub equal : Command → Command → Bool
unfolding same_bytes bytes_of
equal c a =
    c.key == a.key
    && same_bytes (bytes_of c.value) (bytes_of a.value)
    && c.client_id == a.client_id
    && c.command_id == a.command_id

pub new_database : Bool → Database
new_database multi = record {
  contents = λ _. none;
  version = 0;
  multiversion = multi;
  history = λ _. [];
}

note : Bool → Key → List ℕ → (Key → List (List ℕ)) → Key → List (List ℕ)
note multi k bytes history = if multi then update history k (history k ++ bytes ∷ []) else history

pub put : Key → Value → Database → Database
unfolding note
put k none d = d
put k (some bytes) d = record d {
  contents = update d.contents k (some bytes);
  version = d.version + 1;
  history = note d.multiversion k bytes d.history;
}

pub get : Key → Database → Value
get k d = d.contents k

-- The answer is the value before the command.
pub execute : Command → Database → Database × Value
execute c d = (put c.key c.value d, get c.key d)

pub conflict : Command → Command → Bool
conflict gamma delta =
    if gamma.key == delta.key then not (is_read gamma) || not (is_read delta) else false

conflict_with : Command → List Command → Bool
conflict_with c [] = false
conflict_with c (delta ∷ batch) = conflict c delta || conflict_with c batch

pub conflict_batch : List Command → List Command → Bool
unfolding conflict_with
conflict_batch [] batch2 = false
conflict_batch (gamma ∷ batch1) batch2 = conflict_with gamma batch2 || conflict_batch batch1 batch2

-- The commands one after the other, and what they answer.
pub execute_all : List Command → Database → Database × List Value
execute_all [] d = (d, [])
execute_all (c ∷ cs) d =
    let (d', answer) = execute c d in
    let (d'', answers) = execute_all cs d' in (d'', answer ∷ answers)
