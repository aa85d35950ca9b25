-- ===== src/Db/Tests.antt =====
-- Runs of the database, and the theorems on it at concrete commands.
use bamboo.Prelude.{true, false, none, some, List, [], ◌∷◌, ◌≡◌, refl}
use bamboo.Db.{
  Command, new_database, put, get, execute, execute_all, conflict, conflict_batch, equal, is_empty,
  is_read, is_write,
}
use bamboo.Db.Log.{Represents, answers, execute_all-log}
use bamboo.Db.Reorder.{execute_all_comm}

abbrev read_1 : Command
read_1 = record { key = 1; value = none; client_id = 4; command_id = 1 }

abbrev write_1 : Command
write_1 = record { key = 1; value = some (b'a' ∷ []); client_id = 4; command_id = 2 }

abbrev write_2 : Command
write_2 = record { key = 2; value = some []; client_id = 5; command_id = 3 }

abbrev commands : List Command
commands = read_1 ∷ write_1 ∷ write_2 ∷ read_1 ∷ []

-- An empty slice is a value, which a nil slice is not.
answers_commands :
    (execute_all commands (new_database true)).1 ≡ none ∷ none ∷ none ∷ some (b'a' ∷ []) ∷ []
unfolding execute_all execute new_database put get
answers_commands = refl

get_empty : get 2 (execute_all commands (new_database true)).0 ≡ some []
unfolding execute_all execute new_database put get
get_empty = refl

is_empty_tests :
    (is_empty (record { key = 0; value = none; client_id = 0; command_id = 0 }) ≡ true)
    × (is_empty read_1 ≡ false)
    × (is_write write_2 ≡ true)
unfolding is_empty is_write
is_empty_tests = (refl, refl, refl)

execute_all-log_example :
    Represents true commands (execute_all commands (new_database true)).0
    × ((execute_all commands (new_database true)).1 ≡ answers [] commands)
execute_all-log_example = execute_all-log true commands

apart : conflict_batch (read_1 ∷ write_1 ∷ []) (write_2 ∷ []) ≡ false
unfolding conflict_batch conflict is_read
apart = refl

execute_all_comm_example :
    ((execute_all (write_2 ∷ []) (execute_all (read_1 ∷ write_1 ∷ []) (new_database true)).0).0
      ≡ (execute_all (read_1 ∷ write_1 ∷ []) (execute_all (write_2 ∷ []) (new_database true)).0).0)
    × ((execute_all (write_2 ∷ []) (execute_all (read_1 ∷ write_1 ∷ []) (new_database true)).0).1
        ≡ (execute_all (write_2 ∷ []) (new_database true)).1)
    × ((execute_all (read_1 ∷ write_1 ∷ []) (execute_all (write_2 ∷ []) (new_database true)).0).1
        ≡ (execute_all (read_1 ∷ write_1 ∷ []) (new_database true)).1)
execute_all_comm_example =
    execute_all_comm (read_1 ∷ write_1 ∷ []) (write_2 ∷ []) (new_database true) apart

conflicting : conflict read_1 write_1 ≡ true
unfolding conflict is_read
conflicting = refl

-- A read and the write of an empty value are equal commands that conflict.
equal-conflict :
    (equal read_1 (record read_1 { value = some [] }) ≡ true)
    × (conflict read_1 (record read_1 { value = some [] }) ≡ true)
unfolding equal conflict is_read
equal-conflict = (refl, refl)
