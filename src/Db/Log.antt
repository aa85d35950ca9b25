-- ===== src/Db/Log.antt =====
-- What the database promises: it stands for the log of the commands that were executed.
use mathlib.Core.List.{append_assoc, append-nil}
use bamboo.Prelude.{
  ℕ, ◌+◌, Bool, true, false, none, some, List, [], ◌∷◌, ◌++◌, ◌≡◌, refl, sym, ap, ◌∙◌, ◌==◌,
  if◌then◌else◌, length, length-append, subst, arith,
}
use bamboo.Db.{Key, Value, Command, Database, new_database, put, get, execute, execute_all}

abbrev written : Value → List (List ℕ)
written none = []
written (some bytes) = bytes ∷ []

abbrev written_at : Key → Key → Value → List (List ℕ)
written_at k j v = if j == k then written v else []

-- The values written at a key, oldest first; all that were written; the last one.
abbrev pub versions : Key → List Command → List (List ℕ)
versions k [] = []
versions k (c ∷ log) = written_at k c.key c.value ++ versions k log

abbrev pub writes : List Command → List (List ℕ)
writes [] = []
writes (c ∷ log) = written c.value ++ writes log

abbrev or_some : Value → List ℕ → Value
or_some none bytes = some bytes
or_some (some later) bytes = some later

abbrev pub last : List (List ℕ) → Value
last [] = none
last (bytes ∷ more) = or_some (last more) bytes

-- The answers to commands that follow a log.
abbrev pub answers : List Command → List Command → List Value
answers log [] = []
answers log (c ∷ cs) = last (versions c.key log) ∷ answers (log ++ c ∷ []) cs

-- A database that stands for a log.
pub record Represents (multi : Bool) (log : List Command) (d : Database) : Type 0 where
  pub contents : (k : Key) → get k d ≡ last (versions k log)
  pub version : d.version ≡ length (writes log)
  pub multiversion : d.multiversion ≡ multi
  pub history : (k : Key) → d.history k ≡ (if multi then versions k log else [])

last-append : (bs : List (List ℕ)) (b : List ℕ) → last (bs ++ b ∷ []) ≡ some b
last-append [] b = refl
last-append (c ∷ bs) b = rw (last-append bs b) refl

versions-append :
    (k : Key) (log : List Command) (c : Command)
    → versions k (log ++ c ∷ []) ≡ versions k log ++ written_at k c.key c.value
versions-append k [] c = append-nil (written_at k c.key c.value)
versions-append k (e ∷ log) c =
    ap (λ l. written_at k e.key e.value ++ l) (versions-append k log c)
    ∙ sym (append_assoc (written_at k e.key e.value) (versions k log) (written_at k c.key c.value))

writes-append :
    (log : List Command) (c : Command) → writes (log ++ c ∷ []) ≡ writes log ++ written c.value
writes-append [] c = append-nil (written c.value)
writes-append (e ∷ log) c =
    ap (λ l. written e.value ++ l) (writes-append log c)
    ∙ sym (append_assoc (written e.value) (writes log) (written c.value))

new_database-Represents : (multi : Bool) → Represents multi [] (new_database multi)
unfolding new_database get
new_database-Represents multi = record {
  contents = λ k. refl;
  version = refl;
  multiversion = refl;
  history = λ k. ground arith;
}

-- One write or read, by what was written before.
get-put :
    (k j : Key) (v : Value) (d : Database) (before : List (List ℕ))
    → get k d ≡ last before
    → get k (put j v d) ≡ last (before ++ written_at k j v)
unfolding get put
get-put k j none d before e = ground (arith, append-nil before)
get-put k j (some bytes) d before e = ground (arith, append-nil before, last-append before bytes)

version-put :
    (j : Key) (v : Value) (d : Database) → (put j v d).version ≡ d.version + length (written v)
unfolding put
version-put j none d = omega arith
version-put j (some bytes) d = omega arith

multiversion-put : (j : Key) (v : Value) (d : Database) → (put j v d).multiversion ≡ d.multiversion
unfolding put
multiversion-put j none d = refl
multiversion-put j (some bytes) d = refl

history-put :
    (multi : Bool) (k j : Key) (v : Value) (d : Database) (before : List (List ℕ))
    → d.multiversion ≡ multi
    → d.history k ≡ (if multi then before else [])
    → (put j v d).history k ≡ (if multi then before ++ written_at k j v else [])
unfolding put
history-put multi k j none d before m e = ground (arith, append-nil before)
history-put true k j (some bytes) d before m e = rw m (ground (arith, append-nil before))
history-put false k j (some bytes) d before m e = rw m e

put-Represents :
    (multi : Bool) (log : List Command) (c : Command) (d : Database)
    → Represents multi log d
    → Represents multi (log ++ c ∷ []) (put c.key c.value d)
put-Represents multi log c d r = record {
  contents =
      λ k. rw (versions-append k log c) (get-put k c.key c.value d (versions k log) (r.contents k));
  version =
      version-put c.key c.value d
      ∙ rw (writes-append log c)
          (omega (arith, r.version, length-append (writes log) (written c.value)));
  multiversion = multiversion-put c.key c.value d ∙ r.multiversion;
  history = λ k.
      rw (versions-append k log c)
        (history-put multi k c.key c.value d (versions k log) r.multiversion (r.history k));
}

execute_all-Represents :
    (multi : Bool) (log cs : List Command) (d : Database)
    → Represents multi log d
    → Represents multi (log ++ cs) (execute_all cs d).0 × ((execute_all cs d).1 ≡ answers log cs)
unfolding execute_all execute
execute_all-Represents multi log [] d r = (rw (append-nil log) r, refl)
execute_all-Represents multi log (c ∷ cs) d r =
    let (r', same) =
      execute_all-Represents multi (log ++ c ∷ []) cs (put c.key c.value d)
        (put-Represents multi log c d r) in
    (
      subst (λ l. Represents multi l (execute_all cs (put c.key c.value d)).0)
          (append_assoc log (c ∷ []) cs) r',
      cc (r.contents c.key, same),
    )

-- A new database that executes commands in order answers each with the value last written at its key
-- before it, and nil if there is none. Afterwards each key holds the value last written there, the
-- version counts the writes, and the history of a key is all the values written there, in order,
-- where the store keeps versions, and empty where it does not.
pub execute_all-log :
    (multi : Bool) (cs : List Command)
    → Represents multi cs (execute_all cs (new_database multi)).0
      × ((execute_all cs (new_database multi)).1 ≡ answers [] cs)
execute_all-log multi cs =
    execute_all-Represents multi [] cs (new_database multi) (new_database-Represents multi)
