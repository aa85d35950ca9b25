-- ===== src/Outcome.antt =====
-- How a call ends: with a value, with a Go error value, or with the run stopped. The errors are the
-- `fmt.Errorf` values of blockchain/ and of the protocol packages, each with the number it names.
use bamboo.Prelude.{◌≡◌, refl, ◌⊎◌, inl, inr, ℕ, Option, none, some}

pub data Error : Type 0 where
  -- blockchain.go: the block, its parent block, and the wrapping of a pruning error
  block_missing parent_missing : ℕ → Error
  cannot_prune : Error → Error
  -- leveled_forrest.go: the new lowest level and the one it is below
  bad_lowest_level : ℕ → ℕ → Error
  -- VerifyVertex
  conflicting_vertices parent_level_too_high parent_level_differs : ℕ → Error
  -- the protocols
  no_qc no_vote_decision no_commit no_preferred_view cannot_commit stale_block : Error
  invalid_leader : ℕ → ℕ → Error
  signing_failed : Error
  -- transport.go
  no_server : Error

-- A run-time panic of Go, a call of `panic`, the exit of `log.Fatalf`, or a loop of the model that
-- used up its fuel.
pub data Fault : Type 0 where
  nil_pointer index_range panicked exit out_of_fuel : Fault

pub data Outcome {ℓ} (A : Type ℓ) : Type ℓ where
  ok : A → Outcome A
  err : Error → Outcome A
  fault : Fault → Outcome A

infixl 10 ◌>>=◌
abbrev pub ◌>>=◌ {ℓ κ} : {A : Type ℓ} {B : Type κ} → Outcome A → (A → Outcome B) → Outcome B
fault x >>= next = fault x
err e >>= next = err e
ok a >>= next = next a

-- A dereference: `none` is a nil pointer.
abbrev pub deref {ℓ} : {A : Type ℓ} → Option A → Outcome A
deref none = fault nil_pointer
deref (some a) = ok a

-- Where the source drops an error: `none` is the error.
abbrev pub try {ℓ} : {A : Type ℓ} → Outcome A → Outcome (Option A)
try (ok a) = ok (some a)
try (err e) = ok none
try (fault x) = fault x

-- A bind that succeeds is two calls that succeed.
pub >>=-eq-ok {ℓ κ} :
    {A : Type ℓ} {B : Type κ} (first : Outcome A) (next : A → Outcome B) {out : B}
    → (first >>= next) ≡ ok out
    → (a : A) × (first ≡ ok a) × (next a ≡ ok out)
>>=-eq-ok (fault x) next h = cc
>>=-eq-ok (err e) next h = cc
>>=-eq-ok (ok a) next h = (a, refl, h)

pub ok-injective {ℓ} : {A : Type ℓ} {a b : A} → ok a ≡ ok b → a ≡ b
ok-injective h = cc

pub Outcome-cases {ℓ} :
    {A : Type ℓ} (m : Outcome A)
    → ((a : A) × (m ≡ ok a)) ⊎ ((e : Error) × (m ≡ err e)) ⊎ ((x : Fault) × (m ≡ fault x))
Outcome-cases (ok a) = inl (a, refl)
Outcome-cases (err e) = inr (inl (e, refl))
Outcome-cases (fault x) = inr (inr (x, refl))
