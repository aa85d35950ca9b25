-- ===== src/Socket/Retry.antt =====
-- `Retry` of utils/utils.go. The calls of the function are its successive answers, by number; the
-- sleeps between them are the milliseconds of a list.
use bamboo.Prelude.{
  ℕ, zero, suc, ◌+◌, ◌-◌, ◌*◌, ◌≤◌, Bool, true, List, [], ◌∷◌, ◌≡◌, refl, ◌≢◌, ◌↔◌, arith,
  if◌then◌else◌, Bool-cases, inl, inr,
}

-- The rounds from call i on, with so many more after it.
retry_from : (ℕ → Bool) → ℕ → ℕ → ℕ → Bool × List ℕ
retry_from answers sleep i zero = (answers i, [])
retry_from answers sleep i (suc more) =
    let (done, slept) = retry_from answers sleep (i + 1) more in
    if answers i then (true, []) else (done, (sleep * (i + 1)) ∷ slept)

-- Whether a call succeeded, and the sleeps. There is always a first call.
unfoldable pub retry : (ℕ → Bool) → ℕ → ℕ → Bool × List ℕ
unfolding retry_from
retry answers attempts sleep = retry_from answers sleep 0 (attempts - 1)

finds :
    (answers : ℕ → Bool) (sleep i more : ℕ) (k : ℕ)
    → i ≤ k
    → k ≤ i + more
    → answers k ≡ true
    → (retry_from answers sleep i more).0 ≡ true
unfolding retry_from
finds answers sleep i zero k low high e = let same : i ≡ k = omega (arith, low, high) in rw same e
finds answers sleep i (suc more) k low high e = elim (Bool-cases (answers i)) [
  | inl now ↦ rw now refl
  | inr not_now ↦
      let later : i ≢ k = λ same. cc (e, not_now, same) in
      rw not_now
        (finds answers sleep (i + 1) more k (omega (arith, low, later)) (omega (arith, high)) e)
]

found :
    (answers : ℕ → Bool) (sleep i more : ℕ)
    → (retry_from answers sleep i more).0 ≡ true
    → (k : ℕ) × (i ≤ k) × (k ≤ i + more) × (answers k ≡ true)
unfolding retry_from
found answers sleep i zero e = (i, omega arith, omega arith, e)
found answers sleep i (suc more) e = elim (Bool-cases (answers i)) [
  | inl now ↦ (i, omega arith, omega arith, now)
  | inr not_now ↦
      let rest : (retry_from answers sleep (i + 1) more).0 ≡ true = ground (arith, e, not_now) in
      let (k, low, high, at) = found answers sleep (i + 1) more rest in
      (k, omega (arith, low), omega (arith, high), at)
]

-- `Retry` succeeds exactly where one of the first `attempts` calls would, at least one call being
-- made.
pub retry_iff :
    (answers : ℕ → Bool) (attempts sleep : ℕ)
    → ((retry answers attempts sleep).0 ≡ true)
      ↔ ((k : ℕ) × (k ≤ attempts - 1) × (answers k ≡ true))
unfolding retry
retry_iff answers attempts sleep = (
  λ e.
      let (k, low, high, at) = found answers sleep 0 (attempts - 1) e in
      (k, omega (arith, high), at),
  λ (k, high, at). finds answers sleep 0 (attempts - 1) k (omega arith) (omega (arith, high)) at,
)
