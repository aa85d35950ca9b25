-- ===== src/Socket/Faults.antt =====
-- Injected faults end: each has a goroutine that takes it back.
use bamboo.Prelude.{
  ℕ, zero, suc, ◌+◌, ◌<◌, Bool, true, false, ◌||◌, List, [], ◌∷◌, ◌++◌, ltb, ◌==◌, length, ◌≡◌,
  refl, ap, arith, ◌≤◌, ◌⊎◌, inl, inr,
}
use bamboo.Types.{NodeId}
use bamboo.Socket.{
  Pending, late, end_drop, end_slow, end_flaky, end_crash, Socket, later, drop_node, slow_node,
  flaky_node, crash, wake, waiting, others,
}
use bamboo.Socket.Kept.{Stable, pass-keeps}

module _ {Msg : Type 0} where
  abbrev pub ends_drop : NodeId → Pending Msg → Bool
  ends_drop k (end_drop id) = id == k
  ends_drop k _ = false

  abbrev pub ends_slow : NodeId → Pending Msg → Bool
  ends_slow k (end_slow id) = id == k
  ends_slow k _ = false

  abbrev pub ends_flaky : NodeId → Pending Msg → Bool
  ends_flaky k (end_flaky id) = id == k
  ends_flaky k _ = false

  abbrev pub ends_crash : Pending Msg → Bool
  ends_crash end_crash = true
  ends_crash _ = false

  abbrev pub any : (Pending Msg → Bool) → List (Pending Msg) → Bool
  any test [] = false
  any test (p ∷ ps) = test p || any test ps

  any-append :
      (test : Pending Msg → Bool) (ps qs : List (Pending Msg))
      → any test (ps ++ qs) ≡ (any test ps || any test qs)
  any-append test [] qs = refl
  any-append test (p ∷ ps) qs = ground (arith, any-append test ps qs)

  pub any-waiting :
      (test : Pending Msg → Bool) (i : ℕ) (ps : List (Pending Msg))
      → any test ps ≡ (any test (waiting i ps) || any test (others i ps))
  unfolding waiting others
  any-waiting test i [] = refl
  any-waiting test zero (p ∷ ps) = ground arith
  any-waiting test (suc i) (p ∷ ps) = ground (arith, any-waiting test i ps)

  -- Every fault that is set will be taken back.
  pub record IsTimed (s : Socket Msg) : Type 0 where
    pub crashed : s.crashed ≡ true → any ends_crash s.pending ≡ true
    pub drops : (k : NodeId) → s.drops k ≡ true → any (ends_drop k) s.pending ≡ true
    pub slows : (k : NodeId) → ltb 0 (s.slows k) ≡ true → any (ends_slow k) s.pending ≡ true
    pub flaky : (k : NodeId) → ltb 0 (s.flaky k) ≡ true → any (ends_flaky k) s.pending ≡ true

  later-IsTimed : (p : Pending Msg) (s : Socket Msg) → IsTimed s → IsTimed (later p s)
  later-IsTimed p s t = record {
    crashed = λ e. ground (arith, any-append ends_crash s.pending (p ∷ []), t.crashed e);
    drops = λ k e. ground (arith, any-append (ends_drop k) s.pending (p ∷ []), t.drops k e);
    slows = λ k e. ground (arith, any-append (ends_slow k) s.pending (p ∷ []), t.slows k e);
    flaky = λ k e. ground (arith, any-append (ends_flaky k) s.pending (p ∷ []), t.flaky k e);
  }

  pub IsTimed-Stable : Stable Msg IsTimed
  IsTimed-Stable = record {
    waits = λ to m s t. later-IsTimed (late to m) s t;
    passes = λ to m s t. record {
      crashed = t.crashed;
      drops = t.drops;
      slows = t.slows;
      flaky = t.flaky;
    };
    dials =
        λ to s t. record { crashed = t.crashed; drops = t.drops; slows = t.slows; flaky = t.flaky };
  }

  pub drop_node-IsTimed : (id : NodeId) (s : Socket Msg) → IsTimed s → IsTimed (drop_node id s)
  unfolding drop_node
  drop_node-IsTimed id s t = record {
    crashed = λ e. ground (arith, any-append ends_crash s.pending (end_drop id ∷ []), t.crashed e);
    drops = λ k e. ground (arith, any-append (ends_drop k) s.pending (end_drop id ∷ []), t.drops k);
    slows =
        λ k e. ground (arith, any-append (ends_slow k) s.pending (end_drop id ∷ []), t.slows k e);
    flaky =
        λ k e. ground (arith, any-append (ends_flaky k) s.pending (end_drop id ∷ []), t.flaky k e);
  }

  pub slow_node-IsTimed :
      (id : NodeId) (delay : ℕ) (s : Socket Msg) → IsTimed s → IsTimed (slow_node id delay s)
  unfolding slow_node
  slow_node-IsTimed id delay s t = record {
    crashed = λ e. ground (arith, any-append ends_crash s.pending (end_slow id ∷ []), t.crashed e);
    drops =
        λ k e. ground (arith, any-append (ends_drop k) s.pending (end_slow id ∷ []), t.drops k e);
    slows = λ k e. ground (arith, any-append (ends_slow k) s.pending (end_slow id ∷ []), t.slows k);
    flaky =
        λ k e. ground (arith, any-append (ends_flaky k) s.pending (end_slow id ∷ []), t.flaky k e);
  }

  pub flaky_node-IsTimed :
      (id : NodeId) (p : ℕ) (s : Socket Msg) → IsTimed s → IsTimed (flaky_node id p s)
  unfolding flaky_node
  flaky_node-IsTimed id p s t = record {
    crashed = λ e. ground (arith, any-append ends_crash s.pending (end_flaky id ∷ []), t.crashed e);
    drops =
        λ k e. ground (arith, any-append (ends_drop k) s.pending (end_flaky id ∷ []), t.drops k e);
    slows =
        λ k e. ground (arith, any-append (ends_slow k) s.pending (end_flaky id ∷ []), t.slows k e);
    flaky =
        λ k e. ground (arith, any-append (ends_flaky k) s.pending (end_flaky id ∷ []), t.flaky k);
  }

  pub crash-IsTimed : (t : ℕ) (s : Socket Msg) → ltb 0 t ≡ true → IsTimed s → IsTimed (crash t s)
  unfolding crash
  crash-IsTimed t s timed h = rw timed (record {
    crashed = λ e. ground (arith, any-append ends_crash s.pending (end_crash ∷ []));
    drops = λ k e. ground (arith, any-append (ends_drop k) s.pending (end_crash ∷ []), h.drops k e);
    slows = λ k e. ground (arith, any-append (ends_slow k) s.pending (end_crash ∷ []), h.slows k e);
    flaky =
        λ k e. ground (arith, any-append (ends_flaky k) s.pending (end_crash ∷ []), h.flaky k e);
  })

  -- The goroutine that runs, besides those that wait.
  pub record IsTimedBy (p : Pending Msg) (s : Socket Msg) : Type 0 where
    pub crashed : s.crashed ≡ true → (ends_crash p || any ends_crash s.pending) ≡ true
    pub drops :
        (k : NodeId) → s.drops k ≡ true → (ends_drop k p || any (ends_drop k) s.pending) ≡ true
    pub slows :
        (k : NodeId)
        → ltb 0 (s.slows k) ≡ true
        → (ends_slow k p || any (ends_slow k) s.pending) ≡ true
    pub flaky :
        (k : NodeId)
        → ltb 0 (s.flaky k) ≡ true
        → (ends_flaky k p || any (ends_flaky k) s.pending) ≡ true

  pub wake-IsTimed : (p : Pending Msg) (s : Socket Msg) → IsTimedBy p s → IsTimed (wake p s).1
  unfolding wake
  wake-IsTimed (late to m) s t =
      pass-keeps IsTimed-Stable (λ _ _. true) m to s
        (record { crashed = t.crashed; drops = t.drops; slows = t.slows; flaky = t.flaky })
  wake-IsTimed (end_drop id) s t = record {
    crashed = t.crashed;
    drops = λ k e. ground (arith, e, t.drops k);
    slows = t.slows;
    flaky = t.flaky;
  }
  wake-IsTimed (end_slow id) s t = record {
    crashed = t.crashed;
    drops = t.drops;
    slows = λ k e. ground (arith, e, t.slows k);
    flaky = t.flaky;
  }
  wake-IsTimed (end_flaky id) s t = record {
    crashed = t.crashed;
    drops = t.drops;
    slows = t.slows;
    flaky = λ k e. ground (arith, e, t.flaky k);
  }
  wake-IsTimed end_crash s t = record {
    crashed = λ e. cc;
    drops = t.drops;
    slows = t.slows;
    flaky = t.flaky;
  }

  pub waiting-cases :
      (i : ℕ) (ps : List (Pending Msg))
      → ((waiting i ps ≡ []) × (length ps ≤ i) × (others i ps ≡ ps))
        ⊎ ((p : Pending Msg) × (waiting i ps ≡ p ∷ [])
            × (i < length ps)
            × (length (others i ps) + 1 ≡ length ps))
  unfolding waiting others
  waiting-cases i [] = inl (refl, omega arith, refl)
  waiting-cases zero (p ∷ ps) = inr (p, refl, omega arith, omega arith)
  waiting-cases (suc i) (p ∷ ps) = elim (waiting-cases i ps) [
    | inl (none', long, same) ↦ inl (none', omega (arith, long), ap (λ l. p ∷ l) same)
    | inr (q, found, short, fewer) ↦ inr (q, found, omega (arith, short), omega (arith, fewer))
  ]
