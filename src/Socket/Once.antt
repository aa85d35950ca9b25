-- ===== src/Socket/Once.antt =====
-- Late messages: each is handed over once.
use bamboo.Prelude.{
  ℕ, zero, suc, ◌+◌, ◌<◌, Bool, false, List, [], ◌∷◌, ◌++◌, if◌then◌else◌, length, ◌≡◌, refl, ap,
  ◌∙◌, arith, inl, inr,
}
use bamboo.Types.{NodeId}
use bamboo.Socket.{
  Pending, late, end_drop, end_slow, end_flaky, end_crash, Socket, pass, wake, waiting, others,
  wake_all, fire,
}
use bamboo.Socket.Faults.{waiting-cases}
use bamboo.Socket.Restored.{Drains, fire_all, length-fire}

abbrev pub count : {A : Type 0} → (A → Bool) → List A → ℕ
count test [] = 0
count test (x ∷ xs) = (if test x then 1 else 0) + count test xs

count-append :
    {A : Type 0} (test : A → Bool) (xs ys : List A)
    → count test (xs ++ ys) ≡ count test xs + count test ys
count-append test [] ys = omega arith
count-append test (x ∷ xs) ys = omega (arith, count-append test xs ys)

module _ {Msg : Type 0} where
  abbrev late_in : Pending Msg → List (NodeId × Msg)
  late_in (late to m) = (to, m) ∷ []
  late_in p = []

  -- The messages that wait.
  abbrev pub lates : List (Pending Msg) → List (NodeId × Msg)
  lates [] = []
  lates (p ∷ ps) = late_in p ++ lates ps

  module _ (test : NodeId × Msg → Bool) where
    count-others :
        (i : ℕ) (ps : List (Pending Msg))
        → count test (lates ps)
          ≡ count test (lates (waiting i ps)) + count test (lates (others i ps))
    unfolding waiting others
    count-others i [] = omega arith
    count-others zero (p ∷ ps) =
        omega (arith, count-append test (late_in p) (lates ps), count-append test (late_in p) [])
    count-others (suc i) (p ∷ ps) = omega (
      arith,
      count-append test (late_in p) (lates ps),
      count-append test (late_in p) (lates (others i ps)),
      count-others i ps,
    )

    out-wake :
        (p : Pending Msg) (s : Socket Msg)
        → ((k : NodeId) → s.closed k ≡ false)
        → count test (wake p s).1.out ≡ count test s.out + count test (lates (p ∷ []))
    unfolding wake pass
    out-wake (late to m) s opened =
        ground (arith, opened to, count-append test s.out ((to, m) ∷ []))
    out-wake (end_drop id) s opened = omega arith
    out-wake (end_slow id) s opened = omega arith
    out-wake (end_flaky id) s opened = omega arith
    out-wake end_crash s opened = omega arith

    kept-wake :
        (p : Pending Msg) (s : Socket Msg)
        → ((wake p s).1.closed ≡ s.closed) × ((wake p s).1.pending ≡ s.pending)
    unfolding wake pass
    kept-wake (late to m) s = (ground arith, ground arith)
    kept-wake (end_drop id) s = (refl, refl)
    kept-wake (end_slow id) s = (refl, refl)
    kept-wake (end_flaky id) s = (refl, refl)
    kept-wake end_crash s = (refl, refl)

    out-fire :
        (i : ℕ) (s : Socket Msg)
        → ((k : NodeId) → s.closed k ≡ false)
        → i < length s.pending
        → ((fire i s).1.closed ≡ s.closed)
          × (count test (fire i s).1.out + count test (lates (fire i s).1.pending)
              ≡ count test s.out + count test (lates s.pending))
    unfolding fire wake_all
    out-fire i s opened lt = elim (waiting-cases i s.pending) [
      | inl (none', long, same) ↦ absurd (omega (arith, long, lt))
      | inr (p, found, short, fewer) ↦
          let s' = record s { pending = others i s.pending } in
          let (closed, pending) = kept-wake p s' in
          rw found (
            closed,
            rw pending (
                omega (
                  arith,
                  out-wake p s' opened,
                  count-others i s.pending,
                  ap (λ l. count test (lates l)) found,
                )),
          )
    ]

    lates-none : (ps : List (Pending Msg)) → length ps ≡ 0 → count test (lates ps) ≡ 0
    lates-none [] e = refl
    lates-none (p ∷ ps) e = absurd (omega (arith, e))

    -- With no transport closed, when all goroutines that wait have run, in any order, the transports
    -- were given each late message exactly as often as it waited, besides what they had been given.
    pub out-fire_all :
        (is : List ℕ) (s : Socket Msg)
        → ((k : NodeId) → s.closed k ≡ false)
        → Drains is (length s.pending)
        → count test (fire_all is s).out ≡ count test s.out + count test (lates s.pending)
    unfolding fire_all
    out-fire_all [] s opened d = omega (arith, lates-none s.pending d)
    out-fire_all (i ∷ is) s opened d =
        let (closed, once) = out-fire i s opened d.0 in
        omega (
          arith,
          once,
          out-fire_all is (fire i s).1 (λ k. ap (λ f. f k) closed ∙ opened k)
              (rw (length-fire i s d.0) d.1),
        )
