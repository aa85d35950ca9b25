-- ===== src/Transport/Flow.antt =====
-- How the queues of a connection look after a message moved.
use mathlib.Core.List.{append_assoc, append-nil}
use bamboo.Prelude.{
  ℕ, true, false, List, [], ◌∷◌, ◌++◌, ◌==◌, if◌then◌else◌, update, ◌≡◌, refl, sym, ap, ◌∙◌, arith,
  Bool-cases, inl, inr, ==_iff,
}
use bamboo.Transport.{Parcel}

module _ {Msg : Type 0} where
  -- The messages of one transport.
  abbrev pub from : ℕ → List (Parcel Msg) → List Msg
  from t [] = []
  from t ((s, m) ∷ ps) = if s == t then m ∷ from t ps else from t ps

  from-append : (t : ℕ) (ps qs : List (Parcel Msg)) → from t (ps ++ qs) ≡ from t ps ++ from t qs
  from-append t [] qs = refl
  from-append t ((s, m) ∷ ps) qs = ground (arith, from-append t ps qs)

  module _ (t c l : ℕ) where
    -- One more message to send.
    pub send-order :
        (k : ℕ) (m : Msg) (ahead : List Msg) (sends given : ℕ → List Msg)
        → ahead ++ sends t ≡ given t
        → ahead ++ update sends k (sends k ++ m ∷ []) t ≡ update given k (given k ++ m ∷ []) t
    send-order k m ahead sends given h = elim (Bool-cases (k == t)) [
      | inl own ↦
          let same = (==_iff k t).0 own in
          rw own (
            ap (λ j. ahead ++ (sends j ++ m ∷ [])) same
            ∙ sym (append_assoc ahead (sends t) (m ∷ []))
            ∙ ap (λ x. x ++ m ∷ []) (h ∙ ap given (sym same)))
      | inr other ↦ rw other h
    ]

    -- A parcel goes from the second list to the end of the first.
    shift :
        (p : Parcel Msg) (ps qs rest : List (Parcel Msg))
        → (qs ++ p ∷ []) ++ (ps ++ rest) ≡ qs ++ ((p ∷ ps) ++ rest)
    shift p ps qs rest = append_assoc qs (p ∷ []) (ps ++ rest)

    pub recv-order :
        (k : ℕ) (p : Parcel Msg) (ps : List (Parcel Msg)) (received recvs : ℕ → List (Parcel Msg))
        (rest : List (Parcel Msg))
        → recvs k ≡ p ∷ ps
        → update received k (received k ++ p ∷ []) l ++ (update recvs k ps l ++ rest)
          ≡ received l ++ (recvs l ++ rest)
    recv-order k p ps received recvs rest e = elim (Bool-cases (k == l)) [
      | inl own ↦
          let same = (==_iff k l).0 own in
          rw own (
            shift p ps (received k) rest
            ∙ ap (λ x. received k ++ (x ++ rest)) (sym e)
            ∙ ap (λ j. received j ++ (recvs j ++ rest)) same)
      | inr other ↦ rw other refl
    ]

    from-snoc :
        (ahead qs : List (Parcel Msg)) (p : Parcel Msg)
        → from t (ahead ++ (qs ++ p ∷ [])) ≡ from t (ahead ++ qs) ++ from t (p ∷ [])
    from-snoc ahead qs p =
        ap (from t) (sym (append_assoc ahead qs (p ∷ []))) ∙ from-append t (ahead ++ qs) (p ∷ [])

    -- A move out of the queue of s into the channel d.
    pub move_out-order :
        (s d : ℕ) (m : Msg) (ms : List Msg) (ahead : List (Parcel Msg)) (sends : ℕ → List Msg)
        (conns : ℕ → List (Parcel Msg))
        → ((s == t) ≡ true → (d == c) ≡ true)
        → sends s ≡ m ∷ ms
        → from t (ahead ++ update conns d (conns d ++ (s, m) ∷ []) c) ++ update sends s ms t
          ≡ from t (ahead ++ conns c) ++ sends t
    move_out-order s d m ms ahead sends conns only e = elim (Bool-cases (d == c)) [
      | inl there ↦
          let same = (==_iff d c).0 there in
          let moved = from-snoc ahead (conns d) (s, m) in
          elim (Bool-cases (s == t)) [
            | inl own ↦
                let mine = (==_iff s t).0 own in
                rw there (
                  rw own (
                    ap (λ x. x ++ ms)
                      (moved ∙ ap (λ x. from t (ahead ++ conns d) ++ x) (rw own refl))
                    ∙ append_assoc (from t (ahead ++ conns d)) (m ∷ []) ms
                    ∙ ap (λ x. from t (ahead ++ conns d) ++ x) (sym e ∙ ap sends mine)
                    ∙ ap (λ j. from t (ahead ++ conns j) ++ sends t) same))
            | inr other ↦ rw there (
                rw other (
                  ap (λ x. x ++ sends t)
                    (moved
                      ∙ ap (λ x. from t (ahead ++ conns d) ++ x) (rw other refl)
                      ∙ append-nil (from t (ahead ++ conns d)))
                  ∙ ap (λ j. from t (ahead ++ conns j) ++ sends t) same))
          ]
      | inr away ↦
          let other : (s == t) ≡ false = ground (arith, only, away) in rw away (rw other refl)
    ]

    -- A move out of the channel d into the queue of k.
    pub move_in-order :
        (d k : ℕ) (p : Parcel Msg) (ps : List (Parcel Msg)) (recvs conns : ℕ → List (Parcel Msg))
        → (d == c) ≡ (k == l)
        → conns d ≡ p ∷ ps
        → update recvs k (recvs k ++ p ∷ []) l ++ update conns d ps c ≡ recvs l ++ conns c
    move_in-order d k p ps recvs conns both e = elim (Bool-cases (d == c)) [
      | inl there ↦
          let here' = sym both ∙ there in
          rw there (
            rw here' (
              append_assoc (recvs k) (p ∷ []) ps
              ∙ ap (λ x. recvs k ++ x) (sym e ∙ ap conns ((==_iff d c).0 there))
              ∙ ap (λ j. recvs j ++ conns c) ((==_iff k l).0 here')))
      | inr away ↦ rw away (rw (sym both ∙ away) refl)
    ]
