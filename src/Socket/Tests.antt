-- ===== src/Socket/Tests.antt =====
-- Runs of the socket, and the theorems on it at concrete inputs.
use bamboo.Prelude.{
  ℕ, ◌+◌, ◌≤◌, Bool, true, false, List, [], ◌∷◌, ◌≡◌, refl, arith, length, mem, AllDistinct, All,
  ◌==◌, if◌then◌else◌,
}
use bamboo.Exec.{skip, ◌>>=◌}
use bamboo.Types.{NodeId}
use bamboo.Socket.{
  late, end_slow, Socket, new_socket, send, broadcast, multicast_quorum, drop_node, slow_node,
  crash, fire, pass,
}
use bamboo.Socket.Retry.{retry}
use bamboo.Socket.Restored.{
  Event, send_event, slowing, crashing, dropping, firing, run, fire_all, IsClean, IsBrief, Drains,
  fire_all-IsClean,
}
use bamboo.Socket.Delivery.{IsReady, Delivers}
use bamboo.Socket.Targets.{except, to_each, Answers, broadcast-Delivers, multicast_quorum-Delivers}
use bamboo.Socket.Once.{count, lates, out-fire_all}

-- Node 9 never answers.
abbrev dial : NodeId → ℕ → Bool
dial k i = if k == 9 then false else i == 2

abbrev sample : Socket ℕ
sample = new_socket 1 (1 ∷ 2 ∷ 3 ∷ 4 ∷ [])

-- The second sleep is longer than the first.
retry_sleeps : retry (dial 2) 100 50 ≡ (true, 50 ∷ 100 ∷ [])
unfolding retry
retry_sleeps = refl

out-broadcast : (broadcast dial (λ _. 0) 7 sample).1.out ≡ (2, 7) ∷ (3, 7) ∷ (4, 7) ∷ []
unfolding broadcast new_socket send retry skip ◌>>=◌
out-broadcast = refl

abbrev faulty : List (Event ℕ)
faulty = dropping 2 ∷ crashing 3 ∷ slowing 3 20 ∷ firing 1 ∷ send_event 0 3 7 ∷ []

answers : All (Answers dial (1 ∷ 2 ∷ 3 ∷ 4 ∷ [])) (1 ∷ 2 ∷ 3 ∷ 4 ∷ [])
unfolding retry
answers = ((refl, refl), ((refl, refl), ((refl, refl), ((refl, refl), tt))))

brief : All IsBrief faulty
brief = (tt, (refl, (tt, (tt, (tt, tt)))))

drains :
    Drains
      (2 ∷ 0 ∷ 0 ∷ [])
      (length (run dial faulty (new_socket {Msg = ℕ} 1 (1 ∷ 2 ∷ 3 ∷ []))).pending)
unfolding run send new_socket drop_node slow_node crash fire retry
drains = omega arith

fire_all-IsClean_example :
    IsClean (fire_all (2 ∷ 0 ∷ 0 ∷ []) (run dial faulty (new_socket {Msg = ℕ} 1 (1 ∷ 2 ∷ 3 ∷ []))))
    × ((draw : ℕ) (to : NodeId) (m : ℕ)
        → (fire_all
              (2 ∷ 0 ∷ 0 ∷ [])
              (run dial faulty (new_socket {Msg = ℕ} 1 (1 ∷ 2 ∷ 3 ∷ [])))).nodes
            to
          ≡ true
        → send dial draw to m
            (fire_all (2 ∷ 0 ∷ 0 ∷ []) (run dial faulty (new_socket {Msg = ℕ} 1 (1 ∷ 2 ∷ 3 ∷ []))))
          ≡ pass to m (
              fire_all
                (2 ∷ 0 ∷ 0 ∷ [])
                (run dial faulty (new_socket {Msg = ℕ} 1 (1 ∷ 2 ∷ 3 ∷ [])))))
fire_all-IsClean_example =
    fire_all-IsClean dial 1 (1 ∷ 2 ∷ 3 ∷ []) faulty (2 ∷ 0 ∷ 0 ∷ []) brief drains

ready : IsReady sample
unfolding new_socket
ready = record {
  clean = record { crashed = refl; drops = λ k. refl; slows = λ k. refl; flaky = λ k. refl };
  opened = λ k. refl;
}

broadcast-Delivers_example :
    Delivers sample
      (broadcast dial (λ _. 0) 7 sample)
      (to_each 7 (except sample.id sample.addresses))
unfolding new_socket
broadcast-Delivers_example = broadcast-Delivers dial 7 (λ _. 0) sample ready answers

abbrev picked : List NodeId
picked = 3 ∷ 1 ∷ 3 ∷ []

picked_answers : All (Answers dial (1 ∷ 2 ∷ 3 ∷ 4 ∷ [])) picked
unfolding retry
picked_answers = ((refl, refl), ((refl, refl), ((refl, refl), tt)))

multicast_quorum-Delivers_example :
    (targets : List NodeId) × Delivers sample
      (multicast_quorum dial (λ _. 0) picked 7 sample)
      (to_each 7 targets)
    × AllDistinct targets
    × ((k : NodeId) → mem k targets ≡ mem k picked)
    × (length targets ≤ length picked)
unfolding new_socket
multicast_quorum-Delivers_example =
    multicast_quorum-Delivers dial 7 (λ _. 0) picked sample ready picked_answers

abbrev waiting_sample : Socket ℕ
waiting_sample = record sample { pending = late 3 7 ∷ end_slow 3 ∷ late 2 8 ∷ [] }

opened : (k : NodeId) → waiting_sample.closed k ≡ false
unfolding new_socket
opened k = refl

out-fire_all_example :
    count (λ p. p.0 == 3) (fire_all (1 ∷ 0 ∷ 0 ∷ []) waiting_sample).out
    ≡ count (λ p. p.0 == 3) waiting_sample.out
      + count (λ p. p.0 == 3) (lates waiting_sample.pending)
out-fire_all_example =
    out-fire_all (λ p. p.0 == 3) (1 ∷ 0 ∷ 0 ∷ []) waiting_sample opened (omega arith)

-- A second fault of the same node ends with the first one's timer.
early_end : (fire 0 (drop_node 2 (drop_node 2 sample))).1.drops 2 ≡ false
unfolding fire drop_node new_socket
early_end = refl
