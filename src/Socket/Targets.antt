-- ===== src/Socket/Targets.antt =====
-- Whom a broadcast and a multicast reach on a socket without faults.
use bamboo.Prelude.{
  ℕ, ◌≤◌, Bool, true, false, not, ◌&&◌, List, [], ◌∷◌, ◌++◌, map, ◌==◌, if◌then◌else◌, mem, length,
  ◌≡◌, refl, ap, sym, ◌∙◌, arith, inl, inr, Bool-cases, All, AllDistinct, ==_iff, subst,
}
use bamboo.Types.{NodeId}
use bamboo.Exec.{skip}
use bamboo.Socket.{Socket, send_unless, broadcast_to, broadcast, multicast_from, multicast_quorum}
use bamboo.Socket.Retry.{retry}
use bamboo.Socket.Delivery.{IsReady, Delivers, send-Delivers, nothing-Delivers, then-Delivers}

-- The nodes of a list other than one.
abbrev pub except : NodeId → List NodeId → List NodeId
except id [] = []
except id (k ∷ ks) = if k == id then except id ks else k ∷ except id ks

-- The nodes of a list that are not in another, each at its first place.
abbrev fresh : List NodeId → List NodeId → List NodeId
fresh [] seen = []
fresh (k ∷ ks) seen =
    let rest = fresh ks (if mem k seen then seen else k ∷ seen) in
    if mem k seen then rest else k ∷ rest

mem_same : (j k : NodeId) (seen : List NodeId) → (j == k) ≡ true → mem j seen ≡ mem k seen
mem_same j k seen e = ap (λ i. mem i seen) ((==_iff j k).0 e)

mem-fresh :
    (k : NodeId) (picks seen : List NodeId)
    → mem k (fresh picks seen) ≡ (mem k picks && not (mem k seen))
mem-fresh k [] seen = refl
mem-fresh k (j ∷ picks) seen = elim (Bool-cases (mem j seen)) [
  | inl old ↦ rw old (ground (arith, old, mem-fresh k picks seen, mem_same j k seen))
  | inr new ↦ rw new (ground (arith, new, mem-fresh k picks (j ∷ seen), mem_same j k seen))
]

fresh-AllDistinct : (picks seen : List NodeId) → AllDistinct (fresh picks seen)
fresh-AllDistinct [] seen = tt
fresh-AllDistinct (j ∷ picks) seen = elim (Bool-cases (mem j seen)) [
  | inl old ↦ rw old (fresh-AllDistinct picks seen)
  | inr new ↦
      rw new (ground (arith, mem-fresh j picks (j ∷ seen)), fresh-AllDistinct picks (j ∷ seen))
]

length-fresh : (picks seen : List NodeId) → length (fresh picks seen) ≤ length picks
length-fresh [] seen = omega arith
length-fresh (j ∷ picks) seen = elim (Bool-cases (mem j seen)) [
  | inl old ↦ rw old (omega (arith, length-fresh picks seen))
  | inr new ↦ rw new (omega (arith, length-fresh picks (j ∷ seen)))
]

abbrev pub to_each : {Msg : Type 0} → Msg → List NodeId → List (NodeId × Msg)
to_each m ks = map (λ k. (k, m)) ks

-- Nodes that have an address and answer one of the 100 attempts.
abbrev pub Answers : (NodeId → ℕ → Bool) → List NodeId → NodeId → Type 0
Answers dial addresses k = (mem k addresses ≡ true) × ((retry (dial k) 100 50).0 ≡ true)

module _ {Msg : Type 0} (dial : NodeId → ℕ → Bool) (m : Msg) (draw : NodeId → ℕ) where
  -- One round: nothing where it is skipped, and one message where it is not.
  abbrev sent_by : Bool → NodeId → List (NodeId × Msg)
  sent_by skips k = if skips then [] else (k, m) ∷ []

  send_unless-Delivers :
      (skips : Bool) (k : NodeId) (s : Socket Msg)
      → IsReady s
      → Answers dial s.addresses k
      → Delivers s (send_unless skips dial (draw k) k m s) (sent_by skips k)
  unfolding send_unless
  send_unless-Delivers true k s r answers = nothing-Delivers dial m s r
  send_unless-Delivers false k s r answers = send-Delivers dial m (draw k) k s r answers.0 answers.1

  to_each-if :
      (skips : Bool) (k : NodeId) (ks : List NodeId)
      → sent_by skips k ++ to_each m ks ≡ to_each m (if skips then ks else k ∷ ks)
  to_each-if true k ks = refl
  to_each-if false k ks = refl

  broadcast_to-Delivers :
      (ids : List NodeId) (s : Socket Msg) (id : NodeId) (addresses : List NodeId)
      → IsReady s
      → s.id ≡ id
      → s.addresses ≡ addresses
      → All (Answers dial addresses) ids
      → Delivers s (broadcast_to dial draw m ids s) (to_each m (except id ids))
  unfolding broadcast_to skip
  broadcast_to-Delivers [] s id addresses r same there answers = nothing-Delivers dial m s r
  broadcast_to-Delivers (k ∷ ids) s id addresses r same there answers =
      subst (λ l. Delivers s (broadcast_to dial draw m (k ∷ ids) s) l)
        (to_each-if (k == id) k (except id ids))
        (then-Delivers dial m (λ s. send_unless (k == s.id) dial (draw k) k m s) _ s _ _
          (subst
            (λ i. Delivers s (send_unless (k == s.id) dial (draw k) k m s) (sent_by (k == i) k))
            same
            (send_unless-Delivers (k == s.id) k s r
              (subst (λ l. Answers dial l k) (sym there) answers.0)))
          (λ d.
            broadcast_to-Delivers ids _ id addresses d.ready (d.id ∙ same) (d.addresses ∙ there)
              answers.1))

  multicast_from-Delivers :
      (picks seen : List NodeId) (s : Socket Msg) (addresses : List NodeId)
      → IsReady s
      → s.addresses ≡ addresses
      → All (Answers dial addresses) picks
      → Delivers s (multicast_from dial draw m picks seen s) (to_each m (fresh picks seen))
  unfolding multicast_from skip
  multicast_from-Delivers [] seen s addresses r there answers = nothing-Delivers dial m s r
  multicast_from-Delivers (k ∷ picks) seen s addresses r there answers =
      let seen' = if mem k seen then seen else k ∷ seen in
      subst (λ l. Delivers s (multicast_from dial draw m (k ∷ picks) seen s) l)
        (to_each-if (mem k seen) k (fresh picks seen'))
        (then-Delivers dial m (send_unless (mem k seen) dial (draw k) k m) _ s _ _
          (send_unless-Delivers (mem k seen) k s r
            (subst (λ l. Answers dial l k) (sym there) answers.0))
          (λ d.
            multicast_from-Delivers picks seen' _ addresses d.ready (d.addresses ∙ there)
              answers.1))

  -- On a socket without faults, whose nodes all answer when they are dialled, a broadcast sends the
  -- message to every node with an address but the own one, once for each entry, in their order, and
  -- leaves the socket without faults.
  pub broadcast-Delivers :
      (s : Socket Msg)
      → IsReady s
      → All (Answers dial s.addresses) s.addresses
      → Delivers s (broadcast dial draw m s) (to_each m (except s.id s.addresses))
  unfolding broadcast
  broadcast-Delivers s r answers =
      broadcast_to-Delivers s.addresses s s.id s.addresses r refl refl answers

  -- There, a multicast reaches the nodes that were picked, each of them once, however often it was
  -- picked: so at most as many nodes as rounds, and fewer where a pick repeats an earlier one.
  pub multicast_quorum-Delivers :
      (picks : List NodeId) (s : Socket Msg)
      → IsReady s
      → All (Answers dial s.addresses) picks
      → (targets : List NodeId) × Delivers s
          (multicast_quorum dial draw picks m s)
          (to_each m targets)
        × AllDistinct targets
        × ((k : NodeId) → mem k targets ≡ mem k picks)
        × (length targets ≤ length picks)
  unfolding multicast_quorum
  multicast_quorum-Delivers picks s r answers = (
    fresh picks [],
    multicast_from-Delivers picks [] s s.addresses r refl answers,
    fresh-AllDistinct picks [],
    λ k. ground (arith, mem-fresh k picks []),
    length-fresh picks [],
  )
