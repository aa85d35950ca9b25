-- ===== src/Streamlet/Spread/Kept.antt =====
-- Spreading a message changes what is sent alone.
use bamboo.Prelude.{Bool, leb, List, ℕ}
use bamboo.Types.{NodeId}
use bamboo.Exec.Keeps.{Keeps, Keeps-modify, Keeps-bind, Keeps-if, Keeps-gets}
use bamboo.Notarized.State.{Env, Message}
use bamboo.Notarized.Stable.{Property, Holds}
use bamboo.Streamlet.Spread.{send_all, no_mail_broadcast, mali_broadcast, spread}

module _ (P : Property) (env : Env) where
  send_all-Keeps :
      (delay : ℕ) (m : Message) (nodes : List NodeId) → Keeps (Holds P) (send_all delay m nodes)
  unfolding send_all
  send_all-Keeps delay m nodes = Keeps-modify _ λ s h. h

  pub no_mail_broadcast-Keeps : (m : Message) → Keeps (Holds P) (no_mail_broadcast env m)
  unfolding no_mail_broadcast
  no_mail_broadcast-Keeps m = send_all-Keeps _ m _

  mali_broadcast-Keeps :
      (next : NodeId) (m : Message) (is_vote : Bool)
      → Keeps (Holds P) (mali_broadcast env next m is_vote)
  unfolding mali_broadcast
  mali_broadcast-Keeps next m is_vote =
      Keeps-if (leb next env.byz_no) _ _ (no_mail_broadcast-Keeps m)
        (Keeps-if is_vote _ _ (send_all-Keeps _ m _) (send_all-Keeps _ m _))

  pub spread-Keeps : (is_vote : Bool) (m : Message) → Keeps (Holds P) (spread env is_vote m)
  unfolding spread
  spread-Keeps is_vote m =
      Keeps-bind _ _ (Keeps-gets _)
        λ cur. Keeps-if _ _ _ (mali_broadcast-Keeps _ m is_vote) (no_mail_broadcast-Keeps m)
