-- ===== src/Replica/Invariant.antt =====
-- What holds in every state of a replica.
use bamboo.Types.{Block}
use bamboo.Prelude.{
  List, ℕ, ◌+◌, ◌≡◌, refl, Bool, true, false, [], length, if◌then◌else◌, Bool-cases, inl, inr,
}
use bamboo.Mempool.Bloom.{BitSet}
use bamboo.Chained.State.{Env, Chained}
use bamboo.Chained.Later as Chained
use bamboo.Replica.State.{Replica, new_replica}

-- Unless two calls of the protocol overlapped, its state is well formed. Every block that was read from the channel of committed blocks
-- was counted once, as malicious or not, every proposal is counted and sent, but none sent with
-- "streamlet", and a Byzantine node has none.
pub record Sound {Own : Type 0} (overlapped : Bool) (env : Env) (s : Chained Own)
    (seen committed mali kind sent : ℕ) (proposals broadcasts : List Block) : Type 0 where
  pub protocol : overlapped ≡ false → Chained.IsValid env s
  pub counted : committed ≡ mali + kind
  pub read : seen ≡ committed
  pub proposed : sent ≡ length proposals
  pub quiet : env.is_byz ≡ true → proposals ≡ []
  pub sends : broadcasts ≡ (if env.is_streamlet then [] else proposals)

abbrev pub IsValid : {B : BitSet} {Own : Type 0} → Bool → Env → Replica B Own → Type 0
IsValid overlapped env r =
    Sound overlapped env r.protocol r.committed_seen r.committed_no r.mali_no r.kind_no
      r.proposed_no r.proposals r.broadcasts

pub new_replica-IsValid :
    (B : BitSet) {Own : Type 0} (env : Env) (limit : ℕ) (s : Chained Own)
    → Chained.IsValid env s
    → IsValid false env (new_replica B limit s)
unfolding new_replica
new_replica-IsValid B env limit s v = record {
  protocol = λ alone. v;
  counted = refl;
  read = refl;
  proposed = refl;
  quiet = λ byz. refl;
  sends = elim (Bool-cases env.is_streamlet) [ inl e ↦ rw e refl | inr e ↦ rw e refl ];
}
