-- ===== src/Chained/Samples.antt =====
-- A replica that is node 1 of four, for the tests.
use bamboo.Prelude.{true, false, some, []}
use bamboo.Crypto.{Keys}
use bamboo.Election.{rotation}
use bamboo.Chained.State.{Env}

-- Keys that sign with a fixed signature and accept every signature.
abbrev pub sample_keys : Keys
sample_keys = record { count = 4; sign = λ i id. some []; verify = λ i sig id. some true }

abbrev pub sample_env : Env
sample_env = record {
  id = 1;
  is_byz = false;
  byz_no = 1;
  fork_atk = false;
  keys = sample_keys;
  election = rotation (λ view. view) 4;
  hash = λ raw. raw.view;
  rounds = 10;
  is_streamlet = false;
}
