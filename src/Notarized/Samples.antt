-- ===== src/Notarized/Samples.antt =====
-- A replica that is node 1 of four, for the tests.
use bamboo.Prelude.{false}
use bamboo.Election.{rotation}
use bamboo.Chained.Samples.{sample_keys}
use bamboo.Notarized.State.{Env}

abbrev pub sample_env : Env
sample_env = record {
  id = 1;
  n = 4;
  is_byz = false;
  byz_no = 1;
  timeout = 700;
  genesis = 0;
  keys = sample_keys;
  election = rotation (λ view. view) 4;
  hash = λ raw. raw.view;
  rounds = 10;
}
