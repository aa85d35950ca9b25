-- ===== src/Blockchain/Samples.antt =====
-- Forests with the blocks of the first two and the first three views, for the tests.
use bamboo.Prelude.{◌≡◌, refl, false, some, [], pos, arith}
use bamboo.Outcome.{Outcome, ok, err, fault}
use bamboo.Types.{Block, Qc, View, Identifier}
use bamboo.Blockchain.Forest.{Forest, new_forest, add_vertex, get_vertex}
use bamboo.Blockchain.Forest.Invariant.{IsValid, new_forest-IsValid, add_vertex-IsValid}
use bamboo.Blockchain.Forest.Levels.{IsLevelled}

abbrev pub sample_qc : View → Identifier → Qc
sample_qc view id = record {
  leader = 1;
  view = view;
  block_id = id;
  signers = [];
  agg_sig = [];
  signature = [];
}

abbrev pub sample_block : View → Identifier → View → Identifier → Block
sample_block view id parent_view parent_id = record {
  view = view;
  qc = some (sample_qc parent_view parent_id);
  proposer = 2;
  payload = [];
  prev_id = parent_id;
  sig = [];
  id = id;
  mali = false;
  fork_num = pos 0;
  height = view;
  commit_from_this = false;
}

abbrev pub block_1 : Block
block_1 = sample_block 1 11 0 0

abbrev pub block_2 : Block
block_2 = sample_block 2 12 1 11

abbrev pub block_3 : Block
block_3 = sample_block 3 13 2 12

abbrev or_new : Outcome Forest → Forest
or_new (ok f) = f
or_new (err e) = new_forest
or_new (fault x) = new_forest

unfoldable pub forest_1 : Forest
forest_1 = or_new (add_vertex block_1 new_forest)

unfoldable pub forest_2 : Forest
forest_2 = or_new (add_vertex block_2 forest_1)

pub forest_1-added : add_vertex block_1 new_forest ≡ ok forest_1
unfolding add_vertex new_forest forest_1
forest_1-added = refl

pub forest_2-added : add_vertex block_2 forest_1 ≡ ok forest_2
unfolding add_vertex new_forest forest_1 forest_2
forest_2-added = refl

pub forest_1-IsValid : IsValid forest_1
forest_1-IsValid = add_vertex-IsValid block_1 new_forest forest_1 new_forest-IsValid forest_1-added

pub forest_2-IsValid : IsValid forest_2
forest_2-IsValid = add_vertex-IsValid block_2 forest_1 forest_2 forest_1-IsValid forest_2-added

pub forest_2-IsLevelled : IsLevelled forest_2
unfolding add_vertex new_forest forest_1 forest_2 get_vertex
forest_2-IsLevelled = record {
  at_view = λ i r b e full. ground (arith, e, full);
  lower = λ i b p e e'. ground (arith, e, e');
}

pub forest_2-block_1 : get_vertex forest_2 11 ≡ some block_1
unfolding add_vertex new_forest forest_1 forest_2 get_vertex
forest_2-block_1 = refl

pub forest_2-block_2 : get_vertex forest_2 12 ≡ some block_2
unfolding add_vertex new_forest forest_1 forest_2 get_vertex
forest_2-block_2 = refl

pub forest_3 : Forest
forest_3 = or_new (add_vertex block_3 forest_2)

forest_3-added : add_vertex block_3 forest_2 ≡ ok forest_3
unfolding add_vertex new_forest forest_1 forest_2 forest_3
forest_3-added = refl

pub forest_3-IsValid : IsValid forest_3
forest_3-IsValid = add_vertex-IsValid block_3 forest_2 forest_3 forest_2-IsValid forest_3-added
