-- ===== src/Types/Examples.antt =====
-- src/types.rs: a short channel id.
use keraunos.Prelude.{◌≡◌, arith}
use keraunos.Types.{short_channel_id, block, tx_index, vout, short_channel_id-parts}

short_channel_id-parts_example :
    (block (short_channel_id 700000 1234 1) ≡ 700000)
    × (tx_index (short_channel_id 700000 1234 1) ≡ 1234)
    × (vout (short_channel_id 700000 1234 1) ≡ 1)
short_channel_id-parts_example =
    short_channel_id-parts 700000 1234 1 (omega arith) (omega arith) (omega arith)
