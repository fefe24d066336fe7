-- ===== src/Channel/Open/Data.antt =====
-- src/wire/msgs.rs and src/channel/mod.rs: the messages that open a channel, and the helpers of the
-- opening handlers.
use keraunos.Prelude.{ℕ, zero, suc, ◌/◌, ◌%◌, if◌then◌else◌, leb, [], ◌∷◌, Bytes, mul64, bit_xor}
use keraunos.Types.{Msat}
use keraunos.Commitment.{ChannelPublicKeys}
use keraunos.Channel.Data.{ChannelConfig}
pub use keraunos.Wire.Msgs.Data.{
  ChannelBasepoints, OpenChannel, AcceptChannel, FundingCreated, FundingSigned, ChannelReady,
}

abbrev pub max_htlcs_per_side : ℕ
max_htlcs_per_side = 483

unfoldable pub basepoints_msg : ChannelPublicKeys → ChannelBasepoints
basepoints_msg pk = record {
  funding_pubkey = pk.funding_pubkey;
  revocation = pk.revocation_basepoint;
  payment = pk.payment_basepoint;
  delayed_payment = pk.delayed_payment_basepoint;
  htlc = pk.htlc_basepoint;
}

unfoldable pub pubkeys_from_msg : ChannelBasepoints → ChannelPublicKeys
pubkeys_from_msg bp = record {
  funding_pubkey = bp.funding_pubkey;
  revocation_basepoint = bp.revocation;
  payment_basepoint = bp.payment;
  delayed_payment_basepoint = bp.delayed_payment;
  htlc_basepoint = bp.htlc;
}

-- `id[i] ^= x` on an array that is long enough.
unfoldable pub xor_at : ℕ → ℕ → Bytes → Bytes
xor_at i x [] = []
xor_at zero x (b ∷ bs) = bit_xor b x ∷ bs
xor_at (suc i) x (b ∷ bs) = b ∷ xor_at i x bs

unfoldable pub channel_id_from_funding : Bytes → ℕ → Bytes
unfolding xor_at
channel_id_from_funding txid output_index =
    xor_at 31 (output_index % 256) (xor_at 30 (output_index / 256) txid)

unfoldable pub reserve_for : ChannelConfig → ℕ → ℕ
unfolding mul64
reserve_for config funding_sat =
    let share = mul64 funding_sat config.reserve_ppm / 1000000 in
    if leb share config.dust_limit_sat then config.dust_limit_sat else share

-- `funding / 1_000_000 * ppm * 1000`, with the source's order of operations.
unfoldable pub max_in_flight_for : ChannelConfig → ℕ → Msat
unfolding mul64
max_in_flight_for config funding_sat =
    mul64 (mul64 (funding_sat / 1000000) config.max_htlc_value_in_flight_ppm) 1000

-- Bit 12 set in an empty feature vector.
abbrev pub static_remotekey_channel_type : Bytes
static_remotekey_channel_type = 16 ∷ 0 ∷ []
