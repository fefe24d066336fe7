-- ===== src/Wire/Msgs/Valid.antt =====
-- The messages whose fields hold what the types of src/wire/msgs.rs and the length prefixes of
-- the format can hold, and where bytes may follow a message.
use keraunos.Prelude.{
  ℕ, ◌%◌, ◌*◌, ◌<◌, ◌^◌, ◌≡◌, [], ◌∷◌, List, Option, none, some, Bytes, Bool, false, All, length,
  u64_mod,
}
use keraunos.Wire.Msgs.Data.{
  ChannelBasepoints, ClosingSignedFeeRange, NetAddress, v4, v6, tor_v3, hostname, Message, unknown,
  warning, init, error, ping, pong, open_channel, accept_channel, funding_created_msg,
  funding_signed, channel_ready, shutdown, closing_signed, update_add_htlc, update_fulfill_htlc,
  update_fail_htlc, update_fail_malformed_htlc, commitment_signed, revoke_and_ack, update_fee,
  channel_reestablish, announcement_signatures, channel_announcement, node_announcement,
  channel_update, gossip_timestamp_filter,
}
use keraunos.Wire.Msgs.Write.{write_addresses}
use keraunos.Wire.Tlv.{contains}
use keraunos.Wire.Msgs.Fits.{HasLength, IsU8, IsU16, IsU32, IsU64, IsShort, IsPubkey, IsSignature}

abbrev pub IsOptional : Option Bytes → Type 0
IsOptional none = Unit {0}
IsOptional (some value) = length value < u64_mod

abbrev pub IsNetworks : Option (List Bytes) → Type 0
IsNetworks none = Unit {0}
IsNetworks (some nets) = (32 * length nets < u64_mod) × All (HasLength 32) nets

abbrev pub IsAlias : Option ℕ → Type 0
IsAlias none = Unit {0}
IsAlias (some alias) = IsU64 alias

abbrev pub IsFeeRange : Option ClosingSignedFeeRange → Type 0
IsFeeRange none = Unit {0}
IsFeeRange (some range) = IsU64 range.min_fee_satoshis × IsU64 range.max_fee_satoshis

abbrev pub IsAddress : NetAddress → Type 0
IsAddress (v4 addr port) = HasLength 4 addr × IsU16 port
IsAddress (v6 addr port) = HasLength 16 addr × IsU16 port
IsAddress (tor_v3 key checksum version port) =
    HasLength 32 key × IsU16 checksum × IsU8 version × IsU16 port
IsAddress (hostname name port) = (length name < 256 ^ 1) × IsU16 port

abbrev pub IsBasepoints : (Bytes → Bool) → ChannelBasepoints → Type 0
IsBasepoints is_pubkey b =
    IsPubkey is_pubkey b.funding_pubkey
    × IsPubkey is_pubkey b.revocation
    × IsPubkey is_pubkey b.payment
    × IsPubkey is_pubkey b.delayed_payment
    × IsPubkey is_pubkey b.htlc

abbrev pub IsSignatures : (Bytes → Bool) → List Bytes → Type 0
IsSignatures is_signature sigs = (length sigs < 256 ^ 2) × All (IsSignature is_signature) sigs

abbrev pub known_types : List ℕ
known_types =
    1 ∷ 16 ∷ 17 ∷ 18 ∷ 19 ∷ 32 ∷ 33 ∷ 34 ∷ 35 ∷ 36 ∷ 38 ∷ 39 ∷ 128 ∷ 130 ∷ 131 ∷ 135 ∷ 132 ∷ 133
    ∷ 134 ∷ 136 ∷ 259 ∷ 256 ∷ 257 ∷ 258 ∷ 265 ∷ []

-- An unknown message is one with an odd type of 16 bits that is none of the known ones.
abbrev pub IsMessage : (Bytes → Bool) → (Bytes → Bool) → Message → Type 0
IsMessage is_pubkey is_signature (warning m) = HasLength 32 m.channel_id × IsShort m.body
IsMessage is_pubkey is_signature (init m) =
    IsShort m.global_features × IsShort m.features × IsNetworks m.networks
IsMessage is_pubkey is_signature (error m) = HasLength 32 m.channel_id × IsShort m.body
IsMessage is_pubkey is_signature (ping m) = IsU16 m.num_pong_bytes × IsShort m.ignored
IsMessage is_pubkey is_signature (pong m) = IsShort m.ignored
IsMessage is_pubkey is_signature (open_channel m) =
    HasLength 32 m.chain_hash
    × HasLength 32 m.temporary_channel_id
    × IsU64 m.funding_satoshis
    × IsU64 m.push_msat
    × IsU64 m.dust_limit_satoshis
    × IsU64 m.max_htlc_value_in_flight_msat
    × IsU64 m.channel_reserve_satoshis
    × IsU64 m.htlc_minimum_msat
    × IsU32 m.feerate_per_kw
    × IsU16 m.to_self_delay
    × IsU16 m.max_accepted_htlcs
    × IsBasepoints is_pubkey m.basepoints
    × IsPubkey is_pubkey m.first_per_commitment_point
    × IsU8 m.channel_flags
    × IsOptional m.upfront_shutdown_script
    × IsOptional m.channel_type
IsMessage is_pubkey is_signature (accept_channel m) =
    HasLength 32 m.temporary_channel_id
    × IsU64 m.dust_limit_satoshis
    × IsU64 m.max_htlc_value_in_flight_msat
    × IsU64 m.channel_reserve_satoshis
    × IsU64 m.htlc_minimum_msat
    × IsU32 m.minimum_depth
    × IsU16 m.to_self_delay
    × IsU16 m.max_accepted_htlcs
    × IsBasepoints is_pubkey m.basepoints
    × IsPubkey is_pubkey m.first_per_commitment_point
    × IsOptional m.upfront_shutdown_script
    × IsOptional m.channel_type
IsMessage is_pubkey is_signature (funding_created_msg m) =
    HasLength 32 m.temporary_channel_id
    × HasLength 32 m.funding_txid
    × IsU16 m.funding_output_index
    × IsSignature is_signature m.signature
IsMessage is_pubkey is_signature (funding_signed m) =
    HasLength 32 m.channel_id × IsSignature is_signature m.signature
IsMessage is_pubkey is_signature (channel_ready m) =
    HasLength 32 m.channel_id
    × IsPubkey is_pubkey m.second_per_commitment_point
    × IsAlias m.short_channel_id_alias
IsMessage is_pubkey is_signature (shutdown m) = HasLength 32 m.channel_id × IsShort m.scriptpubkey
IsMessage is_pubkey is_signature (closing_signed m) =
    HasLength 32 m.channel_id
    × IsU64 m.fee_satoshis
    × IsSignature is_signature m.signature
    × IsFeeRange m.fee_range
IsMessage is_pubkey is_signature (update_add_htlc m) =
    HasLength 32 m.channel_id
    × IsU64 m.id
    × IsU64 m.amount_msat
    × HasLength 32 m.payment_hash
    × IsU32 m.cltv_expiry
    × HasLength 1366 m.onion_routing_packet
IsMessage is_pubkey is_signature (update_fulfill_htlc m) =
    HasLength 32 m.channel_id × IsU64 m.id × HasLength 32 m.payment_preimage
IsMessage is_pubkey is_signature (update_fail_htlc m) =
    HasLength 32 m.channel_id × IsU64 m.id × IsShort m.reason
IsMessage is_pubkey is_signature (update_fail_malformed_htlc m) =
    HasLength 32 m.channel_id × IsU64 m.id × HasLength 32 m.sha256_of_onion × IsU16 m.failure_code
IsMessage is_pubkey is_signature (commitment_signed m) =
    HasLength 32 m.channel_id
    × IsSignature is_signature m.signature
    × IsSignatures is_signature m.htlc_signatures
IsMessage is_pubkey is_signature (revoke_and_ack m) =
    HasLength 32 m.channel_id
    × HasLength 32 m.per_commitment_secret
    × IsPubkey is_pubkey m.next_per_commitment_point
IsMessage is_pubkey is_signature (update_fee m) = HasLength 32 m.channel_id × IsU32 m.feerate_per_kw
IsMessage is_pubkey is_signature (channel_reestablish m) =
    HasLength 32 m.channel_id
    × IsU64 m.next_commitment_number
    × IsU64 m.next_revocation_number
    × HasLength 32 m.your_last_per_commitment_secret
    × IsPubkey is_pubkey m.my_current_per_commitment_point
IsMessage is_pubkey is_signature (announcement_signatures m) =
    HasLength 32 m.channel_id
    × IsU64 m.short_channel_id
    × IsSignature is_signature m.node_signature
    × IsSignature is_signature m.bitcoin_signature
IsMessage is_pubkey is_signature (channel_announcement m) =
    IsSignature is_signature m.node_signature_1
    × IsSignature is_signature m.node_signature_2
    × IsSignature is_signature m.bitcoin_signature_1
    × IsSignature is_signature m.bitcoin_signature_2
    × IsShort m.features
    × HasLength 32 m.chain_hash
    × IsU64 m.short_channel_id
    × IsPubkey is_pubkey m.node_id_1
    × IsPubkey is_pubkey m.node_id_2
    × IsPubkey is_pubkey m.bitcoin_key_1
    × IsPubkey is_pubkey m.bitcoin_key_2
IsMessage is_pubkey is_signature (node_announcement m) =
    IsSignature is_signature m.signature
    × IsShort m.features
    × IsU32 m.timestamp
    × IsPubkey is_pubkey m.node_id
    × HasLength 3 m.rgb_color
    × HasLength 32 m.alias
    × All IsAddress m.addresses
    × IsShort (write_addresses m.addresses [])
IsMessage is_pubkey is_signature (channel_update m) =
    IsSignature is_signature m.signature
    × HasLength 32 m.chain_hash
    × IsU64 m.short_channel_id
    × IsU32 m.timestamp
    × IsU8 m.message_flags
    × IsU8 m.channel_flags
    × IsU16 m.cltv_expiry_delta
    × IsU64 m.htlc_minimum_msat
    × IsU32 m.fee_base_msat
    × IsU32 m.fee_proportional_millionths
    × IsU64 m.htlc_maximum_msat
IsMessage is_pubkey is_signature (gossip_timestamp_filter m) =
    HasLength 32 m.chain_hash × IsU32 m.first_timestamp × IsU32 m.timestamp_range
IsMessage is_pubkey is_signature (unknown typ payload) =
    IsU16 typ × (typ % 2 ≡ 1) × (contains known_types typ ≡ false)

-- Messages that end in TLV records and unknown messages take all bytes that follow for their own;
-- the other ones leave them.
abbrev pub MayFollow : Message → Bytes → Type 0
MayFollow (init m) rest = rest ≡ []
MayFollow (open_channel m) rest = rest ≡ []
MayFollow (accept_channel m) rest = rest ≡ []
MayFollow (channel_ready m) rest = rest ≡ []
MayFollow (closing_signed m) rest = rest ≡ []
MayFollow (unknown typ payload) rest = rest ≡ []
MayFollow _ rest = Unit {0}
