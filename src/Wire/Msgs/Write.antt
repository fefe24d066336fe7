-- ===== src/Wire/Msgs/Write.antt =====
-- src/wire/msgs.rs: `Message::encode`.
use keraunos.Prelude.{ℕ, ◌%◌, ◌^◌, List, [], ◌∷◌, Bytes, length}
use keraunos.Wire.Ser.{write_u16}
use keraunos.Wire.Msgs.Put.{
  ◌▷◌, u8, u16, u32, u64, bytes, bytes_u16, optional_record, networks_value, alias_value,
  fee_range_value,
}
use keraunos.Wire.Msgs.Data.{
  Init, ChannelBasepoints, OpenChannel, AcceptChannel, ChannelAnnouncement, NodeAnnouncement,
  ChannelUpdate, NetAddress, v4, v6, tor_v3, hostname, Message, warning, init, error, ping, pong,
  open_channel, accept_channel, funding_created_msg, funding_signed, channel_ready, shutdown,
  closing_signed, update_add_htlc, update_fulfill_htlc, update_fail_htlc,
  update_fail_malformed_htlc, commitment_signed, revoke_and_ack, update_fee, channel_reestablish,
  announcement_signatures, channel_announcement, node_announcement, channel_update,
  gossip_timestamp_filter, unknown,
}

unfoldable pub write_init : Bytes → Init → Bytes
unfolding optional_record
write_init w m =
    w
    ▷ bytes_u16 m.global_features
    ▷ bytes_u16 m.features
    ▷ optional_record (networks_value m.networks) 1

unfoldable pub write_basepoints : ChannelBasepoints → Bytes → Bytes
write_basepoints b w =
    w
    ▷ bytes b.funding_pubkey
    ▷ bytes b.revocation
    ▷ bytes b.payment
    ▷ bytes b.delayed_payment
    ▷ bytes b.htlc

unfoldable pub write_open_channel : Bytes → OpenChannel → Bytes
unfolding write_basepoints optional_record
write_open_channel w m =
    w
    ▷ bytes m.chain_hash
    ▷ bytes m.temporary_channel_id
    ▷ u64 m.funding_satoshis
    ▷ u64 m.push_msat
    ▷ u64 m.dust_limit_satoshis
    ▷ u64 m.max_htlc_value_in_flight_msat
    ▷ u64 m.channel_reserve_satoshis
    ▷ u64 m.htlc_minimum_msat
    ▷ u32 m.feerate_per_kw
    ▷ u16 m.to_self_delay
    ▷ u16 m.max_accepted_htlcs
    ▷ write_basepoints m.basepoints
    ▷ bytes m.first_per_commitment_point
    ▷ u8 m.channel_flags
    ▷ optional_record m.upfront_shutdown_script 0
    ▷ optional_record m.channel_type 1

unfoldable pub write_accept_channel : Bytes → AcceptChannel → Bytes
unfolding write_basepoints optional_record
write_accept_channel w m =
    w
    ▷ bytes m.temporary_channel_id
    ▷ u64 m.dust_limit_satoshis
    ▷ u64 m.max_htlc_value_in_flight_msat
    ▷ u64 m.channel_reserve_satoshis
    ▷ u64 m.htlc_minimum_msat
    ▷ u32 m.minimum_depth
    ▷ u16 m.to_self_delay
    ▷ u16 m.max_accepted_htlcs
    ▷ write_basepoints m.basepoints
    ▷ bytes m.first_per_commitment_point
    ▷ optional_record m.upfront_shutdown_script 0
    ▷ optional_record m.channel_type 1

unfoldable pub write_signatures : List Bytes → Bytes → Bytes
write_signatures [] w = w
write_signatures (sig ∷ sigs) w = write_signatures sigs (w ▷ bytes sig)

unfoldable pub announced_payload : ChannelAnnouncement → Bytes
announced_payload m =
    []
    ▷ bytes_u16 m.features
    ▷ bytes m.chain_hash
    ▷ u64 m.short_channel_id
    ▷ bytes m.node_id_1
    ▷ bytes m.node_id_2
    ▷ bytes m.bitcoin_key_1
    ▷ bytes m.bitcoin_key_2

-- `hostname.len() as u8` keeps the low 8 bits.
unfoldable pub write_address : NetAddress → Bytes → Bytes
write_address (v4 addr port) w = w ▷ u8 1 ▷ bytes addr ▷ u16 port
write_address (v6 addr port) w = w ▷ u8 2 ▷ bytes addr ▷ u16 port
write_address (tor_v3 key checksum version port) w =
    w ▷ u8 4 ▷ bytes key ▷ u16 checksum ▷ u8 version ▷ u16 port
write_address (hostname name port) w = w ▷ u8 5 ▷ u8 (length name % 256) ▷ bytes name ▷ u16 port

unfoldable pub write_addresses : List NetAddress → Bytes → Bytes
unfolding write_address
write_addresses [] w = w
write_addresses (a ∷ addresses) w = write_addresses addresses (write_address a w)

unfoldable pub write_node_after_sig : NodeAnnouncement → Bytes → Bytes
unfolding write_addresses
write_node_after_sig m w =
    w
    ▷ bytes_u16 m.features
    ▷ u32 m.timestamp
    ▷ bytes m.node_id
    ▷ bytes m.rgb_color
    ▷ bytes m.alias
    ▷ bytes_u16 (write_addresses m.addresses [])

unfoldable pub write_update_after_sig : ChannelUpdate → Bytes → Bytes
write_update_after_sig m w =
    w
    ▷ bytes m.chain_hash
    ▷ u64 m.short_channel_id
    ▷ u32 m.timestamp
    ▷ u8 m.message_flags
    ▷ u8 m.channel_flags
    ▷ u16 m.cltv_expiry_delta
    ▷ u64 m.htlc_minimum_msat
    ▷ u32 m.fee_base_msat
    ▷ u32 m.fee_proportional_millionths
    ▷ u64 m.htlc_maximum_msat

unfoldable pub msg_type : Message → ℕ
msg_type (warning m) = 1
msg_type (init m) = 16
msg_type (error m) = 17
msg_type (ping m) = 18
msg_type (pong m) = 19
msg_type (open_channel m) = 32
msg_type (accept_channel m) = 33
msg_type (funding_created_msg m) = 34
msg_type (funding_signed m) = 35
msg_type (channel_ready m) = 36
msg_type (shutdown m) = 38
msg_type (closing_signed m) = 39
msg_type (update_add_htlc m) = 128
msg_type (update_fulfill_htlc m) = 130
msg_type (update_fail_htlc m) = 131
msg_type (update_fail_malformed_htlc m) = 135
msg_type (commitment_signed m) = 132
msg_type (revoke_and_ack m) = 133
msg_type (update_fee m) = 134
msg_type (channel_reestablish m) = 136
msg_type (announcement_signatures m) = 259
msg_type (channel_announcement m) = 256
msg_type (node_announcement m) = 257
msg_type (channel_update m) = 258
msg_type (gossip_timestamp_filter m) = 265
msg_type (unknown t payload) = t

-- The `match` of `encode`.
unfoldable pub write_body : Message → Bytes → Bytes
unfolding write_init write_open_channel write_accept_channel optional_record write_signatures
    announced_payload write_node_after_sig write_update_after_sig
write_body (warning m) w = w ▷ bytes m.channel_id ▷ bytes_u16 m.body
write_body (init m) w = write_init w m
write_body (error m) w = w ▷ bytes m.channel_id ▷ bytes_u16 m.body
write_body (ping m) w = w ▷ u16 m.num_pong_bytes ▷ bytes_u16 m.ignored
write_body (pong m) w = w ▷ bytes_u16 m.ignored
write_body (open_channel m) w = write_open_channel w m
write_body (accept_channel m) w = write_accept_channel w m
write_body (funding_created_msg m) w =
    w
    ▷ bytes m.temporary_channel_id
    ▷ bytes m.funding_txid
    ▷ u16 m.funding_output_index
    ▷ bytes m.signature
write_body (funding_signed m) w = w ▷ bytes m.channel_id ▷ bytes m.signature
write_body (channel_ready m) w =
    w
    ▷ bytes m.channel_id
    ▷ bytes m.second_per_commitment_point
    ▷ optional_record (alias_value m.short_channel_id_alias) 1
write_body (shutdown m) w = w ▷ bytes m.channel_id ▷ bytes_u16 m.scriptpubkey
write_body (closing_signed m) w =
    w
    ▷ bytes m.channel_id
    ▷ u64 m.fee_satoshis
    ▷ bytes m.signature
    ▷ optional_record (fee_range_value m.fee_range) 1
write_body (update_add_htlc m) w =
    w
    ▷ bytes m.channel_id
    ▷ u64 m.id
    ▷ u64 m.amount_msat
    ▷ bytes m.payment_hash
    ▷ u32 m.cltv_expiry
    ▷ bytes m.onion_routing_packet
write_body (update_fulfill_htlc m) w = w ▷ bytes m.channel_id ▷ u64 m.id ▷ bytes m.payment_preimage
write_body (update_fail_htlc m) w = w ▷ bytes m.channel_id ▷ u64 m.id ▷ bytes_u16 m.reason
write_body (update_fail_malformed_htlc m) w =
    w ▷ bytes m.channel_id ▷ u64 m.id ▷ bytes m.sha256_of_onion ▷ u16 m.failure_code
write_body (commitment_signed m) w =
    w
    ▷ bytes m.channel_id
    ▷ bytes m.signature
    ▷ u16 (length m.htlc_signatures % 2 ^ 16)
    ▷ write_signatures m.htlc_signatures
write_body (revoke_and_ack m) w =
    w ▷ bytes m.channel_id ▷ bytes m.per_commitment_secret ▷ bytes m.next_per_commitment_point
write_body (update_fee m) w = w ▷ bytes m.channel_id ▷ u32 m.feerate_per_kw
write_body (channel_reestablish m) w =
    w
    ▷ bytes m.channel_id
    ▷ u64 m.next_commitment_number
    ▷ u64 m.next_revocation_number
    ▷ bytes m.your_last_per_commitment_secret
    ▷ bytes m.my_current_per_commitment_point
write_body (announcement_signatures m) w =
    w
    ▷ bytes m.channel_id
    ▷ u64 m.short_channel_id
    ▷ bytes m.node_signature
    ▷ bytes m.bitcoin_signature
write_body (channel_announcement m) w =
    w
    ▷ bytes m.node_signature_1
    ▷ bytes m.node_signature_2
    ▷ bytes m.bitcoin_signature_1
    ▷ bytes m.bitcoin_signature_2
    ▷ bytes (announced_payload m)
write_body (node_announcement m) w = w ▷ bytes m.signature ▷ write_node_after_sig m
write_body (channel_update m) w = w ▷ bytes m.signature ▷ write_update_after_sig m
write_body (gossip_timestamp_filter m) w =
    w ▷ bytes m.chain_hash ▷ u32 m.first_timestamp ▷ u32 m.timestamp_range
write_body (unknown t payload) w = w ▷ bytes payload

unfoldable pub encode : Message → Bytes
unfolding msg_type write_body
encode m = write_body m (write_u16 [] (msg_type m))
