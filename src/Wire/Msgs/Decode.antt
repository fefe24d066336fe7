-- ===== src/Wire/Msgs/Decode.antt =====
-- src/wire/msgs.rs: `Message::decode`.
use keraunos.Prelude.{ℕ, ◌%◌, ◌==◌, if◌then◌else◌, Bytes, Bool}
use keraunos.Wire.Ser.{Result, ok, err, ◌>>=◌, read_be, read_rest, unknown_message_type}
use keraunos.Wire.Msgs.Data.{
  Message, unknown, warning, init, error, ping, pong, open_channel, accept_channel,
  funding_created_msg, funding_signed, channel_ready, shutdown, closing_signed, update_add_htlc,
  update_fulfill_htlc, update_fail_htlc, update_fail_malformed_htlc, commitment_signed,
  revoke_and_ack, update_fee, channel_reestablish, announcement_signatures, channel_announcement,
  node_announcement, channel_update, gossip_timestamp_filter,
}
use keraunos.Wire.Msgs.Read.{
  read_warning, read_error, read_ping, read_pong, read_funding_created, read_funding_signed,
  read_shutdown, read_update_add_htlc, read_update_fulfill_htlc, read_update_fail_htlc,
  read_update_fail_malformed_htlc, read_commitment_signed, read_revoke_and_ack, read_update_fee,
  read_channel_reestablish,
}
use keraunos.Wire.Msgs.Tlvs.{
  read_init, read_open_channel, read_accept_channel, read_channel_ready, read_closing_signed,
}
use keraunos.Wire.Msgs.Gossip.{
  read_announcement_signatures, read_channel_announcement, read_channel_update,
  read_gossip_timestamp_filter, read_node_announcement,
}

module _ (is_pubkey is_signature : Bytes → Bool) where
  -- `match typ`
  unfoldable pub decode_body : ℕ → Bytes → Result Message
  unfolding read_warning read_init read_error read_ping read_pong read_open_channel
      read_accept_channel read_funding_created read_funding_signed read_channel_ready read_shutdown
      read_closing_signed read_update_add_htlc read_update_fulfill_htlc read_update_fail_htlc
      read_update_fail_malformed_htlc read_commitment_signed read_revoke_and_ack read_update_fee
      read_channel_reestablish read_announcement_signatures read_channel_announcement
      read_node_announcement read_channel_update read_gossip_timestamp_filter read_rest
  decode_body typ r =
      if typ == 1
      then read_warning is_pubkey is_signature r >>= (λ m. ok (warning m))
      else if typ == 16
      then read_init is_pubkey is_signature r >>= (λ m. ok (init m))
      else if typ == 17
      then read_error is_pubkey is_signature r >>= (λ m. ok (error m))
      else if typ == 18
      then read_ping is_pubkey is_signature r >>= (λ m. ok (ping m))
      else if typ == 19
      then read_pong is_pubkey is_signature r >>= (λ m. ok (pong m))
      else if typ == 32
      then read_open_channel is_pubkey is_signature r >>= (λ m. ok (open_channel m))
      else if typ == 33
      then read_accept_channel is_pubkey is_signature r >>= (λ m. ok (accept_channel m))
      else if typ == 34
      then read_funding_created is_pubkey is_signature r >>= (λ m. ok (funding_created_msg m))
      else if typ == 35
      then read_funding_signed is_pubkey is_signature r >>= (λ m. ok (funding_signed m))
      else if typ == 36
      then read_channel_ready is_pubkey is_signature r >>= (λ m. ok (channel_ready m))
      else if typ == 38
      then read_shutdown is_pubkey is_signature r >>= (λ m. ok (shutdown m))
      else if typ == 39
      then read_closing_signed is_pubkey is_signature r >>= (λ m. ok (closing_signed m))
      else if typ == 128
      then read_update_add_htlc is_pubkey is_signature r >>= (λ m. ok (update_add_htlc m))
      else if typ == 130
      then read_update_fulfill_htlc is_pubkey is_signature r >>= (λ m. ok (update_fulfill_htlc m))
      else if typ == 131
      then read_update_fail_htlc is_pubkey is_signature r >>= (λ m. ok (update_fail_htlc m))
      else if typ == 135
      then read_update_fail_malformed_htlc is_pubkey is_signature r
        >>= (λ m. ok (update_fail_malformed_htlc m))
      else if typ == 132
      then read_commitment_signed is_pubkey is_signature r >>= (λ m. ok (commitment_signed m))
      else if typ == 133
      then read_revoke_and_ack is_pubkey is_signature r >>= (λ m. ok (revoke_and_ack m))
      else if typ == 134
      then read_update_fee is_pubkey is_signature r >>= (λ m. ok (update_fee m))
      else if typ == 136
      then read_channel_reestablish is_pubkey is_signature r >>= (λ m. ok (channel_reestablish m))
      else if typ == 259
      then read_announcement_signatures is_pubkey is_signature r
        >>= (λ m. ok (announcement_signatures m))
      else if typ == 256
      then read_channel_announcement is_pubkey is_signature r >>= (λ m. ok (channel_announcement m))
      else if typ == 257
      then read_node_announcement is_pubkey is_signature r >>= (λ m. ok (node_announcement m))
      else if typ == 258
      then read_channel_update is_pubkey is_signature r >>= (λ m. ok (channel_update m))
      else if typ == 265
      then read_gossip_timestamp_filter is_pubkey is_signature r
        >>= (λ m. ok (gossip_timestamp_filter m))
      else if typ % 2 == 1
      then ok (unknown typ (read_rest r).0)
      else err (unknown_message_type typ)

  unfoldable pub decode : Bytes → Result Message
  unfolding read_be decode_body
  decode raw = do (typ, r) ← read_be 2 raw; decode_body typ r
