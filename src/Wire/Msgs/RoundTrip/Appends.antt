-- ===== src/Wire/Msgs/RoundTrip/Appends.antt =====
-- src/wire/msgs.rs: `encode` only appends.
use keraunos.Prelude.{◌≡◌, refl, Bytes, [], ◌++◌, append_assoc}
use keraunos.Wire.Ser.{write_u8, write_u16, write_u32, write_u64, write_bytes, write_bytes_u16}
use keraunos.Wire.Msgs.Data.{
  Message, unknown, warning, init, error, ping, pong, open_channel, accept_channel,
  funding_created_msg, funding_signed, channel_ready, shutdown, closing_signed, update_add_htlc,
  update_fulfill_htlc, update_fail_htlc, update_fail_malformed_htlc, commitment_signed,
  revoke_and_ack, update_fee, channel_reestablish, announcement_signatures, channel_announcement,
  node_announcement, channel_update, gossip_timestamp_filter,
}
use keraunos.Wire.Msgs.Write.{
  write_body, write_init, write_open_channel, write_accept_channel, write_node_after_sig,
  write_update_after_sig, write_basepoints, announced_payload,
}
use keraunos.Wire.Msgs.RoundTrip.Records.{optional_record-eq}
use keraunos.Wire.Msgs.RoundTrip.Signatures.{write_signatures-eq}

-- A body is written behind what is there.
pub write_body-eq : (m : Message) (w : Bytes) → write_body m w ≡ w ++ write_body m []
unfolding write_body write_u8 write_u16 write_u32 write_u64 write_bytes write_bytes_u16 write_init
    write_open_channel write_accept_channel write_node_after_sig write_update_after_sig
    write_basepoints announced_payload
write_body-eq (warning m) w = simp append_assoc
write_body-eq (init m) w = simp (optional_record-eq, append_assoc)
write_body-eq (error m) w = simp append_assoc
write_body-eq (ping m) w = simp append_assoc
write_body-eq (pong m) w = simp append_assoc
write_body-eq (open_channel m) w = simp (optional_record-eq, append_assoc)
write_body-eq (accept_channel m) w = simp (optional_record-eq, append_assoc)
write_body-eq (funding_created_msg m) w = simp append_assoc
write_body-eq (funding_signed m) w = simp append_assoc
write_body-eq (channel_ready m) w = simp (optional_record-eq, append_assoc)
write_body-eq (shutdown m) w = simp append_assoc
write_body-eq (closing_signed m) w = simp (optional_record-eq, append_assoc)
write_body-eq (update_add_htlc m) w = simp append_assoc
write_body-eq (update_fulfill_htlc m) w = simp append_assoc
write_body-eq (update_fail_htlc m) w = simp append_assoc
write_body-eq (update_fail_malformed_htlc m) w = simp append_assoc
write_body-eq (commitment_signed m) w = simp (write_signatures-eq, append_assoc)
write_body-eq (revoke_and_ack m) w = simp append_assoc
write_body-eq (update_fee m) w = simp append_assoc
write_body-eq (channel_reestablish m) w = simp append_assoc
write_body-eq (announcement_signatures m) w = simp append_assoc
write_body-eq (channel_announcement m) w = simp append_assoc
write_body-eq (node_announcement m) w = simp append_assoc
write_body-eq (channel_update m) w = simp append_assoc
write_body-eq (gossip_timestamp_filter m) w = simp append_assoc
write_body-eq (unknown typ payload) w = refl
