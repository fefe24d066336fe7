-- ===== src/Wire/Msgs/RoundTrip/Gossip.antt =====
-- src/wire/msgs.rs: the readers of gossip, on what `encode` writes.
use keraunos.Prelude.{◌≡◌, Bytes, Bool, [], ◌++◌, append_assoc}
use keraunos.Wire.Ser.{ok, write_u8, write_u16, write_u32, write_u64, write_bytes, write_bytes_u16}
use keraunos.Wire.Msgs.Data.{
  AnnouncementSignatures, ChannelAnnouncement, ChannelUpdate, GossipTimestampFilter,
  announcement_signatures, channel_announcement, channel_update, gossip_timestamp_filter,
}
use keraunos.Wire.Msgs.Fits.{
  read_u8_fact, read_take_fact, read_be_fact, read_short_fact, read_pubkey_fact,
  read_signature_fact,
}
use keraunos.Wire.Msgs.Valid.{IsMessage}
use keraunos.Wire.Msgs.Write.{write_body, write_update_after_sig, announced_payload}
use keraunos.Wire.Msgs.Gossip.{
  read_announcement_signatures, read_channel_announcement, read_channel_update,
  read_gossip_timestamp_filter,
}

module _ (is_pubkey is_signature : Bytes → Bool) where
  pub read_announcement_signatures-write_body :
      (m : AnnouncementSignatures) (rest : Bytes)
      → IsMessage is_pubkey is_signature (announcement_signatures m)
      → read_announcement_signatures is_pubkey is_signature
          (write_body (announcement_signatures m) [] ++ rest)
        ≡ ok m
  unfolding read_announcement_signatures write_body write_u8 write_u16 write_u32 write_u64
      write_bytes write_bytes_u16
  read_announcement_signatures-write_body m rest
        (h_channel_id, h_short_channel_id, h_node_signature, h_bitcoin_signature) =
      simp (
        append_assoc,
        read_take_fact 32 m.channel_id h_channel_id,
        read_be_fact 8 m.short_channel_id h_short_channel_id,
        read_signature_fact is_pubkey is_signature m.node_signature h_node_signature,
        read_signature_fact is_pubkey is_signature m.bitcoin_signature h_bitcoin_signature,
      )

  pub read_channel_announcement-write_body :
      (m : ChannelAnnouncement) (rest : Bytes)
      → IsMessage is_pubkey is_signature (channel_announcement m)
      → read_channel_announcement is_pubkey is_signature
          (write_body (channel_announcement m) [] ++ rest)
        ≡ ok m
  unfolding read_channel_announcement write_body write_u8 write_u16 write_u32 write_u64 write_bytes
      write_bytes_u16 announced_payload
  read_channel_announcement-write_body m rest
        (
          h_node_signature_1, h_node_signature_2, h_bitcoin_signature_1, h_bitcoin_signature_2,
          h_features, h_chain_hash, h_short_channel_id, h_node_id_1, h_node_id_2, h_bitcoin_key_1,
          h_bitcoin_key_2,
        ) =
      simp (
        append_assoc,
        read_signature_fact is_pubkey is_signature m.node_signature_1 h_node_signature_1,
        read_signature_fact is_pubkey is_signature m.node_signature_2 h_node_signature_2,
        read_signature_fact is_pubkey is_signature m.bitcoin_signature_1 h_bitcoin_signature_1,
        read_signature_fact is_pubkey is_signature m.bitcoin_signature_2 h_bitcoin_signature_2,
        read_short_fact m.features h_features,
        read_take_fact 32 m.chain_hash h_chain_hash,
        read_be_fact 8 m.short_channel_id h_short_channel_id,
        read_pubkey_fact is_pubkey is_signature m.node_id_1 h_node_id_1,
        read_pubkey_fact is_pubkey is_signature m.node_id_2 h_node_id_2,
        read_pubkey_fact is_pubkey is_signature m.bitcoin_key_1 h_bitcoin_key_1,
        read_pubkey_fact is_pubkey is_signature m.bitcoin_key_2 h_bitcoin_key_2,
      )

  pub read_channel_update-write_body :
      (m : ChannelUpdate) (rest : Bytes)
      → IsMessage is_pubkey is_signature (channel_update m)
      → read_channel_update is_pubkey is_signature (write_body (channel_update m) [] ++ rest) ≡ ok m
  unfolding read_channel_update write_body write_u8 write_u16 write_u32 write_u64 write_bytes
      write_bytes_u16 write_update_after_sig
  read_channel_update-write_body m rest
        (
          h_signature, h_chain_hash, h_short_channel_id, h_timestamp, h_message_flags,
          h_channel_flags, h_cltv_expiry_delta, h_htlc_minimum_msat, h_fee_base_msat,
          h_fee_proportional_millionths, h_htlc_maximum_msat,
        ) =
      simp (
        append_assoc,
        read_signature_fact is_pubkey is_signature m.signature h_signature,
        read_take_fact 32 m.chain_hash h_chain_hash,
        read_be_fact 8 m.short_channel_id h_short_channel_id,
        read_be_fact 4 m.timestamp h_timestamp,
        read_u8_fact m.message_flags h_message_flags,
        read_u8_fact m.channel_flags h_channel_flags,
        read_be_fact 2 m.cltv_expiry_delta h_cltv_expiry_delta,
        read_be_fact 8 m.htlc_minimum_msat h_htlc_minimum_msat,
        read_be_fact 4 m.fee_base_msat h_fee_base_msat,
        read_be_fact 4 m.fee_proportional_millionths h_fee_proportional_millionths,
        read_be_fact 8 m.htlc_maximum_msat h_htlc_maximum_msat,
      )

  pub read_gossip_timestamp_filter-write_body :
      (m : GossipTimestampFilter) (rest : Bytes)
      → IsMessage is_pubkey is_signature (gossip_timestamp_filter m)
      → read_gossip_timestamp_filter is_pubkey is_signature
          (write_body (gossip_timestamp_filter m) [] ++ rest)
        ≡ ok m
  unfolding read_gossip_timestamp_filter write_body write_u8 write_u16 write_u32 write_u64
      write_bytes write_bytes_u16
  read_gossip_timestamp_filter-write_body m rest
        (h_chain_hash, h_first_timestamp, h_timestamp_range) =
      simp (
        append_assoc,
        read_take_fact 32 m.chain_hash h_chain_hash,
        read_be_fact 4 m.first_timestamp h_first_timestamp,
        read_be_fact 4 m.timestamp_range h_timestamp_range,
      )
