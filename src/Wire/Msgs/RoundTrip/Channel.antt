-- ===== src/Wire/Msgs/RoundTrip/Channel.antt =====
-- src/wire/msgs.rs: the readers of messages without TLV records, on what `encode` writes.
use keraunos.Prelude.{◌≡◌, Bytes, Bool, [], ◌++◌, append_assoc}
use keraunos.Wire.Ser.{ok, write_u8, write_u16, write_u32, write_u64, write_bytes, write_bytes_u16}
use keraunos.Wire.Msgs.Data.{
  WarningMsg, ErrorMsg, Ping, Pong, FundingCreated, FundingSigned, Shutdown, UpdateAddHtlc,
  UpdateFulfillHtlc, UpdateFailHtlc, UpdateFailMalformedHtlc, RevokeAndAck, UpdateFee,
  ChannelReestablish, warning, error, ping, pong, funding_created_msg, funding_signed, shutdown,
  update_add_htlc, update_fulfill_htlc, update_fail_htlc, update_fail_malformed_htlc,
  revoke_and_ack, update_fee, channel_reestablish,
}
use keraunos.Wire.Msgs.Fits.{
  read_take_fact, read_be_fact, read_short_fact, read_pubkey_fact, read_signature_fact,
}
use keraunos.Wire.Msgs.Valid.{IsMessage}
use keraunos.Wire.Msgs.Write.{write_body}
use keraunos.Wire.Msgs.Read.{
  read_warning, read_error, read_ping, read_pong, read_funding_created, read_funding_signed,
  read_shutdown, read_update_add_htlc, read_update_fulfill_htlc, read_update_fail_htlc,
  read_update_fail_malformed_htlc, read_revoke_and_ack, read_update_fee, read_channel_reestablish,
}

module _ (is_pubkey is_signature : Bytes → Bool) where
  pub read_warning-write_body :
      (m : WarningMsg) (rest : Bytes)
      → IsMessage is_pubkey is_signature (warning m)
      → read_warning is_pubkey is_signature (write_body (warning m) [] ++ rest) ≡ ok m
  unfolding read_warning write_body write_u8 write_u16 write_u32 write_u64 write_bytes
      write_bytes_u16
  read_warning-write_body m rest (h_channel_id, h_body) =
      simp
        (append_assoc, read_take_fact 32 m.channel_id h_channel_id, read_short_fact m.body h_body)

  pub read_error-write_body :
      (m : ErrorMsg) (rest : Bytes)
      → IsMessage is_pubkey is_signature (error m)
      → read_error is_pubkey is_signature (write_body (error m) [] ++ rest) ≡ ok m
  unfolding read_error write_body write_u8 write_u16 write_u32 write_u64 write_bytes write_bytes_u16
  read_error-write_body m rest (h_channel_id, h_body) =
      simp
        (append_assoc, read_take_fact 32 m.channel_id h_channel_id, read_short_fact m.body h_body)

  pub read_ping-write_body :
      (m : Ping) (rest : Bytes)
      → IsMessage is_pubkey is_signature (ping m)
      → read_ping is_pubkey is_signature (write_body (ping m) [] ++ rest) ≡ ok m
  unfolding read_ping write_body write_u8 write_u16 write_u32 write_u64 write_bytes write_bytes_u16
  read_ping-write_body m rest (h_num_pong_bytes, h_ignored) = simp (
    append_assoc,
    read_be_fact 2 m.num_pong_bytes h_num_pong_bytes,
    read_short_fact m.ignored h_ignored,
  )

  pub read_pong-write_body :
      (m : Pong) (rest : Bytes)
      → IsMessage is_pubkey is_signature (pong m)
      → read_pong is_pubkey is_signature (write_body (pong m) [] ++ rest) ≡ ok m
  unfolding read_pong write_body write_u8 write_u16 write_u32 write_u64 write_bytes write_bytes_u16
  read_pong-write_body m rest h_ignored = simp (append_assoc, read_short_fact m.ignored h_ignored)

  pub read_funding_created-write_body :
      (m : FundingCreated) (rest : Bytes)
      → IsMessage is_pubkey is_signature (funding_created_msg m)
      → read_funding_created is_pubkey is_signature (write_body (funding_created_msg m) [] ++ rest)
        ≡ ok m
  unfolding read_funding_created write_body write_u8 write_u16 write_u32 write_u64 write_bytes
      write_bytes_u16
  read_funding_created-write_body m rest
        (h_temporary_channel_id, h_funding_txid, h_funding_output_index, h_signature) =
      simp (
        append_assoc,
        read_take_fact 32 m.temporary_channel_id h_temporary_channel_id,
        read_take_fact 32 m.funding_txid h_funding_txid,
        read_be_fact 2 m.funding_output_index h_funding_output_index,
        read_signature_fact is_pubkey is_signature m.signature h_signature,
      )

  pub read_funding_signed-write_body :
      (m : FundingSigned) (rest : Bytes)
      → IsMessage is_pubkey is_signature (funding_signed m)
      → read_funding_signed is_pubkey is_signature (write_body (funding_signed m) [] ++ rest) ≡ ok m
  unfolding read_funding_signed write_body write_u8 write_u16 write_u32 write_u64 write_bytes
      write_bytes_u16
  read_funding_signed-write_body m rest (h_channel_id, h_signature) = simp (
    append_assoc,
    read_take_fact 32 m.channel_id h_channel_id,
    read_signature_fact is_pubkey is_signature m.signature h_signature,
  )

  pub read_shutdown-write_body :
      (m : Shutdown) (rest : Bytes)
      → IsMessage is_pubkey is_signature (shutdown m)
      → read_shutdown is_pubkey is_signature (write_body (shutdown m) [] ++ rest) ≡ ok m
  unfolding read_shutdown write_body write_u8 write_u16 write_u32 write_u64 write_bytes
      write_bytes_u16
  read_shutdown-write_body m rest (h_channel_id, h_scriptpubkey) = simp (
    append_assoc,
    read_take_fact 32 m.channel_id h_channel_id,
    read_short_fact m.scriptpubkey h_scriptpubkey,
  )

  pub read_update_add_htlc-write_body :
      (m : UpdateAddHtlc) (rest : Bytes)
      → IsMessage is_pubkey is_signature (update_add_htlc m)
      → read_update_add_htlc is_pubkey is_signature (write_body (update_add_htlc m) [] ++ rest)
        ≡ ok m
  unfolding read_update_add_htlc write_body write_u8 write_u16 write_u32 write_u64 write_bytes
      write_bytes_u16
  read_update_add_htlc-write_body m rest
        (h_channel_id, h_id, h_amount_msat, h_payment_hash, h_cltv_expiry, h_onion_routing_packet) =
      simp (
        append_assoc,
        read_take_fact 32 m.channel_id h_channel_id,
        read_be_fact 8 m.id h_id,
        read_be_fact 8 m.amount_msat h_amount_msat,
        read_take_fact 32 m.payment_hash h_payment_hash,
        read_be_fact 4 m.cltv_expiry h_cltv_expiry,
        read_take_fact 1366 m.onion_routing_packet h_onion_routing_packet,
      )

  pub read_update_fulfill_htlc-write_body :
      (m : UpdateFulfillHtlc) (rest : Bytes)
      → IsMessage is_pubkey is_signature (update_fulfill_htlc m)
      → read_update_fulfill_htlc is_pubkey is_signature
          (write_body (update_fulfill_htlc m) [] ++ rest)
        ≡ ok m
  unfolding read_update_fulfill_htlc write_body write_u8 write_u16 write_u32 write_u64 write_bytes
      write_bytes_u16
  read_update_fulfill_htlc-write_body m rest (h_channel_id, h_id, h_payment_preimage) = simp (
    append_assoc,
    read_take_fact 32 m.channel_id h_channel_id,
    read_be_fact 8 m.id h_id,
    read_take_fact 32 m.payment_preimage h_payment_preimage,
  )

  pub read_update_fail_htlc-write_body :
      (m : UpdateFailHtlc) (rest : Bytes)
      → IsMessage is_pubkey is_signature (update_fail_htlc m)
      → read_update_fail_htlc is_pubkey is_signature (write_body (update_fail_htlc m) [] ++ rest)
        ≡ ok m
  unfolding read_update_fail_htlc write_body write_u8 write_u16 write_u32 write_u64 write_bytes
      write_bytes_u16
  read_update_fail_htlc-write_body m rest (h_channel_id, h_id, h_reason) = simp (
    append_assoc,
    read_take_fact 32 m.channel_id h_channel_id,
    read_be_fact 8 m.id h_id,
    read_short_fact m.reason h_reason,
  )

  pub read_update_fail_malformed_htlc-write_body :
      (m : UpdateFailMalformedHtlc) (rest : Bytes)
      → IsMessage is_pubkey is_signature (update_fail_malformed_htlc m)
      → read_update_fail_malformed_htlc is_pubkey is_signature
          (write_body (update_fail_malformed_htlc m) [] ++ rest)
        ≡ ok m
  unfolding read_update_fail_malformed_htlc write_body write_u8 write_u16 write_u32 write_u64
      write_bytes write_bytes_u16
  read_update_fail_malformed_htlc-write_body m rest
        (h_channel_id, h_id, h_sha256_of_onion, h_failure_code) =
      simp (
        append_assoc,
        read_take_fact 32 m.channel_id h_channel_id,
        read_be_fact 8 m.id h_id,
        read_take_fact 32 m.sha256_of_onion h_sha256_of_onion,
        read_be_fact 2 m.failure_code h_failure_code,
      )

  pub read_revoke_and_ack-write_body :
      (m : RevokeAndAck) (rest : Bytes)
      → IsMessage is_pubkey is_signature (revoke_and_ack m)
      → read_revoke_and_ack is_pubkey is_signature (write_body (revoke_and_ack m) [] ++ rest) ≡ ok m
  unfolding read_revoke_and_ack write_body write_u8 write_u16 write_u32 write_u64 write_bytes
      write_bytes_u16
  read_revoke_and_ack-write_body m rest
        (h_channel_id, h_per_commitment_secret, h_next_per_commitment_point) =
      simp (
        append_assoc,
        read_take_fact 32 m.channel_id h_channel_id,
        read_take_fact 32 m.per_commitment_secret h_per_commitment_secret,
        read_pubkey_fact is_pubkey is_signature m.next_per_commitment_point
            h_next_per_commitment_point,
      )

  pub read_update_fee-write_body :
      (m : UpdateFee) (rest : Bytes)
      → IsMessage is_pubkey is_signature (update_fee m)
      → read_update_fee is_pubkey is_signature (write_body (update_fee m) [] ++ rest) ≡ ok m
  unfolding read_update_fee write_body write_u8 write_u16 write_u32 write_u64 write_bytes
      write_bytes_u16
  read_update_fee-write_body m rest (h_channel_id, h_feerate_per_kw) = simp (
    append_assoc,
    read_take_fact 32 m.channel_id h_channel_id,
    read_be_fact 4 m.feerate_per_kw h_feerate_per_kw,
  )

  pub read_channel_reestablish-write_body :
      (m : ChannelReestablish) (rest : Bytes)
      → IsMessage is_pubkey is_signature (channel_reestablish m)
      → read_channel_reestablish is_pubkey is_signature
          (write_body (channel_reestablish m) [] ++ rest)
        ≡ ok m
  unfolding read_channel_reestablish write_body write_u8 write_u16 write_u32 write_u64 write_bytes
      write_bytes_u16
  read_channel_reestablish-write_body m rest
        (
          h_channel_id, h_next_commitment_number, h_next_revocation_number,
          h_your_last_per_commitment_secret, h_my_current_per_commitment_point,
        ) =
      simp (
        append_assoc,
        read_take_fact 32 m.channel_id h_channel_id,
        read_be_fact 8 m.next_commitment_number h_next_commitment_number,
        read_be_fact 8 m.next_revocation_number h_next_revocation_number,
        read_take_fact 32 m.your_last_per_commitment_secret h_your_last_per_commitment_secret,
        read_pubkey_fact is_pubkey is_signature m.my_current_per_commitment_point
            h_my_current_per_commitment_point,
      )
