-- ===== src/Wire/Msgs/Read.antt =====
-- src/wire/msgs.rs: `Message::decode_body` on the messages of channels without TLV records. Which
-- bytes libsecp256k1 takes for a key or a signature are parameters.
use keraunos.Prelude.{ℕ, zero, suc, List, [], ◌∷◌, Bytes, Bool}
use keraunos.Wire.Ser.{
  Result, ok, ◌>>=◌, read_take, read_be, read_bytes_u16, read_pubkey, read_signature,
}
use keraunos.Wire.Msgs.Data.{
  WarningMsg, ErrorMsg, Ping, Pong, FundingCreated, FundingSigned, Shutdown, UpdateAddHtlc,
  UpdateFulfillHtlc, UpdateFailHtlc, UpdateFailMalformedHtlc, CommitmentSigned, RevokeAndAck,
  UpdateFee, ChannelReestablish,
}

module _ (is_pubkey is_signature : Bytes → Bool) where
  -- `for _ in 0..count`
  unfoldable pub read_signatures : ℕ → Bytes → Result (List Bytes × Bytes)
  unfolding read_signature
  read_signatures zero r = ok ([], r)
  read_signatures (suc n) r = do
    (sig, r1) ← read_signature is_pubkey is_signature r
    (sigs, r2) ← read_signatures n r1
    ok (sig ∷ sigs, r2)

  unfoldable pub read_warning : Bytes → Result WarningMsg
  unfolding read_bytes_u16 read_take
  read_warning r = do
    (channel_id, r1) ← read_take 32 r
    (body, r2) ← read_bytes_u16 r1
    ok (record { channel_id = channel_id; body = body })

  unfoldable pub read_error : Bytes → Result ErrorMsg
  unfolding read_bytes_u16 read_take
  read_error r = do
    (channel_id, r1) ← read_take 32 r
    (body, r2) ← read_bytes_u16 r1
    ok (record { channel_id = channel_id; body = body })

  unfoldable pub read_ping : Bytes → Result Ping
  unfolding read_be read_bytes_u16
  read_ping r = do
    (num_pong_bytes, r1) ← read_be 2 r
    (ignored, r2) ← read_bytes_u16 r1
    ok (record { num_pong_bytes = num_pong_bytes; ignored = ignored })

  unfoldable pub read_pong : Bytes → Result Pong
  unfolding read_bytes_u16
  read_pong r = do (ignored, r1) ← read_bytes_u16 r; ok (record { ignored = ignored })

  unfoldable pub read_funding_created : Bytes → Result FundingCreated
  unfolding read_be read_signature read_take
  read_funding_created r = do
    (temporary_channel_id, r1) ← read_take 32 r
    (funding_txid, r2) ← read_take 32 r1
    (funding_output_index, r3) ← read_be 2 r2
    (signature, r4) ← read_signature is_pubkey is_signature r3
    ok (record {
      temporary_channel_id = temporary_channel_id;
      funding_txid = funding_txid;
      funding_output_index = funding_output_index;
      signature = signature;
    })

  unfoldable pub read_funding_signed : Bytes → Result FundingSigned
  unfolding read_signature read_take
  read_funding_signed r = do
    (channel_id, r1) ← read_take 32 r
    (signature, r2) ← read_signature is_pubkey is_signature r1
    ok (record { channel_id = channel_id; signature = signature })

  unfoldable pub read_shutdown : Bytes → Result Shutdown
  unfolding read_bytes_u16 read_take
  read_shutdown r = do
    (channel_id, r1) ← read_take 32 r
    (scriptpubkey, r2) ← read_bytes_u16 r1
    ok (record { channel_id = channel_id; scriptpubkey = scriptpubkey })

  unfoldable pub read_update_add_htlc : Bytes → Result UpdateAddHtlc
  unfolding read_be read_take
  read_update_add_htlc r = do
    (channel_id, r1) ← read_take 32 r
    (id, r2) ← read_be 8 r1
    (amount_msat, r3) ← read_be 8 r2
    (payment_hash, r4) ← read_take 32 r3
    (cltv_expiry, r5) ← read_be 4 r4
    (onion_routing_packet, r6) ← read_take 1366 r5
    ok (record {
      channel_id = channel_id;
      id = id;
      amount_msat = amount_msat;
      payment_hash = payment_hash;
      cltv_expiry = cltv_expiry;
      onion_routing_packet = onion_routing_packet;
    })

  unfoldable pub read_update_fulfill_htlc : Bytes → Result UpdateFulfillHtlc
  unfolding read_be read_take
  read_update_fulfill_htlc r = do
    (channel_id, r1) ← read_take 32 r
    (id, r2) ← read_be 8 r1
    (payment_preimage, r3) ← read_take 32 r2
    ok (record { channel_id = channel_id; id = id; payment_preimage = payment_preimage })

  unfoldable pub read_update_fail_htlc : Bytes → Result UpdateFailHtlc
  unfolding read_be read_bytes_u16 read_take
  read_update_fail_htlc r = do
    (channel_id, r1) ← read_take 32 r
    (id, r2) ← read_be 8 r1
    (reason, r3) ← read_bytes_u16 r2
    ok (record { channel_id = channel_id; id = id; reason = reason })

  unfoldable pub read_update_fail_malformed_htlc : Bytes → Result UpdateFailMalformedHtlc
  unfolding read_be read_take
  read_update_fail_malformed_htlc r = do
    (channel_id, r1) ← read_take 32 r
    (id, r2) ← read_be 8 r1
    (sha256_of_onion, r3) ← read_take 32 r2
    (failure_code, r4) ← read_be 2 r3
    ok (record {
      channel_id = channel_id;
      id = id;
      sha256_of_onion = sha256_of_onion;
      failure_code = failure_code;
    })

  unfoldable pub read_commitment_signed : Bytes → Result CommitmentSigned
  unfolding read_be read_signature read_signatures read_take
  read_commitment_signed r = do
    (channel_id, r1) ← read_take 32 r
    (signature, r2) ← read_signature is_pubkey is_signature r1
    (count, r3) ← read_be 2 r2
    (htlc_signatures, r4) ← read_signatures count r3
    ok (record {
      channel_id = channel_id;
      signature = signature;
      htlc_signatures = htlc_signatures;
    })

  unfoldable pub read_revoke_and_ack : Bytes → Result RevokeAndAck
  unfolding read_pubkey read_take
  read_revoke_and_ack r = do
    (channel_id, r1) ← read_take 32 r
    (per_commitment_secret, r2) ← read_take 32 r1
    (next_per_commitment_point, r3) ← read_pubkey is_pubkey is_signature r2
    ok (record {
      channel_id = channel_id;
      per_commitment_secret = per_commitment_secret;
      next_per_commitment_point = next_per_commitment_point;
    })

  unfoldable pub read_update_fee : Bytes → Result UpdateFee
  unfolding read_be read_take
  read_update_fee r = do
    (channel_id, r1) ← read_take 32 r
    (feerate_per_kw, r2) ← read_be 4 r1
    ok (record { channel_id = channel_id; feerate_per_kw = feerate_per_kw })

  unfoldable pub read_channel_reestablish : Bytes → Result ChannelReestablish
  unfolding read_be read_pubkey read_take
  read_channel_reestablish r = do
    (channel_id, r1) ← read_take 32 r
    (next_commitment_number, r2) ← read_be 8 r1
    (next_revocation_number, r3) ← read_be 8 r2
    (your_last_per_commitment_secret, r4) ← read_take 32 r3
    (my_current_per_commitment_point, r5) ← read_pubkey is_pubkey is_signature r4
    ok (record {
      channel_id = channel_id;
      next_commitment_number = next_commitment_number;
      next_revocation_number = next_revocation_number;
      your_last_per_commitment_secret = your_last_per_commitment_secret;
      my_current_per_commitment_point = my_current_per_commitment_point;
    })
