-- ===== src/Wire/Msgs/Tlvs.antt =====
-- src/wire/msgs.rs: `Message::decode_body` on the messages that end in TLV records.
use keraunos.Prelude.{[], ◌∷◌, Bytes, Bool, none}
use keraunos.Wire.Ser.{
  Result, ok, ◌>>=◌, read_take, read_be, read_bytes_u16, read_pubkey, read_signature,
}
use keraunos.Wire.Msgs.Data.{
  ChannelBasepoints, Init, OpenChannel, AcceptChannel, ChannelReady, ClosingSigned,
}
use keraunos.Wire.Msgs.Records.{read_records, networks_of, open_accept_tlvs, alias_of, fee_range_of}

module _ (is_pubkey is_signature : Bytes → Bool) where
  unfoldable pub read_basepoints : Bytes → Result (ChannelBasepoints × Bytes)
  unfolding read_pubkey
  read_basepoints r = do
    (funding_pubkey, r1) ← read_pubkey is_pubkey is_signature r
    (revocation, r2) ← read_pubkey is_pubkey is_signature r1
    (payment, r3) ← read_pubkey is_pubkey is_signature r2
    (delayed_payment, r4) ← read_pubkey is_pubkey is_signature r3
    (htlc, r5) ← read_pubkey is_pubkey is_signature r4
    ok (
      record {
        funding_pubkey = funding_pubkey;
        revocation = revocation;
        payment = payment;
        delayed_payment = delayed_payment;
        htlc = htlc;
      },
      r5,
    )

  unfoldable pub read_init : Bytes → Result Init
  unfolding read_bytes_u16 read_records networks_of
  read_init r = do
    (global_features, r1) ← read_bytes_u16 r
    (features, r2) ← read_bytes_u16 r1
    records ← read_records [] r2
    networks ← networks_of records none
    ok (record { global_features = global_features; features = features; networks = networks })

  unfoldable pub read_open_channel : Bytes → Result OpenChannel
  unfolding read_basepoints read_be read_pubkey read_take read_records open_accept_tlvs
  read_open_channel r = do
    (chain_hash, r1) ← read_take 32 r
    (temporary_channel_id, r2) ← read_take 32 r1
    (funding_satoshis, r3) ← read_be 8 r2
    (push_msat, r4) ← read_be 8 r3
    (dust_limit_satoshis, r5) ← read_be 8 r4
    (max_htlc_value_in_flight_msat, r6) ← read_be 8 r5
    (channel_reserve_satoshis, r7) ← read_be 8 r6
    (htlc_minimum_msat, r8) ← read_be 8 r7
    (feerate_per_kw, r9) ← read_be 4 r8
    (to_self_delay, r10) ← read_be 2 r9
    (max_accepted_htlcs, r11) ← read_be 2 r10
    (basepoints, r12) ← read_basepoints r11
    (first_per_commitment_point, r13) ← read_pubkey is_pubkey is_signature r12
    (channel_flags, r14) ← read_be 1 r13
    records ← read_records (0 ∷ []) r14
    ok (record {
      chain_hash = chain_hash;
      temporary_channel_id = temporary_channel_id;
      funding_satoshis = funding_satoshis;
      push_msat = push_msat;
      dust_limit_satoshis = dust_limit_satoshis;
      max_htlc_value_in_flight_msat = max_htlc_value_in_flight_msat;
      channel_reserve_satoshis = channel_reserve_satoshis;
      htlc_minimum_msat = htlc_minimum_msat;
      feerate_per_kw = feerate_per_kw;
      to_self_delay = to_self_delay;
      max_accepted_htlcs = max_accepted_htlcs;
      basepoints = basepoints;
      first_per_commitment_point = first_per_commitment_point;
      channel_flags = channel_flags;
      upfront_shutdown_script = (open_accept_tlvs records).0;
      channel_type = (open_accept_tlvs records).1;
    })

  unfoldable pub read_accept_channel : Bytes → Result AcceptChannel
  unfolding read_basepoints read_be read_pubkey read_take read_records open_accept_tlvs
  read_accept_channel r = do
    (temporary_channel_id, r1) ← read_take 32 r
    (dust_limit_satoshis, r2) ← read_be 8 r1
    (max_htlc_value_in_flight_msat, r3) ← read_be 8 r2
    (channel_reserve_satoshis, r4) ← read_be 8 r3
    (htlc_minimum_msat, r5) ← read_be 8 r4
    (minimum_depth, r6) ← read_be 4 r5
    (to_self_delay, r7) ← read_be 2 r6
    (max_accepted_htlcs, r8) ← read_be 2 r7
    (basepoints, r9) ← read_basepoints r8
    (first_per_commitment_point, r10) ← read_pubkey is_pubkey is_signature r9
    records ← read_records (0 ∷ []) r10
    ok (record {
      temporary_channel_id = temporary_channel_id;
      dust_limit_satoshis = dust_limit_satoshis;
      max_htlc_value_in_flight_msat = max_htlc_value_in_flight_msat;
      channel_reserve_satoshis = channel_reserve_satoshis;
      htlc_minimum_msat = htlc_minimum_msat;
      minimum_depth = minimum_depth;
      to_self_delay = to_self_delay;
      max_accepted_htlcs = max_accepted_htlcs;
      basepoints = basepoints;
      first_per_commitment_point = first_per_commitment_point;
      upfront_shutdown_script = (open_accept_tlvs records).0;
      channel_type = (open_accept_tlvs records).1;
    })

  unfoldable pub read_channel_ready : Bytes → Result ChannelReady
  unfolding read_pubkey read_take read_records alias_of
  read_channel_ready r = do
    (channel_id, r1) ← read_take 32 r
    (second_per_commitment_point, r2) ← read_pubkey is_pubkey is_signature r1
    records ← read_records [] r2
    ok (record {
      channel_id = channel_id;
      second_per_commitment_point = second_per_commitment_point;
      short_channel_id_alias = alias_of records;
    })

  unfoldable pub read_closing_signed : Bytes → Result ClosingSigned
  unfolding read_be read_signature read_take read_records fee_range_of
  read_closing_signed r = do
    (channel_id, r1) ← read_take 32 r
    (fee_satoshis, r2) ← read_be 8 r1
    (signature, r3) ← read_signature is_pubkey is_signature r2
    records ← read_records [] r3
    fee_range ← fee_range_of records
    ok (record {
      channel_id = channel_id;
      fee_satoshis = fee_satoshis;
      signature = signature;
      fee_range = fee_range;
    })
