-- ===== src/Wire/Msgs/RoundTrip/Tlvs.antt =====
-- src/wire/msgs.rs: the readers of messages that end in TLV records, on what `encode` writes.
use keraunos.Prelude.{◌≡◌, Bytes, Bool, [], ◌++◌, append_assoc}
use keraunos.Wire.Ser.{ok, write_u8, write_u16, write_u32, write_u64, write_bytes, write_bytes_u16}
use keraunos.Prelude.{be_bytes, ap, ◌∷◌}
use keraunos.Wire.Tlv.Stream.{stream_bytes}
use keraunos.Wire.Msgs.Data.{
  ChannelBasepoints, Init, OpenChannel, AcceptChannel, ChannelReady, ClosingSigned, init,
  open_channel, accept_channel, channel_ready, closing_signed,
}
use keraunos.Wire.Msgs.Fits.{
  read_u8_fact, read_take_fact, read_be_fact, read_short_fact, read_pubkey_fact,
  read_signature_fact,
}
use keraunos.Wire.Msgs.Valid.{IsMessage, IsBasepoints}
use keraunos.Wire.Msgs.Put.{networks_value, alias_value, fee_range_value}
use keraunos.Wire.Msgs.Write.{write_body, write_init, write_open_channel, write_accept_channel}
use keraunos.Wire.Msgs.Tlvs.{
  read_basepoints, read_init, read_open_channel, read_accept_channel, read_channel_ready,
  read_closing_signed,
}
use keraunos.Wire.Msgs.RoundTrip.Records.{
  tlv_of, tlvs_of, optional_record-eq, stream_bytes-append, read_records-tlv, read_records-tlvs,
  open_accept_tlvs-tlvs, networks_of-tlv, alias_of-tlv, fee_range_of-tlv, IsOptional-networks,
  IsOptional-alias, IsOptional-fee_range,
}

module _ (is_pubkey is_signature : Bytes → Bool) where
  read_basepoints_fact :
      (b : ChannelBasepoints)
      → IsBasepoints is_pubkey b
      → (rest : Bytes)
      → read_basepoints is_pubkey is_signature (
          b.funding_pubkey
          ++ (b.revocation ++ (b.payment ++ (b.delayed_payment ++ (b.htlc ++ rest)))))
        ≡ ok (b, rest)
  unfolding read_basepoints
  read_basepoints_fact b (h_funding_pubkey, h_revocation, h_payment, h_delayed_payment, h_htlc)
        rest =
      simp (
        read_pubkey_fact is_pubkey is_signature b.funding_pubkey h_funding_pubkey,
        read_pubkey_fact is_pubkey is_signature b.revocation h_revocation,
        read_pubkey_fact is_pubkey is_signature b.payment h_payment,
        read_pubkey_fact is_pubkey is_signature b.delayed_payment h_delayed_payment,
        read_pubkey_fact is_pubkey is_signature b.htlc h_htlc,
      )

  pub read_init-write_body :
      (m : Init)
      → IsMessage is_pubkey is_signature (init m)
      → read_init is_pubkey is_signature (write_body (init m) []) ≡ ok m
  unfolding read_init write_body write_u8 write_u16 write_u32 write_u64 write_bytes write_bytes_u16
      write_init
  read_init-write_body m (h_global_features, h_features, h_tlv) = simp (
    optional_record-eq,
    append_assoc,
    read_short_fact m.global_features h_global_features,
    read_short_fact m.features h_features,
    read_records-tlv (networks_value m.networks) (IsOptional-networks m.networks h_tlv),
    networks_of-tlv m.networks h_tlv,
  )

  open_channel_bytes : OpenChannel → Bytes
  open_channel_bytes m =
      m.chain_hash
      ++ (m.temporary_channel_id
          ++ (be_bytes 8 m.funding_satoshis
              ++ (be_bytes 8 m.push_msat
                  ++ (be_bytes 8 m.dust_limit_satoshis
                      ++ (be_bytes 8 m.max_htlc_value_in_flight_msat
                          ++ (be_bytes 8 m.channel_reserve_satoshis
                              ++ (be_bytes 8 m.htlc_minimum_msat
                                  ++ (be_bytes 4 m.feerate_per_kw
                                      ++ (be_bytes 2 m.to_self_delay
                                          ++ (be_bytes 2 m.max_accepted_htlcs
                                              ++ (m.basepoints.funding_pubkey
                                                  ++ (m.basepoints.revocation
                                                      ++ (m.basepoints.payment
                                                          ++ (m.basepoints.delayed_payment
                                                            ++ (m.basepoints.htlc
                                                            ++ (m.first_per_commitment_point
                                                            ++ (m.channel_flags
                                                            ∷ (stream_bytes (
                                                            tlvs_of m.upfront_shutdown_script
                                                            m.channel_type)))))))))))))))))))

  write_open_channel-eq : (m : OpenChannel) → write_open_channel [] m ≡ open_channel_bytes m
  unfolding write_open_channel open_channel_bytes write_u8 write_u16 write_u32 write_u64 write_bytes
  write_open_channel-eq m = simp (
    optional_record-eq,
    append_assoc,
    stream_bytes-append (tlv_of m.upfront_shutdown_script 0) (tlv_of m.channel_type 1),
  )

  pub read_open_channel-write_body :
      (m : OpenChannel)
      → IsMessage is_pubkey is_signature (open_channel m)
      → read_open_channel is_pubkey is_signature (write_body (open_channel m) []) ≡ ok m
  unfolding read_open_channel write_body open_channel_bytes
  read_open_channel-write_body m
        (
          h_chain_hash, h_temporary_channel_id, h_funding_satoshis, h_push_msat,
          h_dust_limit_satoshis, h_max_htlc_value_in_flight_msat, h_channel_reserve_satoshis,
          h_htlc_minimum_msat, h_feerate_per_kw, h_to_self_delay, h_max_accepted_htlcs,
          h_basepoints, h_first_per_commitment_point, h_channel_flags, h_shutdown, h_type,
        ) =
      rw (write_open_channel-eq m) (
        simp
          (
            read_take_fact 32 m.chain_hash h_chain_hash,
            read_take_fact 32 m.temporary_channel_id h_temporary_channel_id,
            read_be_fact 8 m.funding_satoshis h_funding_satoshis,
            read_be_fact 8 m.push_msat h_push_msat,
            read_be_fact 8 m.dust_limit_satoshis h_dust_limit_satoshis,
            read_be_fact 8 m.max_htlc_value_in_flight_msat h_max_htlc_value_in_flight_msat,
            read_be_fact 8 m.channel_reserve_satoshis h_channel_reserve_satoshis,
            read_be_fact 8 m.htlc_minimum_msat h_htlc_minimum_msat,
            read_be_fact 4 m.feerate_per_kw h_feerate_per_kw,
            read_be_fact 2 m.to_self_delay h_to_self_delay,
            read_be_fact 2 m.max_accepted_htlcs h_max_accepted_htlcs,
            read_basepoints_fact m.basepoints h_basepoints,
            read_pubkey_fact is_pubkey is_signature m.first_per_commitment_point
                h_first_per_commitment_point,
            read_u8_fact m.channel_flags h_channel_flags,
            read_records-tlvs m.upfront_shutdown_script m.channel_type h_shutdown h_type,
          )
          (ap (λ p. ok (record m { upfront_shutdown_script = p.0; channel_type = p.1 }))
            (open_accept_tlvs-tlvs m.upfront_shutdown_script m.channel_type)))

  accept_channel_bytes : AcceptChannel → Bytes
  accept_channel_bytes m =
      m.temporary_channel_id
      ++ (be_bytes 8 m.dust_limit_satoshis
          ++ (be_bytes 8 m.max_htlc_value_in_flight_msat
              ++ (be_bytes 8 m.channel_reserve_satoshis
                  ++ (be_bytes 8 m.htlc_minimum_msat
                      ++ (be_bytes 4 m.minimum_depth
                          ++ (be_bytes 2 m.to_self_delay
                              ++ (be_bytes 2 m.max_accepted_htlcs
                                  ++ (m.basepoints.funding_pubkey
                                      ++ (m.basepoints.revocation
                                          ++ (m.basepoints.payment
                                              ++ (m.basepoints.delayed_payment
                                                  ++ (m.basepoints.htlc
                                                      ++ (m.first_per_commitment_point
                                                          ++ (stream_bytes (
                                                            tlvs_of m.upfront_shutdown_script
                                                            m.channel_type)))))))))))))))

  write_accept_channel-eq : (m : AcceptChannel) → write_accept_channel [] m ≡ accept_channel_bytes m
  unfolding write_accept_channel accept_channel_bytes write_u8 write_u16 write_u32 write_u64
      write_bytes
  write_accept_channel-eq m = simp (
    optional_record-eq,
    append_assoc,
    stream_bytes-append (tlv_of m.upfront_shutdown_script 0) (tlv_of m.channel_type 1),
  )

  pub read_accept_channel-write_body :
      (m : AcceptChannel)
      → IsMessage is_pubkey is_signature (accept_channel m)
      → read_accept_channel is_pubkey is_signature (write_body (accept_channel m) []) ≡ ok m
  unfolding read_accept_channel write_body accept_channel_bytes
  read_accept_channel-write_body m
        (
          h_temporary_channel_id, h_dust_limit_satoshis, h_max_htlc_value_in_flight_msat,
          h_channel_reserve_satoshis, h_htlc_minimum_msat, h_minimum_depth, h_to_self_delay,
          h_max_accepted_htlcs, h_basepoints, h_first_per_commitment_point, h_shutdown, h_type,
        ) =
      rw (write_accept_channel-eq m) (
        simp
          (
            read_take_fact 32 m.temporary_channel_id h_temporary_channel_id,
            read_be_fact 8 m.dust_limit_satoshis h_dust_limit_satoshis,
            read_be_fact 8 m.max_htlc_value_in_flight_msat h_max_htlc_value_in_flight_msat,
            read_be_fact 8 m.channel_reserve_satoshis h_channel_reserve_satoshis,
            read_be_fact 8 m.htlc_minimum_msat h_htlc_minimum_msat,
            read_be_fact 4 m.minimum_depth h_minimum_depth,
            read_be_fact 2 m.to_self_delay h_to_self_delay,
            read_be_fact 2 m.max_accepted_htlcs h_max_accepted_htlcs,
            read_basepoints_fact m.basepoints h_basepoints,
            read_pubkey_fact is_pubkey is_signature m.first_per_commitment_point
                h_first_per_commitment_point,
            read_records-tlvs m.upfront_shutdown_script m.channel_type h_shutdown h_type,
          )
          (ap (λ p. ok (record m { upfront_shutdown_script = p.0; channel_type = p.1 }))
            (open_accept_tlvs-tlvs m.upfront_shutdown_script m.channel_type)))

  pub read_channel_ready-write_body :
      (m : ChannelReady)
      → IsMessage is_pubkey is_signature (channel_ready m)
      → read_channel_ready is_pubkey is_signature (write_body (channel_ready m) []) ≡ ok m
  unfolding read_channel_ready write_body write_u8 write_u16 write_u32 write_u64 write_bytes
      write_bytes_u16
  read_channel_ready-write_body m (h_channel_id, h_second_per_commitment_point, h_tlv) = simp (
    optional_record-eq,
    append_assoc,
    read_take_fact 32 m.channel_id h_channel_id,
    read_pubkey_fact is_pubkey is_signature m.second_per_commitment_point
        h_second_per_commitment_point,
    read_records-tlv (alias_value m.short_channel_id_alias)
        (IsOptional-alias m.short_channel_id_alias),
    alias_of-tlv m.short_channel_id_alias h_tlv,
  )

  pub read_closing_signed-write_body :
      (m : ClosingSigned)
      → IsMessage is_pubkey is_signature (closing_signed m)
      → read_closing_signed is_pubkey is_signature (write_body (closing_signed m) []) ≡ ok m
  unfolding read_closing_signed write_body write_u8 write_u16 write_u32 write_u64 write_bytes
      write_bytes_u16
  read_closing_signed-write_body m (h_channel_id, h_fee_satoshis, h_signature, h_tlv) = simp (
    optional_record-eq,
    append_assoc,
    read_take_fact 32 m.channel_id h_channel_id,
    read_be_fact 8 m.fee_satoshis h_fee_satoshis,
    read_signature_fact is_pubkey is_signature m.signature h_signature,
    read_records-tlv (fee_range_value m.fee_range) (IsOptional-fee_range m.fee_range),
    fee_range_of-tlv m.fee_range h_tlv,
  )
