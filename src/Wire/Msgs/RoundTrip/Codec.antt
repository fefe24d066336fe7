-- ===== src/Wire/Msgs/RoundTrip/Codec.antt =====
-- src/wire/msgs.rs: `decode` is the inverse of `encode`.
use keraunos.Prelude.{
  ℕ, ◌%◌, ◌<◌, ◌^◌, ◌≡◌, refl, ◌∙◌, ap, Bytes, Bool, [], ◌∷◌, ◌++◌, append_assoc, append-nil,
  be_bytes, arith, false, All, List, ◌==◌, if◌then◌else◌,
}
use keraunos.Wire.Ser.{
  ok, err, unknown_message_type, ◌>>=◌, read_rest, read_be, write_u16, write_bytes,
}
use keraunos.Wire.Tlv.{contains}
use keraunos.Wire.Msgs.Data.{
  Message, unknown, warning, init, error, ping, pong, open_channel, accept_channel,
  funding_created_msg, funding_signed, channel_ready, shutdown, closing_signed, update_add_htlc,
  update_fulfill_htlc, update_fail_htlc, update_fail_malformed_htlc, commitment_signed,
  revoke_and_ack, update_fee, channel_reestablish, announcement_signatures, channel_announcement,
  node_announcement, channel_update, gossip_timestamp_filter,
}
use keraunos.Wire.Msgs.Fits.{read_be_fact}
use keraunos.Wire.Msgs.Valid.{IsMessage, MayFollow, known_types}
use keraunos.Wire.Msgs.Write.{msg_type, write_body, encode}
use keraunos.Wire.Msgs.Decode.{decode_body, decode}
use keraunos.Wire.Msgs.RoundTrip.Signatures.{read_commitment_signed-write_body}
use keraunos.Wire.Msgs.RoundTrip.Nodes.{read_node_announcement-write_body}
use keraunos.Wire.Msgs.RoundTrip.Channel.{
  read_warning-write_body, read_error-write_body, read_ping-write_body, read_pong-write_body,
  read_funding_created-write_body, read_funding_signed-write_body, read_shutdown-write_body,
  read_update_add_htlc-write_body, read_update_fulfill_htlc-write_body,
  read_update_fail_htlc-write_body, read_update_fail_malformed_htlc-write_body,
  read_revoke_and_ack-write_body, read_update_fee-write_body, read_channel_reestablish-write_body,
}
use keraunos.Wire.Msgs.RoundTrip.Gossip.{
  read_announcement_signatures-write_body, read_channel_announcement-write_body,
  read_channel_update-write_body, read_gossip_timestamp_filter-write_body,
}
use keraunos.Wire.Msgs.RoundTrip.Tlvs.{
  read_init-write_body, read_open_channel-write_body, read_accept_channel-write_body,
  read_channel_ready-write_body, read_closing_signed-write_body,
}
use keraunos.Wire.Msgs.RoundTrip.Appends.{write_body-eq}

contains-ne :
    (typ : ℕ) (known : List ℕ) → contains known typ ≡ false → All (λ k. (typ == k) ≡ false) known
unfolding contains
contains-ne typ [] h = tt
contains-ne typ (k ∷ known) h = (ground arith, contains-ne typ known (ground arith))

module _ (is_pubkey is_signature : Bytes → Bool) where
  decode_body-unknown :
      (typ : ℕ) (r : Bytes)
      → contains known_types typ ≡ false
      → decode_body is_pubkey is_signature typ r
        ≡ (if typ % 2 == 1 then ok (unknown typ r) else err (unknown_message_type typ))
  unfolding decode_body read_rest
  decode_body-unknown typ r new =
      let (
        n0,
        (
          n1,
          (
            n2,
            (
              n3,
              (
                n4,
                (
                  n5,
                  (
                    n6,
                    (
                      n7,
                      (
                        n8,
                        (
                          n9,
                          (
                            n10,
                            (
                              n11,
                              (
                                n12,
                                (
                                  n13,
                                  (
                                    n14,
                                    (
                                      n15,
                                      (
                                        n16,
                                        (n17, (n18, (n19, (n20, (n21, (n22, (n23, (n24, end)))))))),
                                      ),
                                    ),
                                  ),
                                ),
                              ),
                            ),
                          ),
                        ),
                      ),
                    ),
                  ),
                ),
              ),
            ),
          ),
        ),
      ) =
        contains-ne typ known_types new in
      rw
        (
          n0, n1, n2, n3, n4, n5, n6, n7, n8, n9, n10, n11, n12, n13, n14, n15, n16, n17, n18, n19,
          n20, n21, n22, n23, n24,
        )
        refl

  decode_body-write_body :
      (m : Message) (rest : Bytes)
      → IsMessage is_pubkey is_signature m
      → MayFollow m rest
      → decode_body is_pubkey is_signature (msg_type m) (write_body m [] ++ rest) ≡ ok m
  unfolding msg_type decode_body
  decode_body-write_body (warning m) rest h end =
      ap (λ t. t >>= λ v. ok (warning v)) (read_warning-write_body is_pubkey is_signature m rest h)
  decode_body-write_body (init m) rest h end = rw end (
      rw append-nil
        (ap (λ t. t >>= λ v. ok (init v)) (read_init-write_body is_pubkey is_signature m h)))
  decode_body-write_body (error m) rest h end =
      ap (λ t. t >>= λ v. ok (error v)) (read_error-write_body is_pubkey is_signature m rest h)
  decode_body-write_body (ping m) rest h end =
      ap (λ t. t >>= λ v. ok (ping v)) (read_ping-write_body is_pubkey is_signature m rest h)
  decode_body-write_body (pong m) rest h end =
      ap (λ t. t >>= λ v. ok (pong v)) (read_pong-write_body is_pubkey is_signature m rest h)
  decode_body-write_body (open_channel m) rest h end = rw end (
      rw append-nil (
        ap (λ t. t >>= λ v. ok (open_channel v))
          (read_open_channel-write_body is_pubkey is_signature m h)))
  decode_body-write_body (accept_channel m) rest h end = rw end (
      rw append-nil (
        ap (λ t. t >>= λ v. ok (accept_channel v))
          (read_accept_channel-write_body is_pubkey is_signature m h)))
  decode_body-write_body (funding_created_msg m) rest h end =
      ap (λ t. t >>= λ v. ok (funding_created_msg v))
        (read_funding_created-write_body is_pubkey is_signature m rest h)
  decode_body-write_body (funding_signed m) rest h end =
      ap (λ t. t >>= λ v. ok (funding_signed v))
        (read_funding_signed-write_body is_pubkey is_signature m rest h)
  decode_body-write_body (channel_ready m) rest h end = rw end (
      rw append-nil (
        ap (λ t. t >>= λ v. ok (channel_ready v))
          (read_channel_ready-write_body is_pubkey is_signature m h)))
  decode_body-write_body (shutdown m) rest h end =
      ap (λ t. t >>= λ v. ok (shutdown v))
        (read_shutdown-write_body is_pubkey is_signature m rest h)
  decode_body-write_body (closing_signed m) rest h end = rw end (
      rw append-nil (
        ap (λ t. t >>= λ v. ok (closing_signed v))
          (read_closing_signed-write_body is_pubkey is_signature m h)))
  decode_body-write_body (update_add_htlc m) rest h end =
      ap (λ t. t >>= λ v. ok (update_add_htlc v))
        (read_update_add_htlc-write_body is_pubkey is_signature m rest h)
  decode_body-write_body (update_fulfill_htlc m) rest h end =
      ap (λ t. t >>= λ v. ok (update_fulfill_htlc v))
        (read_update_fulfill_htlc-write_body is_pubkey is_signature m rest h)
  decode_body-write_body (update_fail_htlc m) rest h end =
      ap (λ t. t >>= λ v. ok (update_fail_htlc v))
        (read_update_fail_htlc-write_body is_pubkey is_signature m rest h)
  decode_body-write_body (update_fail_malformed_htlc m) rest h end =
      ap (λ t. t >>= λ v. ok (update_fail_malformed_htlc v))
        (read_update_fail_malformed_htlc-write_body is_pubkey is_signature m rest h)
  decode_body-write_body (commitment_signed m) rest h end =
      ap (λ t. t >>= λ v. ok (commitment_signed v))
        (read_commitment_signed-write_body is_pubkey is_signature m rest h)
  decode_body-write_body (revoke_and_ack m) rest h end =
      ap (λ t. t >>= λ v. ok (revoke_and_ack v))
        (read_revoke_and_ack-write_body is_pubkey is_signature m rest h)
  decode_body-write_body (update_fee m) rest h end =
      ap (λ t. t >>= λ v. ok (update_fee v))
        (read_update_fee-write_body is_pubkey is_signature m rest h)
  decode_body-write_body (channel_reestablish m) rest h end =
      ap (λ t. t >>= λ v. ok (channel_reestablish v))
        (read_channel_reestablish-write_body is_pubkey is_signature m rest h)
  decode_body-write_body (announcement_signatures m) rest h end =
      ap (λ t. t >>= λ v. ok (announcement_signatures v))
        (read_announcement_signatures-write_body is_pubkey is_signature m rest h)
  decode_body-write_body (channel_announcement m) rest h end =
      ap (λ t. t >>= λ v. ok (channel_announcement v))
        (read_channel_announcement-write_body is_pubkey is_signature m rest h)
  decode_body-write_body (node_announcement m) rest h end =
      ap (λ t. t >>= λ v. ok (node_announcement v))
        (read_node_announcement-write_body is_pubkey is_signature m rest h)
  decode_body-write_body (channel_update m) rest h end =
      ap (λ t. t >>= λ v. ok (channel_update v))
        (read_channel_update-write_body is_pubkey is_signature m rest h)
  decode_body-write_body (gossip_timestamp_filter m) rest h end =
      ap (λ t. t >>= λ v. ok (gossip_timestamp_filter v))
        (read_gossip_timestamp_filter-write_body is_pubkey is_signature m rest h)
  decode_body-write_body (unknown typ payload) rest (h_typ, h_odd, h_new) end = rw end (
      rw append-nil
        (unfold write_body write_bytes in rw (decode_body-unknown typ payload h_new, h_odd) refl))

  -- A message whose type is none of the known ones is tolerated, and kept as it is, if the type is
  -- odd, and refused if it is even.
  pub decode-unknown :
      (typ : ℕ) (payload : Bytes)
      → typ < 2 ^ 16
      → contains known_types typ ≡ false
      → decode is_pubkey is_signature (be_bytes 2 typ ++ payload)
        ≡ (if typ % 2 == 1 then ok (unknown typ payload) else err (unknown_message_type typ))
  unfolding decode
  decode-unknown typ payload h new =
      ap (λ t. t >>= λ u. decode_body is_pubkey is_signature u.0 u.1) (read_be_fact 2 typ h payload)
      ∙ decode_body-unknown typ payload new

  msg_type-lt : (m : Message) → IsMessage is_pubkey is_signature m → msg_type m < 256 ^ 2
  unfolding msg_type
  msg_type-lt (warning m) h = omega arith
  msg_type-lt (init m) h = omega arith
  msg_type-lt (error m) h = omega arith
  msg_type-lt (ping m) h = omega arith
  msg_type-lt (pong m) h = omega arith
  msg_type-lt (open_channel m) h = omega arith
  msg_type-lt (accept_channel m) h = omega arith
  msg_type-lt (funding_created_msg m) h = omega arith
  msg_type-lt (funding_signed m) h = omega arith
  msg_type-lt (channel_ready m) h = omega arith
  msg_type-lt (shutdown m) h = omega arith
  msg_type-lt (closing_signed m) h = omega arith
  msg_type-lt (update_add_htlc m) h = omega arith
  msg_type-lt (update_fulfill_htlc m) h = omega arith
  msg_type-lt (update_fail_htlc m) h = omega arith
  msg_type-lt (update_fail_malformed_htlc m) h = omega arith
  msg_type-lt (commitment_signed m) h = omega arith
  msg_type-lt (revoke_and_ack m) h = omega arith
  msg_type-lt (update_fee m) h = omega arith
  msg_type-lt (channel_reestablish m) h = omega arith
  msg_type-lt (announcement_signatures m) h = omega arith
  msg_type-lt (channel_announcement m) h = omega arith
  msg_type-lt (node_announcement m) h = omega arith
  msg_type-lt (channel_update m) h = omega arith
  msg_type-lt (gossip_timestamp_filter m) h = omega arith
  msg_type-lt (unknown typ payload) h = h.0

  -- A message is read back from its encoding, if its fields hold what the types of the source and
  -- the 16-bit length prefixes can hold, and an unknown message has an odd type that is not one of
  -- the known ones. Bytes behind the encoding are ignored, but must not be there when the message
  -- ends in TLV records or is unknown.
  pub decode-encode :
      (m : Message) (rest : Bytes)
      → IsMessage is_pubkey is_signature m
      → MayFollow m rest
      → decode is_pubkey is_signature (encode m ++ rest) ≡ ok m
  unfolding decode encode write_u16
  decode-encode m rest h end =
      let head : Bytes = be_bytes 2 (msg_type m) in
      let split : write_body m head ++ rest ≡ head ++ (write_body m [] ++ rest) =
        ap (λ t. t ++ rest) (write_body-eq m head) ∙ append_assoc head (write_body m []) rest in
      let typ : read_be 2 (head ++ (write_body m [] ++ rest))
          ≡ ok (msg_type m, write_body m [] ++ rest) =
        read_be_fact 2 (msg_type m) (msg_type-lt m h) (write_body m [] ++ rest) in
      ap (λ bs. read_be 2 bs >>= λ t. decode_body is_pubkey is_signature t.0 t.1) split
      ∙ ap (λ t. t >>= λ u. decode_body is_pubkey is_signature u.0 u.1) typ
      ∙ decode_body-write_body m rest h end
