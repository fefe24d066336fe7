-- ===== src/Wire/Msgs/Gossip.antt =====
-- src/wire/msgs.rs: `Message::decode_body` on the gossip messages.
use keraunos.Prelude.{
  ℕ, zero, suc, ◌==◌, if◌then◌else◌, List, [], ◌∷◌, ◌++◌, Bytes, Bool, Option, none, some, length,
}
use keraunos.Wire.Ser.{
  Result, ok, err, ◌>>=◌, unexpected_end, read_take, read_be, read_bytes_u16, read_pubkey,
  read_signature,
}
use keraunos.Wire.Msgs.Data.{
  AnnouncementSignatures, ChannelAnnouncement, ChannelUpdate, GossipTimestampFilter,
  NodeAnnouncement, NetAddress, v4, v6, tor_v3, hostname,
}

-- One round of the loop of `read_addresses`: `none` breaks out of it, `some none` is a
-- Tor v2 address, which is skipped.
unfoldable pub read_address_of : ℕ → Bytes → Result (Option (Option NetAddress × Bytes))
unfolding read_take read_be
read_address_of kind r1 =
    if kind == 1
    then (do
      (addr, r2) ← read_take 4 r1
      (port, r3) ← read_be 2 r2
      ok (some (some (v4 addr port), r3)))
    else if kind == 2
    then (do
      (addr, r2) ← read_take 16 r1
      (port, r3) ← read_be 2 r2
      ok (some (some (v6 addr port), r3)))
    else if kind == 3
    then (do (skipped, r2) ← read_take 12 r1; ok (some (none, r2)))
    else if kind == 4
    then (do
      (key, r2) ← read_take 32 r1
      (checksum, r3) ← read_be 2 r2
      (version, r4) ← read_be 1 r3
      (port, r5) ← read_be 2 r4
      ok (some (some (tor_v3 key checksum version port), r5)))
    else if kind == 5
    then (do
      (len, r2) ← read_be 1 r1
      (name, r3) ← read_take len r2
      (port, r4) ← read_be 2 r3
      ok (some (some (hostname name port), r4)))
    else ok none

unfoldable pub read_address : Bytes → Result (Option (Option NetAddress × Bytes))
unfolding read_be read_address_of
read_address r = do (kind, r1) ← read_be 1 r; read_address_of kind r1

abbrev pub add_address : Option NetAddress → List NetAddress → List NetAddress
add_address none out = out
add_address (some a) out = out ++ a ∷ []

-- Each round takes a byte at least, so as many rounds as there are bytes suffice.
unfoldable pub read_address_loop : ℕ → Bytes → List NetAddress → Result (List NetAddress)
unfolding read_address
read_address_loop fuel [] out = ok out
read_address_loop zero (b ∷ bs) out = err unexpected_end
read_address_loop (suc fuel) (b ∷ bs) out = elim (read_address (b ∷ bs)) [
  | err e ↦ err e
  | ok none ↦ ok out
  | ok (some (a, rest)) ↦ read_address_loop fuel rest (add_address a out)
]

unfoldable pub read_addresses : Bytes → Result (List NetAddress)
unfolding read_address_loop
read_addresses bs = read_address_loop (length bs) bs []

module _ (is_pubkey is_signature : Bytes → Bool) where
  unfoldable pub read_announcement_signatures : Bytes → Result AnnouncementSignatures
  unfolding read_be read_signature read_take
  read_announcement_signatures r = do
    (channel_id, r1) ← read_take 32 r
    (short_channel_id, r2) ← read_be 8 r1
    (node_signature, r3) ← read_signature is_pubkey is_signature r2
    (bitcoin_signature, r4) ← read_signature is_pubkey is_signature r3
    ok (record {
      channel_id = channel_id;
      short_channel_id = short_channel_id;
      node_signature = node_signature;
      bitcoin_signature = bitcoin_signature;
    })

  unfoldable pub read_channel_announcement : Bytes → Result ChannelAnnouncement
  unfolding read_be read_bytes_u16 read_pubkey read_signature read_take
  read_channel_announcement r = do
    (node_signature_1, r1) ← read_signature is_pubkey is_signature r
    (node_signature_2, r2) ← read_signature is_pubkey is_signature r1
    (bitcoin_signature_1, r3) ← read_signature is_pubkey is_signature r2
    (bitcoin_signature_2, r4) ← read_signature is_pubkey is_signature r3
    (features, r5) ← read_bytes_u16 r4
    (chain_hash, r6) ← read_take 32 r5
    (short_channel_id, r7) ← read_be 8 r6
    (node_id_1, r8) ← read_pubkey is_pubkey is_signature r7
    (node_id_2, r9) ← read_pubkey is_pubkey is_signature r8
    (bitcoin_key_1, r10) ← read_pubkey is_pubkey is_signature r9
    (bitcoin_key_2, r11) ← read_pubkey is_pubkey is_signature r10
    ok (record {
      node_signature_1 = node_signature_1;
      node_signature_2 = node_signature_2;
      bitcoin_signature_1 = bitcoin_signature_1;
      bitcoin_signature_2 = bitcoin_signature_2;
      features = features;
      chain_hash = chain_hash;
      short_channel_id = short_channel_id;
      node_id_1 = node_id_1;
      node_id_2 = node_id_2;
      bitcoin_key_1 = bitcoin_key_1;
      bitcoin_key_2 = bitcoin_key_2;
    })

  unfoldable pub read_channel_update : Bytes → Result ChannelUpdate
  unfolding read_be read_signature read_take
  read_channel_update r = do
    (signature, r1) ← read_signature is_pubkey is_signature r
    (chain_hash, r2) ← read_take 32 r1
    (short_channel_id, r3) ← read_be 8 r2
    (timestamp, r4) ← read_be 4 r3
    (message_flags, r5) ← read_be 1 r4
    (channel_flags, r6) ← read_be 1 r5
    (cltv_expiry_delta, r7) ← read_be 2 r6
    (htlc_minimum_msat, r8) ← read_be 8 r7
    (fee_base_msat, r9) ← read_be 4 r8
    (fee_proportional_millionths, r10) ← read_be 4 r9
    (htlc_maximum_msat, r11) ← read_be 8 r10
    ok (record {
      signature = signature;
      chain_hash = chain_hash;
      short_channel_id = short_channel_id;
      timestamp = timestamp;
      message_flags = message_flags;
      channel_flags = channel_flags;
      cltv_expiry_delta = cltv_expiry_delta;
      htlc_minimum_msat = htlc_minimum_msat;
      fee_base_msat = fee_base_msat;
      fee_proportional_millionths = fee_proportional_millionths;
      htlc_maximum_msat = htlc_maximum_msat;
    })

  unfoldable pub read_gossip_timestamp_filter : Bytes → Result GossipTimestampFilter
  unfolding read_be read_take
  read_gossip_timestamp_filter r = do
    (chain_hash, r1) ← read_take 32 r
    (first_timestamp, r2) ← read_be 4 r1
    (timestamp_range, r3) ← read_be 4 r2
    ok (record {
      chain_hash = chain_hash;
      first_timestamp = first_timestamp;
      timestamp_range = timestamp_range;
    })

  unfoldable pub read_node_announcement : Bytes → Result NodeAnnouncement
  unfolding read_take read_be read_bytes_u16 read_pubkey read_signature read_addresses
  read_node_announcement r = do
    (signature, r1) ← read_signature is_pubkey is_signature r
    (features, r2) ← read_bytes_u16 r1
    (timestamp, r3) ← read_be 4 r2
    (node_id, r4) ← read_pubkey is_pubkey is_signature r3
    (rgb_color, r5) ← read_take 3 r4
    (alias, r6) ← read_take 32 r5
    (addr_bytes, r7) ← read_bytes_u16 r6
    addresses ← read_addresses addr_bytes
    ok (record {
      signature = signature;
      features = features;
      timestamp = timestamp;
      node_id = node_id;
      rgb_color = rgb_color;
      alias = alias;
      addresses = addresses;
    })
