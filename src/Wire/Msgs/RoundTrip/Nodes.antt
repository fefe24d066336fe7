-- ===== src/Wire/Msgs/RoundTrip/Nodes.antt =====
-- src/wire/msgs.rs: the readers of node announcements and their addresses, on what `encode` writes.
use keraunos.Prelude.{
  ℕ, zero, suc, ◌%◌, ◌≤◌, ◌<◌, ◌≡◌, ◌≢◌, refl, ◌∙◌, ap, sym, arith, Bytes, Bool, List, [], ◌∷◌,
  ◌++◌, append_assoc, append-nil, All, length, length-append, some,
}
use keraunos.Wire.Ser.{ok, read_be, write_u8, write_u16, write_u32, write_bytes, write_bytes_u16}
use keraunos.Wire.Msgs.Data.{
  NetAddress, v4, v6, tor_v3, hostname, NodeAnnouncement, node_announcement,
}
use keraunos.Wire.Msgs.Fits.{
  read_u8_fact, read_take_fact, read_be_fact, read_short_fact, read_pubkey_fact,
  read_signature_fact,
}
use keraunos.Wire.Msgs.Valid.{IsMessage, IsAddress}
use keraunos.Wire.Msgs.Write.{write_body, write_address, write_addresses, write_node_after_sig}
use keraunos.Wire.Msgs.Gossip.{
  read_address_of, read_address, read_address_loop, read_addresses, read_node_announcement,
}

write_address-eq : (a : NetAddress) (w : Bytes) → write_address a w ≡ w ++ write_address a []
unfolding write_address write_u8 write_u16 write_bytes
write_address-eq (v4 addr port) w = simp append_assoc
write_address-eq (v6 addr port) w = simp append_assoc
write_address-eq (tor_v3 key checksum version port) w = simp append_assoc
write_address-eq (hostname name port) w = simp append_assoc

write_addresses-eq :
    (addresses : List NetAddress) (w : Bytes)
    → write_addresses addresses w ≡ w ++ write_addresses addresses []
unfolding write_addresses
write_addresses-eq [] w = sym (append-nil w)
write_addresses-eq (a ∷ addresses) w =
    write_addresses-eq addresses (write_address a w)
    ∙ ap (λ t. t ++ write_addresses addresses []) (write_address-eq a w)
    ∙ append_assoc w (write_address a []) (write_addresses addresses [])
    ∙ ap (λ t. w ++ t) (sym (write_addresses-eq addresses (write_address a [])))

read_address-write_address :
    (a : NetAddress) (rest : Bytes)
    → IsAddress a
    → read_address (write_address a [] ++ rest) ≡ ok (some (some a, rest))
unfolding read_address write_address write_u8 write_u16 write_bytes
read_address-write_address (v4 addr port) rest (h, k) = simp (
  append_assoc,
  read_u8_fact 1 (omega arith),
  read_address_of,
  read_take_fact 4 addr h,
  read_be_fact 2 port k,
)
read_address-write_address (v6 addr port) rest (h, k) = simp (
  append_assoc,
  read_u8_fact 2 (omega arith),
  read_address_of,
  read_take_fact 16 addr h,
  read_be_fact 2 port k,
)
read_address-write_address (tor_v3 key checksum version port) rest (h, k, l, j) = simp (
  append_assoc,
  read_u8_fact 4 (omega arith),
  read_address_of,
  read_take_fact 32 key h,
  read_be_fact 2 checksum k,
  read_u8_fact version l,
  read_be_fact 2 port j,
)
read_address-write_address (hostname name port) rest (h, k) =
    let size : (r : Bytes) → read_be 1 (length name % 256 ∷ r) ≡ ok (length name, r) = λ r.
      read_u8_fact (length name % 256) (omega arith) r
      ∙ ap (λ n. ok (n, r)) {x = length name % 256} {y = length name} (omega arith) in
    simp (
      append_assoc,
      read_u8_fact 5 (omega arith),
      read_address_of,
      size,
      read_take_fact (length name) name refl,
      read_be_fact 2 port k,
    )

write_address-ne : (a : NetAddress) (rest : Bytes) → write_address a [] ++ rest ≢ []
unfolding write_address write_u8 write_u16 write_bytes
write_address-ne (v4 addr port) rest e = absurd (omega (arith, ap length e))
write_address-ne (v6 addr port) rest e = absurd (omega (arith, ap length e))
write_address-ne (tor_v3 key checksum version port) rest e = absurd (omega (arith, ap length e))
write_address-ne (hostname name port) rest e = absurd (omega (arith, ap length e))

write_address-pos : (a : NetAddress) → 0 < length (write_address a [])
unfolding write_address write_u8 write_u16 write_bytes
write_address-pos (v4 addr port) = omega arith
write_address-pos (v6 addr port) = omega arith
write_address-pos (tor_v3 key checksum version port) = omega arith
write_address-pos (hostname name port) = omega arith

read_address_loop_step :
    (fuel : ℕ) (bs rest : Bytes) (out : List NetAddress) (a : NetAddress)
    → bs ≢ []
    → read_address bs ≡ ok (some (some a, rest))
    → read_address_loop (suc fuel) bs out ≡ read_address_loop fuel rest (out ++ a ∷ [])
unfolding read_address_loop
read_address_loop_step fuel [] rest out a h e = absurd (h refl)
read_address_loop_step fuel (b ∷ bs) rest out a h e = rw (e, read_address_loop) refl

read_address_loop-write_addresses :
    (addresses : List NetAddress) (fuel : ℕ) (out : List NetAddress)
    → All IsAddress addresses
    → length (write_addresses addresses []) ≤ fuel
    → read_address_loop fuel (write_addresses addresses []) out ≡ ok (out ++ addresses)
unfolding write_addresses
read_address_loop-write_addresses [] fuel out h enough =
    unfold read_address_loop in ap (λ t. ok t) (sym (append-nil out))
read_address_loop-write_addresses (a ∷ addresses) zero out h enough = absurd (
    omega (
      arith,
      write_address-pos a,
      ap length (write_addresses-eq addresses (write_address a [])),
      length-append (write_address a []) (write_addresses addresses []),
    ))
read_address_loop-write_addresses (a ∷ addresses) (suc fuel) out h enough =
    let rest : Bytes = write_addresses addresses [] in
    let split : write_addresses addresses (write_address a []) ≡ write_address a [] ++ rest =
      write_addresses-eq addresses (write_address a []) in
    let size : length rest ≤ fuel = omega (
      arith,
      write_address-pos a,
      length-append (write_address a []) rest,
      ap length split,
      enough,
    ) in
    ap (λ bs. read_address_loop (suc fuel) bs out) split
    ∙ read_address_loop_step fuel (write_address a [] ++ rest) rest out a (write_address-ne a rest)
        (read_address-write_address a rest h.0)
    ∙ read_address_loop-write_addresses addresses fuel (out ++ a ∷ []) h.1 size
    ∙ ap (λ t. ok t) (append_assoc out (a ∷ []) addresses)

pub read_addresses-write_addresses :
    (addresses : List NetAddress)
    → All IsAddress addresses
    → read_addresses (write_addresses addresses []) ≡ ok addresses
unfolding read_addresses
read_addresses-write_addresses addresses h =
    read_address_loop-write_addresses addresses (length (write_addresses addresses [])) [] h
      (omega arith)

module _ (is_pubkey is_signature : Bytes → Bool) where
  pub read_node_announcement-write_body :
      (m : NodeAnnouncement) (rest : Bytes)
      → IsMessage is_pubkey is_signature (node_announcement m)
      → read_node_announcement is_pubkey is_signature (write_body (node_announcement m) [] ++ rest)
        ≡ ok m
  unfolding read_node_announcement write_body write_node_after_sig write_u8 write_u16 write_u32
      write_bytes write_bytes_u16
  read_node_announcement-write_body m rest
        (h_sig, h_features, h_time, h_id, h_color, h_alias, h_addrs, h_short) =
      simp (
        append_assoc,
        read_signature_fact is_pubkey is_signature m.signature h_sig,
        read_short_fact m.features h_features,
        read_be_fact 4 m.timestamp h_time,
        read_pubkey_fact is_pubkey is_signature m.node_id h_id,
        read_take_fact 3 m.rgb_color h_color,
        read_take_fact 32 m.alias h_alias,
        read_short_fact (write_addresses m.addresses []) h_short,
        read_addresses-write_addresses m.addresses h_addrs,
      )
