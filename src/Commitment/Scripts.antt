-- ===== src/Commitment/Scripts.antt =====
-- src/commitment/mod.rs: `mod scripts`. A call of the builder is `▷`.
use keraunos.Prelude.{ℕ, Bool, if◌then◌else◌, [], Bytes}
use keraunos.Prelude.Sort.{bytes_cmp}
use Prim.Native.Nat.{Ordering}
use keraunos.Commitment.{TxCreationKeys, HtlcOutputInCommitment}
use keraunos.Bitcoin.Script.{
  Hashes, hash160, push_opcode, push_slice, push_int, new_p2wpkh_from_pubkey, op_if, op_notif,
  op_else, op_endif, op_drop, op_dup, op_swap, op_size, op_equal, op_equalverify, op_hash160,
  op_checksig, op_checkmultisig, op_checklocktimeverify, op_checksequenceverify,
}

infixl 20 ◌▷◌
abbrev pub ◌▷◌ : Bytes → (Bytes → Bytes) → Bytes
out ▷ push = push out

-- `a.serialize() <= b.serialize()`
unfoldable pub bytes_le : Bytes → Bytes → Bool
unfolding bytes_cmp
bytes_le a b = elim (bytes_cmp a b) [
  | Ordering.gt ↦ Bool.false
  | Ordering.eq ↦ Bool.true
  | Ordering.lt ↦ Bool.true
]

unfoldable pub funding_redeemscript : Bytes → Bytes → Bytes
unfolding bytes_le push_int push_slice push_opcode
funding_redeemscript a b =
    let first = if bytes_le a b then a else b in
    let second = if bytes_le a b then b else a in
    []
    ▷ push_int 2
    ▷ push_slice first
    ▷ push_slice second
    ▷ push_int 2
    ▷ push_opcode op_checkmultisig

unfoldable pub revocable_delayed : Bytes → ℕ → Bytes → Bytes
unfolding push_int push_slice push_opcode
revocable_delayed revocation_key to_self_delay delayed_payment_key =
    []
    ▷ push_opcode op_if
    ▷ push_slice revocation_key
    ▷ push_opcode op_else
    ▷ push_int to_self_delay
    ▷ push_opcode op_checksequenceverify
    ▷ push_opcode op_drop
    ▷ push_slice delayed_payment_key
    ▷ push_opcode op_endif
    ▷ push_opcode op_checksig

module _ (hashes : Hashes) where
  unfoldable pub to_remote : Bytes → Bytes
  unfolding new_p2wpkh_from_pubkey
  to_remote countersignatory_payment_basepoint =
      new_p2wpkh_from_pubkey hashes countersignatory_payment_basepoint

  unfoldable pub revocation_pubkey_hash160 : Bytes → Bytes
  unfolding hash160
  revocation_pubkey_hash160 revocation_key = hash160 hashes revocation_key

  unfoldable pub payment_hash_ripemd : Bytes → Bytes
  payment_hash_ripemd payment_hash = hashes.ripemd160 payment_hash

  unfoldable pub offered_htlc : TxCreationKeys → Bytes → Bytes
  unfolding revocation_pubkey_hash160 payment_hash_ripemd push_int push_slice push_opcode
  offered_htlc keys payment_hash =
      []
      ▷ push_opcode op_dup
      ▷ push_opcode op_hash160
      ▷ push_slice (revocation_pubkey_hash160 keys.revocation_key)
      ▷ push_opcode op_equal
      ▷ push_opcode op_if
      ▷ push_opcode op_checksig
      ▷ push_opcode op_else
      ▷ push_slice keys.countersignatory_htlc_key
      ▷ push_opcode op_swap
      ▷ push_opcode op_size
      ▷ push_int 32
      ▷ push_opcode op_equal
      ▷ push_opcode op_notif
      ▷ push_opcode op_drop
      ▷ push_int 2
      ▷ push_opcode op_swap
      ▷ push_slice keys.broadcaster_htlc_key
      ▷ push_int 2
      ▷ push_opcode op_checkmultisig
      ▷ push_opcode op_else
      ▷ push_opcode op_hash160
      ▷ push_slice (payment_hash_ripemd payment_hash)
      ▷ push_opcode op_equalverify
      ▷ push_opcode op_checksig
      ▷ push_opcode op_endif
      ▷ push_opcode op_endif

  unfoldable pub received_htlc : TxCreationKeys → Bytes → ℕ → Bytes
  unfolding revocation_pubkey_hash160 payment_hash_ripemd push_int push_slice push_opcode
  received_htlc keys payment_hash cltv_expiry =
      []
      ▷ push_opcode op_dup
      ▷ push_opcode op_hash160
      ▷ push_slice (revocation_pubkey_hash160 keys.revocation_key)
      ▷ push_opcode op_equal
      ▷ push_opcode op_if
      ▷ push_opcode op_checksig
      ▷ push_opcode op_else
      ▷ push_slice keys.countersignatory_htlc_key
      ▷ push_opcode op_swap
      ▷ push_opcode op_size
      ▷ push_int 32
      ▷ push_opcode op_equal
      ▷ push_opcode op_if
      ▷ push_opcode op_hash160
      ▷ push_slice (payment_hash_ripemd payment_hash)
      ▷ push_opcode op_equalverify
      ▷ push_int 2
      ▷ push_opcode op_swap
      ▷ push_slice keys.broadcaster_htlc_key
      ▷ push_int 2
      ▷ push_opcode op_checkmultisig
      ▷ push_opcode op_else
      ▷ push_opcode op_drop
      ▷ push_int cltv_expiry
      ▷ push_opcode op_checklocktimeverify
      ▷ push_opcode op_drop
      ▷ push_opcode op_checksig
      ▷ push_opcode op_endif
      ▷ push_opcode op_endif

  unfoldable pub htlc_witness_script : TxCreationKeys → HtlcOutputInCommitment → Bytes
  unfolding offered_htlc received_htlc
  htlc_witness_script keys htlc =
      if htlc.offered
      then offered_htlc keys htlc.payment_hash
      else received_htlc keys htlc.payment_hash htlc.cltv_expiry
