-- ===== src/Bitcoin/Tx.antt =====
-- src/bitcoin/tx.rs and src/bitcoin/encode.rs: how transactions are written. An i32 version is its
-- 32-bit pattern.
use keraunos.Prelude.{
  ℕ, ◌+◌, ◌*◌, leb, if◌then◌else◌, Bool, true, false, List, [], ◌∷◌, ◌++◌, Bytes, length,
}
use keraunos.Prelude.LittleEndian.{le_bytes}
use keraunos.Commitment.{OutPoint, TxIn, TxOut, Transaction}
use keraunos.Bitcoin.Script.{Hashes, sha256d}

-- The argument is a u64.
unfoldable pub write_compact_size : Bytes → ℕ → Bytes
unfolding le_bytes
write_compact_size out n =
    if leb n 252
    then out ++ n ∷ []
    else if leb n 65535
    then (out ++ 253 ∷ []) ++ le_bytes 2 n
    else if leb n 4294967295
    then (out ++ 254 ∷ []) ++ le_bytes 4 n
    else (out ++ 255 ∷ []) ++ le_bytes 8 n

unfoldable pub write_sized_bytes : Bytes → Bytes → Bytes
unfolding write_compact_size
write_sized_bytes out bs = write_compact_size out (length bs) ++ bs

unfoldable pub write_outpoint : Bytes → OutPoint → Bytes
unfolding le_bytes
write_outpoint out o = (out ++ o.txid) ++ le_bytes 4 o.vout

unfoldable pub write_txout : Bytes → TxOut → Bytes
unfolding le_bytes write_sized_bytes
write_txout out o = write_sized_bytes (out ++ le_bytes 8 o.value) o.script_pubkey

unfoldable pub write_inputs : Bytes → List TxIn → Bytes
unfolding write_outpoint write_sized_bytes le_bytes
write_inputs out [] = out
write_inputs out (i ∷ is) =
    write_inputs
      (write_sized_bytes (write_outpoint out i.previous_output) i.script_sig
        ++ le_bytes 4 i.sequence)
      is

unfoldable pub write_outputs : Bytes → List TxOut → Bytes
unfolding write_txout
write_outputs out [] = out
write_outputs out (o ∷ os) = write_outputs (write_txout out o) os

unfoldable pub write_inputs_outputs : Bytes → Transaction → Bytes
unfolding write_compact_size write_inputs write_outputs
write_inputs_outputs out tx =
    let ins = write_inputs (write_compact_size out (length tx.input)) tx.input in
    write_outputs (write_compact_size ins (length tx.output)) tx.output

unfoldable pub serialize_legacy : Transaction → Bytes
unfolding le_bytes write_inputs_outputs
serialize_legacy tx = write_inputs_outputs (le_bytes 4 tx.version) tx ++ le_bytes 4 tx.lock_time

unfoldable pub is_nil : List Bytes → Bool
is_nil [] = true
is_nil (b ∷ bs) = false

unfoldable pub has_witness : List TxIn → Bool
unfolding is_nil
has_witness [] = false
has_witness (i ∷ is) = if is_nil i.witness then has_witness is else true

unfoldable pub write_items : Bytes → List Bytes → Bytes
unfolding write_sized_bytes
write_items out [] = out
write_items out (item ∷ items) = write_items (write_sized_bytes out item) items

unfoldable pub write_witnesses : Bytes → List TxIn → Bytes
unfolding write_compact_size write_items
write_witnesses out [] = out
write_witnesses out (i ∷ is) =
    write_witnesses (write_items (write_compact_size out (length i.witness)) i.witness) is

unfoldable pub serialize : Transaction → Bytes
unfolding has_witness serialize_legacy le_bytes write_inputs_outputs write_witnesses
serialize tx =
    if has_witness tx.input
    then write_witnesses (write_inputs_outputs (le_bytes 4 tx.version ++ 0 ∷ 1 ∷ []) tx) tx.input
      ++ le_bytes 4 tx.lock_time
    else serialize_legacy tx

unfoldable pub txid : Hashes → Transaction → Bytes
unfolding sha256d serialize_legacy
txid hashes tx = sha256d hashes (serialize_legacy tx)

unfoldable pub wtxid : Hashes → Transaction → Bytes
unfolding sha256d serialize
wtxid hashes tx = sha256d hashes (serialize tx)

unfoldable pub weight : Transaction → ℕ
unfolding serialize serialize_legacy
weight tx = length (serialize_legacy tx) * 3 + length (serialize tx)
