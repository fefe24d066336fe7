-- ===== src/Bitcoin/Script.antt =====
-- src/bitcoin/script.rs: opcodes, the builder, and the segwit outputs. A script is its bytes.
-- Integers are pushed as numbers that are not negative, as all callers do.
use keraunos.Prelude.{
  ℕ, zero, suc, ◌+◌, ◌-◌, ◌/◌, ◌%◌, ltb, leb, ◌==◌, ◌&&◌, ◌||◌, if◌then◌else◌, Bool, [], ◌∷◌, ◌++◌,
  Bytes, length, get_or,
}
use keraunos.Prelude.LittleEndian.{le_bytes}

-- src/crypto: the hash functions.
pub record Hashes : Type 0 where
  pub sha256 : Bytes → Bytes
  pub ripemd160 : Bytes → Bytes

unfoldable pub hash160 : Hashes → Bytes → Bytes
hash160 hashes b = hashes.ripemd160 (hashes.sha256 b)

unfoldable pub sha256d : Hashes → Bytes → Bytes
sha256d hashes b = hashes.sha256 (hashes.sha256 b)

abbrev pub op_0 : ℕ
op_0 = 0

abbrev pub op_pushdata1 : ℕ
op_pushdata1 = 76

abbrev pub op_pushdata2 : ℕ
op_pushdata2 = 77

abbrev pub op_pushdata4 : ℕ
op_pushdata4 = 78

abbrev pub op_1 : ℕ
op_1 = 81

abbrev pub op_16 : ℕ
op_16 = 96

abbrev pub op_if : ℕ
op_if = 99

abbrev pub op_notif : ℕ
op_notif = 100

abbrev pub op_else : ℕ
op_else = 103

abbrev pub op_endif : ℕ
op_endif = 104

abbrev pub op_drop : ℕ
op_drop = 117

abbrev pub op_dup : ℕ
op_dup = 118

abbrev pub op_swap : ℕ
op_swap = 124

abbrev pub op_size : ℕ
op_size = 130

abbrev pub op_equal : ℕ
op_equal = 135

abbrev pub op_equalverify : ℕ
op_equalverify = 136

abbrev pub op_hash160 : ℕ
op_hash160 = 169

abbrev pub op_checksig : ℕ
op_checksig = 172

abbrev pub op_checkmultisig : ℕ
op_checkmultisig = 174

abbrev pub op_checklocktimeverify : ℕ
op_checklocktimeverify = 177

abbrev pub op_checksequenceverify : ℕ
op_checksequenceverify = 178

unfoldable pub new_p2wsh : Hashes → Bytes → Bytes
new_p2wsh hashes witness_script = op_0 ∷ 32 ∷ hashes.sha256 witness_script

unfoldable pub new_p2wpkh_from_pubkey : Hashes → Bytes → Bytes
unfolding hash160
new_p2wpkh_from_pubkey hashes pubkey = op_0 ∷ 20 ∷ hash160 hashes pubkey

unfoldable pub is_p2wsh : Bytes → Bool
is_p2wsh s = length s == 34 && (get_or s 0 0 == op_0 && get_or s 1 0 == 32)

unfoldable pub is_p2wpkh : Bytes → Bool
is_p2wpkh s = length s == 22 && (get_or s 0 0 == op_0 && get_or s 1 0 == 20)

unfoldable pub is_witness_program : Bytes → Bool
is_witness_program s =
    if ltb (length s) 4 || ltb 42 (length s)
    then Bool.false
    else (let version = get_or s 0 0 in
        let push_len = get_or s 1 0 in
        (version == op_0 || (leb op_1 version && leb version op_16))
        && ((leb 2 push_len && leb push_len 40) && length s == push_len + 2))

unfoldable pub push_opcode : ℕ → Bytes → Bytes
push_opcode op out = out ++ op ∷ []

-- The lengths are below 2 ^ 32.
unfoldable pub push_slice : Bytes → Bytes → Bytes
unfolding le_bytes
push_slice bs out =
    let len = length bs in
    if len == 0
    then out ++ op_0 ∷ []
    else if leb len 75
    then (out ++ len ∷ []) ++ bs
    else if leb len 255
    then (out ++ op_pushdata1 ∷ len ∷ []) ++ bs
    else if leb len 65535
    then ((out ++ op_pushdata2 ∷ []) ++ le_bytes 2 len) ++ bs
    else ((out ++ op_pushdata4 ∷ []) ++ le_bytes 4 len) ++ bs

-- The loop that writes a magnitude: 8 bytes at most.
unfoldable pub magnitude : ℕ → ℕ → Bytes
magnitude zero n = []
magnitude (suc fuel) n =
    let rest = magnitude fuel (n / 256) in if n == 0 then [] else n % 256 ∷ rest

unfoldable pub last_or : Bytes → ℕ → ℕ
last_or [] d = d
last_or (b ∷ bs) d = last_or bs b

unfoldable pub scriptnum_encode : ℕ → Bytes
unfolding magnitude last_or
scriptnum_encode n =
    let out = magnitude 8 n in
    if n == 0 then [] else if leb 128 (last_or out 0) then out ++ 0 ∷ [] else out

unfoldable pub push_int : ℕ → Bytes → Bytes
unfolding push_opcode scriptnum_encode push_slice
push_int n out =
    if n == 0
    then push_opcode op_0 out
    else if leb n 16
    then push_opcode (op_1 + n - 1) out
    else push_slice (scriptnum_encode n) out
