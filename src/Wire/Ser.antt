-- ===== src/Wire/Ser.antt =====
-- src/wire/ser.rs: the writer is the bytes written so far, the reader the bytes not yet read.
-- A reader's operation returns its value with the bytes that are left.
pub mod Reads
use keraunos.Prelude.{
  ℕ, ◌+◌, ◌%◌, ◌^◌, Bytes, String, List, [], ◌∷◌, ◌++◌, Bool, true, false, ltb, if◌then◌else◌,
  length, take, drop, be_bytes, from_be, ◌≡◌, refl, ◌⊎◌, inl, inr,
}

pub data WireError : Type 0 where
  unexpected_end non_minimal_big_size bad_pubkey bad_signature : WireError
  unknown_required_tlv : ℕ → WireError
  tlv_not_strictly_ascending tlv_length_mismatch : WireError
  unknown_message_type : ℕ → WireError
  trailing_bytes : WireError
  bad_format : String → WireError

pub data Result {ℓ} (A : Type ℓ) : Type ℓ where
  ok : A → Result A
  err : WireError → Result A

infixl 5 ◌>>=◌
abbrev pub ◌>>=◌ {ℓ κ} : {A : Type ℓ} {B : Type κ} → Result A → (A → Result B) → Result B
ok a >>= f = f a
err e >>= f = err e

unfoldable pub write_u8 : Bytes → ℕ → Bytes
write_u8 w v = w ++ v ∷ []

unfoldable pub write_u16 : Bytes → ℕ → Bytes
write_u16 w v = w ++ be_bytes 2 v

unfoldable pub write_u32 : Bytes → ℕ → Bytes
write_u32 w v = w ++ be_bytes 4 v

unfoldable pub write_u64 : Bytes → ℕ → Bytes
write_u64 w v = w ++ be_bytes 8 v

unfoldable pub write_bytes : Bytes → Bytes → Bytes
write_bytes w b = w ++ b

-- `b.len() as u16` keeps the low 16 bits; the assertion before it is for debug builds.
unfoldable pub write_bytes_u16 : Bytes → Bytes → Bytes
unfolding write_u16 write_bytes
write_bytes_u16 w b = write_bytes (write_u16 w (length b % 2 ^ 16)) b

unfoldable pub is_empty : Bytes → Bool
is_empty [] = true
is_empty (b ∷ bs) = false

unfoldable pub read_take : ℕ → Bytes → Result (Bytes × Bytes)
read_take n r = if ltb (length r) n then err unexpected_end else ok (take n r, drop n r)

unfoldable pub read_rest : Bytes → Bytes × Bytes
read_rest r = (r, [])

-- `u8`, `u16`, `u32` and `u64` for n = 1, 2, 4, 8.
unfoldable pub read_be : ℕ → Bytes → Result (ℕ × Bytes)
unfolding read_take from_be
read_be n r = do (head, rest) ← read_take n r; ok (from_be 0 head, rest)

unfoldable pub read_bytes_u16 : Bytes → Result (Bytes × Bytes)
unfolding read_be read_take
read_bytes_u16 r = do (len, rest) ← read_be 2 r; read_take len rest

unfoldable pub finish : Bytes → Result (Unit {0})
unfolding is_empty
finish r = if is_empty r then ok tt else err trailing_bytes

-- `PublicKey` and `Signature` stand for their serialisations. Which byte strings libsecp256k1
-- takes for one is a parameter.
module _ (is_pubkey is_signature : Bytes → Bool) where
  unfoldable pub read_pubkey : Bytes → Result (Bytes × Bytes)
  unfolding read_take
  read_pubkey r = do
    (head, rest) ← read_take 33 r
    if is_pubkey head then ok (head, rest) else err bad_pubkey

  unfoldable pub read_signature : Bytes → Result (Bytes × Bytes)
  unfolding read_take
  read_signature r = do
    (head, rest) ← read_take 64 r
    if is_signature head then ok (head, rest) else err bad_signature

pub Result-cases {ℓ} :
    {A : Type ℓ} (m : Result A) → ((a : A) × (m ≡ ok a)) ⊎ ((e : WireError) × (m ≡ err e))
Result-cases (ok a) = inl (a, refl)
Result-cases (err e) = inr (e, refl)
