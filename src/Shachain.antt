-- ===== src/Shachain.antt =====
-- src/shachain.rs: the per-commitment secrets and the store of the peer's revealed ones. A secret is
-- its 32 bytes. The hash is a parameter: src/crypto/sha256.rs is modelled nowhere here, and no
-- theorem uses more of it than that it is a function.
pub mod Derive
pub mod Store
pub mod Examples
use keraunos.Prelude.{
  ℕ, zero, suc, ◌+◌, ◌-◌, ◌*◌, ◌/◌, ◌%◌, ◌^◌, Bytes, Bool, true, false, not, ◌&&◌, ltb, leb, length,
  ◌==◌, if◌then◌else◌, List, [], ◌∷◌, Option, none, some, get_or, set, replicate, bit_xor, bytes_eq,
  sub64, min,
}

abbrev pub max_index : ℕ
max_index = 2 ^ 48 - 1

unfoldable pub index_for_commitment : ℕ → ℕ
unfolding sub64
index_for_commitment commitment_number = sub64 max_index commitment_number

-- `p[bit / 8] ^= 1 << (bit % 8)`
unfoldable pub flip_bit : Bytes → ℕ → Bytes
flip_bit p bit = set p (bit / 8) (bit_xor (get_or p (bit / 8) 0) (2 ^ (bit % 8)))

-- `index & (1 << b) != 0`
unfoldable pub test_bit : ℕ → ℕ → Bool
test_bit index b = index / 2 ^ b % 2 == 1

-- `index & !((1 << b) - 1)`
unfoldable pub mask_low : ℕ → ℕ → ℕ
mask_low b index = index / 2 ^ b * 2 ^ b

-- `trailing_zeros` of a u64 with at least one bit set, by a loop over at most `fuel` bits.
unfoldable pub trailing_zeros : ℕ → ℕ → ℕ
trailing_zeros zero index = 0
trailing_zeros (suc fuel) index =
    let rest = trailing_zeros fuel (index / 2) in if index % 2 == 1 then 0 else suc rest

unfoldable pub bucket : ℕ → ℕ
bucket index = if index == 0 then 48 else trailing_zeros 64 index

-- `known`: one slot for each bucket.
abbrev pub SecretStore : Type 0
SecretStore = List (Option (ℕ × Bytes))

unfoldable pub new : SecretStore
new = replicate 49 none

-- `out_of_range` is the panic of `known[b]` at a slot that is not one of the 49.
pub data InsertResult : Type 0 where
  inserted : SecretStore → InsertResult
  insert_error : InsertResult
  out_of_range : InsertResult

-- `entries`: the occupied slots.
unfoldable pub entries : SecretStore → List (ℕ × Bytes)
entries [] = []
entries (none ∷ slots) = entries slots
entries (some e ∷ slots) = e ∷ entries slots

-- The loop of `from_entries`; `none` is the panic at a slot that is not one of the 49.
unfoldable pub store_entries : SecretStore → List (ℕ × Bytes) → Option SecretStore
unfolding bucket trailing_zeros
store_entries store [] = some store
store_entries store ((index, secret) ∷ rest) =
    let stored = store_entries (set store (bucket index) (some (index, secret))) rest in
    if ltb (bucket index) (length store) then stored else none

unfoldable pub from_entries : List (ℕ × Bytes) → Option SecretStore
unfolding store_entries new
from_entries es = store_entries new es

min_of : Option ℕ → List (ℕ × Bytes) → Option ℕ
min_of best [] = best
min_of none ((i, s) ∷ es) = min_of (some i) es
min_of (some m) ((i, s) ∷ es) = min_of (some (min m i)) es

unfoldable pub min_index : SecretStore → Option ℕ
unfolding min_of entries
min_index store = min_of none (entries store)

-- The test of slot `b` in `secret_for`, with `mask` as 0 at the last slot.
unfoldable pub covers : ℕ → ℕ → ℕ → Bool
unfolding mask_low
covers b index known_index =
    (if b == 48 then true else mask_low b index == mask_low b known_index) && leb known_index index

module _ (sha256 : Bytes → Bytes) where
  -- The loop body for bit `b`.
  unfoldable pub derive_step : Bytes → ℕ → ℕ → Bytes
  unfolding test_bit flip_bit
  derive_step p b index = if test_bit index b then sha256 (flip_bit p b) else p

  -- The bits below `bits`, the highest first.
  unfoldable pub derive_secret : Bytes → ℕ → ℕ → Bytes
  derive_secret base zero index = base
  derive_secret base (suc b) index = derive_secret (derive_step base b index) b index

  unfoldable pub generate_from_seed : Bytes → ℕ → Bytes
  unfolding derive_secret
  generate_from_seed seed index = derive_secret seed 48 index

  -- Does the secret for bucket `b` re-derive what a lower slot holds?
  unfoldable pub rederives : Bytes → ℕ → Option (ℕ × Bytes) → Bool
  rederives secret b none = true
  rederives secret b (some (known_index, known_secret)) =
      bytes_eq (derive_secret secret b known_index) known_secret

  -- The loop over the slots below `b`: the first `n` of them.
  unfoldable pub check_lower : Bytes → ℕ → ℕ → SecretStore → Bool
  unfolding rederives
  check_lower secret b zero slots = true
  check_lower secret b (suc n) [] = true
  check_lower secret b (suc n) (slot ∷ slots) =
      rederives secret b slot && check_lower secret b n slots

  unfoldable pub insert : SecretStore → ℕ → Bytes → InsertResult
  unfolding bucket check_lower
  insert known index secret =
      let b = bucket index in
      if check_lower secret b b known
      then (if ltb b (length known)
          then inserted (set known b (some (index, secret)))
          else out_of_range)
      else insert_error

  unfoldable pub secret_in : ℕ → Option (ℕ × Bytes) → ℕ → Option Bytes
  unfolding covers
  secret_in b none index = none
  secret_in b (some (known_index, known_secret)) index =
      if covers b index known_index then some (derive_secret known_secret b index) else none

  -- The loop over the slots from `b` on.
  unfoldable pub secret_from : ℕ → SecretStore → ℕ → Option Bytes
  unfolding secret_in
  secret_from b [] index = none
  secret_from b (slot ∷ slots) index = elim (secret_in b slot index) [
    | some secret ↦ some secret
    | none ↦ secret_from (suc b) slots index
  ]

  unfoldable pub secret_for : SecretStore → ℕ → Option Bytes
  unfolding secret_from
  secret_for known index = secret_from 0 known index
