-- ===== src/Wire/Msgs/Put.antt =====
-- src/wire/msgs.rs: what the writers of the messages share. `w ▷ put` is a call of one of the
-- writer's methods.
use keraunos.Prelude.{ℕ, List, [], ◌∷◌, ◌++◌, Option, none, some, Bytes}
use keraunos.Wire.Ser.{write_u8, write_u16, write_u32, write_u64, write_bytes, write_bytes_u16}
use keraunos.Wire.Tlv.{write_record}
use keraunos.Wire.Msgs.Data.{ClosingSignedFeeRange}

infixl 20 ◌▷◌
abbrev pub ◌▷◌ : Bytes → (Bytes → Bytes) → Bytes
w ▷ put = put w

abbrev pub u8 : ℕ → Bytes → Bytes
u8 v w = write_u8 w v

abbrev pub u16 : ℕ → Bytes → Bytes
u16 v w = write_u16 w v

abbrev pub u32 : ℕ → Bytes → Bytes
u32 v w = write_u32 w v

abbrev pub u64 : ℕ → Bytes → Bytes
u64 v w = write_u64 w v

-- Also the fixed sizes: a public key's 33 and a signature's 64 bytes.
abbrev pub bytes : Bytes → Bytes → Bytes
bytes b w = write_bytes w b

abbrev pub bytes_u16 : Bytes → Bytes → Bytes
bytes_u16 b w = write_bytes_u16 w b

-- `if let Some(value)`
unfoldable pub optional_record : Option Bytes → ℕ → Bytes → Bytes
unfolding write_record
optional_record none typ w = w
optional_record (some value) typ w = write_record w typ value

unfoldable pub concat : List Bytes → Bytes
concat [] = []
concat (b ∷ bs) = b ++ concat bs

abbrev pub networks_value : Option (List Bytes) → Option Bytes
networks_value none = none
networks_value (some nets) = some (concat nets)

abbrev pub alias_value : Option ℕ → Option Bytes
alias_value none = none
alias_value (some alias) = some ([] ▷ u64 alias)

abbrev pub fee_range_value : Option ClosingSignedFeeRange → Option Bytes
fee_range_value none = none
fee_range_value (some range) = some ([] ▷ u64 range.min_fee_satoshis ▷ u64 range.max_fee_satoshis)
