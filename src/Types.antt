-- ===== src/Types.antt =====
-- src/types.rs: the protocol's newtypes. `Msat`, `HtlcId`, `FeeRatePerKw` and `ShortChannelId` are
-- the numbers they wrap, and the byte-array newtypes are byte strings.
pub mod Examples
use keraunos.Prelude.Fields.{or_bits, or_bits-disjoint}
use keraunos.Prelude.{
  ap, ◌∙◌, ◌<◌, ◌≡◌, arith, ℕ, ◌+◌, ◌-◌, ◌*◌, ◌/◌, ◌%◌, ◌^◌, ltb, if◌then◌else◌, List, [], ◌∷◌,
  Option, none, some, add64, mul64, u64_mod, leb,
}

abbrev pub Msat : Type 0
Msat = ℕ

unfoldable pub from_sat : ℕ → Msat
unfolding mul64
from_sat sat = mul64 sat 1000

unfoldable pub to_sat_floor : Msat → ℕ
to_sat_floor m = m / 1000

unfoldable pub checked_add : Msat → Msat → Option Msat
checked_add a b = if ltb (a + b) u64_mod then some (a + b) else none

unfoldable pub checked_sub : Msat → Msat → Option Msat
checked_sub a b = if leb b a then some (a - b) else none

-- On ℕ, `-` stops at 0.
unfoldable pub saturating_sub : Msat → Msat → Msat
saturating_sub a b = a - b

unfoldable pub sum : List Msat → Msat
sum [] = 0
sum (m ∷ ms) = add64 m (sum ms)

-- block height (3 bytes) | transaction index (3 bytes) | output index (2 bytes)
abbrev pub ShortChannelId : Type 0
ShortChannelId = ℕ

-- The shift by 40 drops the bits that leave the 64.
unfoldable pub short_channel_id : ℕ → ℕ → ℕ → ShortChannelId
short_channel_id block tx_index vout =
    or_bits 64 (or_bits 64 (block * 2 ^ 40 % u64_mod) (tx_index * 2 ^ 16)) vout

unfoldable pub block : ShortChannelId → ℕ
block scid = scid / 2 ^ 40

unfoldable pub tx_index : ShortChannelId → ℕ
tx_index scid = scid / 2 ^ 16 % 2 ^ 24

unfoldable pub vout : ShortChannelId → ℕ
vout scid = scid % 2 ^ 16

short_channel_id-sum :
    (b t v : ℕ)
    → b < 2 ^ 24
    → t < 2 ^ 24
    → v < 2 ^ 16
    → short_channel_id b t v ≡ b * 2 ^ 40 + t * 2 ^ 16 + v
unfolding short_channel_id
short_channel_id-sum b t v p q r =
    let high : b * 2 ^ 40 % u64_mod ≡ b * 2 ^ 40 = omega arith in
    let upper : or_bits 64 (b * 2 ^ 40 % u64_mod) (t * 2 ^ 16) ≡ (b * 2 ^ 24 + t) * 2 ^ 16 =
      ap (λ n. or_bits 64 n (t * 2 ^ 16)) high
      ∙ omega (arith, or_bits-disjoint 64 40 b (t * 2 ^ 16) (omega arith) (omega arith)) in
    ap (λ n. or_bits 64 n v) upper
    ∙ omega (arith, or_bits-disjoint 64 16 (b * 2 ^ 24 + t) v r (omega arith))

-- A short channel id whose parts fit their fields gives each of them back.
pub short_channel_id-parts :
    (b t v : ℕ)
    → b < 2 ^ 24
    → t < 2 ^ 24
    → v < 2 ^ 16
    → (block (short_channel_id b t v) ≡ b)
      × (tx_index (short_channel_id b t v) ≡ t)
      × (vout (short_channel_id b t v) ≡ v)
unfolding block tx_index vout
short_channel_id-parts b t v p q r =
    let sum = short_channel_id-sum b t v p q r in
    (omega (arith, sum), omega (arith, sum), omega (arith, sum))

abbrev pub FeeRatePerKw : Type 0
FeeRatePerKw = ℕ

unfoldable pub fee_for_weight : FeeRatePerKw → ℕ → ℕ
unfolding mul64
fee_for_weight feerate weight = mul64 feerate weight / 1000
