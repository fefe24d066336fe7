-- ===== src/Channel/Htlcs.antt =====
-- src/channel/dance.rs: finding an HTLC, and the tests that the update handlers share.
use keraunos.Prelude.{
  ℕ, Bool, true, false, not, ◌&&◌, ◌==◌, if◌then◌else◌, List, [], ◌∷◌, map, Option, none, some,
  keep, length, add64, mul64, ◌%◌, ◌^◌,
}
use keraunos.Types.{Msat, FeeRatePerKw, sum, fee_for_weight}
use keraunos.Commitment.{commitment_tx_base_weight, commitment_tx_weight_per_htlc}
use keraunos.Channel.Data.{
  Channel, Htlc, Result, ok, text, format, close, invalid_state, ◌>>=◌, ◌>>◌, deny, ok_or, phase_eq,
  committed,
}

abbrev pub bool_eq : Bool → Bool → Bool
bool_eq true b = b
bool_eq false b = not b

abbrev pub is_some {ℓ} : {A : Type ℓ} → Option A → Bool
is_some none = false
is_some (some a) = true

-- `h.outbound == outbound && h.id == id`
abbrev pub is_htlc : Bool → ℕ → Htlc → Bool
is_htlc outbound id h = bool_eq h.outbound outbound && h.id == id

unfoldable pub find_htlc : Bool → ℕ → List Htlc → Option Htlc
find_htlc outbound id [] = none
find_htlc outbound id (h ∷ hs) = if is_htlc outbound id h then some h else find_htlc outbound id hs

-- A change through the reference to the HTLC that `find` returns.
unfoldable pub update_htlc : Bool → ℕ → (Htlc → Htlc) → List Htlc → List Htlc
update_htlc outbound id f [] = []
update_htlc outbound id f (h ∷ hs) =
    if is_htlc outbound id h then f h ∷ hs else h ∷ update_htlc outbound id f hs

abbrev pub both_committed : Htlc → Bool
both_committed h = phase_eq h.phase_holder committed && phase_eq h.phase_counterparty committed

-- `inbound_committed_mut` and `outbound_committed_mut`: the HTLC that the reference is to.
unfoldable pub inbound_committed : Channel → ℕ → Result Htlc
unfolding find_htlc
inbound_committed c id = do
  h ← ok_or (find_htlc false id c.htlcs) (invalid_state (text "unknown inbound HTLC id"))
  deny (is_some h.resolution) (invalid_state (text "HTLC already resolved"))
  deny (not (both_committed h)) (invalid_state (text "HTLC not irrevocably committed"))
  ok h

unfoldable pub outbound_committed : Channel → ℕ → Result Htlc
unfolding find_htlc
outbound_committed c id = do
  h ← ok_or (find_htlc true id c.htlcs) (close (format "unknown outbound HTLC id {}" (id ∷ [])))
  deny (is_some h.resolution) (close (format "HTLC {} resolved twice" (id ∷ [])))
  deny (not (both_committed h))
      (close (format "HTLC {} resolved before being irrevocably committed" (id ∷ [])))
  ok h

-- `filter(|h| h.outbound == outbound && h.resolution.is_none())`
unfoldable pub live : Bool → List Htlc → List Htlc
live outbound = keep (λ h. bool_eq h.outbound outbound && not (is_some h.resolution))

unfoldable pub amounts : List Htlc → Msat
unfolding sum
amounts hs = sum (map (λ h. h.amount_msat) hs)

-- The fee of a commitment with so many HTLC outputs.
unfoldable pub commitment_fee : FeeRatePerKw → ℕ → ℕ
unfolding fee_for_weight
commitment_fee feerate n =
    fee_for_weight feerate (add64 commitment_tx_base_weight (mul64 commitment_tx_weight_per_htlc n))

-- `live.len() as u16`
abbrev pub count_u16 : List Htlc → ℕ
count_u16 hs = length hs % 2 ^ 16

-- `cltv_expiry` from here on is a time, not a height.
abbrev pub cltv_limit : ℕ
cltv_limit = 500_000_000
