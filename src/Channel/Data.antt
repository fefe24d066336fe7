-- ===== src/Channel/Data.antt =====
-- src/channel/mod.rs and src/channel/dance.rs: the data of the channel state machine.
use keraunos.Prelude.{ℕ, String, Bool, true, false, List, Option, Bytes, ◌≡◌, refl, ◌⊎◌, inl, inr}
use keraunos.Types.{Msat, FeeRatePerKw, ShortChannelId}
use keraunos.Commitment.{
  ChannelPublicKeys, TxCreationKeys, HtlcOutputInCommitment, BuiltCommitmentTx, OutPoint,
  Transaction,
}
use keraunos.Shachain.{SecretStore}

-- A literal, or a format string with its arguments.
pub data Text : Type 0 where
  text : String → Text
  format : String → List ℕ → Text

pub data ChannelError : Type 0 where
  close ignore invalid_state : Text → ChannelError

-- `panic`: an `expect`, an `unreachable!` or an index fails.
pub data Result {ℓ} (A : Type ℓ) : Type ℓ where
  panic : Result A
  err : ChannelError → Result A
  ok : A → Result A

infixl 5 ◌>>=◌ ◌>>◌
abbrev pub ◌>>=◌ {ℓ κ} : {X : Type ℓ} {Y : Type κ} → Result X → (X → Result Y) → Result Y
panic >>= next = panic
err why >>= next = err why
ok value >>= next = next value

-- `if bad { return Err(e) }`
abbrev pub deny : Bool → ChannelError → Result (Unit {0})
deny true e = err e
deny false e = ok tt

abbrev pub ◌>>◌ {ℓ} : {Y : Type ℓ} → Result (Unit {0}) → Result Y → Result Y
check >> rest = check >>= λ passed. rest

abbrev pub ok_or {ℓ} : {A : Type ℓ} → Option A → ChannelError → Result A
ok_or Option.none e = err e
ok_or (Option.some a) e = ok a

abbrev pub expect {ℓ} : {A : Type ℓ} → Option A → Result A
expect Option.none = panic
expect (Option.some a) = ok a

-- A chain that returned came through its first step.
pub >>=-eq-ok {ℓ κ} :
    {X : Type ℓ} {Y : Type κ} (first : Result X) (next : X → Result Y) {y : Y}
    → (first >>= next) ≡ ok y
    → (x : X) × (first ≡ ok x) × (next x ≡ ok y)
>>=-eq-ok panic next returned = cc
>>=-eq-ok (err why) next returned = cc
>>=-eq-ok (ok value) next returned = (value, refl, returned)

pub Result-cases {ℓ} :
    {A : Type ℓ} (m : Result A)
    → ((a : A) × (m ≡ ok a)) ⊎ ((e : ChannelError) × (m ≡ err e)) ⊎ (m ≡ panic)
Result-cases (ok a) = inl (a, refl)
Result-cases (err e) = inr (inl (e, refl))
Result-cases panic = inr (inr refl)

-- What constrains the channel, named by who chose it.
pub record ChannelParams : Type 0 where
  pub holder_dust_limit_sat : ℕ
  pub counterparty_dust_limit_sat : ℕ
  pub holder_selected_reserve_sat : ℕ
  pub counterparty_selected_reserve_sat : ℕ
  pub counterparty_max_htlc_value_in_flight_msat : Msat
  pub holder_max_htlc_value_in_flight_msat : Msat
  pub counterparty_htlc_minimum_msat : Msat
  pub holder_htlc_minimum_msat : Msat
  pub counterparty_max_accepted_htlcs : ℕ
  pub holder_max_accepted_htlcs : ℕ
  pub holder_selected_delay : ℕ
  pub counterparty_selected_delay : ℕ

pub record ChannelConfig : Type 0 where
  pub announce : Bool
  pub dust_limit_sat : ℕ
  pub reserve_ppm : ℕ
  pub htlc_minimum_msat : Msat
  pub to_self_delay : ℕ
  pub max_accepted_htlcs : ℕ
  pub max_htlc_value_in_flight_ppm : ℕ
  pub minimum_depth : ℕ

pub data ChannelRole : Type 0 where
  opener accepter : ChannelRole

abbrev pub is_opener : ChannelRole → Bool
is_opener opener = true
is_opener accepter = false

abbrev pub is_accepter : ChannelRole → Bool
is_accepter opener = false
is_accepter accepter = true

pub data ChannelState : Type 0 where
  open_sent accept_sent funding_created_sent awaiting_channel_ready : ChannelState
  normal shutting_down negotiating_close closed : ChannelState

abbrev pub is_normal : ChannelState → Bool
is_normal normal = true
is_normal _ = false

-- `ChannelState::Normal | ChannelState::ShuttingDown`
abbrev pub is_operating : ChannelState → Bool
is_operating normal = true
is_operating shutting_down = true
is_operating _ = false

-- `ChannelState::AwaitingChannelReady | ChannelState::Normal`
abbrev pub is_confirmable : ChannelState → Bool
is_confirmable awaiting_channel_ready = true
is_confirmable normal = true
is_confirmable _ = false

pub data HtlcSource : Type 0 where
  local_payment : Bytes → HtlcSource
  forwarded : Bytes → ℕ → HtlcSource

pub data HtlcPhase : Type 0 where
  not_yet pending committed removing gone : HtlcPhase

unfoldable pub included : HtlcPhase → Bool
included pending = true
included committed = true
included _ = false

unfoldable pub credited : HtlcPhase → Bool
credited removing = true
credited gone = true
credited _ = false

-- `==` on phases.
abbrev pub phase_eq : HtlcPhase → HtlcPhase → Bool
phase_eq not_yet not_yet = true
phase_eq pending pending = true
phase_eq committed committed = true
phase_eq removing removing = true
phase_eq gone gone = true
phase_eq _ _ = false

pub data HtlcResolution : Type 0 where
  fulfill : Bytes → HtlcResolution
  fail : Bytes → HtlcResolution
  fail_malformed : Bytes → ℕ → HtlcResolution

pub record Htlc : Type 0 where
  pub outbound : Bool
  pub id : ℕ
  pub amount_msat : Msat
  pub payment_hash : Bytes
  pub cltv_expiry : ℕ
  pub onion : Bytes
  pub source : Option HtlcSource
  pub resolution : Option HtlcResolution
  pub phase_holder : HtlcPhase
  pub phase_counterparty : HtlcPhase
  pub processed : Bool

pub record CounterpartyCommitmentInfo : Type 0 where
  pub number : ℕ
  pub txid : Bytes
  pub per_commitment_point : Bytes
  pub htlcs : List (HtlcOutputInCommitment × Option ℕ)
  pub to_holder_msat : Msat
  pub to_counterparty_msat : Msat
  pub feerate : FeeRatePerKw

pub record HolderCommitment : Type 0 where
  pub number : ℕ
  pub built : BuiltCommitmentTx
  pub counterparty_sig : Bytes
  pub counterparty_htlc_sigs : List Bytes
  pub htlcs : List HtlcOutputInCommitment
  pub keys : TxCreationKeys
  pub feerate : FeeRatePerKw

pub data HoldingCellOp : Type 0 where
  -- amount_msat, payment_hash, cltv_expiry, onion, source
  add : Msat → Bytes → ℕ → Bytes → HtlcSource → HoldingCellOp
  fulfill_op : ℕ → Bytes → HoldingCellOp
  fail_op : ℕ → Bytes → HoldingCellOp
  fail_malformed_op : ℕ → Bytes → ℕ → HoldingCellOp

pub record PendingCounterpartyCommitment : Type 0 where
  pub info : CounterpartyCommitmentInfo
  pub included : List (Bool × ℕ)
  pub removed : List (Bool × ℕ)
  pub fee_update : Option FeeRatePerKw

-- The source's fields but `secp`, which holds no state, and `signer`, which is a parameter of the
-- operations.
pub record Channel : Type 0 where
  pub role : ChannelRole
  pub state : ChannelState
  pub config : ChannelConfig
  pub params : ChannelParams
  pub temporary_channel_id : Bytes
  pub channel_id : Bytes
  pub funding_outpoint : Option OutPoint
  pub funding_amount_sat : ℕ
  pub push_msat : Msat
  pub holder_pubkeys : ChannelPublicKeys
  pub counterparty_pubkeys : Option ChannelPublicKeys
  pub obscure_factor : ℕ
  pub feerate_holder : FeeRatePerKw
  pub feerate_counterparty : FeeRatePerKw
  pub pending_fee_ack : Option FeeRatePerKw
  pub announce : Bool
  pub to_holder_msat : Msat
  pub to_counterparty_msat : Msat
  pub counterparty_dirty : Bool
  pub htlcs : List Htlc
  pub next_holder_htlc_id : ℕ
  pub next_counterparty_htlc_id : ℕ
  pub holder_commitment_number : ℕ
  pub counterparty_commitment_number : ℕ
  pub counterparty_current_point : Option Bytes
  pub counterparty_next_point : Option Bytes
  pub counterparty_secrets : SecretStore
  pub current_holder_commitment : Option HolderCommitment
  pub current_counterparty_commitment : Option CounterpartyCommitmentInfo
  pub pending_counterparty_commitment : Option PendingCounterpartyCommitment
  pub awaiting_raa : Bool
  pub holding_cell : List HoldingCellOp
  pub short_channel_id : Option ShortChannelId
  pub funding_confirmed : Bool
  pub channel_ready_sent : Bool
  pub channel_ready_received : Bool
  pub holder_shutdown_script : Option Bytes
  pub counterparty_shutdown_script : Option Bytes
  pub shutdown_sent : Bool
  pub shutdown_received : Bool
  pub last_closing_fee_proposal : Option ℕ
  pub closing_tx : Option Transaction
