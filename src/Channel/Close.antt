-- ===== src/Channel/Close.antt =====
-- src/channel/close.rs: cooperative close.
pub mod Negotiate
pub mod Sound
pub mod InRange
pub mod Agreement
pub mod Exchange
pub mod Examples
use keraunos.Prelude.{
  ℕ, ◌+◌, ◌-◌, ◌/◌, ◌%◌, Bool, true, false, not, ◌&&◌, ◌||◌, ◌==◌, ltb, leb, min, max,
  if◌then◌else◌, List, [], ◌∷◌, Option, none, some, Bytes, mul64, u64_mod,
}
use keraunos.Types.{FeeRatePerKw, fee_for_weight, to_sat_floor}
use keraunos.Bitcoin.Script.{is_witness_program}
use keraunos.Commitment.{Transaction, TxIn, TxOut}
use keraunos.Commitment.Build.{build_closing_tx}
use keraunos.Commitment.Witness.{funding_spend_witness}
use keraunos.Channel.Data.{
  Channel, ChannelState, normal, awaiting_channel_ready, shutting_down, negotiating_close, closed,
  opener, accepter, is_opener, Htlc, HoldingCellOp, Result, ok, err, panic, text, close, ignore,
  invalid_state, ◌>>=◌, ◌>>◌, deny, ok_or,
}
use keraunos.Channel.Env.{Env}
use keraunos.Wire.Msgs.Data.{Shutdown, ClosingSigned, ClosingSignedFeeRange}
use keraunos.Channel.Balance.{balances_for}
use keraunos.Channel.Build.{counterparty, funding_sighash}

abbrev pub closing_tx_weight_bound : ℕ
closing_tx_weight_bound = 714

-- `Normal | AwaitingChannelReady | ShuttingDown`
abbrev pub may_shut_down : ChannelState → Bool
may_shut_down normal = true
may_shut_down awaiting_channel_ready = true
may_shut_down shutting_down = true
may_shut_down _ = false

-- `if self.state == Normal { self.state = ShuttingDown }`
abbrev pub shut_down_normal : ChannelState → ChannelState
shut_down_normal normal = shutting_down
shut_down_normal state = state

-- `if matches!(self.state, Normal | AwaitingChannelReady) { self.state = ShuttingDown }`
abbrev pub shut_down_open : ChannelState → ChannelState
shut_down_open normal = shutting_down
shut_down_open awaiting_channel_ready = shutting_down
shut_down_open state = state

unfoldable pub send_shutdown : Channel → Bytes → Channel × Result Shutdown
unfolding is_witness_program
send_shutdown c script =
    if not (may_shut_down c.state)
    then (c, err (invalid_state (text "shutdown in wrong state")))
    else if c.shutdown_sent
    then (c, err (invalid_state (text "shutdown already sent")))
    else if not (is_witness_program script)
    then (c, err (invalid_state (text "shutdown script must be a witness program")))
    else (
      record c {
        holder_shutdown_script = some script;
        shutdown_sent = true;
        state = shut_down_normal c.state;
      },
      ok (record { channel_id = c.channel_id; scriptpubkey = script }),
    )

-- The reply, once the peer's script is stored.
unfoldable pub reciprocate : Channel → Bytes → Channel × Result (Option Shutdown)
unfolding send_shutdown
reciprocate c our_script =
    if c.shutdown_sent
    then (c, ok none)
    else (let (c', r) = send_shutdown c our_script in (c', r >>= λ msg. ok (some msg)))

unfoldable pub on_shutdown : Channel → Shutdown → Bytes → Channel × Result (Option Shutdown)
unfolding reciprocate is_witness_program
on_shutdown c msg our_script =
    if not (may_shut_down c.state)
    then (c, err (close (text "shutdown in wrong state")))
    else if not (is_witness_program msg.scriptpubkey)
    then (c, err (close (text "shutdown script is not a witness program")))
    else reciprocate
        (record c {
          counterparty_shutdown_script = some msg.scriptpubkey;
          shutdown_received = true;
          state = shut_down_open c.state;
        })
        our_script

abbrev pub is_closing : ChannelState → Bool
is_closing shutting_down = true
is_closing negotiating_close = true
is_closing _ = false

abbrev pub no_htlcs : List Htlc → Bool
no_htlcs [] = true
no_htlcs (h ∷ hs) = false

abbrev pub no_ops : List HoldingCellOp → Bool
no_ops [] = true
no_ops (op ∷ ops) = false

unfoldable pub ready_to_negotiate_close : Channel → Bool
ready_to_negotiate_close c =
    is_closing c.state
    && (c.shutdown_sent
        && (c.shutdown_received
            && (no_htlcs c.htlcs
                && (not c.awaiting_raa && (not c.counterparty_dirty && no_ops c.holding_cell)))))

-- `clamp` panics if its bounds are the wrong way round.
unfoldable pub clamp : ℕ → ℕ → ℕ → Result ℕ
clamp fee lo hi = if ltb hi lo then panic else ok (min (max fee lo) hi)

unfoldable pub closing_fee_bounds : Channel → FeeRatePerKw → Result (ℕ × ℕ × ℕ)
unfolding fee_for_weight balances_for to_sat_floor clamp
closing_fee_bounds c target_feerate =
    let fee = fee_for_weight target_feerate closing_tx_weight_bound in
    let lo = fee_for_weight 253 closing_tx_weight_bound in
    let funder_balance =
      if is_opener c.role then to_sat_floor (balances_for c true).0 else u64_mod - 1 in
    let hi = min (mul64 fee 2) funder_balance in (clamp fee lo hi >>= λ ours. ok (ours, lo, hi))

abbrev pub no_outputs : List TxOut → Bool
no_outputs [] = true
no_outputs (o ∷ os) = false

-- The transaction that `build_and_sign_closing` signs.
unfoldable pub closing_tx_at : Channel → ℕ → Result Transaction
unfolding balances_for to_sat_floor build_closing_tx
closing_tx_at c fee_sat = do
  holder_script ← ok_or c.holder_shutdown_script (invalid_state (text "no holder shutdown script"))
  counterparty_script ←
      ok_or c.counterparty_shutdown_script (invalid_state (text "no counterparty shutdown script"))
  funding ← ok_or c.funding_outpoint (invalid_state (text "no funding outpoint"))
  let to_holder = to_sat_floor (balances_for c true).0
  let to_counterparty = to_sat_floor (balances_for c true).1
  let holder_sat = if is_opener c.role then to_holder - fee_sat else to_holder
  let counterparty_sat = if is_opener c.role then to_counterparty else to_counterparty - fee_sat
  let tx =
      build_closing_tx funding holder_sat counterparty_sat holder_script counterparty_script
        (max c.params.holder_dust_limit_sat 546)
  deny (no_outputs tx.output) (invalid_state (text "closing tx would have no outputs"))
  ok tx

module _ (env : Env) where
  unfoldable pub build_and_sign_closing : Channel → ℕ → Result (Transaction × Bytes)
  unfolding closing_tx_at funding_sighash
  build_and_sign_closing c fee_sat = do
    tx ← closing_tx_at c fee_sat
    sighash ← funding_sighash env c tx
    ok (tx, env.sign_with_funding_key sighash)

  unfoldable pub verify_their_closing_sig : Channel → ℕ → Bytes → Result Transaction
  unfolding build_and_sign_closing counterparty funding_sighash
  verify_their_closing_sig c fee_sat sig = do
    (tx, ours) ← build_and_sign_closing c fee_sat
    cp ← counterparty c
    sighash ← funding_sighash env c tx
    if env.verify_ecdsa sighash sig cp.funding_pubkey
        then ok tx
        else err (close (text "invalid closing signature"))

  -- `tx.input[0].witness = …`
  unfoldable pub set_witness : Transaction → List Bytes → Result Transaction
  set_witness tx witness = elim tx.input [
    | [] ↦ panic
    | i ∷ is ↦ ok (record tx { input = record i { witness = witness } ∷ is })
  ]

  unfoldable pub signed_closing_tx : Channel → ℕ → Bytes → Result Transaction
  unfolding build_and_sign_closing counterparty funding_spend_witness set_witness
  signed_closing_tx c fee_sat their_sig = do
    (tx, our_sig) ← build_and_sign_closing c fee_sat
    cp ← counterparty c
    set_witness tx (
        funding_spend_witness env.serialize_der c.holder_pubkeys.funding_pubkey cp.funding_pubkey
          our_sig their_sig)

  unfoldable pub finalize_closing : Channel → ℕ → Bytes → Channel × Result Transaction
  unfolding signed_closing_tx
  finalize_closing c fee_sat their_sig = elim (signed_closing_tx c fee_sat their_sig) [
    | ok tx ↦ (record c { closing_tx = some tx; state = closed }, ok tx)
    | err e ↦ (c, err e)
    | panic ↦ (c, panic)
  ]
