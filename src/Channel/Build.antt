-- ===== src/Channel/Build.antt =====
-- src/channel/mod.rs: building, signing and verifying commitments.
use keraunos.Prelude.{
  ℕ, ◌+◌, Bool, true, false, not, if◌then◌else◌, List, [], ◌∷◌, map, Option, none, some, Bytes,
  keep, get_elem?,
}
use keraunos.Commitment.{
  ChannelPublicKeys, TxCreationKeys, HtlcOutputInCommitment, BuiltCommitmentTx, Transaction,
  OutPoint, CommitmentTxParams,
}
use keraunos.Channel.Data.{
  Channel, Htlc, Result, ok, err, text, close, invalid_state, ◌>>=◌, ok_or, included,
  CounterpartyCommitmentInfo, is_opener, is_accepter,
}
use keraunos.Channel.Env.{Env}
use keraunos.Channel.Balance.{balances_for}

unfoldable pub counterparty : Channel → Result ChannelPublicKeys
counterparty c =
    ok_or c.counterparty_pubkeys (invalid_state (text "counterparty keys not yet known"))

unfoldable pub htlc_in_commitment : Bool → Htlc → HtlcOutputInCommitment
htlc_in_commitment holder_view h = record {
  offered = if holder_view then h.outbound else not h.outbound;
  amount_msat = h.amount_msat;
  cltv_expiry = h.cltv_expiry;
  payment_hash = h.payment_hash;
}

abbrev pub Built : Type 0
Built = BuiltCommitmentTx × TxCreationKeys × List HtlcOutputInCommitment

unfoldable pub holder_htlcs : Channel → List HtlcOutputInCommitment
unfolding htlc_in_commitment included
holder_htlcs c = map (htlc_in_commitment true) (keep (λ h. included h.phase_holder) c.htlcs)

unfoldable pub counterparty_htlcs : Channel → List HtlcOutputInCommitment
unfolding htlc_in_commitment included
counterparty_htlcs c =
    map (htlc_in_commitment false) (keep (λ h. included h.phase_counterparty) c.htlcs)

-- The parameters of our commitment, given their keys and the funding outpoint.
unfoldable pub holder_params : Env → Channel → ℕ → ChannelPublicKeys → OutPoint → CommitmentTxParams
unfolding holder_htlcs
holder_params env c number cp outpoint =
    let bal = balances_for c true in
    record {
      funding_outpoint = outpoint;
      commitment_number = number;
      obscure_factor = c.obscure_factor;
      broadcaster_pays_fee = is_opener c.role;
      feerate = c.feerate_holder;
      broadcaster_dust_limit_sat = c.params.holder_dust_limit_sat;
      to_self_delay = c.params.counterparty_selected_delay;
      keys = env.derive_keys (env.per_commitment_point number) c.holder_pubkeys cp;
      countersignatory_payment_basepoint = cp.payment_basepoint;
      to_broadcaster_msat = bal.0;
      to_countersignatory_msat = bal.1;
      htlcs = holder_htlcs c;
    }

unfoldable pub counterparty_params :
    Env → Channel → ℕ → Bytes → ChannelPublicKeys → OutPoint → CommitmentTxParams
unfolding counterparty_htlcs
counterparty_params env c number point cp outpoint =
    let bal = balances_for c false in
    record {
      funding_outpoint = outpoint;
      commitment_number = number;
      obscure_factor = c.obscure_factor;
      broadcaster_pays_fee = is_accepter c.role;
      feerate = c.feerate_counterparty;
      broadcaster_dust_limit_sat = c.params.counterparty_dust_limit_sat;
      to_self_delay = c.params.holder_selected_delay;
      keys = env.derive_keys point cp c.holder_pubkeys;
      countersignatory_payment_basepoint = c.holder_pubkeys.payment_basepoint;
      to_broadcaster_msat = bal.1;
      to_countersignatory_msat = bal.0;
      htlcs = counterparty_htlcs c;
    }

abbrev pub build : Env → CommitmentTxParams → Built
build env p = (env.build_commitment_tx p, p.keys, p.htlcs)

unfoldable pub build_holder_commitment_at : Env → Channel → ℕ → Result Built
unfolding counterparty holder_params
build_holder_commitment_at env c number = do
  cp ← counterparty c
  outpoint ← ok_or c.funding_outpoint (invalid_state (text "no funding outpoint"))
  ok (build env (holder_params env c number cp outpoint))

unfoldable pub build_counterparty_commitment_at : Env → Channel → ℕ → Bytes → Result Built
unfolding counterparty counterparty_params
build_counterparty_commitment_at env c number point = do
  cp ← counterparty c
  outpoint ← ok_or c.funding_outpoint (invalid_state (text "no funding outpoint"))
  ok (build env (counterparty_params env c number point cp outpoint))

-- `built.htlc_output_indices.get(i).copied().flatten()` for each HTLC, from index `i` on.
unfoldable pub with_indices :
    List (Option ℕ) → ℕ → List HtlcOutputInCommitment → List (HtlcOutputInCommitment × Option ℕ)
with_indices indices i [] = []
with_indices indices i (h ∷ hs) =
    (h, elim (get_elem? indices i) [ some vout ↦ vout | none ↦ none ])
    ∷ with_indices indices (i + 1) hs

unfoldable pub counterparty_info_from_built :
    Channel
    → ℕ
    → Bytes
    → BuiltCommitmentTx
    → List HtlcOutputInCommitment
    → CounterpartyCommitmentInfo
unfolding with_indices
counterparty_info_from_built c number point built htlcs =
    let bal = balances_for c false in
    record {
      number = number;
      txid = built.txid;
      per_commitment_point = point;
      htlcs = with_indices built.htlc_output_indices 0 htlcs;
      to_holder_msat = bal.0;
      to_counterparty_msat = bal.1;
      feerate = c.feerate_counterparty;
    }

unfoldable pub funding_sighash : Env → Channel → Transaction → Result Bytes
unfolding counterparty
funding_sighash env c tx = do
  cp ← counterparty c
  let redeem = env.funding_redeemscript c.holder_pubkeys.funding_pubkey cp.funding_pubkey
  ok (env.segwit_v0_sighash tx redeem c.funding_amount_sat)

unfoldable pub sign_counterparty_commitment_tx : Env → Channel → BuiltCommitmentTx → Result Bytes
unfolding funding_sighash
sign_counterparty_commitment_tx env c built = do
  sighash ← funding_sighash env c built.tx
  ok (env.sign_with_funding_key sighash)

unfoldable pub verify_counterparty_funding_sig :
    Env → Channel → BuiltCommitmentTx → Bytes → Result (Unit {0})
unfolding counterparty funding_sighash
verify_counterparty_funding_sig env c built sig = do
  cp ← counterparty c
  sighash ← funding_sighash env c built.tx
  if env.verify_ecdsa sighash sig cp.funding_pubkey
      then ok tt
      else err (close (text "invalid commitment signature"))
