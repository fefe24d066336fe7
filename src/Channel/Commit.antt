-- ===== src/Channel/Commit.antt =====
-- src/channel/dance.rs: `commitment_signed`, sent and received.
use keraunos.Prelude.{
  ℕ, Bool, true, false, not, ◌&&◌, ◌||◌, ◌==◌, if◌then◌else◌, List, [], ◌∷◌, map, Option, none,
  some, Bytes, keep, length, add64, sub64, get_elem?,
}
use keraunos.Types.{FeeRatePerKw, to_sat_floor}
use keraunos.Commitment.{BuiltCommitmentTx, TxCreationKeys, HtlcOutputInCommitment}
use keraunos.Channel.Data.{
  Channel, Htlc, HtlcPhase, Result, ok, err, panic, text, format, close, invalid_state, ◌>>=◌, ◌>>◌,
  deny, ok_or, expect, not_yet, pending, committed, removing, gone, phase_eq, is_operating,
  is_opener, HolderCommitment, PendingCounterpartyCommitment,
}
use keraunos.Channel.Env.{Env}
use keraunos.Channel.Messages.{CommitmentSigned, RevokeAndAck}
use keraunos.Channel.Balance.{gc_htlcs}
use keraunos.Channel.Build.{
  build_holder_commitment_at, build_counterparty_commitment_at, counterparty_info_from_built,
  sign_counterparty_commitment_tx, verify_counterparty_funding_sig,
}
use keraunos.Channel.Htlcs.{is_some}

unfoldable pub can_send_commitment : Channel → Bool
can_send_commitment c =
    c.counterparty_dirty
    && (not c.awaiting_raa && (is_some c.counterparty_next_point && is_operating c.state))

-- The digest that a second-stage signature is over, for one entry of `htlcs_in_output_order`. An
-- index out of range and an HTLC with no output panic.
unfoldable pub htlc_sighash :
    Env
    → BuiltCommitmentTx
    → TxCreationKeys
    → List HtlcOutputInCommitment
    → ℕ
    → FeeRatePerKw
    → ℕ × Bytes
    → Result Bytes
htlc_sighash env built keys htlcs delay feerate (htlc_idx, witness_script) = do
  htlc ← expect (get_elem? htlcs htlc_idx)
  index ← expect (get_elem? built.htlc_output_indices htlc_idx)
  vout ← expect index
  let htlc_tx = env.build_htlc_tx built.txid vout htlc keys delay feerate
  ok (env.segwit_v0_sighash htlc_tx witness_script (to_sat_floor htlc.amount_msat))

module _ (env : Env) (built : BuiltCommitmentTx) (keys : TxCreationKeys)
    (htlcs : List HtlcOutputInCommitment) (delay : ℕ) (feerate : FeeRatePerKw) where
  -- The loop of `send_commitment_signed` over `htlcs_in_output_order`.
  unfoldable pub sign_htlcs : Bytes → List (ℕ × Bytes) → Result (List Bytes)
  unfolding htlc_sighash
  sign_htlcs point [] = ok []
  sign_htlcs point (entry ∷ rest) = do
    sighash ← htlc_sighash env built keys htlcs delay feerate entry
    sigs ← sign_htlcs point rest
    ok (env.sign_htlc sighash point ∷ sigs)

  -- The loop of `on_commitment_signed` over the signatures, zipped with the outputs.
  unfoldable pub verify_htlc_sigs : List Bytes → List (ℕ × Bytes) → Result (Unit {0})
  unfolding htlc_sighash
  verify_htlc_sigs [] entries = ok tt
  verify_htlc_sigs (sig ∷ sigs) [] = ok tt
  verify_htlc_sigs (sig ∷ sigs) (entry ∷ rest) = do
    sighash ← htlc_sighash env built keys htlcs delay feerate entry
    deny (not (env.verify_ecdsa sighash sig keys.countersignatory_htlc_key))
        (close (text "invalid htlc signature"))
    verify_htlc_sigs sigs rest

-- The (outbound, id) of the HTLCs in a phase on their side.
unfoldable pub ids_in : HtlcPhase → List Htlc → List (Bool × ℕ)
ids_in phase hs = map (λ h. (h.outbound, h.id)) (keep (λ h. phase_eq h.phase_counterparty phase) hs)

unfoldable pub fee_update_of : Channel → Option FeeRatePerKw
fee_update_of c =
    if not (c.feerate_holder == c.feerate_counterparty) && is_opener c.role
    then some c.feerate_counterparty
    else none

-- What `send_commitment_signed` computes before it changes the channel.
unfoldable pub sign_next : Env → Channel → Result (CommitmentSigned × PendingCounterpartyCommitment)
unfolding sign_htlcs ids_in fee_update_of
sign_next env c = do
  deny c.awaiting_raa (invalid_state (text "commitment already in flight"))
  deny (not c.counterparty_dirty) (invalid_state (text "no changes to sign"))
  let number = add64 c.counterparty_commitment_number 1
  point ← ok_or c.counterparty_next_point (invalid_state (text "next per-commitment point unknown"))
  (built, keys, htlcs) ← build_counterparty_commitment_at env c number point
  signature ← sign_counterparty_commitment_tx env c built
  htlc_signatures ←
      sign_htlcs env built keys htlcs c.params.holder_selected_delay c.feerate_counterparty point
        built.htlcs_in_output_order
  ok (
    record { channel_id = c.channel_id; signature = signature; htlc_signatures = htlc_signatures },
    record {
      info = counterparty_info_from_built c number point built htlcs;
      included = ids_in pending c.htlcs;
      removed = ids_in removing c.htlcs;
      fee_update = fee_update_of c;
    },
  )

unfoldable pub send_commitment_signed : Env → Channel → Channel × Result CommitmentSigned
send_commitment_signed env c = elim (sign_next env c) [
  | err e ↦ (c, err e)
  | panic ↦ (c, panic)
  | ok (msg, snapshot) ↦ (
    record c {
      pending_counterparty_commitment = some snapshot;
      awaiting_raa = true;
      counterparty_dirty = false;
    },
    ok msg,
  )
]

-- The first loop over the HTLCs in `on_commitment_signed`: our side's phase.
unfoldable pub lock_holder : HtlcPhase → HtlcPhase
lock_holder pending = committed
lock_holder removing = gone
lock_holder phase = phase

-- The second loop: their adds may enter their commitment, and their removals are acknowledged.
unfoldable pub acks_add : Htlc → Bool
acks_add h =
    not h.outbound && (phase_eq h.phase_counterparty not_yet && phase_eq h.phase_holder committed)

unfoldable pub acks_removal : Htlc → Bool
acks_removal h =
    h.outbound
    && (is_some h.resolution
        && (phase_eq h.phase_holder gone && phase_eq h.phase_counterparty committed))

unfoldable pub acknowledge : Htlc → Htlc
unfolding acks_add acks_removal
acknowledge h =
    let h' = if acks_add h then record h { phase_counterparty = pending } else h in
    if acks_removal h' then record h' { phase_counterparty = removing } else h'

unfoldable pub lock_htlc : Htlc → Htlc
unfolding lock_holder
lock_htlc h = record h { phase_holder = lock_holder h.phase_holder }

unfoldable pub any_acked : List Htlc → Bool
unfolding acks_add acks_removal
any_acked [] = false
any_acked (h ∷ hs) = acks_add h || acks_removal h || any_acked hs

unfoldable pub lock_htlcs : List Htlc → List Htlc
unfolding lock_htlc
lock_htlcs [] = []
lock_htlcs (h ∷ hs) = lock_htlc h ∷ lock_htlcs hs

unfoldable pub acknowledge_htlcs : List Htlc → List Htlc
unfolding acknowledge
acknowledge_htlcs [] = []
acknowledge_htlcs (h ∷ hs) = acknowledge h ∷ acknowledge_htlcs hs

-- What `on_commitment_signed` checks and builds before it changes the channel.
unfoldable pub verify_next : Env → Channel → CommitmentSigned → Result HolderCommitment
unfolding verify_htlc_sigs
verify_next env c msg = do
  deny (not (is_operating c.state)) (close (text "commitment_signed outside normal operation"))
  let number = add64 c.holder_commitment_number 1
  (built, keys, htlcs) ← build_holder_commitment_at env c number
  verify_counterparty_funding_sig env c built msg.signature
  deny (not (length msg.htlc_signatures == length built.htlcs_in_output_order)) (
      close (
        format "expected {} htlc signatures, got {}"
          (length built.htlcs_in_output_order ∷ length msg.htlc_signatures ∷ [])))
  verify_htlc_sigs env built keys htlcs c.params.counterparty_selected_delay c.feerate_holder
      msg.htlc_signatures built.htlcs_in_output_order
  ok (record {
    number = number;
    built = built;
    counterparty_sig = msg.signature;
    counterparty_htlc_sigs = msg.htlc_signatures;
    htlcs = htlcs;
    keys = keys;
    feerate = c.feerate_holder;
  })

-- `if let Some(fee) = self.pending_fee_ack.take()`
unfoldable pub ack_fee : Option FeeRatePerKw → FeeRatePerKw → FeeRatePerKw
ack_fee none current = current
ack_fee (some fee) current = fee

-- The changes that `on_commitment_signed` makes before `gc_htlcs`.
unfoldable pub accept_commitment : Channel → HolderCommitment → Channel
unfolding lock_htlcs acknowledge_htlcs any_acked ack_fee
accept_commitment c hc =
    let locked = lock_htlcs c.htlcs in
    record c {
      current_holder_commitment = some hc;
      holder_commitment_number = hc.number;
      htlcs = acknowledge_htlcs locked;
      feerate_counterparty = ack_fee c.pending_fee_ack c.feerate_counterparty;
      pending_fee_ack = none;
      counterparty_dirty = any_acked locked || is_some c.pending_fee_ack || c.counterparty_dirty;
    }

unfoldable pub on_commitment_signed :
    Env → Channel → CommitmentSigned → Channel × Result RevokeAndAck
unfolding accept_commitment gc_htlcs
on_commitment_signed env c msg = elim (verify_next env c msg) [
  | err e ↦ (c, err e)
  | panic ↦ (c, panic)
  | ok hc ↦ (
    gc_htlcs (accept_commitment c hc),
    ok (record {
      channel_id = c.channel_id;
      per_commitment_secret = env.release_commitment_secret (sub64 hc.number 1);
      next_per_commitment_point = env.per_commitment_point (add64 hc.number 1);
    }),
  )
]
