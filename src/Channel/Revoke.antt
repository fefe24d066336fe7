-- ===== src/Channel/Revoke.antt =====
-- src/channel/dance.rs: `revoke_and_ack` received, and the flush of the holding cell.
use keraunos.Prelude.{
  ℕ, Bool, true, false, not, ◌&&◌, if◌then◌else◌, List, [], ◌∷◌, ◌++◌, Option, none, some, String,
  Bytes, add64, bytes_eq,
}
use keraunos.Shachain.{
  SecretStore, inserted, insert_error, out_of_range, index_for_commitment, insert,
}
use keraunos.Channel.Data.{
  Channel, Htlc, HtlcSource, Result, ok, err, panic, text, close, ignore, invalid_state, ◌>>=◌,
  ◌>>◌, deny, expect, not_yet, pending, committed, removing, gone, phase_eq, HoldingCellOp, add,
  fulfill_op, fail_op, fail_malformed_op, PendingCounterpartyCommitment, ChannelError,
}
use keraunos.Channel.Env.{Env}
use keraunos.Channel.Messages.{
  RevokeAndAck, RaaOutcome, CommittedInboundHtlc, Message, update_add_htlc, update_fulfill_htlc,
  update_fail_htlc, update_fail_malformed_htlc,
}
use keraunos.Channel.Balance.{gc_htlcs}
use keraunos.Channel.Htlcs.{is_some, update_htlc, both_committed}
use keraunos.Channel.Send.{
  send_add_htlc, send_fulfill_htlc, send_fail_htlc, send_fail_malformed_htlc,
}
use keraunos.Channel.Commit.{can_send_commitment, send_commitment_signed}

-- The body of the loop over `pending.included`.
unfoldable pub include_htlc : Bool → Htlc → Htlc
include_htlc outbound h =
    let h' =
      if phase_eq h.phase_counterparty pending
      then record h { phase_counterparty = committed }
      else h in
    if outbound && phase_eq h'.phase_holder not_yet
    then record h' { phase_holder = pending }
    else h'

-- The body of the loop over `pending.removed`.
unfoldable pub exclude_htlc : Bool → Htlc → Htlc
exclude_htlc outbound h =
    let h' =
      if phase_eq h.phase_counterparty removing
      then record h { phase_counterparty = gone }
      else h in
    if not outbound && phase_eq h'.phase_holder committed
    then record h' { phase_holder = removing }
    else h'

unfoldable pub include_htlcs : List (Bool × ℕ) → List Htlc → List Htlc
unfolding update_htlc include_htlc
include_htlcs [] hs = hs
include_htlcs ((outbound, id) ∷ ids) hs =
    include_htlcs ids (update_htlc outbound id (include_htlc outbound) hs)

unfoldable pub exclude_htlcs : List (Bool × ℕ) → List Htlc → List Htlc
unfolding update_htlc exclude_htlc
exclude_htlcs [] hs = hs
exclude_htlcs ((outbound, id) ∷ ids) hs =
    exclude_htlcs ids (update_htlc outbound id (exclude_htlc outbound) hs)

-- Does `collect_forwardable` hand this HTLC over?
unfoldable pub is_forwardable : Htlc → Bool
is_forwardable h =
    not h.outbound && (not h.processed && (not (is_some h.resolution) && both_committed h))

unfoldable pub committed_inbound : Htlc → CommittedInboundHtlc
committed_inbound h = record {
  id = h.id;
  amount_msat = h.amount_msat;
  payment_hash = h.payment_hash;
  cltv_expiry = h.cltv_expiry;
  onion = h.onion;
}

unfoldable pub forwardable_of : List Htlc → List CommittedInboundHtlc
unfolding is_forwardable committed_inbound
forwardable_of [] = []
forwardable_of (h ∷ hs) =
    if is_forwardable h then committed_inbound h ∷ forwardable_of hs else forwardable_of hs

unfoldable pub mark_processed : List Htlc → List Htlc
unfolding is_forwardable
mark_processed [] = []
mark_processed (h ∷ hs) =
    (if is_forwardable h then record h { processed = true } else h) ∷ mark_processed hs

unfoldable pub collect_forwardable : Channel → Channel × List CommittedInboundHtlc
unfolding mark_processed forwardable_of
collect_forwardable c = (record c { htlcs = mark_processed c.htlcs }, forwardable_of c.htlcs)

-- The checks of `on_revoke_and_ack`: the pending snapshot, and the store with the new secret.
unfoldable pub check_revocation :
    Env → Channel → RevokeAndAck → Result (PendingCounterpartyCommitment × SecretStore)
check_revocation env c msg = do
  deny (not c.awaiting_raa) (close (text "unexpected revoke_and_ack"))
  snapshot ← expect c.pending_counterparty_commitment
  expected_point ← expect c.counterparty_current_point
  revealed ← expect (env.secret_point msg.per_commitment_secret)
  deny (not (bytes_eq revealed expected_point))
      (close (text "revoked secret does not match per-commitment point"))
  let index = index_for_commitment c.counterparty_commitment_number
  elim (insert env.sha256 c.counterparty_secrets index msg.per_commitment_secret) [
    | insert_error ↦ err (close (text "per-commitment secret inconsistent with chain"))
    | inserted secrets ↦ ok (snapshot, secrets)
    | out_of_range ↦ panic
  ]

unfoldable pub or_current {ℓ} : {A : Type ℓ} → Option A → A → A
or_current none current = current
or_current (some new) current = new

-- Their commitment is locked: what changes before `gc_htlcs`.
unfoldable pub lock_counterparty :
    Channel → PendingCounterpartyCommitment → SecretStore → Bytes → Channel
unfolding include_htlcs exclude_htlcs or_current
lock_counterparty c snapshot secrets next_point = record c {
  counterparty_secrets = secrets;
  counterparty_commitment_number = add64 c.counterparty_commitment_number 1;
  counterparty_current_point = c.counterparty_next_point;
  counterparty_next_point = some next_point;
  current_counterparty_commitment = some snapshot.info;
  pending_counterparty_commitment = none;
  awaiting_raa = false;
  htlcs = exclude_htlcs snapshot.removed (include_htlcs snapshot.included c.htlcs);
  feerate_holder = or_current snapshot.fee_update c.feerate_holder;
}

abbrev pub with_message : RaaOutcome → Message → RaaOutcome
with_message out m = record out { messages = out.messages ++ m ∷ [] }

abbrev pub with_failed : RaaOutcome → HtlcSource → String → RaaOutcome
with_failed out source why = record out { failed_adds = out.failed_adds ++ (source, why) ∷ [] }

-- `Err(InvalidState(_)) | Err(Ignore(_)) => {}`
unfoldable pub tolerate : ChannelError → RaaOutcome → Result RaaOutcome
tolerate (close e) out = err (close e)
tolerate (ignore e) out = ok out
tolerate (invalid_state e) out = ok out

-- The answer of a resolution in the flush: its message, `unreachable!`, or an error to tolerate.
unfoldable pub flushed {ℓ} :
    {A : Type ℓ}
    → RaaOutcome
    → (A → Message)
    → Channel × Result (Option A)
    → Channel × Result RaaOutcome
unfolding tolerate
flushed out f (c, ok (some msg)) = (c, ok (with_message out (f msg)))
flushed out f (c, ok none) = (c, panic)
flushed out f (c, err e) = (c, tolerate e out)
flushed out f (c, panic) = (c, panic)

unfoldable pub flushed_add {ℓ} :
    {A : Type ℓ}
    → RaaOutcome
    → HtlcSource
    → (A → Message)
    → Channel × Result (Option A)
    → Channel × Result RaaOutcome
flushed_add out source f (c, ok (some msg)) = (c, ok (with_message out (f msg)))
flushed_add out source f (c, ok none) = (c, panic)
flushed_add out source f (c, err (ignore e)) =
    (c, ok (with_failed out source "no longer routable on flush"))
flushed_add out source f (c, err (close e)) = (c, err (close e))
flushed_add out source f (c, err (invalid_state e)) = (c, err (invalid_state e))
flushed_add out source f (c, panic) = (c, panic)

unfoldable pub flush_op : Env → Channel → HoldingCellOp → RaaOutcome → Channel × Result RaaOutcome
unfolding flushed flushed_add
flush_op env c (add amount_msat payment_hash cltv_expiry onion source) out =
    flushed_add out source update_add_htlc
      (send_add_htlc c amount_msat payment_hash cltv_expiry onion source)
flush_op env c (fulfill_op id preimage) out =
    flushed out update_fulfill_htlc (send_fulfill_htlc env c id preimage)
flush_op env c (fail_op id reason) out = flushed out update_fail_htlc (send_fail_htlc c id reason)
flush_op env c (fail_malformed_op id sha256_of_onion failure_code) out =
    flushed out update_fail_malformed_htlc
      (send_fail_malformed_htlc c id sha256_of_onion failure_code)

unfoldable pub flush_ops :
    Env → Channel → List HoldingCellOp → RaaOutcome → Channel × Result RaaOutcome
unfolding flush_op
flush_ops env c [] out = (c, ok out)
flush_ops env c (op ∷ ops) out =
    let (c', r) = flush_op env c op out in
    elim r [ ok out' ↦ flush_ops env c' ops out' | err e ↦ (c', err e) | panic ↦ (c', panic) ]

-- The last step: sign for what the flush, or anything before it, left to sign.
unfoldable pub sign_flushed : Env → Channel × Result RaaOutcome → Channel × Result RaaOutcome
unfolding can_send_commitment send_commitment_signed
sign_flushed env (c, err e) = (c, err e)
sign_flushed env (c, panic) = (c, panic)
sign_flushed env (c, ok out) =
    if can_send_commitment c
    then (let (c', r) = send_commitment_signed env c in
        (c', r >>= λ msg. ok (record out { commitment_signed = some msg })))
    else (c, ok out)

abbrev pub empty_outcome : List CommittedInboundHtlc → RaaOutcome
empty_outcome forwardable = record {
  messages = [];
  commitment_signed = none;
  forwardable = forwardable;
  failed_adds = [];
}

unfoldable pub flush_cell : Env → Channel → List CommittedInboundHtlc → Channel × Result RaaOutcome
unfolding flush_ops sign_flushed
flush_cell env c forwardable =
    sign_flushed env
      (flush_ops env (record c { holding_cell = [] }) c.holding_cell (empty_outcome forwardable))

unfoldable pub on_revoke_and_ack : Env → Channel → RevokeAndAck → Channel × Result RaaOutcome
unfolding check_revocation lock_counterparty gc_htlcs collect_forwardable flush_cell
on_revoke_and_ack env c msg = elim (check_revocation env c msg) [
  | err e ↦ (c, err e)
  | panic ↦ (c, panic)
  | ok (snapshot, secrets) ↦
      let (c', forwardable) =
        collect_forwardable
          (gc_htlcs (lock_counterparty c snapshot secrets msg.next_per_commitment_point)) in
      flush_cell env c' forwardable
]
