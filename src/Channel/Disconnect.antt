-- ===== src/Channel/Disconnect.antt =====
-- src/channel/reestablish.rs: `on_disconnect`.
use keraunos.Prelude.{
  ℕ, Bool, false, not, ◌&&◌, ◌||◌, ◌==◌, if◌then◌else◌, min, List, [], ◌∷◌, ◌++◌, Option, none,
  some, bytes_eq,
}
use keraunos.Commitment.{HtlcOutputInCommitment}
use keraunos.Channel.Data.{
  Channel, Htlc, HtlcResolution, fulfill, fail, fail_malformed, HoldingCellOp, add, fulfill_op,
  fail_op, not_yet, pending, committed, removing, phase_eq, Result, ok, ◌>>=◌, expect,
  HolderCommitment, PendingCounterpartyCommitment,
}
use keraunos.Channel.Htlcs.{bool_eq, is_some}

-- `in_flight.contains(&(h.outbound, h.id))`
unfoldable pub names_htlc : List (Bool × ℕ) → Htlc → Bool
names_htlc [] h = false
names_htlc ((outbound, id) ∷ ids) h =
    (bool_eq outbound h.outbound && id == h.id) || names_htlc ids h

unfoldable pub included_of : Option PendingCounterpartyCommitment → List (Bool × ℕ)
included_of none = []
included_of (some snapshot) = snapshot.included

unfoldable pub removed_in : Option PendingCounterpartyCommitment → List (Bool × ℕ)
removed_in none = []
removed_in (some snapshot) = snapshot.removed

-- Our fulfil or fail, to be sent again; other resolutions are not put back.
unfoldable pub requeue_removal : ℕ → Option HtlcResolution → List HoldingCellOp
requeue_removal id none = []
requeue_removal id (some (fulfill preimage)) = fulfill_op id preimage ∷ []
requeue_removal id (some (fail reason)) = fail_op id reason ∷ []
requeue_removal id (some (fail_malformed sha code)) = []

-- Removals that are not signed for.
unfoldable pub roll_back_removal : List (Bool × ℕ) → Htlc → Htlc × List HoldingCellOp
unfolding names_htlc requeue_removal
roll_back_removal removed h =
    if phase_eq h.phase_counterparty removing && not (names_htlc removed h)
    then (if not h.outbound
        then (
          record h { resolution = none; phase_counterparty = committed },
          requeue_removal h.id h.resolution,
        )
        else (
          record h { resolution = none; phase_counterparty = committed; phase_holder = committed },
          [],
        ))
    else (h, [])

-- Is the HTLC among those of our current commitment?
unfoldable pub any_matching : Htlc → List HtlcOutputInCommitment → Bool
any_matching h [] = false
any_matching h (x ∷ xs) =
    (not x.offered
      && (bytes_eq x.payment_hash h.payment_hash
          && (x.amount_msat == h.amount_msat && x.cltv_expiry == h.cltv_expiry)))
    || any_matching h xs

unfoldable pub in_our_current : Option HolderCommitment → Htlc → Bool
unfolding any_matching
in_our_current none h = false
in_our_current (some hc) h = any_matching h hc.htlcs

unfoldable pub roll_back_their_removal : Htlc → Htlc
roll_back_their_removal h =
    if h.outbound && phase_eq h.phase_holder removing
    then record h { resolution = none; phase_holder = committed }
    else h

unfoldable pub unacknowledge : Bool → Htlc → Htlc
unacknowledge snapshotted h =
    if phase_eq h.phase_counterparty pending && (not h.outbound && not snapshotted)
    then record h { phase_counterparty = not_yet }
    else h

-- What `retain_mut` does with an HTLC: whether it stays and how, what is queued, and the peer's next
-- HTLC number.
abbrev pub Retained : Type 0
Retained = Option Htlc × List HoldingCellOp × ℕ

unfoldable pub retain_unsigned : Channel → Htlc → ℕ → Result Retained
unfolding names_htlc roll_back_removal in_our_current roll_back_their_removal unacknowledge
    included_of removed_in
retain_unsigned c h next_id =
    let snapshotted = names_htlc (included_of c.pending_counterparty_commitment) h in
    let (h', ops) =
      roll_back_removal (removed_in c.pending_counterparty_commitment)
        (unacknowledge snapshotted h) in
    if phase_eq h.phase_counterparty pending && (h.outbound && not snapshotted)
    then (expect h.source >>= λ source.
        ok (none, add h.amount_msat h.payment_hash h.cltv_expiry h.onion source ∷ [], next_id))
    else if not h'.outbound
        && (phase_eq h'.phase_holder pending && not (in_our_current c.current_holder_commitment h'))
    then ok (none, ops, min next_id h'.id)
    else ok (some (roll_back_their_removal h'), ops, next_id)

abbrev pub keep_some : Option Htlc → List Htlc → List Htlc
keep_some none hs = hs
keep_some (some h) hs = h ∷ hs

unfoldable pub retain_all : Channel → List Htlc → ℕ → Result (List Htlc × List HoldingCellOp × ℕ)
unfolding retain_unsigned
retain_all c [] next_id = ok ([], [], next_id)
retain_all c (h ∷ hs) next_id = do
  (kept, ops, next_id') ← retain_unsigned c h next_id
  (rest, more, last_id) ← retain_all c hs next_id'
  ok (keep_some kept rest, ops ++ more, last_id)

unfoldable pub on_disconnect : Channel → Result Channel
unfolding retain_all
on_disconnect c = do
  (kept, requeue, next_id) ← retain_all c c.htlcs c.next_counterparty_htlc_id
  ok (record c {
    htlcs = kept;
    next_counterparty_htlc_id = next_id;
    holding_cell = requeue ++ c.holding_cell;
    pending_fee_ack = none;
    feerate_holder = if is_some c.pending_fee_ack then c.feerate_counterparty else c.feerate_holder;
  })
