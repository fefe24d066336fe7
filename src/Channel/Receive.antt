-- ===== src/Channel/Receive.antt =====
-- src/channel/dance.rs: the updates that we receive.
use keraunos.Prelude.{
  ℕ, ◌+◌, ◌/◌, ◌%◌, ◌^◌, Bool, true, false, not, ◌||◌, ◌==◌, ltb, leb, if◌then◌else◌, [], ◌∷◌, ◌++◌,
  none, some, keep, length, add64, bytes_eq,
}
use keraunos.Types.{Msat, from_sat}
use keraunos.Channel.Data.{
  Channel, Htlc, HtlcSource, HtlcResolution, Result, ok, err, panic, text, format, close, ◌>>=◌,
  ◌>>◌, deny, expect, fulfill, fail, fail_malformed, not_yet, pending, removing, included,
  is_normal, is_opener, is_accepter,
}
use keraunos.Channel.Env.{Env}
use keraunos.Channel.Messages.{
  UpdateAddHtlc, UpdateFulfillHtlc, UpdateFailHtlc, UpdateFailMalformedHtlc, UpdateFee,
}
use keraunos.Channel.Balance.{balances_for}
use keraunos.Channel.Htlcs.{
  outbound_committed, update_htlc, live, amounts, commitment_fee, count_u16, cltv_limit,
}

-- What their balance on our commitment must cover after the add.
unfoldable pub inbound_needed : Channel → Msat → Msat
unfolding included
inbound_needed c amount_msat =
    let needed = add64 amount_msat (from_sat c.params.holder_selected_reserve_sat) in
    let untrimmed = length (keep (λ h. included h.phase_holder) c.htlcs) in
    if is_accepter c.role
    then add64 needed (from_sat (commitment_fee c.feerate_holder (untrimmed + 1)))
    else needed

-- The checks of `on_update_add_htlc`, in its order.
unfoldable pub validate_inbound_add : Channel → UpdateAddHtlc → Result (Unit {0})
validate_inbound_add c msg = do
  deny (not (is_normal c.state)) (close (text "update_add_htlc outside normal operation"))
  deny (c.shutdown_sent || c.shutdown_received) (close (text "update_add_htlc during shutdown"))
  deny (not (msg.id == c.next_counterparty_htlc_id)) (
      close (
        format "non-sequential htlc id {} (expected {})"
          (msg.id ∷ c.next_counterparty_htlc_id ∷ [])))
  deny (msg.amount_msat == 0) (close (text "zero-amount HTLC"))
  deny (ltb msg.amount_msat c.params.holder_htlc_minimum_msat)
      (close (text "HTLC below our htlc_minimum"))
  deny (leb cltv_limit msg.cltv_expiry) (close (text "cltv_expiry too large"))
  deny (leb c.params.holder_max_accepted_htlcs (count_u16 (live false c.htlcs)))
      (close (text "our max_accepted_htlcs exceeded"))
  deny
      (ltb c.params.holder_max_htlc_value_in_flight_msat
        (add64 (amounts (live false c.htlcs)) msg.amount_msat))
      (close (text "our max_htlc_value_in_flight exceeded"))
  deny (ltb (balances_for c true).1 (inbound_needed c msg.amount_msat))
      (close (text "peer cannot afford HTLC"))

abbrev pub inbound_htlc : UpdateAddHtlc → Htlc
inbound_htlc msg = record {
  outbound = false;
  id = msg.id;
  amount_msat = msg.amount_msat;
  payment_hash = msg.payment_hash;
  cltv_expiry = msg.cltv_expiry;
  onion = msg.onion_routing_packet;
  source = none;
  resolution = none;
  phase_holder = pending;
  phase_counterparty = not_yet;
  processed = false;
}

unfoldable pub push_inbound : Channel → UpdateAddHtlc → Channel
push_inbound c msg = record c {
  next_counterparty_htlc_id = add64 c.next_counterparty_htlc_id 1;
  htlcs = c.htlcs ++ inbound_htlc msg ∷ [];
}

unfoldable pub on_update_add_htlc : Channel → UpdateAddHtlc → Channel × Result (Unit {0})
unfolding push_inbound
on_update_add_htlc c msg = elim (validate_inbound_add c msg) [
  | err e ↦ (c, err e)
  | panic ↦ (c, panic)
  | ok u ↦ (push_inbound c msg, ok tt)
]

-- `htlc.resolution = Some(r); htlc.phase_holder = Removing`
unfoldable pub remove_outbound : Channel → ℕ → HtlcResolution → Channel
unfolding update_htlc
remove_outbound c id r = record c {
  htlcs =
      update_htlc true id (λ h. record h { resolution = some r; phase_holder = removing }) c.htlcs;
}

-- The source and the amount, once the HTLC is changed.
unfoldable pub resolved : Channel → Htlc → Channel × Result (HtlcSource × Msat)
resolved c h = (c, expect h.source >>= λ source. ok (source, h.amount_msat))

unfoldable pub on_update_fulfill_htlc :
    Env → Channel → UpdateFulfillHtlc → Channel × Result (HtlcSource × Msat)
unfolding remove_outbound resolved
on_update_fulfill_htlc env c msg = elim (outbound_committed c msg.id) [
  | err e ↦ (c, err e)
  | panic ↦ (c, panic)
  | ok h ↦
      if bytes_eq (env.sha256 msg.payment_preimage) h.payment_hash
      then resolved (remove_outbound c msg.id (fulfill msg.payment_preimage)) h
      else (c, err (close (text "fulfill preimage does not match payment hash")))
]

unfoldable pub on_update_fail_htlc : Channel → UpdateFailHtlc → Channel × Result (HtlcSource × Msat)
unfolding remove_outbound resolved
on_update_fail_htlc c msg = elim (outbound_committed c msg.id) [
  | err e ↦ (c, err e)
  | panic ↦ (c, panic)
  | ok h ↦ resolved (remove_outbound c msg.id (fail msg.reason)) h
]

-- `failure_code & 0x8000 == 0`
unfoldable pub has_badonion : ℕ → Bool
has_badonion failure_code = failure_code / 2 ^ 15 % 2 == 1

unfoldable pub on_update_fail_malformed_htlc :
    Channel → UpdateFailMalformedHtlc → Channel × Result (HtlcSource × Msat)
unfolding remove_outbound resolved
on_update_fail_malformed_htlc c msg =
    if not (has_badonion msg.failure_code)
    then (c, err (close (text "update_fail_malformed_htlc without BADONION bit")))
    else elim (outbound_committed c msg.id) [
      | err e ↦ (c, err e)
      | panic ↦ (c, panic)
      | ok h ↦
          resolved (remove_outbound c msg.id (fail_malformed msg.sha256_of_onion msg.failure_code))
            h
    ]

unfoldable pub on_update_fee : Channel → UpdateFee → Channel × Result (Unit {0})
on_update_fee c msg =
    if is_opener c.role
    then (c, err (close (text "non-opener sent update_fee")))
    else if ltb msg.feerate_per_kw 253
    then (c, err (close (text "update_fee below floor")))
    else if ltb 10_000_000 msg.feerate_per_kw
    then (c, err (close (text "update_fee absurdly high")))
    else (
      record c { feerate_holder = msg.feerate_per_kw; pending_fee_ack = some msg.feerate_per_kw },
      ok tt,
    )
