-- ===== src/Channel/Send.antt =====
-- src/channel/dance.rs: the updates that we send. Each returns the new channel with the message, or
-- with `none` for one that waits in the holding cell.
use keraunos.Prelude.{
  ℕ, ◌+◌, true, false, not, ◌||◌, ◌==◌, ltb, leb, if◌then◌else◌, [], ◌∷◌, ◌++◌, Option, none, some,
  Bytes, keep, length, add64, bytes_eq,
}
use keraunos.Types.{Msat, FeeRatePerKw, from_sat}
use keraunos.Channel.Data.{
  Channel, Htlc, HtlcSource, HtlcResolution, Result, ok, err, panic, text, ignore, invalid_state,
  ◌>>◌, deny, fulfill, fail, fail_malformed, not_yet, pending, removing, included, is_normal,
  is_opener, add, fulfill_op, fail_op, fail_malformed_op, HoldingCellOp,
}
use keraunos.Channel.Env.{Env}
use keraunos.Channel.Messages.{
  UpdateAddHtlc, UpdateFulfillHtlc, UpdateFailHtlc, UpdateFailMalformedHtlc, UpdateFee,
}
use keraunos.Channel.Balance.{balances_for}
use keraunos.Channel.Htlcs.{
  inbound_committed, update_htlc, live, amounts, commitment_fee, count_u16, cltv_limit,
}

-- What our balance on their commitment must cover after the add.
unfoldable pub outbound_needed : Channel → Msat → Msat
unfolding included
outbound_needed c amount_msat =
    let needed = add64 amount_msat (from_sat c.params.counterparty_selected_reserve_sat) in
    let untrimmed = length (keep (λ h. included h.phase_counterparty) c.htlcs) in
    if is_opener c.role
    then add64 needed (from_sat (commitment_fee c.feerate_counterparty (untrimmed + 2)))
    else needed

unfoldable pub validate_outbound_add : Channel → Msat → ℕ → Result (Unit {0})
validate_outbound_add c amount_msat cltv_expiry = do
  deny (amount_msat == 0) (ignore (text "zero-amount HTLC"))
  deny (ltb amount_msat c.params.counterparty_htlc_minimum_msat)
      (ignore (text "below counterparty htlc_minimum"))
  deny (leb cltv_limit cltv_expiry) (ignore (text "cltv_expiry too large"))
  deny (leb c.params.counterparty_max_accepted_htlcs (count_u16 (live true c.htlcs)))
      (ignore (text "counterparty max_accepted_htlcs reached"))
  deny
      (ltb c.params.counterparty_max_htlc_value_in_flight_msat
        (add64 (amounts (live true c.htlcs)) amount_msat))
      (ignore (text "counterparty max_htlc_value_in_flight exceeded"))
  deny (ltb (balances_for c false).0 (outbound_needed c amount_msat))
      (ignore (text "insufficient balance for HTLC"))

abbrev pub outbound_htlc : ℕ → Msat → Bytes → ℕ → Bytes → HtlcSource → Htlc
outbound_htlc id amount_msat payment_hash cltv_expiry onion source = record {
  outbound = true;
  id = id;
  amount_msat = amount_msat;
  payment_hash = payment_hash;
  cltv_expiry = cltv_expiry;
  onion = onion;
  source = some source;
  resolution = none;
  phase_holder = not_yet;
  phase_counterparty = pending;
  processed = false;
}

abbrev pub park : Channel → HoldingCellOp → Channel
park c op = record c { holding_cell = c.holding_cell ++ op ∷ [] }

unfoldable pub push_outbound : Channel → Msat → Bytes → ℕ → Bytes → HtlcSource → Channel
push_outbound c amount_msat payment_hash cltv_expiry onion source = record c {
  next_holder_htlc_id = add64 c.next_holder_htlc_id 1;
  htlcs =
      c.htlcs
      ++ outbound_htlc c.next_holder_htlc_id amount_msat payment_hash cltv_expiry onion source ∷ [];
  counterparty_dirty = true;
}

unfoldable pub send_add_htlc :
    Channel → Msat → Bytes → ℕ → Bytes → HtlcSource → Channel × Result (Option UpdateAddHtlc)
unfolding push_outbound
send_add_htlc c amount_msat payment_hash cltv_expiry onion source =
    if not (is_normal c.state)
    then (c, err (ignore (text "channel not in normal state")))
    else if c.shutdown_sent || c.shutdown_received
    then (c, err (ignore (text "channel is shutting down")))
    else if c.awaiting_raa
    then (park c (add amount_msat payment_hash cltv_expiry onion source), ok none)
    else elim (validate_outbound_add c amount_msat cltv_expiry) [
      | err e ↦ (c, err e)
      | panic ↦ (c, panic)
      | ok u ↦ (
        push_outbound c amount_msat payment_hash cltv_expiry onion source,
        ok (
            some (record {
              channel_id = c.channel_id;
              id = c.next_holder_htlc_id;
              amount_msat = amount_msat;
              payment_hash = payment_hash;
              cltv_expiry = cltv_expiry;
              onion_routing_packet = onion;
            })),
      )
    ]

-- `htlc.resolution = Some(r); htlc.phase_counterparty = Removing; self.counterparty_dirty = true`
unfoldable pub remove_inbound : Channel → ℕ → HtlcResolution → Channel
unfolding update_htlc
remove_inbound c id r = record c {
  htlcs =
      update_htlc false id (λ h. record h { resolution = some r; phase_counterparty = removing })
        c.htlcs;
  counterparty_dirty = true;
}

unfoldable pub send_fulfill_htlc :
    Env → Channel → ℕ → Bytes → Channel × Result (Option UpdateFulfillHtlc)
unfolding remove_inbound
send_fulfill_htlc env c id preimage =
    if c.awaiting_raa
    then (park c (fulfill_op id preimage), ok none)
    else elim (inbound_committed c id) [
      | err e ↦ (c, err e)
      | panic ↦ (c, panic)
      | ok h ↦
          if bytes_eq (env.sha256 preimage) h.payment_hash
          then (
            remove_inbound c id (fulfill preimage),
            ok (some (record { channel_id = c.channel_id; id = id; payment_preimage = preimage })),
          )
          else (c, err (invalid_state (text "preimage does not match payment hash")))
    ]

unfoldable pub send_fail_htlc : Channel → ℕ → Bytes → Channel × Result (Option UpdateFailHtlc)
unfolding remove_inbound
send_fail_htlc c id reason =
    if c.awaiting_raa
    then (park c (fail_op id reason), ok none)
    else elim (inbound_committed c id) [
      | err e ↦ (c, err e)
      | panic ↦ (c, panic)
      | ok h ↦ (
        remove_inbound c id (fail reason),
        ok (some (record { channel_id = c.channel_id; id = id; reason = reason })),
      )
    ]

unfoldable pub send_fail_malformed_htlc :
    Channel → ℕ → Bytes → ℕ → Channel × Result (Option UpdateFailMalformedHtlc)
unfolding remove_inbound
send_fail_malformed_htlc c id sha256_of_onion failure_code =
    if c.awaiting_raa
    then (park c (fail_malformed_op id sha256_of_onion failure_code), ok none)
    else elim (inbound_committed c id) [
      | err e ↦ (c, err e)
      | panic ↦ (c, panic)
      | ok h ↦ (
        remove_inbound c id (fail_malformed sha256_of_onion failure_code),
        ok (
            some (record {
              channel_id = c.channel_id;
              id = id;
              sha256_of_onion = sha256_of_onion;
              failure_code = failure_code;
            })),
      )
    ]

unfoldable pub send_update_fee : Channel → FeeRatePerKw → Channel × Result (Option UpdateFee)
send_update_fee c feerate =
    if not (is_opener c.role)
    then (c, err (invalid_state (text "only the opener sends update_fee")))
    else if not (is_normal c.state)
    then (c, err (ignore (text "channel not in normal state")))
    else if c.awaiting_raa
    then (c, err (ignore (text "commitment in flight; retry after RAA")))
    else if ltb feerate 253
    then (c, err (ignore (text "feerate below floor")))
    else (
      record c { feerate_counterparty = feerate; counterparty_dirty = true },
      ok (some (record { channel_id = c.channel_id; feerate_per_kw = feerate })),
    )
