-- ===== src/Channel/Limits.antt =====
-- src/channel/dance.rs: what an accepted `update_add_htlc`, in either direction, has been checked for.
use keraunos.Prelude.{
  ℕ, ◌≤◌, ◌<◌, true, false, ◌||◌, ◌≡◌, refl, arith, ◌⊎◌, inl, inr, none, some, Bytes, add64,
  Bool-cases,
}
use keraunos.Types.{Msat}
use keraunos.Channel.Data.{
  Channel, HtlcSource, ChannelError, ok, err, Result-cases, is_normal, add, ignore, text,
}
use keraunos.Channel.Invariant.Flush.{is_panic}
use keraunos.Channel.Messages.{UpdateAddHtlc}
use keraunos.Channel.Balance.{balances_for}
use keraunos.Channel.Htlcs.{live, amounts, count_u16, cltv_limit}
use keraunos.Channel.Send.{
  validate_outbound_add, outbound_needed, send_add_htlc, push_outbound, park,
}
use keraunos.Channel.Receive.{
  validate_inbound_add, inbound_needed, on_update_add_htlc, push_inbound,
}

-- The limits that we set on the peer's HTLCs.
pub record InboundAllowed (c : Channel) (msg : UpdateAddHtlc) : Type 0 where
  pub state_is_normal : is_normal c.state ≡ true
  pub not_closing : c.shutdown_sent || c.shutdown_received ≡ false
  pub sequential : msg.id ≡ c.next_counterparty_htlc_id
  pub positive : 0 < msg.amount_msat
  pub above_minimum : c.params.holder_htlc_minimum_msat ≤ msg.amount_msat
  pub is_height : msg.cltv_expiry < cltv_limit
  pub count : count_u16 (live false c.htlcs) < c.params.holder_max_accepted_htlcs
  pub in_flight :
      add64 (amounts (live false c.htlcs)) msg.amount_msat
      ≤ c.params.holder_max_htlc_value_in_flight_msat
  pub affordable : inbound_needed c msg.amount_msat ≤ (balances_for c true).1

-- The limits that the peer sets on ours.
pub record OutboundAllowed (c : Channel) (amount_msat : Msat) (cltv_expiry : ℕ) : Type 0 where
  pub positive : 0 < amount_msat
  pub above_minimum : c.params.counterparty_htlc_minimum_msat ≤ amount_msat
  pub is_height : cltv_expiry < cltv_limit
  pub count : count_u16 (live true c.htlcs) < c.params.counterparty_max_accepted_htlcs
  pub in_flight :
      add64 (amounts (live true c.htlcs)) amount_msat
      ≤ c.params.counterparty_max_htlc_value_in_flight_msat
  pub affordable : outbound_needed c amount_msat ≤ (balances_for c false).0

validate_inbound_add-InboundAllowed :
    (c : Channel) (msg : UpdateAddHtlc) {u : Unit {0}}
    → validate_inbound_add c msg ≡ ok u
    → InboundAllowed c msg
unfolding validate_inbound_add
validate_inbound_add-InboundAllowed c msg e = record {
  state_is_normal = ground arith;
  not_closing = ground arith;
  sequential = ground arith;
  positive = ground arith;
  above_minimum = ground arith;
  is_height = ground arith;
  count = ground arith;
  in_flight = ground arith;
  affordable = ground arith;
}

validate_inbound_add-ok :
    (c : Channel) (msg : UpdateAddHtlc) → InboundAllowed c msg → validate_inbound_add c msg ≡ ok tt
unfolding validate_inbound_add
validate_inbound_add-ok c msg a = ground (
  arith, a.state_is_normal, a.not_closing, a.sequential, a.positive, a.above_minimum, a.is_height,
  a.count, a.in_flight, a.affordable,
)

validate_outbound_add-OutboundAllowed :
    (c : Channel) (amount_msat : Msat) (cltv_expiry : ℕ) {u : Unit {0}}
    → validate_outbound_add c amount_msat cltv_expiry ≡ ok u
    → OutboundAllowed c amount_msat cltv_expiry
unfolding validate_outbound_add
validate_outbound_add-OutboundAllowed c amount_msat cltv_expiry e = record {
  positive = ground arith;
  above_minimum = ground arith;
  is_height = ground arith;
  count = ground arith;
  in_flight = ground arith;
  affordable = ground arith;
}

validate_add-no_panic :
    (c : Channel)
    → ((msg : UpdateAddHtlc) → is_panic (validate_inbound_add c msg) ≡ false)
      × ((amount_msat : Msat) (cltv_expiry : ℕ)
          → is_panic (validate_outbound_add c amount_msat cltv_expiry) ≡ false)
unfolding validate_inbound_add validate_outbound_add
validate_add-no_panic c = (λ msg. ground arith, λ amount cltv. ground arith)

-- `update_add_htlc` from the peer is accepted exactly if it respects our limits: it carries the next
-- number in sequence, its amount is positive, at least our minimum and affordable with reserve and fee,
-- and its count and sum with the live HTLCs are in bounds. Then it is appended; otherwise the channel
-- is unchanged.
pub on_update_add_htlc-InboundAllowed :
    (c : Channel) (msg : UpdateAddHtlc)
    → (InboundAllowed c msg × (on_update_add_htlc c msg ≡ (push_inbound c msg, ok tt)))
      ⊎ ((¬ InboundAllowed c msg) × (e : ChannelError) × (on_update_add_htlc c msg ≡ (c, err e)))
unfolding on_update_add_htlc
on_update_add_htlc-InboundAllowed c msg = elim (Result-cases (validate_inbound_add c msg)) [
  | inl (u, e) ↦ inl (validate_inbound_add-InboundAllowed c msg e, rw (e, on_update_add_htlc) refl)
  | inr (inl (why, e)) ↦ inr (
    λ a. absurd (ground (arith, validate_inbound_add-ok c msg a)),
    why,
    rw (e, on_update_add_htlc) refl,
  )
  | inr (inr e) ↦ absurd (ground (arith, (validate_add-no_panic c).0 msg))
]

-- A message that `send_add_htlc` hands out respects the peer's limits and carries our next number, the
-- channel was free to sign, and the HTLC is appended; if nothing is handed out the HTLCs are unchanged,
-- and without an error the update waits in the holding cell.
pub send_add_htlc-OutboundAllowed :
    (c : Channel) (amount : Msat) (hash : Bytes) (cltv : ℕ) (onion : Bytes) (source : HtlcSource)
    → ((msg : UpdateAddHtlc) × OutboundAllowed c amount cltv
        × (c.awaiting_raa ≡ false)
        × (msg.id ≡ c.next_holder_htlc_id)
        × (send_add_htlc c amount hash cltv onion source
            ≡ (push_outbound c amount hash cltv onion source, ok (some msg))))
      ⊎ ((c.awaiting_raa ≡ true)
          × (send_add_htlc c amount hash cltv onion source
              ≡ (park c (add amount hash cltv onion source), ok none)))
      ⊎ ((e : ChannelError) × (send_add_htlc c amount hash cltv onion source ≡ (c, err e)))
unfolding send_add_htlc
send_add_htlc-OutboundAllowed c amount hash cltv onion source =
    elim (Bool-cases (is_normal c.state)) [
      | inr other ↦
          inr (inr (ignore (text "channel not in normal state"), rw (other, send_add_htlc) refl))
      | inl n ↦ elim (Bool-cases (c.shutdown_sent || c.shutdown_received)) [
        | inl closing ↦
            inr
              (inr (ignore (text "channel is shutting down"), rw (n, closing, send_add_htlc) refl))
        | inr stays ↦ elim (Bool-cases c.awaiting_raa) [
          | inl waits ↦ inr (inl (waits, ground arith))
          | inr free ↦ elim (Result-cases (validate_outbound_add c amount cltv)) [
            | inl (u, e) ↦ inl (
              record {
                channel_id = c.channel_id;
                id = c.next_holder_htlc_id;
                amount_msat = amount;
                payment_hash = hash;
                cltv_expiry = cltv;
                onion_routing_packet = onion;
              },
              validate_outbound_add-OutboundAllowed c amount cltv e,
              free,
              refl,
              ground arith,
            )
            | inr (inl (why, e)) ↦ inr (inr (why, ground arith))
            | inr (inr e) ↦ absurd (ground (arith, (validate_add-no_panic c).1 amount cltv))
          ]
        ]
      ]
    ]
