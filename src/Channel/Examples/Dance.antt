-- ===== src/Channel/Examples/Dance.antt =====
-- src/channel/dance.rs: the theorems at concrete channels and messages.
use keraunos.Prelude.{
  List, not, ◌&&◌, ◌≢◌, ◌+◌, ◌≡◌, refl, arith, true, false, ◌⊎◌, [], ◌∷◌, none, some, bytes_eq,
}
use keraunos.Shachain.{new, index_for_commitment, insert, trailing_zeros}
use keraunos.Channel.Htlcs.{is_some}
use keraunos.Channel.Data.{
  Htlc, Channel, ChannelError, HolderCommitment, PendingCounterpartyCommitment, HtlcSource,
  local_payment, ok, err, text, invalid_state, add, credited, included,
}
use keraunos.Channel.Messages.{UpdateAddHtlc, CommitmentSigned, RevokeAndAck, RaaOutcome}
use keraunos.Channel.Balance.{balances_for, gc_htlcs}
use keraunos.Channel.Send.{send_add_htlc, push_outbound, park}
use keraunos.Channel.Receive.{
  on_update_add_htlc, push_inbound, on_update_fulfill_htlc, on_update_fail_htlc,
  on_update_fail_malformed_htlc,
}
use keraunos.Channel.Data.{pending, removing}
use keraunos.Channel.Commit.{
  ids_in, send_commitment_signed, on_commitment_signed, can_send_commitment,
}
use keraunos.Channel.Revoke.{on_revoke_and_ack, collect_forwardable, check_revocation, flush_cell}
use keraunos.Channel.Accounts.{Covered, flying, balances_for-conserved, gc_htlcs-balances_for}
use keraunos.Channel.Limits.{
  InboundAllowed, OutboundAllowed, on_update_add_htlc-InboundAllowed, send_add_htlc-OutboundAllowed,
}
use keraunos.Channel.Promises.{
  send_commitment_signed-once, Collected, collect_forwardable-once, IsVerified,
  on_commitment_signed-IsVerified, IsRevoked, on_revoke_and_ack-IsRevoked,
}
use keraunos.Channel.Invariant.{IsValid}
use keraunos.Channel.Invariant.Flush.{is_panic}
use keraunos.Channel.Invariant.Panics.{on_resolution-no_panic}
use keraunos.Channel.Invariant.Total.{commitment_signed-no_panic, on_revoke_and_ack-is_panic}
use keraunos.Channel.Invariant.Steps.{here, next, sends_add, signs, Reach-IsValid}
use keraunos.Channel.Examples.Samples.{
  sample_env, sample_env-PlacesHtlcs, sample, sample-IsValid, waiting, waiting-IsValid,
}

abbrev an_add : UpdateAddHtlc
an_add = record {
  channel_id = 1 ∷ [];
  id = 1;
  amount_msat = 3_000_000;
  payment_hash = 12 ∷ [];
  cltv_expiry = 700_100;
  onion_routing_packet = [];
}

abbrev a_payment : HtlcSource
a_payment = local_payment (13 ∷ [])

abbrev good_secret : RevokeAndAck
good_secret = record {
  channel_id = 1 ∷ [];
  per_commitment_secret = 5 ∷ [];
  next_per_commitment_point = 7 ∷ [];
}

abbrev zero_secret : RevokeAndAck
zero_secret = record good_secret { per_commitment_secret = 0 ∷ [] }

abbrev a_signature : CommitmentSigned
a_signature = record { channel_id = 1 ∷ []; signature = 14 ∷ []; htlc_signatures = [] }

-- An add is sent and signed for.
abbrev after_add : Channel
after_add = (send_add_htlc sample 3_000_000 (12 ∷ []) 700_100 [] a_payment).0

abbrev after_sign : Channel
after_sign = (send_commitment_signed sample_env after_add).0

Reach-IsValid_example : IsValid after_sign
Reach-IsValid_example =
    Reach-IsValid
      (next (next here (sends_add 3_000_000 (12 ∷ []) 700_100 [] a_payment (omega arith))) signs)
      sample-IsValid

on_resolution-no_panic_example :
    (is_panic
        (on_update_fulfill_htlc sample_env sample
          (record { channel_id = 1 ∷ []; id = 0; payment_preimage = 10 ∷ [] })).1
      ≡ false)
    × (is_panic (on_update_fail_htlc sample (record { channel_id = 1 ∷ []; id = 0; reason = [] })).1
        ≡ false)
    × (is_panic
          (on_update_fail_malformed_htlc sample
            (record { channel_id = 1 ∷ []; id = 0; sha256_of_onion = []; failure_code = 49156 })).1
        ≡ false)
on_resolution-no_panic_example =
    on_resolution-no_panic sample_env sample
      (record { channel_id = 1 ∷ []; id = 0; payment_preimage = 10 ∷ [] })
      (record { channel_id = 1 ∷ []; id = 0; reason = [] })
      (record { channel_id = 1 ∷ []; id = 0; sha256_of_onion = []; failure_code = 49156 })
      sample-IsValid

commitment_signed-no_panic_example :
    (is_panic (send_commitment_signed sample_env after_add).1 ≡ false)
    × (is_panic (on_commitment_signed sample_env after_add a_signature).1 ≡ false)
commitment_signed-no_panic_example =
    commitment_signed-no_panic sample_env sample_env-PlacesHtlcs after_add a_signature

-- A secret that is no key, while a revocation is awaited: the node panics.
on_revoke_and_ack-is_panic_example :
    is_panic (on_revoke_and_ack sample_env waiting zero_secret).1
    ≡ (true && not (is_some (sample_env.secret_point (0 ∷ []))))
unfolding bytes_eq new
on_revoke_and_ack-is_panic_example =
    on_revoke_and_ack-is_panic sample_env sample_env-PlacesHtlcs waiting zero_secret waiting-IsValid
      (omega arith) refl (omega arith)

sample-Covered : Covered true sample.htlcs sample.to_holder_msat sample.to_counterparty_msat
unfolding credited included
sample-Covered = record {
  mine_covers = omega arith;
  theirs_cover = omega arith;
  fits = omega arith;
}

balances_for-conserved_example :
    (balances_for sample true).0
      + (balances_for sample true).1
      + (flying true true sample.htlcs + flying true false sample.htlcs)
    ≡ sample.to_holder_msat + sample.to_counterparty_msat
balances_for-conserved_example = balances_for-conserved sample true sample-Covered

gc_htlcs-balances_for_example :
    (balances_for (gc_htlcs sample) true ≡ balances_for sample true)
    × ((gc_htlcs sample).to_holder_msat + (gc_htlcs sample).to_counterparty_msat
        ≡ sample.to_holder_msat + sample.to_counterparty_msat)
gc_htlcs-balances_for_example = gc_htlcs-balances_for sample true sample-Covered

on_update_add_htlc-InboundAllowed_example :
    (InboundAllowed sample an_add
      × (on_update_add_htlc sample an_add ≡ (push_inbound sample an_add, ok tt)))
    ⊎ ((¬ InboundAllowed sample an_add)
        × (e : ChannelError) × (on_update_add_htlc sample an_add ≡ (sample, err e)))
on_update_add_htlc-InboundAllowed_example = on_update_add_htlc-InboundAllowed sample an_add

send_add_htlc-OutboundAllowed_example :
    ((msg : UpdateAddHtlc) × OutboundAllowed waiting 3_000_000 700_100
      × (waiting.awaiting_raa ≡ false)
      × (msg.id ≡ waiting.next_holder_htlc_id)
      × (send_add_htlc waiting 3_000_000 (12 ∷ []) 700_100 [] a_payment
          ≡ (push_outbound waiting 3_000_000 (12 ∷ []) 700_100 [] a_payment, ok (some msg))))
    ⊎ ((waiting.awaiting_raa ≡ true)
        × (send_add_htlc waiting 3_000_000 (12 ∷ []) 700_100 [] a_payment
            ≡ (park waiting (add 3_000_000 (12 ∷ []) 700_100 [] a_payment), ok none)))
    ⊎ ((e : ChannelError) × (send_add_htlc waiting 3_000_000 (12 ∷ []) 700_100 [] a_payment
          ≡ (waiting, err e)))
send_add_htlc-OutboundAllowed_example =
    send_add_htlc-OutboundAllowed waiting 3_000_000 (12 ∷ []) 700_100 [] a_payment

send_commitment_signed-once_example :
    ((msg : CommitmentSigned) × (snapshot : PendingCounterpartyCommitment) × (send_commitment_signed
          sample_env after_add).1
        ≡ ok msg
      × (send_commitment_signed sample_env after_add).0.pending_counterparty_commitment
        ≡ some snapshot
      × (snapshot.included ≡ ids_in pending after_add.htlcs)
      × (snapshot.removed ≡ ids_in removing after_add.htlcs)
      × can_send_commitment (send_commitment_signed sample_env after_add).0 ≡ false
      × (send_commitment_signed sample_env (send_commitment_signed sample_env after_add).0 ≡ (
        (send_commitment_signed sample_env after_add).0,
        err (invalid_state (text "commitment already in flight")),
      )))
    ⊎ (((send_commitment_signed sample_env after_add).0 ≡ after_add)
        × ((msg : CommitmentSigned) → (send_commitment_signed sample_env after_add).1 ≢ ok msg))
send_commitment_signed-once_example = send_commitment_signed-once sample_env after_add

collect_forwardable-once_example :
    (hs : List Htlc) × ((collect_forwardable sample).0 ≡ record sample { htlcs = hs })
    × Collected sample.htlcs hs (collect_forwardable sample).1
    × ((collect_forwardable (collect_forwardable sample).0).1 ≡ [])
collect_forwardable-once_example = collect_forwardable-once sample

on_commitment_signed-IsVerified_example :
    ((hc : HolderCommitment) × (raa : RevokeAndAck) × ((on_commitment_signed sample_env sample
          a_signature).1
        ≡ ok raa)
      × IsVerified sample_env sample a_signature hc
      × ((on_commitment_signed sample_env sample a_signature).0.current_holder_commitment ≡ some hc)
      × ((on_commitment_signed sample_env sample a_signature).0.holder_commitment_number ≡ 0 + 1)
      × (raa.per_commitment_secret ≡ 0 ∷ []))
    ⊎ (((on_commitment_signed sample_env sample a_signature).0 ≡ sample)
        × ((raa : RevokeAndAck) → (on_commitment_signed sample_env sample a_signature).1 ≢ ok raa))
on_commitment_signed-IsVerified_example =
    on_commitment_signed-IsVerified sample_env sample a_signature (omega arith)

abbrev quiet : Channel
quiet = record waiting { htlcs = [] }

abbrev nothing_more : RaaOutcome
nothing_more = record {
  messages = [];
  commitment_signed = none;
  forwardable = [];
  failed_adds = [];
}

on_revoke_and_ack-IsRevoked_example :
    (quiet.awaiting_raa ≡ true) × IsRevoked sample_env quiet good_secret
unfolding on_revoke_and_ack check_revocation index_for_commitment insert trailing_zeros flush_cell
    bytes_eq new
on_revoke_and_ack-IsRevoked_example =
    on_revoke_and_ack-IsRevoked sample_env quiet good_secret nothing_more refl
