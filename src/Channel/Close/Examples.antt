-- ===== src/Channel/Close/Examples.antt =====
-- src/channel/close.rs: a channel that both sides have shut down.
use keraunos.Prelude.{ap, none, ◌≡◌, refl, ◌⊎◌, true, false, some, [], ◌∷◌, Bytes, replicate}
use keraunos.Commitment.{Transaction}
use keraunos.Channel.Data.{Channel, ok, panic, shutting_down, negotiating_close, closed}
use keraunos.Wire.Msgs.Data.{ClosingSigned}
use keraunos.Channel.Close.{
  ready_to_negotiate_close, verify_their_closing_sig, signed_closing_tx, closing_fee_bounds,
}
use keraunos.Channel.Close.Negotiate.{on_closing_signed}
use keraunos.Channel.Close.Sound.{negotiating, on_closing_signed_sound}
use keraunos.Channel.Close.Agreement.{ClosesWith, after_offer, on_closing_signed-closes}
use keraunos.Channel.Close.InRange.{IsInside}
use keraunos.Commitment.Build.{build_closing_tx}
use keraunos.Wire.Msgs.Data.{ClosingSignedFeeRange}
use keraunos.Channel.Close.Negotiate.{reply, maybe_send_closing_signed}
use keraunos.Channel.Data.{accepter}
use keraunos.Channel.Examples.Samples.{sample, sample_env}

abbrev a_script : Bytes
a_script = 0 ∷ 20 ∷ replicate 20 1

abbrev shut : Channel
shut = record sample {
  state = shutting_down;
  htlcs = [];
  awaiting_raa = false;
  counterparty_dirty = false;
  holding_cell = [];
  shutdown_sent = true;
  shutdown_received = true;
  holder_shutdown_script = some a_script;
  counterparty_shutdown_script = some a_script;
  last_closing_fee_proposal = some 714;
}

abbrev an_offer : ClosingSigned
an_offer = record {
  channel_id = 1 ∷ [];
  fee_satoshis = 500;
  signature = 3 ∷ [];
  fee_range = some (record { min_fee_satoshis = 180; max_fee_satoshis = 1000 });
}

on_closing_signed_sound_example :
    ((on_closing_signed sample_env shut an_offer 1000).0 ≡ shut)
    ⊎ (((on_closing_signed sample_env shut an_offer 1000).0.state ≡ negotiating_close)
        ⊎ ((ready_to_negotiate_close shut ≡ true)
            × (base : Transaction) × (tx : Transaction) × (verify_their_closing_sig sample_env
                  (negotiating shut)
                  500
                  (3 ∷ [])
                ≡ ok base)
            × (signed_closing_tx sample_env (negotiating shut) 500 (3 ∷ []) ≡ ok tx)
            × ((on_closing_signed sample_env shut an_offer 1000).0.state ≡ closed)
            × ((on_closing_signed sample_env shut an_offer 1000).0.closing_tx ≡ some tx)))
on_closing_signed_sound_example = on_closing_signed_sound sample_env shut an_offer 1000

-- Both sides before any offer. The funder aims at 1000 sat/kw, the other side at 2000.
abbrev funder : Channel
funder = record shut { last_closing_fee_proposal = none }

abbrev fundee : Channel
fundee = record funder { role = accepter }

abbrev first_offer : ClosingSigned
first_offer = record {
  channel_id = 1 ∷ [];
  fee_satoshis = 714;
  signature = 8 ∷ [];
  fee_range = some (record { min_fee_satoshis = 180; max_fee_satoshis = 1428 });
}

abbrev counter_offer : ClosingSigned
counter_offer = record first_offer {
  fee_satoshis = 1428;
  fee_range = some (record { min_fee_satoshis = 180; max_fee_satoshis = 2856 });
}

abbrev at_counter_offer : Transaction
at_counter_offer =
    build_closing_tx (record { txid = 1 ∷ []; vout = 0 }) 598_572 400_000 a_script a_script 546

-- The offer is accepted, and the channel closes.
accepts : (on_closing_signed sample_env shut an_offer 1000).0.state ≡ closed
unfolding on_closing_signed
accepts = refl

-- With a target fee rate of 100 the largest fee, 142, is below the smallest one, 180.
low_target_panics : closing_fee_bounds shut 100 ≡ panic
unfolding closing_fee_bounds
low_target_panics = refl

sends_offer :
    maybe_send_closing_signed sample_env funder 1000
    ≡ (after_offer funder first_offer, ok (some first_offer))
unfolding maybe_send_closing_signed
sends_offer = refl

counters : (on_closing_signed sample_env fundee first_offer 2000).1 ≡ ok (reply counter_offer none)
unfolding on_closing_signed
counters = refl

verifies :
    verify_their_closing_sig sample_env
      (maybe_send_closing_signed sample_env funder 1000).0
      1428
      (8 ∷ [])
    ≡ ok at_counter_offer
unfolding maybe_send_closing_signed verify_their_closing_sig
verifies = refl

on_closing_signed-closes_example :
    (ours : ClosingSignedFeeRange) × (theirs : ClosingSignedFeeRange) × (first_offer.fee_range
      ≡ some ours)
    × (counter_offer.fee_range ≡ some theirs)
    × IsInside 1428 theirs ours
    × ClosesWith sample_env
        (maybe_send_closing_signed sample_env funder 1000).0
        counter_offer
        (on_closing_signed sample_env
          (maybe_send_closing_signed sample_env funder 1000).0
          counter_offer
          1000).0
on_closing_signed-closes_example =
    on_closing_signed-closes sample_env sample_env funder fundee first_offer counter_offer 1000 2000
      at_counter_offer (ap (λ r. r.1) sends_offer) refl counters verifies
