-- ===== src/Channel/Reestablish/Examples.antt =====
-- src/channel/reestablish.rs: a lost `revoke_and_ack`, two sides in step, and an add that was never
-- signed.
use keraunos.Prelude.{
  ◌^◌, ◌-◌, ◌≡◌, refl, false, none, some, [], ◌∷◌, All, replicate, add64, bytes_eq,
}
use keraunos.Wire.Msgs.Data.{ChannelReestablish, Message, revoke_and_ack}
use keraunos.Channel.Data.{Channel, Htlc, ok, pending, not_yet, local_payment, add}
use keraunos.Channel.Disconnect.{on_disconnect}
use keraunos.Channel.Reestablish.{sends, on_channel_reestablish}
use keraunos.Channel.Reestablish.Answers.{IsPast, on_channel_reestablish-IsPast}
use keraunos.Channel.Examples.Samples.{sample, sample_env, outbound_sample}

abbrev ours : Channel
ours = record sample {
  awaiting_raa = false;
  holder_commitment_number = 1;
  counterparty_commitment_number = 2;
}

abbrev behind : ChannelReestablish
behind = record {
  channel_id = 1 ∷ [];
  next_commitment_number = 3;
  next_revocation_number = 0;
  your_last_per_commitment_secret = replicate 32 0;
  my_current_per_commitment_point = 2 ∷ [];
}

abbrev sent_again : Message
sent_again = revoke_and_ack (record {
  channel_id = 1 ∷ [];
  per_commitment_secret = 0 ∷ [];
  next_per_commitment_point = 2 ∷ [];
})

answer : on_channel_reestablish sample_env ours behind ≡ ok (sends (sent_again ∷ []))
unfolding on_channel_reestablish add64 bytes_eq
answer = refl

on_channel_reestablish-IsPast_example : All (IsPast sample_env ours) (sent_again ∷ [])
on_channel_reestablish-IsPast_example =
    on_channel_reestablish-IsPast sample_env ours behind (sends (sent_again ∷ [])) answer

-- The peer of `ours`, which holds the secret of our commitment 0.
abbrev theirs : Channel
theirs = record sample {
  holder_commitment_number = 2;
  counterparty_commitment_number = 1;
  counterparty_secrets = some (2 ^ 48 - 1, 0 ∷ []) ∷ replicate 48 none;
}

-- An add that was sent and not signed for goes back into the holding cell, but its number is not used
-- again.
abbrev unsigned : Htlc
unsigned = record outbound_sample { id = 1; phase_holder = not_yet; phase_counterparty = pending }

forgets_add :
    on_disconnect (record sample { htlcs = unsigned ∷ []; next_holder_htlc_id = 2 })
    ≡ ok (record sample {
      htlcs = [];
      next_holder_htlc_id = 2;
      holding_cell = add 2_000_000 (10 ∷ []) 700_000 [] (local_payment (11 ∷ [])) ∷ [];
    })
unfolding on_disconnect
forgets_add = refl
