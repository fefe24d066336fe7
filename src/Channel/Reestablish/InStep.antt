-- ===== src/Channel/Reestablish/InStep.antt =====
-- src/channel/reestablish.rs: what two sides that are in step send each other again.
use keraunos.Prelude.{Bool, ◌&&◌, none, ◌⊎◌, ◌+◌, ◌-◌, ◌<◌, ◌≡◌, false, some, u64_mod, ◌==◌}
use keraunos.Shachain.{index_for_commitment, secret_for}
use keraunos.Wire.Msgs.Data.{Message, channel_ready}
use keraunos.Channel.Data.{Channel}
use keraunos.Channel.Env.{Env}

-- The peer `d` of `c` is in step with it: no commitment of `c` is in flight, their numbers agree and
-- have room to grow, and `d` holds the last secret that `c` released, if there is one.
pub record IsInStep (env_c env_d : Env) (c d : Channel) : Type 0 where
  pub idle : c.awaiting_raa ≡ false
  pub signed : d.holder_commitment_number ≡ c.counterparty_commitment_number
  pub revoked : d.counterparty_commitment_number ≡ c.holder_commitment_number
  pub room : c.counterparty_commitment_number + 1 < u64_mod
  pub known :
      (c.holder_commitment_number ≡ 0)
      ⊎ (secret_for env_d.sha256 d.counterparty_secrets
            (index_for_commitment (c.holder_commitment_number - 1))
          ≡ some (env_c.release_commitment_secret (c.holder_commitment_number - 1)))

-- No commitment but the first has been exchanged, and `channel_ready` was sent.
abbrev pub is_fresh : Channel → Bool
is_fresh c =
    (c.counterparty_commitment_number == 0)
    && ((c.holder_commitment_number == 0) && c.channel_ready_sent)

abbrev pub ready_again : Env → Channel → Message
ready_again env c = channel_ready (record {
  channel_id = c.channel_id;
  second_per_commitment_point = env.per_commitment_point 1;
  short_channel_id_alias = none;
})
