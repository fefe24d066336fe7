-- ===== src/Channel/Open/Steps.antt =====
-- src/channel/mod.rs: any sequence of the messages and commands that open a channel.
use keraunos.Prelude.{ℕ, Bytes}
use keraunos.Types.{ShortChannelId}
use keraunos.Channel.Data.{Channel}
use keraunos.Channel.Env.{Env}
use keraunos.Channel.Open.Data.{AcceptChannel, FundingCreated, FundingSigned, ChannelReady}
use keraunos.Channel.Open.Start.{on_accept_channel}
use keraunos.Channel.Open.Fund.{
  funding_created, on_funding_created, on_funding_signed, funding_confirmed_at, on_channel_ready,
}
use keraunos.Channel.Open.Invariant.{IsOpen, on_accept_channel-IsOpen}
use keraunos.Channel.Open.Signing.{
  funding_created-IsOpen, on_funding_created-IsOpen, on_funding_signed-IsOpen,
}
use keraunos.Channel.Open.Ready.{on_channel_ready-IsOpen, funding_confirmed-IsOpen}

pub data OpenStep (env : Env) (c : Channel) : Channel → Type 0 where
  gets_accept : (msg : AcceptChannel) → OpenStep env c (on_accept_channel env c msg).0
  creates_funding : (txid : Bytes) (index : ℕ) → OpenStep env c (funding_created env c txid index).0
  gets_funding_created : (msg : FundingCreated) → OpenStep env c (on_funding_created env c msg).0
  gets_funding_signed : (msg : FundingSigned) → OpenStep env c (on_funding_signed env c msg).0
  sees_funding : (scid : ShortChannelId) → OpenStep env c (funding_confirmed_at env c scid).0
  gets_ready : (msg : ChannelReady) → OpenStep env c (on_channel_ready c msg).0

pub data OpenReach (env : Env) (c : Channel) : Channel → Type 0 where
  here : OpenReach env c c
  next : {d e : Channel} → OpenReach env c d → OpenStep env d e → OpenReach env c e

OpenStep-IsOpen : {env : Env} {c d : Channel} → OpenStep env c d → IsOpen c → IsOpen d
OpenStep-IsOpen {env} {c} (gets_accept msg) o = (on_accept_channel-IsOpen env c msg o).0
OpenStep-IsOpen {env} {c} (creates_funding txid index) o =
    (funding_created-IsOpen env c o txid index).0
OpenStep-IsOpen {env} {c} (gets_funding_created msg) o = (on_funding_created-IsOpen env c o msg).0
OpenStep-IsOpen {env} {c} (gets_funding_signed msg) o = (on_funding_signed-IsOpen env c o msg).0
OpenStep-IsOpen {env} {c} (sees_funding scid) o = funding_confirmed-IsOpen c o env scid
OpenStep-IsOpen {env} {c} (gets_ready msg) o = on_channel_ready-IsOpen c o msg

-- From a channel that satisfies the invariant of opening, every sequence of `accept_channel`, the
-- funding messages, the funding's confirmation and `channel_ready`, accepted or refused, leads to a
-- channel that satisfies it; in particular the invariant of the dance holds when it starts.
pub OpenReach-IsOpen : {env : Env} {c d : Channel} → OpenReach env c d → IsOpen c → IsOpen d
OpenReach-IsOpen here o = o
OpenReach-IsOpen (next r s) o = OpenStep-IsOpen s (OpenReach-IsOpen r o)
