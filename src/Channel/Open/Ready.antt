-- ===== src/Channel/Open/Ready.antt =====
-- src/channel/mod.rs: `channel_ready` and the way to normal operation.
use keraunos.Prelude.{
  Bool, true, not, ◌&&◌, ◌||◌, ltb, ◌≡◌, arith, inl, inr, some, Bool-cases, Bytes,
}
use keraunos.Types.{ShortChannelId}
use keraunos.Channel.Data
use keraunos.Channel.Data.{Channel, ChannelState, Result, ok, err, panic, is_normal, is_confirmable}
use keraunos.Channel.Env.{Env}
use keraunos.Channel.Open.Data.{ChannelReady}
use keraunos.Channel.Open.Fund.{
  is_awaiting_channel_ready, maybe_become_normal, funding_confirmed_at, on_channel_ready,
}
use keraunos.Channel.Open.Invariant.{IsOpen}

module _ (c : Channel) (o : IsOpen c) where
  maybe_become_normal-IsOpen : IsOpen (maybe_become_normal c)
  unfolding maybe_become_normal
  maybe_become_normal-IsOpen =
      elim (Bool-cases
        (is_awaiting_channel_ready c.state && (c.channel_ready_sent && c.channel_ready_received))) [
          | inr waits ↦ rw (waits, maybe_become_normal) o
          | inl goes ↦
              rw (goes, maybe_become_normal)
                (record {
                  valid = record {
                    good = o.valid.good;
                    distinct = o.valid.distinct;
                    entries = o.valid.entries;
                    in_flight = o.valid.in_flight;
                    point = o.valid.point;
                    points = o.valid.points;
                  };
                  keyed = ground (arith, o.keyed);
                  pointed = o.pointed;
                  funded = ground (arith, o.funded);
                })
        ]

module _ (c : Channel) (o : IsOpen c) where
  received-IsOpen :
      (point : Bytes)
      → is_confirmable c.state ≡ true
      → IsOpen (record c { counterparty_next_point = some point; channel_ready_received = true })
  received-IsOpen point confirmable = record {
    valid = record {
      good = o.valid.good;
      distinct = o.valid.distinct;
      entries = o.valid.entries;
      in_flight = o.valid.in_flight;
      point = ground arith;
      points = ground (arith, o.keyed, o.pointed);
    };
    keyed = o.keyed;
    pointed = o.pointed;
    funded = o.funded;
  }

  confirmed-IsOpen :
      (scid : ShortChannelId) (sent : Bool)
      → IsOpen (record c {
        short_channel_id = some scid;
        funding_confirmed = true;
        channel_ready_sent = sent;
      })
  confirmed-IsOpen scid sent = record {
    valid = record {
      good = o.valid.good;
      distinct = o.valid.distinct;
      entries = o.valid.entries;
      in_flight = o.valid.in_flight;
      point = o.valid.point;
      points = o.valid.points;
    };
    keyed = o.keyed;
    pointed = o.pointed;
    funded = o.funded;
  }

  pub on_channel_ready-IsOpen : (msg : ChannelReady) → IsOpen (on_channel_ready c msg).0
  unfolding on_channel_ready
  on_channel_ready-IsOpen msg = elim (Bool-cases (is_confirmable c.state)) [
    | inr other ↦ rw (other, on_channel_ready) o
    | inl confirmable ↦
        elim (Bool-cases (ltb 0 c.counterparty_commitment_number || c.awaiting_raa)) [
          | inl late ↦ rw (confirmable, late, on_channel_ready) o
          | inr early ↦
              rw (confirmable, early, on_channel_ready)
                (maybe_become_normal-IsOpen _
                  (received-IsOpen msg.second_per_commitment_point confirmable))
        ]
  ]

  pub funding_confirmed-IsOpen :
      (env : Env) (scid : ShortChannelId) → IsOpen (funding_confirmed_at env c scid).0
  unfolding funding_confirmed_at
  funding_confirmed-IsOpen env scid = elim (Bool-cases (is_confirmable c.state)) [
    | inr other ↦ rw (other, funding_confirmed_at) o
    | inl confirmable ↦ elim (Bool-cases c.channel_ready_sent) [
      | inl sent ↦ rw (confirmable, sent, funding_confirmed_at) (confirmed-IsOpen scid true)
      | inr unsent ↦
          rw (confirmable, unsent, funding_confirmed_at)
            (maybe_become_normal-IsOpen _ (confirmed-IsOpen scid true))
    ]
  ]

abbrev pub is_waiting : Channel → Bool
is_waiting c =
    is_awaiting_channel_ready c.state
    && (not c.channel_ready_sent
        && (not c.channel_ready_received
            && (not (ltb 0 c.counterparty_commitment_number) && not c.awaiting_raa)))

-- A channel whose first commitments are signed waits for both halves: the funding's confirmation and
-- the peer's `channel_ready` make it normal in either order, with the same channel in the end, and one
-- of them alone does not.
pub ready-is_normal :
    (env : Env) (c : Channel) (msg : ChannelReady) (scid : ShortChannelId)
    → is_waiting c ≡ true
    → ((funding_confirmed_at env (on_channel_ready c msg).0 scid).0
        ≡ (on_channel_ready (funding_confirmed_at env c scid).0 msg).0)
      × ((funding_confirmed_at env (on_channel_ready c msg).0 scid).0.state ≡ Data.normal)
      × ((funding_confirmed_at env c scid).0.state ≡ Data.awaiting_channel_ready)
      × ((on_channel_ready c msg).0.state ≡ Data.awaiting_channel_ready)
unfolding on_channel_ready funding_confirmed_at maybe_become_normal
ready-is_normal env c msg scid w = (ground arith, ground arith, ground arith, ground arith)
