-- ===== src/Channel/Close/Exchange.antt =====
-- src/channel/close.rs: what an exchange of `shutdown` leaves.
use keraunos.Prelude.{true, ◌≡◌, arith, Option, some, Bytes}
use keraunos.Bitcoin.Script.{is_witness_program}
use keraunos.Channel.Data.{Channel, ChannelState, ok, shutting_down}
use keraunos.Wire.Msgs.Data.{Shutdown}
use keraunos.Channel.Close.{send_shutdown, reciprocate, on_shutdown, may_shut_down, shut_down_open}

shut_down_open-state :
    (s : ChannelState) → may_shut_down s ≡ true → shut_down_open s ≡ shutting_down
shut_down_open-state s h = ground arith

-- A `shutdown` that is accepted leaves the channel shutting down, with the peer's script stored,
-- which is a witness program, and both flags set.
pub on_shutdown-both :
    (c : Channel) (msg : Shutdown) (our_script : Bytes) (answer : Option Shutdown)
    → (on_shutdown c msg our_script).1 ≡ ok answer
    → ((on_shutdown c msg our_script).0.state ≡ shutting_down)
      × ((on_shutdown c msg our_script).0.shutdown_received ≡ true)
      × ((on_shutdown c msg our_script).0.shutdown_sent ≡ true)
      × ((on_shutdown c msg our_script).0.counterparty_shutdown_script ≡ some msg.scriptpubkey)
      × (is_witness_program msg.scriptpubkey ≡ true)
unfolding on_shutdown reciprocate send_shutdown
on_shutdown-both c msg our_script answer h = ground arith
