-- ===== src/Channel/Messages.antt =====
-- src/channel/dance.rs: what `revoke_and_ack` triggers, and the messages of src/wire/msgs.rs that the
-- dance uses.
use keraunos.Prelude.{ℕ, List, Option, Bytes, String}
use keraunos.Types.{Msat}
use keraunos.Channel.Data.{HtlcSource}
pub use keraunos.Wire.Msgs.Data.{
  UpdateAddHtlc, UpdateFulfillHtlc, UpdateFailHtlc, UpdateFailMalformedHtlc, CommitmentSigned,
  RevokeAndAck, UpdateFee, Message, update_add_htlc, update_fulfill_htlc, update_fail_htlc,
  update_fail_malformed_htlc,
}

pub record CommittedInboundHtlc : Type 0 where
  pub id : ℕ
  pub amount_msat : Msat
  pub payment_hash : Bytes
  pub cltv_expiry : ℕ
  pub onion : Bytes

pub record RaaOutcome : Type 0 where
  pub messages : List Message
  pub commitment_signed : Option CommitmentSigned
  pub forwardable : List CommittedInboundHtlc
  pub failed_adds : List (HtlcSource × String)
