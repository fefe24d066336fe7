-- ===== src/Channel/Invariant/Steps.antt =====
-- Any sequence of messages and commands of the dance keeps the invariant.
use keraunos.Prelude.{ℕ, Bytes}
use keraunos.Types.{Msat, FeeRatePerKw}
use keraunos.Channel.Data.{Channel, HtlcSource}
use keraunos.Channel.Env.{Env}
use keraunos.Channel.Messages.{
  UpdateAddHtlc, UpdateFulfillHtlc, UpdateFailHtlc, UpdateFailMalformedHtlc, UpdateFee,
  CommitmentSigned, RevokeAndAck,
}
use keraunos.Channel.Send.{
  send_add_htlc, send_fulfill_htlc, send_fail_htlc, send_fail_malformed_htlc, send_update_fee,
}
use keraunos.Channel.Receive.{
  on_update_add_htlc, on_update_fulfill_htlc, on_update_fail_htlc, on_update_fail_malformed_htlc,
  on_update_fee,
}
use keraunos.Channel.Commit.{send_commitment_signed, on_commitment_signed}
use keraunos.Channel.Revoke.{on_revoke_and_ack}
use keraunos.Channel.Invariant.{IsValid}
use keraunos.Channel.Invariant.Updates.{
  HasRoom, send_add_htlc-IsValid, send_fulfill_htlc-IsValid, send_fail_htlc-IsValid,
  send_fail_malformed_htlc-IsValid, send_update_fee-IsValid, on_update_add_htlc-IsValid,
  on_update_fulfill_htlc-IsValid, on_update_fail_htlc-IsValid,
  on_update_fail_malformed_htlc-IsValid, on_update_fee-IsValid,
}
use keraunos.Channel.Invariant.Commits.{
  send_commitment_signed-IsValid, on_commitment_signed-IsValid,
}
use keraunos.Channel.Invariant.Flush.{HasRoomFor, on_revoke_and_ack-IsValid}

-- A command of the node or a message of the peer, whatever its outcome. Where an HTLC may be numbered,
-- the 64-bit counter has room for it.
pub data Step (env : Env) (c : Channel) : Channel → Type 0 where
  sends_add :
      (amount : Msat) (hash : Bytes) (cltv : ℕ) (onion : Bytes) (source : HtlcSource)
      → HasRoom c.next_holder_htlc_id
      → Step env c (send_add_htlc c amount hash cltv onion source).0
  sends_fulfill : (id : ℕ) (preimage : Bytes) → Step env c (send_fulfill_htlc env c id preimage).0
  sends_fail : (id : ℕ) (reason : Bytes) → Step env c (send_fail_htlc c id reason).0
  sends_fail_malformed :
      (id : ℕ) (sha : Bytes) (code : ℕ) → Step env c (send_fail_malformed_htlc c id sha code).0
  sends_fee : (feerate : FeeRatePerKw) → Step env c (send_update_fee c feerate).0
  signs : Step env c (send_commitment_signed env c).0
  gets_add :
      (msg : UpdateAddHtlc)
      → HasRoom c.next_counterparty_htlc_id
      → Step env c (on_update_add_htlc c msg).0
  gets_fulfill : (msg : UpdateFulfillHtlc) → Step env c (on_update_fulfill_htlc env c msg).0
  gets_fail : (msg : UpdateFailHtlc) → Step env c (on_update_fail_htlc c msg).0
  gets_fail_malformed :
      (msg : UpdateFailMalformedHtlc) → Step env c (on_update_fail_malformed_htlc c msg).0
  gets_fee : (msg : UpdateFee) → Step env c (on_update_fee c msg).0
  gets_commitment : (msg : CommitmentSigned) → Step env c (on_commitment_signed env c msg).0
  gets_revocation :
      (msg : RevokeAndAck)
      → HasRoomFor c.next_holder_htlc_id c.holding_cell
      → Step env c (on_revoke_and_ack env c msg).0

pub data Reach (env : Env) (c : Channel) : Channel → Type 0 where
  here : Reach env c c
  next : {d e : Channel} → Reach env c d → Step env d e → Reach env c e

pub Step-IsValid : {env : Env} {c d : Channel} → Step env c d → IsValid c → IsValid d
Step-IsValid {env} {c} (sends_add amount hash cltv onion source room) v =
    send_add_htlc-IsValid c v amount hash cltv onion source room
Step-IsValid {env} {c} (sends_fulfill id preimage) v = send_fulfill_htlc-IsValid c v env id preimage
Step-IsValid {env} {c} (sends_fail id reason) v = send_fail_htlc-IsValid c v id reason
Step-IsValid {env} {c} (sends_fail_malformed id sha code) v =
    send_fail_malformed_htlc-IsValid c v id sha code
Step-IsValid {env} {c} (sends_fee feerate) v = send_update_fee-IsValid c v feerate
Step-IsValid {env} {c} signs v = send_commitment_signed-IsValid env c v
Step-IsValid {env} {c} (gets_add msg room) v = on_update_add_htlc-IsValid c v msg room
Step-IsValid {env} {c} (gets_fulfill msg) v = on_update_fulfill_htlc-IsValid c v env msg
Step-IsValid {env} {c} (gets_fail msg) v = on_update_fail_htlc-IsValid c v msg
Step-IsValid {env} {c} (gets_fail_malformed msg) v = on_update_fail_malformed_htlc-IsValid c v msg
Step-IsValid {env} {c} (gets_fee msg) v = on_update_fee-IsValid c v msg
Step-IsValid {env} {c} (gets_commitment msg) v = on_commitment_signed-IsValid env c msg v
Step-IsValid {env} {c} (gets_revocation msg room) v = on_revoke_and_ack-IsValid env c msg v room

-- From a valid channel every sequence of updates, `commitment_signed` and `revoke_and_ack`, sent or
-- received, accepted or refused, leads to a valid channel, as long as the HTLC counters have room.
pub Reach-IsValid : {env : Env} {c d : Channel} → Reach env c d → IsValid c → IsValid d
Reach-IsValid here v = v
Reach-IsValid (next r s) v = Step-IsValid s (Reach-IsValid r v)
