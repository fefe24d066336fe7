-- ===== src/Channel/Reestablish.antt =====
-- src/channel/reestablish.rs: `channel_reestablish`, made and answered.
pub mod Answers
pub mod Examples
pub mod InStep
use Prim.Native.Nat.{compare}
use keraunos.Prelude.{
  ℕ, ◌-◌, Bool, true, false, not, ◌&&◌, ◌==◌, ltb, if◌then◌else◌, List, [], ◌∷◌, ◌++◌, Option, none,
  some, Bytes, bytes_eq, replicate, add64,
}
use keraunos.Prelude.Sort.{sort_by}
use keraunos.Types.{FeeRatePerKw}
use keraunos.Shachain.{index_for_commitment, secret_for}
use keraunos.Wire.Msgs.Data.{
  ChannelReestablish, Message, revoke_and_ack, update_add_htlc, update_fulfill_htlc,
  update_fail_htlc, update_fail_malformed_htlc, update_fee, commitment_signed, channel_ready,
}
use keraunos.Channel.Data.{
  Channel, Htlc, HtlcResolution, fulfill, fail, fail_malformed, Result, ok, err, panic, text, close,
  invalid_state, ◌>>=◌, ◌>>◌, deny, expect, ok_or, PendingCounterpartyCommitment,
}
use keraunos.Channel.Env.{Env}
use keraunos.Channel.Htlcs.{find_htlc}
use keraunos.Channel.Build.{build_counterparty_commitment_at, sign_counterparty_commitment_tx}
use keraunos.Channel.Commit.{sign_htlcs}

pub record ReestablishActions : Type 0 where
  pub messages : List Message
  pub data_loss_detected : Bool

abbrev pub no_secret : Bytes
no_secret = replicate 32 0

unfoldable pub last_secret : Env → Channel → Bytes
unfolding secret_for index_for_commitment
last_secret env c =
    if c.counterparty_commitment_number == 0
    then no_secret
    else elim (secret_for env.sha256 c.counterparty_secrets
        (index_for_commitment (c.counterparty_commitment_number - 1))) [
          | none ↦ no_secret
          | some secret ↦ secret
        ]

unfoldable pub make_channel_reestablish : Env → Channel → ChannelReestablish
unfolding last_secret
make_channel_reestablish env c = record {
  channel_id = c.channel_id;
  next_commitment_number = add64 c.holder_commitment_number 1;
  next_revocation_number = c.counterparty_commitment_number;
  your_last_per_commitment_secret = last_secret env c;
  my_current_per_commitment_point = env.per_commitment_point c.holder_commitment_number;
}

abbrev pub sends : List Message → ReestablishActions
sends messages = record { messages = messages; data_loss_detected = false }

abbrev pub lost : List Message → ReestablishActions
lost messages = record { messages = messages; data_loss_detected = true }

-- Their view of our revocations.
unfoldable pub answer_revocations : Env → Channel → ChannelReestablish → Result ReestablishActions
answer_revocations env c msg =
    let ours = c.holder_commitment_number in
    if msg.next_revocation_number == ours - 1 && ltb 0 ours
    then ok (
        sends (
          revoke_and_ack (record {
            channel_id = c.channel_id;
            per_commitment_secret = env.release_commitment_secret (ours - 1);
            next_per_commitment_point = env.per_commitment_point (add64 ours 1);
          })
          ∷ []))
    else if ltb ours msg.next_revocation_number
    then ok (lost [])
    else if not (msg.next_revocation_number == ours)
    then err (close (text "peer requests an ancient revocation; unrecoverable"))
    else ok (sends [])

-- Their proof of our last released secret.
unfoldable pub check_proof : Env → ChannelReestablish → Result (Unit {0})
check_proof env msg =
    if ltb 0 msg.next_revocation_number
    then deny
        (not (
          bytes_eq msg.your_last_per_commitment_secret
            (env.release_commitment_secret (msg.next_revocation_number - 1))))
        (close (text "peer presented incorrect last per-commitment secret"))
    else deny (not (bytes_eq msg.your_last_per_commitment_secret no_secret))
        (close (text "peer presented a secret before any revocation"))

-- The HTLCs that a list of the snapshot names, those of the side wanted.
unfoldable pub find_all : Bool → List (Bool × ℕ) → List Htlc → List Htlc
unfolding find_htlc
find_all wanted [] hs = []
find_all wanted ((outbound, id) ∷ ids) hs =
    let rest = find_all wanted ids hs in
    if (if wanted then outbound else not outbound)
    then elim (find_htlc outbound id hs) [ none ↦ rest | some h ↦ h ∷ rest ]
    else rest

unfoldable pub add_messages : Bytes → List Htlc → List Message
add_messages channel_id [] = []
add_messages channel_id (h ∷ hs) =
    update_add_htlc (record {
      channel_id = channel_id;
      id = h.id;
      amount_msat = h.amount_msat;
      payment_hash = h.payment_hash;
      cltv_expiry = h.cltv_expiry;
      onion_routing_packet = h.onion;
    })
    ∷ add_messages channel_id hs

unfoldable pub removal_message : Bytes → ℕ → Option HtlcResolution → List Message
removal_message channel_id id none = []
removal_message channel_id id (some (fulfill p)) =
    update_fulfill_htlc (record { channel_id = channel_id; id = id; payment_preimage = p }) ∷ []
removal_message channel_id id (some (fail r)) =
    update_fail_htlc (record { channel_id = channel_id; id = id; reason = r }) ∷ []
removal_message channel_id id (some (fail_malformed sha code)) =
    update_fail_malformed_htlc
      (record { channel_id = channel_id; id = id; sha256_of_onion = sha; failure_code = code })
    ∷ []

unfoldable pub removal_messages : Bytes → List Htlc → List Message
unfolding removal_message
removal_messages channel_id [] = []
removal_messages channel_id (h ∷ hs) =
    removal_message channel_id h.id h.resolution ++ removal_messages channel_id hs

unfoldable pub fee_messages : Bytes → Option FeeRatePerKw → List Message
fee_messages channel_id none = []
fee_messages channel_id (some fee) =
    update_fee (record { channel_id = channel_id; feerate_per_kw = fee }) ∷ []

-- The updates that the lost commitment covered, the adds in order of their numbers.
unfoldable pub covered_updates : Channel → PendingCounterpartyCommitment → List Message
unfolding find_all sort_by add_messages removal_messages fee_messages
covered_updates c snapshot =
    add_messages c.channel_id
      (sort_by (λ a b. compare a.id b.id) (find_all true snapshot.included c.htlcs))
    ++ (removal_messages c.channel_id (find_all false snapshot.removed c.htlcs)
        ++ fee_messages c.channel_id snapshot.fee_update)

unfoldable pub sign_again : Env → Channel → Result Message
unfolding build_counterparty_commitment_at sign_counterparty_commitment_tx sign_htlcs
sign_again env c = do
  let number = add64 c.counterparty_commitment_number 1
  point ← ok_or c.counterparty_next_point (invalid_state (text "missing next point on reestablish"))
  (built, keys, htlcs) ← build_counterparty_commitment_at env c number point
  signature ← sign_counterparty_commitment_tx env c built
  htlc_signatures ←
      sign_htlcs env built keys htlcs c.params.holder_selected_delay c.feerate_counterparty point
        built.htlcs_in_output_order
  ok (
      commitment_signed (record {
        channel_id = c.channel_id;
        signature = signature;
        htlc_signatures = htlc_signatures;
      }))

-- Their view of our `commitment_signed`.
unfoldable pub answer_commitments :
    Env → Channel → ChannelReestablish → List Message → Result ReestablishActions
unfolding covered_updates sign_again
answer_commitments env c msg messages =
    let our_last_sent = add64 c.counterparty_commitment_number (if c.awaiting_raa then 1 else 0) in
    if msg.next_commitment_number == our_last_sent && c.awaiting_raa
    then (expect c.pending_counterparty_commitment >>= λ snapshot. sign_again env c >>= λ signed.
        ok (sends (messages ++ (covered_updates c snapshot ++ signed ∷ []))))
    else if msg.next_commitment_number == add64 our_last_sent 1
    then ok (sends messages)
    else if ltb (add64 our_last_sent 1) msg.next_commitment_number
    then ok (lost messages)
    else err (close (text "peer expects an ancient commitment; unrecoverable"))

-- `channel_ready` again, in front, on a channel with no exchange yet.
unfoldable pub answer_ready :
    Env → Channel → ChannelReestablish → ReestablishActions → ReestablishActions
answer_ready env c msg actions =
    if msg.next_commitment_number == 1 && (c.holder_commitment_number == 0 && c.channel_ready_sent)
    then sends (
        channel_ready (record {
          channel_id = c.channel_id;
          second_per_commitment_point = env.per_commitment_point 1;
          short_channel_id_alias = none;
        })
        ∷ actions.messages)
    else actions

-- With data lost the source returns at once.
unfoldable pub unless_lost :
    ReestablishActions → Result ReestablishActions → Result ReestablishActions
unless_lost actions next = if actions.data_loss_detected then ok actions else next

unfoldable pub on_channel_reestablish :
    Env → Channel → ChannelReestablish → Result ReestablishActions
unfolding answer_revocations check_proof answer_commitments answer_ready unless_lost
on_channel_reestablish env c msg = answer_revocations env c msg >>= λ revoked. unless_lost revoked (
    check_proof env msg >>= λ checked. answer_commitments env c msg revoked.messages >>= λ actions.
    unless_lost actions (ok (answer_ready env c msg actions)))
