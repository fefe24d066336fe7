-- ===== src/Channel/Invariant/Total.antt =====
-- src/channel/dance.rs: where `commitment_signed` and `revoke_and_ack` panic on a valid channel.
use keraunos.Prelude.{
  length, ◌<◌, ◌^◌, ◌&&◌, not, sym, ◌∙◌, false, ◌≡◌, refl, arith, Bool-cases, inl, inr,
}
use keraunos.Channel.Data.{Channel, Result, ok, err, panic, Result-cases}
use keraunos.Shachain.{index_for_commitment}
use keraunos.Shachain.Store.{insert-in_range, index_for_commitment-lt}
use keraunos.Channel.Htlcs.{is_some}
use keraunos.Channel.Env.{Env, PlacesHtlcs}
use keraunos.Channel.Messages.{RevokeAndAck, RaaOutcome, CommitmentSigned}
use keraunos.Channel.Commit.{
  send_commitment_signed, can_send_commitment, sign_next, on_commitment_signed,
}
use keraunos.Channel.Revoke.{
  check_revocation, sign_flushed, on_revoke_and_ack, flush_ops, empty_outcome, collect_forwardable,
  lock_counterparty,
}
use keraunos.Channel.Balance.{gc_htlcs}
use keraunos.Channel.Invariant.{IsValid}
use keraunos.Channel.Invariant.Revokes.{check_revocation_inv}
use keraunos.Channel.Invariant.Flush.{
  is_panic, locked, locked-IsValid, flush_ops-IsValid, HasRoomFor,
}
use keraunos.Channel.Invariant.Panics.{sign_next-no_panic, verify_next-no_panic}

-- Exactly one check of `on_revoke_and_ack` panics: the `expect` on the secret as a key.
check_revocation-is_panic :
    (env : Env) (c : Channel) (msg : RevokeAndAck)
    → IsValid c
    → length c.counterparty_secrets ≡ 49
    → c.counterparty_commitment_number < 2 ^ 48
    → is_panic (check_revocation env c msg)
      ≡ (c.awaiting_raa && not (is_some (env.secret_point msg.per_commitment_secret)))
unfolding check_revocation
check_revocation-is_panic env c msg v slots bits =
    let in_range =
      insert-in_range env.sha256 c.counterparty_secrets
        (index_for_commitment c.counterparty_commitment_number) msg.per_commitment_secret slots
        (index_for_commitment-lt c.counterparty_commitment_number bits) in
    ground (arith, v.in_flight, v.point, v.points)

module _ (env : Env) (places : PlacesHtlcs env) where
  -- On any channel, sending and receiving `commitment_signed` returns a message or an error, if the
  -- builder of commitments places every HTLC that it lists.
  pub commitment_signed-no_panic :
      (c : Channel) (msg : CommitmentSigned)
      → (is_panic (send_commitment_signed env c).1 ≡ false)
        × (is_panic (on_commitment_signed env c msg).1 ≡ false)
  unfolding send_commitment_signed on_commitment_signed
  commitment_signed-no_panic c msg = (
    elim (Result-cases (sign_next env c)) [
      | inl ((m, s), e) ↦ rw (e, send_commitment_signed) refl
      | inr failed ↦ ground (arith, sign_next-no_panic env places c)
    ],
    ground (arith, verify_next-no_panic env places c msg),
  )

  sign_flushed-no_panic :
      (r : Channel × Result RaaOutcome)
      → is_panic r.1 ≡ false
      → is_panic (sign_flushed env r).1 ≡ false
  unfolding sign_flushed send_commitment_signed
  sign_flushed-no_panic (c, err e) h = refl
  sign_flushed-no_panic (c, panic) h = absurd (ground arith)
  sign_flushed-no_panic (c, ok out) h = elim (Bool-cases (can_send_commitment c)) [
    | inr quiet ↦ rw (quiet, sign_flushed) refl
    | inl signs ↦
        rw (signs, sign_flushed)
          (elim (Result-cases (sign_next env c)) [
            | inl ((m, s), e) ↦ rw (e, send_commitment_signed) refl
            | inr failed ↦ ground (arith, sign_next-no_panic env places c)
          ])
  ]

  -- On a valid channel `revoke_and_ack` panics exactly if one is awaited and its secret is no key,
  -- which the `expect("valid secret")` of `keys::per_commitment_point` meets. This is for a store with
  -- its 49 slots, fewer than 2 ^ 48 commitments, room for the numbers of the waiting updates, and a
  -- builder of commitments that places every HTLC that it lists.
  pub on_revoke_and_ack-is_panic :
      (c : Channel) (msg : RevokeAndAck)
      → IsValid c
      → HasRoomFor c.next_holder_htlc_id c.holding_cell
      → length c.counterparty_secrets ≡ 49
      → c.counterparty_commitment_number < 2 ^ 48
      → is_panic (on_revoke_and_ack env c msg).1
        ≡ (c.awaiting_raa && not (is_some (env.secret_point msg.per_commitment_secret)))
  unfolding on_revoke_and_ack locked
  on_revoke_and_ack-is_panic c msg v room slots bits =
      let checked = check_revocation-is_panic env c msg v slots bits in
      elim (Result-cases (check_revocation env c msg)) [
        | inr failed ↦ ground (arith, checked)
        | inl ((s, secrets), e) ↦
            let next = msg.next_per_commitment_point in
            let (waiting, taken) = check_revocation_inv env c msg s secrets e in
            let start = locked-IsValid c s secrets next v waiting taken in
            let out =
              empty_outcome
                (collect_forwardable (gc_htlcs (lock_counterparty c s secrets next))).1 in
            let passed : (c.awaiting_raa
                  && not (is_some (env.secret_point msg.per_commitment_secret)))
                ≡ false =
              sym checked ∙ rw e refl in
            rw (passed, e, on_revoke_and_ack)
              (sign_flushed-no_panic (flush_ops env (locked c s secrets next) c.holding_cell out)
                (flush_ops-IsValid env (locked c s secrets next) c.holding_cell out start refl
                  room).2)
      ]
