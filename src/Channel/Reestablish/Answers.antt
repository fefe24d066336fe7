-- ===== src/Channel/Reestablish/Answers.antt =====
-- src/channel/reestablish.rs: what is sent again, and the secrets that it reveals.
use keraunos.Prelude.{
  ℕ, ◌-◌, ◌<◌, ◌≡◌, refl, sym, ap, arith, List, [], ◌∷◌, ◌++◌, All, All-append, Bool, true, false,
  Bool-cases, Option, none, some, inl, inr, ◌⊎◌, Bytes, add64, ltb, ◌==◌, ◌&&◌, if◌then◌else◌,
}
use keraunos.Types.{FeeRatePerKw}
use mathlib.Core.Path.{subst}
use Prim.Native.Nat.{compare}
use keraunos.Prelude.Sort.{sort_by}
use keraunos.Wire.Msgs.Data.{
  ChannelReestablish, Message, RevokeAndAck, revoke_and_ack, commitment_signed,
}
use keraunos.Channel.Data.{
  Channel, Htlc, HtlcResolution, fulfill, fail, fail_malformed, Result, ok, ok_or, invalid_state,
  text, expect, >>=-eq-ok, PendingCounterpartyCommitment,
}
use keraunos.Channel.Env.{Env}
use keraunos.Channel.Build.{build_counterparty_commitment_at, sign_counterparty_commitment_tx}
use keraunos.Channel.Commit.{sign_htlcs}
use keraunos.Channel.Reestablish.{
  ReestablishActions, answer_revocations, check_proof, find_all, add_messages, removal_message,
  removal_messages, fee_messages, covered_updates, sign_again, answer_commitments, answer_ready,
  unless_lost, on_channel_reestablish,
}

-- A `revoke_and_ack` reveals the secret of the commitment before the current one, which there is.
abbrev pub IsPast : Env → Channel → Message → Type 0
IsPast env c (revoke_and_ack m) =
    (0 < c.holder_commitment_number)
    × (m.per_commitment_secret ≡ env.release_commitment_secret (c.holder_commitment_number - 1))
IsPast env c _ = Unit {0}

ok-inj {ℓ} : {A : Type ℓ} {a b : A} → ◌≡◌ {A = Result A} (ok a) (ok b) → a ≡ b
ok-inj h = cc

either {ℓ} : {A : Type ℓ} (b : Bool) (x y z : A) → (if b then x else y) ≡ z → (x ≡ z) ⊎ (y ≡ z)
either true x y z h = inl h
either false x y z h = inr h

module _ (env : Env) (c : Channel) where
  add_messages-IsPast : (id : Bytes) (hs : List Htlc) → All (IsPast env c) (add_messages id hs)
  unfolding add_messages
  add_messages-IsPast id [] = tt
  add_messages-IsPast id (h ∷ hs) = (tt, add_messages-IsPast id hs)

  removal_message-IsPast :
      (id : Bytes) (n : ℕ) (r : Option HtlcResolution) → All (IsPast env c) (removal_message id n r)
  unfolding removal_message
  removal_message-IsPast id n none = tt
  removal_message-IsPast id n (some (fulfill p)) = (tt, tt)
  removal_message-IsPast id n (some (fail r)) = (tt, tt)
  removal_message-IsPast id n (some (fail_malformed sha code)) = (tt, tt)

  removal_messages-IsPast :
      (id : Bytes) (hs : List Htlc) → All (IsPast env c) (removal_messages id hs)
  unfolding removal_messages
  removal_messages-IsPast id [] = tt
  removal_messages-IsPast id (h ∷ hs) =
      All-append (IsPast env c) (removal_message id h.id h.resolution) (removal_messages id hs)
        (removal_message-IsPast id h.id h.resolution) (removal_messages-IsPast id hs)

  fee_messages-IsPast :
      (id : Bytes) (fee : Option FeeRatePerKw) → All (IsPast env c) (fee_messages id fee)
  unfolding fee_messages
  fee_messages-IsPast id none = tt
  fee_messages-IsPast id (some fee) = (tt, tt)

  covered_updates-IsPast :
      (s : PendingCounterpartyCommitment) → All (IsPast env c) (covered_updates c s)
  unfolding covered_updates
  covered_updates-IsPast s =
      let adds = sort_by (λ a b. compare a.id b.id) (find_all true s.included c.htlcs) in
      let removals = find_all false s.removed c.htlcs in
      All-append (IsPast env c) (add_messages c.channel_id adds)
        (removal_messages c.channel_id removals ++ fee_messages c.channel_id s.fee_update)
        (add_messages-IsPast c.channel_id adds)
        (All-append (IsPast env c) (removal_messages c.channel_id removals)
          (fee_messages c.channel_id s.fee_update) (removal_messages-IsPast c.channel_id removals)
          (fee_messages-IsPast c.channel_id s.fee_update))

  again : RevokeAndAck
  again = record {
    channel_id = c.channel_id;
    per_commitment_secret = env.release_commitment_secret (c.holder_commitment_number - 1);
    next_per_commitment_point = env.per_commitment_point (add64 c.holder_commitment_number 1);
  }

  answer_revocations-messages :
      (msg : ChannelReestablish) (a : ReestablishActions)
      → answer_revocations env c msg ≡ ok a
      → ((a.messages ≡ revoke_and_ack again ∷ []) × (0 < c.holder_commitment_number))
        ⊎ (a.messages ≡ [])
  unfolding answer_revocations again
  answer_revocations-messages msg a h =
      elim (Bool-cases (
        msg.next_revocation_number == c.holder_commitment_number - 1
        && ltb 0 c.holder_commitment_number)) [
          | inl resend ↦ inl (ground arith)
          | inr other ↦ inr (ground arith)
        ]

  answer_revocations-IsPast :
      (msg : ChannelReestablish) (a : ReestablishActions)
      → answer_revocations env c msg ≡ ok a
      → All (IsPast env c) a.messages
  answer_revocations-IsPast msg a h = elim (answer_revocations-messages msg a h) [
    | inl (e, some_revoked) ↦
        subst (All (IsPast env c)) (sym e) ((some_revoked, unfold again in refl), tt)
    | inr e ↦ subst (All (IsPast env c)) (sym e) tt
  ]

  answer_commitments-messages :
      (msg : ChannelReestablish) (messages : List Message) (a : ReestablishActions)
      → answer_commitments env c msg messages ≡ ok a
      → ((s : PendingCounterpartyCommitment) × (signed : Message) × (sign_again env c ≡ ok signed)
          × (a.messages ≡ messages ++ (covered_updates c s ++ signed ∷ [])))
        ⊎ (a.messages ≡ messages)
  unfolding answer_commitments
  answer_commitments-messages msg messages a h =
      elim (Bool-cases (
        msg.next_commitment_number
          == add64 c.counterparty_commitment_number (if c.awaiting_raa then 1 else 0)
        && c.awaiting_raa)) [
          | inl resend ↦
              let (s, found, rest) =
                >>=-eq-ok (expect c.pending_counterparty_commitment) _ (rw resend at h) in
              let (signed, same, built) = >>=-eq-ok (sign_again env c) _ rest in
              inl (s, signed, same, sym (ap (λ t. t.messages) (ok-inj built)))
          | inr other ↦ inr (ground arith)
        ]

  sign_again-IsPast : (signed : Message) → sign_again env c ≡ ok signed → IsPast env c signed
  unfolding sign_again
  sign_again-IsPast signed h =
      let missing = invalid_state (text "missing next point on reestablish") in
      let number = add64 c.counterparty_commitment_number 1 in
      let (point, e1, h1) = >>=-eq-ok (ok_or c.counterparty_next_point missing) _ h in
      let (t, e2, h2) = >>=-eq-ok (build_counterparty_commitment_at env c number point) _ h1 in
      let (signature, e3, h3) = >>=-eq-ok (sign_counterparty_commitment_tx env c t.0) _ h2 in
      let (sigs, e4, h4) =
        >>=-eq-ok
          (sign_htlcs env t.0 t.1 t.2 c.params.holder_selected_delay c.feerate_counterparty point
            t.0.htlcs_in_output_order)
          _ h3 in
      subst (IsPast env c)
        {x = commitment_signed
          (record { channel_id = c.channel_id; signature = signature; htlc_signatures = sigs })}
        (ok-inj h4) tt

  answer_ready-IsPast :
      (msg : ChannelReestablish) (a : ReestablishActions)
      → All (IsPast env c) a.messages
      → All (IsPast env c) (answer_ready env c msg a).messages
  unfolding answer_ready
  answer_ready-IsPast msg a h =
      elim (Bool-cases (
        msg.next_commitment_number == 1
        && (c.holder_commitment_number == 0 && c.channel_ready_sent))) [
          | inl fresh ↦ rw fresh (tt, h)
          | inr other ↦ rw other h
        ]

  unless_lost-cases :
      (a b : ReestablishActions) (next : Result ReestablishActions)
      → unless_lost a next ≡ ok b
      → (a ≡ b) ⊎ (next ≡ ok b)
  unfolding unless_lost
  unless_lost-cases a b next h = elim (either a.data_loss_detected (ok a) next (ok b) h) [
    | inl stop ↦ inl (ok-inj stop)
    | inr more ↦ inr more
  ]

  answer_commitments-IsPast :
      (msg : ChannelReestablish) (messages : List Message) (a : ReestablishActions)
      → All (IsPast env c) messages
      → answer_commitments env c msg messages ≡ ok a
      → All (IsPast env c) a.messages
  answer_commitments-IsPast msg messages a past h =
      elim (answer_commitments-messages msg messages a h) [
        | inr e ↦ subst (All (IsPast env c)) (sym e) past
        | inl (s, signed, same, e) ↦ subst (All (IsPast env c)) (sym e) (
            All-append (IsPast env c) messages (covered_updates c s ++ signed ∷ []) past (
              All-append (IsPast env c) (covered_updates c s) (signed ∷ [])
                (covered_updates-IsPast s) (sign_again-IsPast signed same, tt)))
      ]

  -- Answering a `channel_reestablish` never reveals the secret of the current commitment: a
  -- `revoke_and_ack` among the messages that are sent again has the secret of the commitment before it.
  pub on_channel_reestablish-IsPast :
      (msg : ChannelReestablish) (a : ReestablishActions)
      → on_channel_reestablish env c msg ≡ ok a
      → All (IsPast env c) a.messages
  unfolding on_channel_reestablish
  on_channel_reestablish-IsPast msg a h =
      let (revoked, e1, h1) = >>=-eq-ok (answer_revocations env c msg) _ h in
      let past = answer_revocations-IsPast msg revoked e1 in
      elim (unless_lost-cases revoked a _ h1) [
        | inl stop ↦ subst (λ t. All (IsPast env c) t.messages) stop past
        | inr h2 ↦
            let (checked, e2, h3) = >>=-eq-ok (check_proof env msg) _ h2 in
            let (actions, e4, h4) =
              >>=-eq-ok (answer_commitments env c msg revoked.messages) _ h3 in
            let past' = answer_commitments-IsPast msg revoked.messages actions past e4 in
            elim (unless_lost-cases actions a _ h4) [
              | inl stop ↦ subst (λ t. All (IsPast env c) t.messages) stop past'
              | inr h5 ↦
                  subst (λ t. All (IsPast env c) t.messages) (ok-inj h5)
                    (answer_ready-IsPast msg actions past')
            ]
      ]
