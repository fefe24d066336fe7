-- ===== src/Channel/Promises.antt =====
-- src/channel/dance.rs: what the commitment dance promises about signatures, secrets and forwarding.
use keraunos.Prelude.{
  length, ◌≢◌, ℕ, ◌+◌, ◌<◌, true, false, ◌≡◌, refl, ap, ◌∙◌, add64-eq, arith, ◌⊎◌, inl, inr, List,
  [], ◌∷◌, some, Bytes, bytes_eq, add64, sub64, u64_mod, Bool-cases, Option-cases,
}
use keraunos.Shachain.{SecretStore, inserted, insert, index_for_commitment}
use keraunos.Channel.Data.{
  Channel, Htlc, HolderCommitment, PendingCounterpartyCommitment, Result, ok, err, text,
  invalid_state, Result-cases, committed, >>=-eq-ok,
}
use keraunos.Channel.Env.{Env}
use keraunos.Channel.Messages.{CommitmentSigned, RevokeAndAck, RaaOutcome, CommittedInboundHtlc}
use keraunos.Channel.Balance.{gc_htlcs}
use keraunos.Channel.Build.{verify_counterparty_funding_sig, build_holder_commitment_at}
use keraunos.Channel.Htlcs.{is_some}
use keraunos.Channel.Data.{pending, removing}
use keraunos.Channel.Commit.{
  ids_in, htlc_sighash, can_send_commitment, sign_next, send_commitment_signed, verify_next,
  verify_htlc_sigs, accept_commitment, on_commitment_signed,
}
use keraunos.Channel.Revoke.{
  committed_inbound, is_forwardable, forwardable_of, mark_processed, collect_forwardable,
  check_revocation, on_revoke_and_ack,
}

send_commitment_signed-waits :
    (env : Env) (c : Channel)
    → c.awaiting_raa ≡ true
    → send_commitment_signed env c ≡ (c, err (invalid_state (text "commitment already in flight")))
unfolding send_commitment_signed sign_next
send_commitment_signed-waits env c waits = ground arith

sign_next-ids_in :
    (env : Env) (c : Channel) (msg : CommitmentSigned) (snapshot : PendingCounterpartyCommitment)
    → sign_next env c ≡ ok (msg, snapshot)
    → (snapshot.included ≡ ids_in pending c.htlcs) × (snapshot.removed ≡ ids_in removing c.htlcs)
unfolding sign_next
sign_next-ids_in env c msg snapshot e = (ground arith, ground arith)

-- If a `commitment_signed` goes out, a snapshot is kept of the HTLCs that it adds on the peer's side
-- and of those that it removes there, nothing more can be signed, and the next call is an error that
-- changes nothing; otherwise the answer is no message and the channel is unchanged.
pub send_commitment_signed-once :
    (env : Env) (c : Channel)
    → ((msg : CommitmentSigned) × (snapshot : PendingCounterpartyCommitment)
        × (send_commitment_signed env c).1 ≡ ok msg
        × (send_commitment_signed env c).0.pending_counterparty_commitment ≡ some snapshot
        × (snapshot.included ≡ ids_in pending c.htlcs)
        × (snapshot.removed ≡ ids_in removing c.htlcs)
        × can_send_commitment (send_commitment_signed env c).0 ≡ false
        × (send_commitment_signed env (send_commitment_signed env c).0 ≡ (
          (send_commitment_signed env c).0,
          err (invalid_state (text "commitment already in flight")),
        )))
      ⊎ (((send_commitment_signed env c).0 ≡ c)
          × ((msg : CommitmentSigned) → (send_commitment_signed env c).1 ≢ ok msg))
unfolding send_commitment_signed can_send_commitment sign_next
send_commitment_signed-once env c = elim (Result-cases (sign_next env c)) [
  | inl ((msg, snapshot), e) ↦ inl (
    msg,
    snapshot,
    rw (e, send_commitment_signed) refl,
    rw (e, send_commitment_signed) refl,
    (sign_next-ids_in env c msg snapshot e).0,
    (sign_next-ids_in env c msg snapshot e).1,
    rw (e, send_commitment_signed) (ground arith),
    send_commitment_signed-waits env (send_commitment_signed env c).0
        (rw (e, send_commitment_signed) refl),
  )
  | inr failed ↦ inr (ground arith, λ msg sent. ground arith)
]

forwardable_of-processed : (hs : List Htlc) → forwardable_of (mark_processed hs) ≡ []
unfolding forwardable_of mark_processed is_forwardable
forwardable_of-processed [] = refl
forwardable_of-processed (h ∷ hs) = elim (Bool-cases (is_forwardable h)) [
  | inl handed ↦ rw handed (ground (arith, forwardable_of-processed hs))
  | inr kept ↦ rw (kept, kept) (forwardable_of-processed hs)
]

-- An HTLC that is to be handed over: inbound, committed on both sides, and neither resolved nor
-- handed over before.
pub record IsReady (h : Htlc) : Type 0 where
  pub is_inbound : h.outbound ≡ false
  pub ours : h.phase_holder ≡ committed
  pub theirs : h.phase_counterparty ≡ committed
  pub unresolved : is_some h.resolution ≡ false
  pub fresh : h.processed ≡ false

-- The HTLCs before and after, and what is handed over, in order: what is ready is marked and handed
-- over, and what is not stays as it is.
pub data Collected : List Htlc → List Htlc → List CommittedInboundHtlc → Type 0 where
  nothing : Collected [] [] []
  hands :
      (h : Htlc) {hs hs' : List Htlc} {out : List CommittedInboundHtlc}
      → IsReady h
      → Collected hs hs' out
      → Collected (h ∷ hs) (record h { processed = true } ∷ hs') (committed_inbound h ∷ out)
  keeps :
      (h : Htlc) {hs hs' : List Htlc} {out : List CommittedInboundHtlc}
      → ¬ IsReady h
      → Collected hs hs' out
      → Collected (h ∷ hs) (h ∷ hs') out

is_forwardable-IsReady : (h : Htlc) → is_forwardable h ≡ true → IsReady h
unfolding is_forwardable
is_forwardable-IsReady h e = record {
  is_inbound = ground arith;
  ours = ground arith;
  theirs = ground arith;
  unresolved = ground arith;
  fresh = ground arith;
}

IsReady-is_forwardable : (h : Htlc) → IsReady h → is_forwardable h ≡ true
unfolding is_forwardable
IsReady-is_forwardable h r = rw (r.is_inbound, r.fresh, r.unresolved, r.ours, r.theirs) refl

mark_processed-Collected : (hs : List Htlc) → Collected hs (mark_processed hs) (forwardable_of hs)
unfolding mark_processed forwardable_of
mark_processed-Collected [] = nothing
mark_processed-Collected (h ∷ hs) = elim (Bool-cases (is_forwardable h)) [
  | inl ready ↦ rw ready (hands h (is_forwardable-IsReady h ready) (mark_processed-Collected hs))
  | inr other ↦ rw other (
      keeps h (λ r. absurd (ground (arith, IsReady-is_forwardable h r)))
        (mark_processed-Collected hs))
]

-- `collect_forwardable` hands over, in order, exactly the inbound HTLCs that are committed on both
-- sides, unresolved and not handed over before, marks these and changes nothing else, and a second
-- call hands nothing over.
pub collect_forwardable-once :
    (c : Channel)
    → (hs : List Htlc) × ((collect_forwardable c).0 ≡ record c { htlcs = hs })
      × Collected c.htlcs hs (collect_forwardable c).1
      × ((collect_forwardable (collect_forwardable c).0).1 ≡ [])
unfolding collect_forwardable
collect_forwardable-once c = (
  mark_processed c.htlcs,
  refl,
  mark_processed-Collected c.htlcs,
  forwardable_of-processed c.htlcs,
)

-- There is one signature for each HTLC output, in order, and each verifies under the peer's HTLC key.
abbrev pub AllVerified : Env → Channel → HolderCommitment → List Bytes → List (ℕ × Bytes) → Type 0
AllVerified env c hc [] [] = Unit {0}
AllVerified env c hc (sig ∷ sigs) (entry ∷ rest) =
    ((sighash : Bytes) × (htlc_sighash env hc.built hc.keys hc.htlcs
          c.params.counterparty_selected_delay c.feerate_holder entry
        ≡ ok sighash)
      × (env.verify_ecdsa sighash sig hc.keys.countersignatory_htlc_key ≡ true))
    × AllVerified env c hc sigs rest
AllVerified env c hc sigs entries = ⊥

-- What a `commitment_signed` must have shown before it is answered.
pub record IsVerified (env : Env) (c : Channel) (msg : CommitmentSigned) (hc : HolderCommitment)
    : Type 0 where
  pub next_number : hc.number ≡ add64 c.holder_commitment_number 1
  pub kept_sig : hc.counterparty_sig ≡ msg.signature
  pub funding_verified : verify_counterparty_funding_sig env c hc.built msg.signature ≡ ok tt
  pub htlcs_verified : AllVerified env c hc msg.htlc_signatures hc.built.htlcs_in_output_order
  pub rebuilt :
      build_holder_commitment_at env c (add64 c.holder_commitment_number 1)
      ≡ ok (hc.built, hc.keys, hc.htlcs)

verify_htlc_sigs-AllVerified :
    (env : Env) (c : Channel) (hc : HolderCommitment) (sigs : List Bytes)
    (entries : List (ℕ × Bytes))
    → length sigs ≡ length entries
    → verify_htlc_sigs env hc.built hc.keys hc.htlcs c.params.counterparty_selected_delay
        c.feerate_holder sigs entries
      ≡ ok tt
    → AllVerified env c hc sigs entries
unfolding verify_htlc_sigs
verify_htlc_sigs-AllVerified env c hc [] [] same h = tt
verify_htlc_sigs-AllVerified env c hc [] (e ∷ es) same h = absurd (omega arith)
verify_htlc_sigs-AllVerified env c hc (s ∷ sigs) [] same h = absurd (omega arith)
verify_htlc_sigs-AllVerified env c hc (s ∷ sigs) (e ∷ es) same h =
    let delay = c.params.counterparty_selected_delay in
    let digest = htlc_sighash env hc.built hc.keys hc.htlcs delay c.feerate_holder e in
    let (sighash, at, h1) = >>=-eq-ok digest _ h in
    (
      (sighash, at, ground arith),
      verify_htlc_sigs-AllVerified env c hc sigs es (omega arith) (ground arith),
    )

ok-holder : {a b : HolderCommitment} → ◌≡◌ {A = Result HolderCommitment} (ok a) (ok b) → a ≡ b
ok-holder h = cc

verify_next-IsVerified :
    (env : Env) (c : Channel) (msg : CommitmentSigned) (hc : HolderCommitment)
    → verify_next env c msg ≡ ok hc
    → IsVerified env c msg hc
unfolding verify_next
verify_next-IsVerified env c msg hc e =
    let count : length msg.htlc_signatures ≡ length hc.built.htlcs_in_output_order = ground arith in
    let passed : verify_htlc_sigs env hc.built hc.keys hc.htlcs c.params.counterparty_selected_delay
          c.feerate_holder msg.htlc_signatures hc.built.htlcs_in_output_order
        ≡ ok tt =
      ground arith in
    record {
      next_number = ground arith;
      kept_sig = ground arith;
      funding_verified = ground arith;
      htlcs_verified =
          verify_htlc_sigs-AllVerified env c hc msg.htlc_signatures hc.built.htlcs_in_output_order
            count passed;
      rebuilt = ground arith;
    }

sub_one : (n m : ℕ) → m ≡ add64 n 1 → n + 1 < u64_mod → sub64 m 1 ≡ n
unfolding add64 sub64
sub_one n m e room = omega arith

-- The secret of a commitment is revealed only when its successor is held with signatures that verify:
-- if `commitment_signed` is answered, the new commitment is the next one, it is stored, its funding
-- signature and one signature for each of its HTLC outputs verify, and the secret is the old
-- commitment's; if not, no secret is revealed and the channel is unchanged. This holds as long as the
-- number of commitments has room to grow.
pub on_commitment_signed-IsVerified :
    (env : Env) (c : Channel) (msg : CommitmentSigned)
    → c.holder_commitment_number + 1 < u64_mod
    → ((hc : HolderCommitment) × (raa : RevokeAndAck) × ((on_commitment_signed env c msg).1
          ≡ ok raa)
        × IsVerified env c msg hc
        × ((on_commitment_signed env c msg).0.current_holder_commitment ≡ some hc)
        × ((on_commitment_signed env c msg).0.holder_commitment_number
            ≡ c.holder_commitment_number + 1)
        × (raa.per_commitment_secret ≡ env.release_commitment_secret c.holder_commitment_number))
      ⊎ (((on_commitment_signed env c msg).0 ≡ c)
          × ((raa : RevokeAndAck) → (on_commitment_signed env c msg).1 ≢ ok raa))
unfolding on_commitment_signed gc_htlcs accept_commitment
on_commitment_signed-IsVerified env c msg room = elim (Result-cases (verify_next env c msg)) [
  | inl (hc, e) ↦
      let v = verify_next-IsVerified env c msg hc e in
      let n = v.next_number in
      inl (
        hc,
        record {
          channel_id = c.channel_id;
          per_commitment_secret = env.release_commitment_secret (sub64 hc.number 1);
          next_per_commitment_point = env.per_commitment_point (add64 hc.number 1);
        },
        rw (e, on_commitment_signed) refl,
        v,
        rw (e, on_commitment_signed) refl,
        rw (e, on_commitment_signed) (n ∙ add64-eq c.holder_commitment_number 1 room),
        ap env.release_commitment_secret (sub_one c.holder_commitment_number hc.number n room),
      )
  | inr failed ↦ inr (ground arith, λ raa answered. ground arith)
]

-- The secret that a `revoke_and_ack` reveals is the one of their current commitment, and the store
-- takes it.
pub record IsRevoked (env : Env) (c : Channel) (msg : RevokeAndAck) : Type 0 where
  pub point : Bytes
  pub revealed : env.secret_point msg.per_commitment_secret ≡ some point
  pub expected : Bytes
  pub is_current : c.counterparty_current_point ≡ some expected
  pub matches : bytes_eq point expected ≡ true
  pub secrets : SecretStore
  pub stored :
      insert env.sha256 c.counterparty_secrets
        (index_for_commitment c.counterparty_commitment_number)
        msg.per_commitment_secret
      ≡ inserted secrets

check_revocation-IsRevoked :
    (env : Env) (c : Channel) (msg : RevokeAndAck) (s : PendingCounterpartyCommitment)
    (secrets : SecretStore)
    → check_revocation env c msg ≡ ok (s, secrets)
    → (c.awaiting_raa ≡ true) × IsRevoked env c msg
unfolding check_revocation
check_revocation-IsRevoked env c msg s secrets e =
    elim (Option-cases (env.secret_point msg.per_commitment_secret)) [
      | inl no_key ↦ absurd (ground arith)
      | inr (p, key) ↦ elim (Option-cases c.counterparty_current_point) [
        | inl no_point ↦ absurd (ground arith)
        | inr (q, here) ↦ (
          ground arith,
          record {
            point = p;
            revealed = key;
            expected = q;
            is_current = here;
            matches = ground arith;
            secrets = secrets;
            stored = ground arith;
          },
        )
      ]
    ]

-- A `revoke_and_ack` that is accepted was awaited and reveals the secret of their current commitment,
-- consistent with all the secrets before it.
pub on_revoke_and_ack-IsRevoked :
    (env : Env) (c : Channel) (msg : RevokeAndAck) (out : RaaOutcome)
    → (on_revoke_and_ack env c msg).1 ≡ ok out
    → (c.awaiting_raa ≡ true) × IsRevoked env c msg
unfolding on_revoke_and_ack check_revocation
on_revoke_and_ack-IsRevoked env c msg out e = elim (Result-cases (check_revocation env c msg)) [
  | inl ((s, secrets), checked) ↦ check_revocation-IsRevoked env c msg s secrets checked
  | inr failed ↦ absurd (ground arith)
]
