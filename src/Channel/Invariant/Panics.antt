-- ===== src/Channel/Invariant/Panics.antt =====
-- No `expect`, `unreachable!` or index of src/channel/dance.rs fails on a channel that is valid.
use keraunos.Prelude.{
  ℕ, true, false, ◌≡◌, refl, arith, List, [], ◌∷◌, Option-cases, inl, inr, Bytes, All, add64,
}
use keraunos.Types.{FeeRatePerKw}
use keraunos.Commitment.{CommitmentTxParams, BuiltCommitmentTx, TxCreationKeys}
use keraunos.Channel.Data.{Channel, Htlc, ok, Result-cases}
use keraunos.Channel.Env.{Env, IsPlaced, PlacesHtlcs}
use keraunos.Channel.Messages.{
  CommitmentSigned, UpdateFulfillHtlc, UpdateFailHtlc, UpdateFailMalformedHtlc,
}
use keraunos.Channel.Htlcs.{outbound_committed, is_some}
use keraunos.Channel.Build.{
  Built, build, holder_params, counterparty_params, build_counterparty_commitment_at,
  build_holder_commitment_at, sign_counterparty_commitment_tx, verify_counterparty_funding_sig,
}
use keraunos.Channel.Receive.{
  on_update_fulfill_htlc, on_update_fail_htlc, on_update_fail_malformed_htlc,
}
use keraunos.Channel.Commit.{sign_next, sign_htlcs, verify_htlc_sigs, htlc_sighash, verify_next}
use keraunos.Channel.Invariant.{IsValid, IsGood, removed_of}
use keraunos.Channel.Invariant.Lists.{All-find, is_htlc-eq}
use keraunos.Channel.Invariant.Updates.{outbound_committed_inv}
use keraunos.Channel.Invariant.Flush.{is_panic}

outbound_committed-no_panic : (c : Channel) (id : ℕ) → is_panic (outbound_committed c id) ≡ false
unfolding outbound_committed
outbound_committed-no_panic c id = ground arith

-- An outbound HTLC that the channel holds has its source.
outbound_source :
    (c : Channel) (id : ℕ) (h : Htlc)
    → IsValid c
    → outbound_committed c id ≡ ok h
    → is_some h.source ≡ true
outbound_source c id h v e =
    let found = outbound_committed_inv c id h e in
    let P =
      IsGood c.next_holder_htlc_id c.next_counterparty_htlc_id
        (removed_of c.pending_counterparty_commitment) in
    let (good, key) = All-find P true id c.htlcs h found.0 v.good in
    ground (arith, good.sourced, (is_htlc-eq true id h key).0)

-- On a valid channel, the peer's fulfils and failures never meet the `expect` on an HTLC's source.
pub on_resolution-no_panic :
    (env : Env) (c : Channel) (m : UpdateFulfillHtlc) (n : UpdateFailHtlc)
    (k : UpdateFailMalformedHtlc)
    → IsValid c
    → (is_panic (on_update_fulfill_htlc env c m).1 ≡ false)
      × (is_panic (on_update_fail_htlc c n).1 ≡ false)
      × (is_panic (on_update_fail_malformed_htlc c k).1 ≡ false)
unfolding on_update_fulfill_htlc on_update_fail_htlc on_update_fail_malformed_htlc
on_resolution-no_panic env c m n k v = (
  elim (Result-cases (outbound_committed c m.id)) [
    | inl (h, e) ↦ ground (arith, outbound_source c m.id h v e)
    | inr failed ↦ ground (arith, outbound_committed-no_panic c m.id)
  ],
  elim (Result-cases (outbound_committed c n.id)) [
    | inl (h, e) ↦ ground (arith, outbound_source c n.id h v e)
    | inr failed ↦ ground (arith, outbound_committed-no_panic c n.id)
  ],
  elim (Result-cases (outbound_committed c k.id)) [
    | inl (h, e) ↦ ground (arith, outbound_source c k.id h v e)
    | inr failed ↦ ground (arith, outbound_committed-no_panic c k.id)
  ],
)

module _ (env : Env) (p : CommitmentTxParams) (built : BuiltCommitmentTx) (keys : TxCreationKeys)
    (delay : ℕ) (feerate : FeeRatePerKw) where
  htlc_sighash-no_panic :
      (entry : ℕ × Bytes)
      → IsPlaced p built entry
      → is_panic (htlc_sighash env built keys p.htlcs delay feerate entry) ≡ false
  unfolding htlc_sighash
  htlc_sighash-no_panic (i, script) (h, vout, at, out) =
      rw (at, htlc_sighash) (rw (out, htlc_sighash) refl)

  sign_htlcs-no_panic :
      (point : Bytes) (entries : List (ℕ × Bytes))
      → All (IsPlaced p built) entries
      → is_panic (sign_htlcs env built keys p.htlcs delay feerate point entries) ≡ false
  unfolding sign_htlcs
  sign_htlcs-no_panic point [] all = refl
  sign_htlcs-no_panic point (entry ∷ rest) all =
      ground (arith, htlc_sighash-no_panic entry all.0, sign_htlcs-no_panic point rest all.1)

  verify_htlc_sigs-no_panic :
      (sigs : List Bytes) (entries : List (ℕ × Bytes))
      → All (IsPlaced p built) entries
      → is_panic (verify_htlc_sigs env built keys p.htlcs delay feerate sigs entries) ≡ false
  unfolding verify_htlc_sigs
  verify_htlc_sigs-no_panic [] entries all = refl
  verify_htlc_sigs-no_panic (sig ∷ sigs) [] all = refl
  verify_htlc_sigs-no_panic (sig ∷ sigs) (entry ∷ rest) all =
      ground (arith, htlc_sighash-no_panic entry all.0, verify_htlc_sigs-no_panic sigs rest all.1)

-- What a commitment was built from.
abbrev pub IsBuilt : Env → Built → Type 0
IsBuilt env b = (p : CommitmentTxParams) × (b ≡ build env p)

build_counterparty_inv :
    (env : Env) (c : Channel) (number : ℕ) (point : Bytes) (b : Built)
    → build_counterparty_commitment_at env c number point ≡ ok b
    → IsBuilt env b
unfolding build_counterparty_commitment_at
build_counterparty_inv env c number point b e = elim (Option-cases c.counterparty_pubkeys) [
  | inl missing ↦ absurd (ground arith)
  | inr (cp, known) ↦ elim (Option-cases c.funding_outpoint) [
    | inl missing ↦ absurd (ground arith)
    | inr (outpoint, funded) ↦ (counterparty_params env c number point cp outpoint, ground arith)
  ]
]

build_holder_inv :
    (env : Env) (c : Channel) (number : ℕ) (b : Built)
    → build_holder_commitment_at env c number ≡ ok b
    → IsBuilt env b
unfolding build_holder_commitment_at
build_holder_inv env c number b e = elim (Option-cases c.counterparty_pubkeys) [
  | inl missing ↦ absurd (ground arith)
  | inr (cp, known) ↦ elim (Option-cases c.funding_outpoint) [
    | inl missing ↦ absurd (ground arith)
    | inr (outpoint, funded) ↦ (holder_params env c number cp outpoint, ground arith)
  ]
]

builds-no_panic :
    (env : Env) (c : Channel) (number : ℕ) (point : Bytes)
    → (is_panic (build_counterparty_commitment_at env c number point) ≡ false)
      × (is_panic (build_holder_commitment_at env c number) ≡ false)
unfolding build_counterparty_commitment_at build_holder_commitment_at
builds-no_panic env c number point = ground arith

signs-no_panic :
    (env : Env) (c : Channel) (built : BuiltCommitmentTx) (sig : Bytes)
    → (is_panic (sign_counterparty_commitment_tx env c built) ≡ false)
      × (is_panic (verify_counterparty_funding_sig env c built sig) ≡ false)
unfolding sign_counterparty_commitment_tx verify_counterparty_funding_sig
signs-no_panic env c built sig = ground arith

module _ (env : Env) (places : PlacesHtlcs env) where
  placed :
      (b : Built) (keys : TxCreationKeys) (delay : ℕ) (feerate : FeeRatePerKw) (point : Bytes)
      (sigs : List Bytes)
      → IsBuilt env b
      → (is_panic (sign_htlcs env b.0 keys b.2 delay feerate point b.0.htlcs_in_output_order)
          ≡ false)
        × (is_panic (verify_htlc_sigs env b.0 keys b.2 delay feerate sigs b.0.htlcs_in_output_order)
            ≡ false)
  placed b keys delay feerate point sigs (p, e) = rw e (
    sign_htlcs-no_panic env p (env.build_commitment_tx p) keys delay feerate point
        (env.build_commitment_tx p).htlcs_in_output_order (places p),
    verify_htlc_sigs-no_panic env p (env.build_commitment_tx p) keys delay feerate sigs
        (env.build_commitment_tx p).htlcs_in_output_order (places p),
  )

  pub sign_next-no_panic : (c : Channel) → is_panic (sign_next env c) ≡ false
  unfolding sign_next
  sign_next-no_panic c = elim (Option-cases c.counterparty_next_point) [
    | inl missing ↦ ground arith
    | inr (point, known) ↦
        let number = add64 c.counterparty_commitment_number 1 in
        elim (Result-cases (build_counterparty_commitment_at env c number point)) [
          | inr failed ↦ ground (arith, (builds-no_panic env c number point).0)
          | inl (b, e) ↦ ground (
            arith,
            (signs-no_panic env c b.0 []).0,
            (placed b b.1 c.params.holder_selected_delay c.feerate_counterparty point []
                (build_counterparty_inv env c number point b e)).0,
          )
        ]
  ]

  pub verify_next-no_panic :
      (c : Channel) (msg : CommitmentSigned) → is_panic (verify_next env c msg) ≡ false
  unfolding verify_next
  verify_next-no_panic c msg =
      let number = add64 c.holder_commitment_number 1 in
      elim (Result-cases (build_holder_commitment_at env c number)) [
        | inr failed ↦ ground (arith, (builds-no_panic env c number []).1)
        | inl (b, e) ↦ ground (
          arith,
          (signs-no_panic env c b.0 msg.signature).1,
          (placed b b.1 c.params.counterparty_selected_delay c.feerate_holder [] msg.htlc_signatures
              (build_holder_inv env c number b e)).1,
        )
      ]
