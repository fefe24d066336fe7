-- ===== src/Commitment/Value.antt =====
-- src/commitment/mod.rs: what the outputs are worth.
use keraunos.Prelude.{
  ℕ, ◌+◌, ◌*◌, ◌/◌, ◌≤◌, ◌≡◌, refl, ◌∙◌, ap, arith, min, List, [], ◌∷◌, ◌++◌, if◌then◌else◌, leb,
  Bool-cases, inl, inr,
}
use keraunos.Prelude.Sort.{total, total-append, sort_by, sort_by-total}
use keraunos.Types.{to_sat_floor}
use keraunos.Bitcoin.Script.{Hashes}
use keraunos.Commitment.{TxOut, CommitmentTxParams, HtlcOutputInCommitment}
use keraunos.Commitment.Build.{
  Staged, staged_cmp, staged_outputs, stage_broadcaster, stage_countersignatory, stage_htlc,
  stage_htlcs, is_untrimmed, to_broadcaster_sat, to_countersignatory_sat, base_fee,
  build_commitment_tx,
}
use keraunos.Commitment.Order.{txouts, build_commitment_tx-outputs}

abbrev pub sats : Staged → ℕ
sats s = s.txout.value

abbrev pub output_value : List TxOut → ℕ
output_value outs = total (λ o. o.value) outs

txouts-total : (xs : List Staged) → output_value (txouts xs) ≡ total sats xs
unfolding total
txouts-total [] = refl
txouts-total (s ∷ xs) = ap (λ n. s.txout.value + n) (txouts-total xs)

-- What the side that pays the fee has, in satoshis.
abbrev pub payer_sat : CommitmentTxParams → ℕ
payer_sat p =
    if p.broadcaster_pays_fee
    then p.to_broadcaster_msat / 1000
    else p.to_countersignatory_msat / 1000

-- All that the parameters distribute, in millisatoshis.
abbrev pub funds_msat : CommitmentTxParams → ℕ
funds_msat p =
    p.to_broadcaster_msat + p.to_countersignatory_msat + total (λ h. h.amount_msat) p.htlcs

module _ (hashes : Hashes) (p : CommitmentTxParams) where
  stage_htlcs-value :
      (i : ℕ) (hs : List HtlcOutputInCommitment)
      → 1000 * total sats (stage_htlcs hashes p i hs) ≤ total (λ h. h.amount_msat) hs
  unfolding stage_htlcs total
  stage_htlcs-value i [] = omega arith
  stage_htlcs-value i (h ∷ hs) = elim (Bool-cases (is_untrimmed p h)) [
    | inl kept ↦
        rw kept (unfold stage_htlc to_sat_floor in omega (arith, stage_htlcs-value (i + 1) hs))
    | inr trimmed ↦ rw trimmed (omega (arith, stage_htlcs-value (i + 1) hs))
  ]

  stage_broadcaster-value : total sats (stage_broadcaster hashes p) ≤ to_broadcaster_sat p
  unfolding stage_broadcaster total
  stage_broadcaster-value =
      elim (Bool-cases (leb p.broadcaster_dust_limit_sat (to_broadcaster_sat p))) [
        | inl kept ↦ rw kept (omega arith)
        | inr dust ↦ rw dust (omega arith)
      ]

  stage_countersignatory-value :
      total sats (stage_countersignatory hashes p) ≤ to_countersignatory_sat p
  unfolding stage_countersignatory total
  stage_countersignatory-value =
      elim (Bool-cases (leb p.broadcaster_dust_limit_sat (to_countersignatory_sat p))) [
        | inl kept ↦ rw kept (omega arith)
        | inr dust ↦ rw dust (omega arith)
      ]

  balances-value :
      1000 * (to_broadcaster_sat p + to_countersignatory_sat p + min (base_fee p) (payer_sat p))
      ≤ p.to_broadcaster_msat + p.to_countersignatory_msat
  unfolding to_broadcaster_sat to_countersignatory_sat to_sat_floor
  balances-value = ground arith

  outputs-total :
      output_value (build_commitment_tx hashes p).tx.output
      ≡ total sats (stage_broadcaster hashes p)
        + (total sats (stage_countersignatory hashes p)
            + total sats (stage_htlcs hashes p 0 p.htlcs))
  unfolding staged_outputs
  outputs-total =
      let b = stage_broadcaster hashes p in
      let c = stage_countersignatory hashes p in
      let hs = stage_htlcs hashes p 0 p.htlcs in
      ap output_value (build_commitment_tx-outputs hashes p)
      ∙ txouts-total (sort_by staged_cmp (staged_outputs hashes p))
      ∙ sort_by-total staged_cmp sats (staged_outputs hashes p)
      ∙ total-append sats b (c ++ hs)
      ∙ ap (λ n. total sats b + n) (total-append sats c hs)

  -- A commitment transaction never pays out more than it distributes: its outputs, with the fee that
  -- it reports or all that the payer has if that is less, are worth no more than the two balances and
  -- the HTLCs.
  pub build_commitment_tx-value :
      1000
        * (output_value (build_commitment_tx hashes p).tx.output
            + min (build_commitment_tx hashes p).fee_sat (payer_sat p))
      ≤ funds_msat p
  unfolding build_commitment_tx
  build_commitment_tx-value = omega (
    arith,
    outputs-total,
    stage_broadcaster-value,
    stage_countersignatory-value,
    stage_htlcs-value 0 p.htlcs,
    balances-value,
  )
