-- ===== src/Commitment/Indices.antt =====
-- src/commitment/mod.rs: the output indices of HTLCs, and where their outputs are.
use keraunos.Prelude.{
  ℕ, ◌+◌, ◌<◌, ◌≡◌, refl, ◌∙◌, ap, sym, arith, ◌⊎◌, inl, inr, Option, none, some, get_elem?, length,
  true, false, Bool-cases,
}
use keraunos.Prelude.Sort.{total}
use keraunos.Commitment.{CommitmentTxParams, HtlcOutputInCommitment}
use keraunos.Commitment.Build.{place, placed, stage_htlc, is_untrimmed, build_commitment_tx}
use keraunos.Commitment.Scripts.{htlc_witness_script}
use keraunos.Bitcoin.Script.{Hashes}
use keraunos.Commitment.Places.{places, place-absent, place-present}
use keraunos.Commitment.Order.{txouts, build_commitment_tx-outputs}
use keraunos.Commitment.Build.{nothing_placed}
use keraunos.Types.{to_sat_floor}
use keraunos.Bitcoin.Script.{new_p2wsh}
use keraunos.Prelude.Positions.{
  some-inj, get_elem?-All, get_elem?-lt, get_elem?-replicate, length-replicate, get_elem?-map,
}
use keraunos.Commitment.StagedOutputs.{IsStaged, wanted_of, sorted, sorted-IsStaged, sorted-total}

module _ (hashes : Hashes) (p : CommitmentTxParams) where
  indices-eq :
      (build_commitment_tx hashes p).htlc_output_indices
      ≡ (place 0 (sorted hashes p) (nothing_placed p)).htlc_output_indices
  unfolding build_commitment_tx placed sorted
  indices-eq = refl

  outputs-eq : (build_commitment_tx hashes p).tx.output ≡ txouts (sorted hashes p)
  unfolding sorted
  outputs-eq = build_commitment_tx-outputs hashes p

  pub index_present :
      (i : ℕ) (h : HtlcOutputInCommitment)
      → get_elem? p.htlcs i ≡ some h
      → is_untrimmed p h ≡ true
      → (vout : ℕ) × (get_elem? (build_commitment_tx hashes p).htlc_output_indices i
          ≡ some (some vout))
        × (get_elem? (build_commitment_tx hashes p).tx.output vout
            ≡ some (stage_htlc hashes p i h).txout)
  index_present i h here kept =
      let one : total (places i) (sorted hashes p) ≡ 1 =
        sorted-total hashes p i ∙ ap (wanted_of p) here ∙ unfold wanted_of in rw kept refl in
      let fits : i < length (nothing_placed p).htlc_output_indices =
        rw (length-replicate {A = Option ℕ} (length p.htlcs) none) (get_elem?-lt p.htlcs i here) in
      let (k, s, script, at, e, found) =
        place-present 0 i (sorted hashes p) (nothing_placed p) one fits in
      let (h', here', kept', same) =
        get_elem?-All (IsStaged hashes p) (sorted hashes p) k at (sorted-IsStaged hashes p) i script
          e in
      let equal : s ≡ stage_htlc hashes p i h =
        same ∙ ap (stage_htlc hashes p i) (some-inj (sym here' ∙ here)) in
      (
        k,
        ap (λ is. get_elem? is i) indices-eq
            ∙ found
            ∙ ap (λ n. some (some n)) {x = 0 + k} {y = k} (omega arith),
        ap (λ outs. get_elem? outs k) outputs-eq
            ∙ get_elem?-map (λ t. t.txout) (sorted hashes p) k at
            ∙ ap (λ t. some t.txout) equal,
      )

  index_absent :
      (i : ℕ) (h : HtlcOutputInCommitment)
      → get_elem? p.htlcs i ≡ some h
      → is_untrimmed p h ≡ false
      → get_elem? (build_commitment_tx hashes p).htlc_output_indices i ≡ some none
  index_absent i h here trimmed =
      let zero_places : total (places i) (sorted hashes p) ≡ 0 =
        sorted-total hashes p i ∙ ap (wanted_of p) here ∙ unfold wanted_of in rw trimmed refl in
      ap (λ is. get_elem? is i) indices-eq
      ∙ place-absent 0 i (sorted hashes p) (nothing_placed p) zero_places
      ∙ get_elem?-replicate (length p.htlcs) i none (get_elem?-lt p.htlcs i here)

  -- An HTLC that is not trimmed has an output index, and at that index stands its output, with its
  -- amount in satoshis and its own script; a trimmed one has no index.
  pub build_commitment_tx-indices :
      (i : ℕ) (h : HtlcOutputInCommitment)
      → get_elem? p.htlcs i ≡ some h
      → ((is_untrimmed p h ≡ true)
          × (vout : ℕ) × (get_elem? (build_commitment_tx hashes p).htlc_output_indices i
              ≡ some (some vout))
          × (get_elem? (build_commitment_tx hashes p).tx.output vout
              ≡ some (record {
                value = to_sat_floor h.amount_msat;
                script_pubkey = new_p2wsh hashes (htlc_witness_script hashes p.keys h);
              })))
        ⊎ ((is_untrimmed p h ≡ false)
            × (get_elem? (build_commitment_tx hashes p).htlc_output_indices i ≡ some none))
  build_commitment_tx-indices i h here = elim (Bool-cases (is_untrimmed p h)) [
    | inl kept ↦
        let (vout, index, out) = index_present i h here kept in
        inl (kept, vout, index, unfold stage_htlc in out)
    | inr trimmed ↦ inr (trimmed, index_absent i h here trimmed)
  ]
