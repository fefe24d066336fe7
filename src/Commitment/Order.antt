-- ===== src/Commitment/Order.antt =====
-- src/commitment/mod.rs: the order of outputs.
use Prim.Native.Nat.{Ordering}
use keraunos.Prelude.{
  ℕ, ◌+◌, ◌≡◌, ◌≢◌, refl, ◌∙◌, ap, sym, List, [], ◌∷◌, ◌++◌, map, append_assoc, append-nil, ◌⊎◌,
  inl, inr, Bytes,
}
use keraunos.Prelude.Sort.{
  IsFlip, IsFlip-ne, compare-IsFlip, then_with-IsFlip, bytes_cmp-IsFlip, IsSortedBy, sort_by,
  sort_by-IsSortedBy,
}
use keraunos.Commitment.{TxOut, CommitmentTxParams}
use keraunos.Commitment.Build.{
  Staged, Origin, broadcaster, countersignatory, htlc, txout_cmp, staged_cmp, Placed, place_one,
  place, placed, nothing_placed, staged_outputs, build_commitment_tx,
}
use keraunos.Bitcoin.Script.{Hashes}

pub Origin-cases :
    (o : Origin)
    → (o ≡ broadcaster)
      ⊎ ((o ≡ countersignatory) ⊎ ((i : ℕ) × (script : Bytes) × (o ≡ htlc i script)))
Origin-cases broadcaster = inl refl
Origin-cases countersignatory = inr (inl refl)
Origin-cases (htlc i script) = inr (inr (i, script, refl))

pub txout_cmp-IsFlip : (a b : TxOut) → IsFlip (txout_cmp a b) (txout_cmp b a)
unfolding txout_cmp
txout_cmp-IsFlip a b =
    then_with-IsFlip (compare-IsFlip a.value b.value)
      (bytes_cmp-IsFlip a.script_pubkey b.script_pubkey)

staged_cmp-IsFlip : (a b : Staged) → IsFlip (staged_cmp a b) (staged_cmp b a)
unfolding staged_cmp
staged_cmp-IsFlip a b =
    then_with-IsFlip (txout_cmp-IsFlip a.txout b.txout) (compare-IsFlip a.cltv b.cltv)

staged_cmp-txout :
    (a b : Staged) → staged_cmp a b ≢ Ordering.gt → txout_cmp a.txout b.txout ≢ Ordering.gt
unfolding staged_cmp
staged_cmp-txout a b h e = h (rw e refl)

abbrev pub txouts : List Staged → List TxOut
txouts staged = map (λ s. s.txout) staged

txouts-IsSortedBy : (xs : List Staged) → IsSortedBy staged_cmp xs → IsSortedBy txout_cmp (txouts xs)
txouts-IsSortedBy [] h = tt
txouts-IsSortedBy (x ∷ []) h = tt
txouts-IsSortedBy (x ∷ y ∷ ys) h = (staged_cmp-txout x y h.0, txouts-IsSortedBy (y ∷ ys) h.1)

place_one-outputs :
    (vout : ℕ) (s : Staged) (acc : Placed)
    → (place_one vout s acc).outputs ≡ acc.outputs ++ s.txout ∷ []
unfolding place_one
place_one-outputs vout s acc = elim (Origin-cases s.origin) [
  | inl e ↦ rw (e, place_one) refl
  | inr (inl e) ↦ rw (e, place_one) refl
  | inr (inr (i, script, e)) ↦ rw (e, place_one) refl
]

place-outputs :
    (vout : ℕ) (xs : List Staged) (acc : Placed)
    → (place vout xs acc).outputs ≡ acc.outputs ++ txouts xs
unfolding place
place-outputs vout [] acc = sym (append-nil acc.outputs)
place-outputs vout (s ∷ xs) acc =
    place-outputs (vout + 1) xs (place_one vout s acc)
    ∙ ap (λ t. t ++ txouts xs) (place_one-outputs vout s acc)
    ∙ append_assoc acc.outputs (s.txout ∷ []) (txouts xs)

module _ (hashes : Hashes) where
  pub build_commitment_tx-outputs :
      (p : CommitmentTxParams)
      → (build_commitment_tx hashes p).tx.output
        ≡ txouts (sort_by staged_cmp (staged_outputs hashes p))
  unfolding build_commitment_tx placed
  build_commitment_tx-outputs p =
      place-outputs 0 (sort_by staged_cmp (staged_outputs hashes p)) (nothing_placed p)

  -- The outputs of a commitment transaction are in order of their value, and in order of their script
  -- where values are equal.
  pub build_commitment_tx-IsSortedBy :
      (p : CommitmentTxParams) → IsSortedBy txout_cmp (build_commitment_tx hashes p).tx.output
  build_commitment_tx-IsSortedBy p = rw (build_commitment_tx-outputs p) (
      txouts-IsSortedBy (sort_by staged_cmp (staged_outputs hashes p)) (
        sort_by-IsSortedBy staged_cmp (λ a b. IsFlip-ne (staged_cmp-IsFlip a b))
          (staged_outputs hashes p)))
