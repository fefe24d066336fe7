-- ===== src/Commitment/Panics.antt =====
-- src/commitment/mod.rs: what the channel relies on, `PlacesHtlcs`, holds of `build_commitment_tx`.
use keraunos.Prelude.{
  ℕ, ◌+◌, ◌≡◌, refl, ◌∙◌, ap, sym, List, [], ◌∷◌, ◌++◌, append_assoc, append-nil, inl, inr, Bytes,
  All,
}
use mathlib.Core.Path.{subst}
use keraunos.Bitcoin.Script.{Hashes}
use keraunos.Commitment.{CommitmentTxParams}
use keraunos.Commitment.Build.{
  Staged, broadcaster, countersignatory, htlc, Placed, place_one, place, placed, nothing_placed,
  build_commitment_tx, build_htlc_tx, commit_number_obscure_factor,
}
use keraunos.Commitment.Scripts.{funding_redeemscript}
use keraunos.Commitment.Order.{Origin-cases}
use keraunos.Commitment.Indices.{index_present}
use keraunos.Commitment.StagedOutputs.{IsStaged, sorted, sorted-IsStaged}
use keraunos.Channel.Env.{Env, IsPlaced, PlacesHtlcs}

-- The entry of an output in `htlcs_in_output_order`.
unfoldable entry_of : Staged → List (ℕ × Bytes)
entry_of s = elim s.origin [
  | broadcaster ↦ []
  | countersignatory ↦ []
  | htlc i script ↦ (i, script) ∷ []
]

unfoldable entries_of : List Staged → List (ℕ × Bytes)
unfolding entry_of
entries_of [] = []
entries_of (s ∷ xs) = entry_of s ++ entries_of xs

place_one-order :
    (vout : ℕ) (s : Staged) (acc : Placed)
    → (place_one vout s acc).htlcs_in_output_order ≡ acc.htlcs_in_output_order ++ entry_of s
unfolding place_one entry_of
place_one-order vout s acc = elim (Origin-cases s.origin) [
  | inl e ↦ rw (e, place_one) (sym (append-nil acc.htlcs_in_output_order))
  | inr (inl e) ↦ rw (e, place_one) (sym (append-nil acc.htlcs_in_output_order))
  | inr (inr (i, script, e)) ↦ rw (e, place_one) refl
]

place-order :
    (vout : ℕ) (xs : List Staged) (acc : Placed)
    → (place vout xs acc).htlcs_in_output_order ≡ acc.htlcs_in_output_order ++ entries_of xs
unfolding place entries_of
place-order vout [] acc = sym (append-nil acc.htlcs_in_output_order)
place-order vout (s ∷ xs) acc =
    place-order (vout + 1) xs (place_one vout s acc)
    ∙ ap (λ t. t ++ entries_of xs) (place_one-order vout s acc)
    ∙ append_assoc acc.htlcs_in_output_order (entry_of s) (entries_of xs)

module _ (hashes : Hashes) (p : CommitmentTxParams) where
  entries_of-IsPlaced :
      (xs : List Staged)
      → All (IsStaged hashes p) xs
      → All (IsPlaced p (build_commitment_tx hashes p)) (entries_of xs)
  unfolding entries_of entry_of
  entries_of-IsPlaced [] h = tt
  entries_of-IsPlaced (s ∷ xs) h = elim (Origin-cases s.origin) [
    | inl e ↦ rw e (entries_of-IsPlaced xs h.1)
    | inr (inl e) ↦ rw e (entries_of-IsPlaced xs h.1)
    | inr (inr (i, script, e)) ↦
        let (x, here, kept, same) = h.0 i script e in
        let (vout, index, out) = index_present hashes p i x here kept in
        rw e ((x, vout, here, index), entries_of-IsPlaced xs h.1)
  ]

  order-IsPlaced :
      All
        (IsPlaced p (build_commitment_tx hashes p))
        (build_commitment_tx hashes p).htlcs_in_output_order
  unfolding build_commitment_tx placed sorted
  order-IsPlaced =
      subst (All (IsPlaced p (build_commitment_tx hashes p)))
        (sym (place-order 0 (sorted hashes p) (nothing_placed p)))
        (entries_of-IsPlaced (sorted hashes p) (sorted-IsStaged hashes p))

-- The channel's environment with the functions of src/commitment in it.
unfoldable pub with_builder : Hashes → Env → Env
unfolding build_commitment_tx build_htlc_tx commit_number_obscure_factor funding_redeemscript
with_builder hashes env = record env {
  sha256 = hashes.sha256;
  build_commitment_tx = build_commitment_tx hashes;
  build_htlc_tx = build_htlc_tx hashes;
  commit_number_obscure_factor = commit_number_obscure_factor hashes;
  funding_redeemscript = funding_redeemscript;
}

-- Every entry of `htlcs_in_output_order` names an HTLC of the parameters that has an output index:
-- what the channel relies on when it signs and verifies HTLCs holds of the builder.
pub with_builder-PlacesHtlcs : (hashes : Hashes) (env : Env) → PlacesHtlcs (with_builder hashes env)
unfolding with_builder
with_builder-PlacesHtlcs hashes env p = order-IsPlaced hashes p
