-- ===== src/Commitment/Places.antt =====
-- src/commitment/mod.rs: where the outputs of HTLCs are.
use keraunos.Prelude.{
  ℕ, suc, ◌+◌, ◌<◌, ◌≡◌, ◌≢◌, refl, ◌∙◌, ap, arith, List, [], ◌∷◌, inl, inr, Bytes, some, get_elem?,
  length, length-set, get_elem?-set_self, get_elem?-set_ne, ◌==◌, if◌then◌else◌,
}
use keraunos.Prelude.Sort.{total}
use keraunos.Commitment.Build.{
  Staged, broadcaster, countersignatory, htlc, Placed, place_one, place,
}
use keraunos.Commitment.Order.{Origin-cases}
use native.Mathlib.Decide.{dec_le}

-- 1 for an output of HTLC `i`.
unfoldable pub places : ℕ → Staged → ℕ
places i s = elim s.origin [
  | broadcaster ↦ 0
  | countersignatory ↦ 0
  | htlc j script ↦ if j == i then 1 else 0
]

pub places-htlc :
    (i j : ℕ) (s : Staged) (script : Bytes)
    → s.origin ≡ htlc j script
    → places i s ≡ (if j == i then 1 else 0)
unfolding places
places-htlc i j s script e = rw (e, places) refl

place_one-absent :
    (vout i : ℕ) (s : Staged) (acc : Placed)
    → places i s ≡ 0
    → get_elem? (place_one vout s acc).htlc_output_indices i ≡ get_elem? acc.htlc_output_indices i
unfolding places place_one
place_one-absent vout i s acc h = elim (Origin-cases s.origin) [
  | inl e ↦ rw (e, place_one) refl
  | inr (inl e) ↦ rw (e, place_one) refl
  | inr (inr (j, script, e)) ↦
      let ne : j ≢ i = ground (arith, places-htlc i j s script e) in
      rw (e, place_one) (get_elem?-set_ne acc.htlc_output_indices (some vout) ne)
]

place_one-present :
    (vout i : ℕ) (s : Staged) (acc : Placed)
    → places i s ≢ 0
    → i < length acc.htlc_output_indices
    → (script : Bytes) × (s.origin ≡ htlc i script)
      × (get_elem? (place_one vout s acc).htlc_output_indices i ≡ some (some vout))
unfolding places place_one
place_one-present vout i s acc h fits = elim (Origin-cases s.origin) [
  | inl e ↦ absurd (h (rw (e, places) refl))
  | inr (inl e) ↦ absurd (h (rw (e, places) refl))
  | inr (inr (j, script, e)) ↦
      let same : j ≡ i = ground (arith, places-htlc i j s script e) in
      (
        script,
        e ∙ ap (λ k. htlc k script) same,
        rw (e, place_one, same) (get_elem?-set_self acc.htlc_output_indices i (some vout) fits),
      )
]

place_one-length :
    (vout : ℕ) (s : Staged) (acc : Placed)
    → length (place_one vout s acc).htlc_output_indices ≡ length acc.htlc_output_indices
unfolding place_one
place_one-length vout s acc = elim (Origin-cases s.origin) [
  | inl e ↦ rw (e, place_one) refl
  | inr (inl e) ↦ rw (e, place_one) refl
  | inr (inr (j, script, e)) ↦ rw (e, place_one) (length-set acc.htlc_output_indices j (some vout))
]

pub place-absent :
    (vout i : ℕ) (xs : List Staged) (acc : Placed)
    → total (places i) xs ≡ 0
    → get_elem? (place vout xs acc).htlc_output_indices i ≡ get_elem? acc.htlc_output_indices i
unfolding place total
place-absent vout i [] acc h = refl
place-absent vout i (s ∷ xs) acc h =
    place-absent (vout + 1) i xs (place_one vout s acc) (omega arith)
    ∙ place_one-absent vout i s acc (omega arith)

pub place-present :
    (vout i : ℕ) (xs : List Staged) (acc : Placed)
    → total (places i) xs ≡ 1
    → i < length acc.htlc_output_indices
    → (k : ℕ) × (s : Staged) × (script : Bytes) × (get_elem? xs k ≡ some s)
      × (s.origin ≡ htlc i script)
      × (get_elem? (place vout xs acc).htlc_output_indices i ≡ some (some (vout + k)))
unfolding place total
place-present vout i [] acc h fits = absurd (omega arith)
place-present vout i (s ∷ xs) acc h fits = elim (dec_le 1 (places i s)) [
  | yes here ↦
      let (script, e, now) = place_one-present vout i s acc (λ z. omega (arith, here, z)) fits in
      (
        0,
        s,
        script,
        refl,
        e,
        place-absent (vout + 1) i xs (place_one vout s acc) (omega (arith, here))
            ∙ now
            ∙ ap (λ k. some (some k)) (omega arith),
      )
  | no later ↦
      let (k, t, script, at, e, found) =
        place-present (vout + 1) i xs (place_one vout s acc) (omega (arith, later))
          (rw (place_one-length vout s acc) fits) in
      (suc k, t, script, at, e, found ∙ ap (λ n. some (some n)) (omega arith))
]
