-- ===== src/Commitment/StagedOutputs.antt =====
-- src/commitment/mod.rs: the staged outputs of `build_commitment_tx`, before and after sorting.
use keraunos.Prelude.{
  ℕ, zero, suc, ◌+◌, ◌<◌, ◌≡◌, ◌≢◌, refl, ◌∙◌, ap, sym, arith, List, [], ◌∷◌, ◌++◌, append_assoc,
  inl, inr, Bytes, Option, none, some, get_elem?, length, length-append, All, All-append,
  if◌then◌else◌, Bool, true, false, Bool-cases,
}
use keraunos.Prelude.Sort.{total, total-append, sort_by, sort_by-All, sort_by-total}
use keraunos.Commitment.{CommitmentTxParams, HtlcOutputInCommitment}
use keraunos.Commitment.Build.{
  Staged, htlc, staged_cmp, staged_outputs, stage_broadcaster, stage_countersignatory, stage_htlc,
  stage_htlcs, is_untrimmed,
}
use keraunos.Commitment.Scripts.{htlc_witness_script}
use keraunos.Bitcoin.Script.{Hashes}
use keraunos.Commitment.Places.{places, places-htlc}
use keraunos.Commitment.Build.{to_broadcaster_sat, to_countersignatory_sat}
use keraunos.Prelude.{leb}
use keraunos.Prelude.Positions.{get_elem?-middle}

-- What a staged output of an HTLC is: the output of an HTLC of the parameters that is not trimmed.
abbrev pub IsStaged : Hashes → CommitmentTxParams → Staged → Type 0
IsStaged hashes p s =
    (i : ℕ) (script : Bytes)
    → s.origin ≡ htlc i script
    → (h : HtlcOutputInCommitment) × (get_elem? p.htlcs i ≡ some h)
      × (is_untrimmed p h ≡ true)
      × (s ≡ stage_htlc hashes p i h)

unfoldable pub wanted_of : CommitmentTxParams → Option HtlcOutputInCommitment → ℕ
wanted_of p none = 0
wanted_of p (some h) = if is_untrimmed p h then 1 else 0

origin_index : (i j : ℕ) (s t : Bytes) → htlc i s ≡ htlc j t → i ≡ j
origin_index i j s t e = cc

module _ (hashes : Hashes) (p : CommitmentTxParams) where
  stage_htlcs-total_below :
      (hs : List HtlcOutputInCommitment) (i j : ℕ)
      → i < j
      → total (places i) (stage_htlcs hashes p j hs) ≡ 0
  unfolding total stage_htlcs
  stage_htlcs-total_below [] i j h = refl
  stage_htlcs-total_below (x ∷ hs) i j h = elim (Bool-cases (is_untrimmed p x)) [
    | inl kept ↦ rw kept (
        ground (
          arith,
          stage_htlcs-total_below hs i (j + 1) (omega arith),
          places-htlc i j (stage_htlc hashes p j x) (htlc_witness_script hashes p.keys x)
              (unfold stage_htlc in refl),
        ))
    | inr trimmed ↦ rw trimmed (stage_htlcs-total_below hs i (j + 1) (omega arith))
  ]

  stage_htlcs-total :
      (hs : List HtlcOutputInCommitment) (j k : ℕ)
      → total (places (j + k)) (stage_htlcs hashes p j hs) ≡ wanted_of p (get_elem? hs k)
  unfolding total stage_htlcs wanted_of
  stage_htlcs-total [] j k = refl
  stage_htlcs-total (x ∷ hs) j zero = elim (Bool-cases (is_untrimmed p x)) [
    | inl kept ↦ rw kept (
        ground (
          arith,
          stage_htlcs-total_below hs (j + 0) (j + 1) (omega arith),
          places-htlc (j + 0) j (stage_htlc hashes p j x) (htlc_witness_script hashes p.keys x)
              (unfold stage_htlc in refl),
        ))
    | inr trimmed ↦ rw trimmed (stage_htlcs-total_below hs (j + 0) (j + 1) (omega arith))
  ]
  stage_htlcs-total (x ∷ hs) j (suc k) =
      let next : total (places (j + suc k)) (stage_htlcs hashes p (j + 1) hs)
          ≡ wanted_of p (get_elem? hs k) =
        ap (λ n. total (places n) (stage_htlcs hashes p (j + 1) hs)) {x = j + suc k} {y = j + 1 + k}
          (omega arith)
        ∙ stage_htlcs-total hs (j + 1) k in
      elim (Bool-cases (is_untrimmed p x)) [
        | inl kept ↦ rw kept (
            ground (
              arith,
              next,
              places-htlc (j + suc k) j (stage_htlc hashes p j x)
                  (htlc_witness_script hashes p.keys x) (unfold stage_htlc in refl),
            ))
        | inr trimmed ↦ rw trimmed next
      ]

  staged_outputs-total :
      (i : ℕ) → total (places i) (staged_outputs hashes p) ≡ wanted_of p (get_elem? p.htlcs i)
  unfolding staged_outputs
  staged_outputs-total i =
      let none_b : total (places i) (stage_broadcaster hashes p) ≡ 0 =
        unfold stage_broadcaster total places in ground arith in
      let none_c : total (places i) (stage_countersignatory hashes p) ≡ 0 =
        unfold stage_countersignatory total places in ground arith in
      let of_htlcs : total (places i) (stage_htlcs hashes p 0 p.htlcs)
          ≡ wanted_of p (get_elem? p.htlcs i) =
        ap (λ n. total (places n) (stage_htlcs hashes p 0 p.htlcs)) {x = i} {y = 0 + i}
          (omega arith)
        ∙ stage_htlcs-total p.htlcs 0 i in
      omega (
        arith,
        none_b,
        none_c,
        of_htlcs,
        total-append (places i) (stage_broadcaster hashes p)
            (stage_countersignatory hashes p ++ stage_htlcs hashes p 0 p.htlcs),
        total-append (places i) (stage_countersignatory hashes p) (stage_htlcs hashes p 0 p.htlcs),
      )

  stage_htlc-IsStaged :
      (i : ℕ) (x : HtlcOutputInCommitment)
      → get_elem? p.htlcs i ≡ some x
      → is_untrimmed p x ≡ true
      → IsStaged hashes p (stage_htlc hashes p i x)
  stage_htlc-IsStaged i x here kept j script e =
      let same : i ≡ j =
        origin_index i j (htlc_witness_script hashes p.keys x) script (unfold stage_htlc in e) in
      (x, ap (get_elem? p.htlcs) (sym same) ∙ here, kept, ap (λ k. stage_htlc hashes p k x) same)

  stage_htlcs-IsStaged :
      (hs seen : List HtlcOutputInCommitment)
      → seen ++ hs ≡ p.htlcs
      → All (IsStaged hashes p) (stage_htlcs hashes p (length seen) hs)
  unfolding stage_htlcs
  stage_htlcs-IsStaged [] seen h = tt
  stage_htlcs-IsStaged (x ∷ hs) seen h =
      let next : All (IsStaged hashes p) (stage_htlcs hashes p (length seen + 1) hs) =
        rw (length-append seen (x ∷ [])) at
          (stage_htlcs-IsStaged hs (seen ++ x ∷ []) (append_assoc seen (x ∷ []) hs ∙ h)) in
      let here : get_elem? p.htlcs (length seen) ≡ some x =
        ap (λ xs. get_elem? xs (length seen)) (sym h) ∙ get_elem?-middle seen x hs in
      elim (Bool-cases (is_untrimmed p x)) [
        | inl kept ↦ rw kept (stage_htlc-IsStaged (length seen) x here kept, next)
        | inr trimmed ↦ rw trimmed next
      ]

  optional-IsStaged :
      (b : Bool) (s : Staged)
      → ((i : ℕ) (script : Bytes) → s.origin ≢ htlc i script)
      → All (IsStaged hashes p) (if b then s ∷ [] else [])
  optional-IsStaged true s h = (λ i script e. absurd (h i script e), tt)
  optional-IsStaged false s h = tt

  stage_broadcaster-IsStaged : All (IsStaged hashes p) (stage_broadcaster hashes p)
  unfolding stage_broadcaster
  stage_broadcaster-IsStaged =
      optional-IsStaged (leb p.broadcaster_dust_limit_sat (to_broadcaster_sat p)) _
        (λ i script e. cc)

  stage_countersignatory-IsStaged : All (IsStaged hashes p) (stage_countersignatory hashes p)
  unfolding stage_countersignatory
  stage_countersignatory-IsStaged =
      optional-IsStaged (leb p.broadcaster_dust_limit_sat (to_countersignatory_sat p)) _
        (λ i script e. cc)

  staged_outputs-IsStaged : All (IsStaged hashes p) (staged_outputs hashes p)
  unfolding staged_outputs
  staged_outputs-IsStaged =
      All-append (IsStaged hashes p) (stage_broadcaster hashes p)
        (stage_countersignatory hashes p ++ stage_htlcs hashes p 0 p.htlcs)
        stage_broadcaster-IsStaged
        (All-append (IsStaged hashes p) (stage_countersignatory hashes p)
          (stage_htlcs hashes p 0 p.htlcs) stage_countersignatory-IsStaged
          (stage_htlcs-IsStaged p.htlcs [] refl))

  unfoldable pub sorted : List Staged
  sorted = sort_by staged_cmp (staged_outputs hashes p)

  pub sorted-IsStaged : All (IsStaged hashes p) sorted
  unfolding sorted
  sorted-IsStaged =
      sort_by-All staged_cmp (IsStaged hashes p) (staged_outputs hashes p) staged_outputs-IsStaged

  pub sorted-total : (i : ℕ) → total (places i) sorted ≡ wanted_of p (get_elem? p.htlcs i)
  unfolding sorted
  sorted-total i =
      sort_by-total staged_cmp (places i) (staged_outputs hashes p) ∙ staged_outputs-total i
