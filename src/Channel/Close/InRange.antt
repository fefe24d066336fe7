-- ===== src/Channel/Close/InRange.antt =====
-- src/channel/close.rs: a counter-proposal lies inside the ranges of both sides.
use keraunos.Prelude.{
  ℕ, ◌≤◌, ◌≡◌, sym, ap, ◌∙◌, arith, false, Bool-cases, Option, Option-cases, none, some, inl, inr,
  Bytes, min, max, ltb, ◌==◌,
}
use keraunos.Types.{FeeRatePerKw}
use keraunos.Commitment.{Transaction}
use keraunos.Channel.Data.{
  Channel, Result, ok, Result-cases, negotiating_close, is_opener, >>=-eq-ok,
}
use keraunos.Channel.Env.{Env}
use keraunos.Wire.Msgs.Data.{ClosingSigned, ClosingSignedFeeRange}
use keraunos.Channel.Close.{
  ready_to_negotiate_close, clamp, closing_fee_bounds, build_and_sign_closing,
  verify_their_closing_sig, finalize_closing,
}
use keraunos.Channel.Close.Negotiate.{
  reply, closing_signed_at, finish, finish_and_reply, propose, propose_in_range, negotiate_range,
  is_agreed, answer_closing, on_closing_signed,
}

-- A fee inside both sides' ranges.
abbrev pub IsInside : ℕ → ClosingSignedFeeRange → ClosingSignedFeeRange → Type 0
IsInside fee a b =
    (max a.min_fee_satoshis b.min_fee_satoshis ≤ fee)
    × (fee ≤ min a.max_fee_satoshis b.max_fee_satoshis)

pub ok-inj {ℓ} : {A : Type ℓ} {a b : A} → ◌≡◌ {A = Result A} (ok a) (ok b) → a ≡ b
ok-inj h = cc

clamp-inside : (fee lo hi k : ℕ) → clamp fee lo hi ≡ ok k → (lo ≤ k) × (k ≤ hi)
unfolding clamp
clamp-inside fee lo hi k h = (ground arith, ground arith)

module _ (env : Env) where
  pub closing_signed_at-fee :
      (c : Channel) (fee : ℕ) (range : Option ClosingSignedFeeRange) (m : ClosingSigned)
      → closing_signed_at env c fee range ≡ ok m
      → (m.fee_satoshis ≡ fee) × (m.fee_range ≡ range)
  unfolding closing_signed_at
  closing_signed_at-fee c fee range m h =
      let (signed, e, made) = >>=-eq-ok (build_and_sign_closing env c fee) _ h in
      (ap (λ t. t.fee_satoshis) (sym (ok-inj made)), ap (λ t. t.fee_range) (sym (ok-inj made)))

  finish-ends :
      (c : Channel) (fee : ℕ) (sig : Bytes) (m : ClosingSigned) (tx : Option Transaction)
      → (finish env c fee sig).1 ≡ ok (reply m tx)
      → ⊥
  unfolding finish
  finish-ends c fee sig m tx h =
      let (t, e, made) = >>=-eq-ok (finalize_closing env c fee sig).1 _ h in cc

  finish_and_reply-ends :
      (c : Channel) (fee : ℕ) (sig : Bytes) (range : Option ClosingSignedFeeRange)
      (m : ClosingSigned)
      → (finish_and_reply env c fee sig range).1 ≡ ok (reply m none)
      → ⊥
  unfolding finish_and_reply
  finish_and_reply-ends c fee sig range m h =
      let (c', r) = finalize_closing env c fee sig in
      let (t, e, h1) = >>=-eq-ok (finalize_closing env c fee sig).1 _ h in
      let (msg, e1, made) =
        >>=-eq-ok (closing_signed_at env (finalize_closing env c fee sig).0 fee range) _ h1 in
      cc

  -- What a counter-proposal is.
  propose_in_range-IsInside :
      (c : Channel) (msg m : ClosingSigned) (our_fee lo hi : ℕ) (ours : ClosingSignedFeeRange)
      → (propose_in_range env c msg our_fee lo hi ours).1 ≡ ok (reply m none)
      → (lo ≤ m.fee_satoshis) × (m.fee_satoshis ≤ hi) × (m.fee_range ≡ some ours)
  unfolding propose_in_range propose
  propose_in_range-IsInside c msg m our_fee lo hi ours h =
      elim (Option-cases c.last_closing_fee_proposal) [
        | inr (sent, e) ↦ elim (Bool-cases (msg.fee_satoshis == sent)) [
          | inl same ↦ absurd (
              finish-ends c msg.fee_satoshis msg.signature m none
                (rw (e, propose_in_range, same) at h))
          | inr moved ↦ let h' = rw (e, propose_in_range, moved) at h in absurd cc
        ]
        | inl e ↦ elim (Result-cases (clamp our_fee lo hi)) [
          | inr (inl (x, k)) ↦ let h' = rw (e, propose_in_range, k) at h in absurd cc
          | inr (inr k) ↦ let h' = rw (e, propose_in_range, k) at h in absurd cc
          | inl (fee, k) ↦
              let c' = record c { last_closing_fee_proposal = some fee } in
              let (low, high) = clamp-inside our_fee lo hi fee k in
              elim (Bool-cases (fee == msg.fee_satoshis)) [
                | inl same ↦ absurd (
                    finish_and_reply-ends c' fee msg.signature (some ours) m
                      (rw (e, propose_in_range, k, same) at h))
                | inr other ↦
                    let h' : (propose env c' fee (some ours)).1 ≡ ok (reply m none) =
                      rw (e, propose_in_range, k, other) at h in
                    let (sent, e1, made) =
                      >>=-eq-ok (closing_signed_at env c' fee (some ours)) _ h' in
                    let same_msg : sent ≡ m = cc in
                    let (fee_eq, range_eq) =
                      closing_signed_at-fee c' fee (some ours) m (e1 ∙ ap ok same_msg) in
                    (rw fee_eq low, rw fee_eq high, range_eq)
              ]
        ]
      ]

  answer_closing-IsInside :
      (d : Channel) (m1 m2 : ClosingSigned) (range : ClosingSignedFeeRange) (target : FeeRatePerKw)
      → is_opener d.role ≡ false
      → m1.fee_range ≡ some range
      → (answer_closing env d m1 target).1 ≡ ok (reply m2 none)
      → (ours : ClosingSignedFeeRange) × (m2.fee_range ≡ some ours)
        × IsInside m2.fee_satoshis ours range
  unfolding answer_closing negotiate_range
  answer_closing-IsInside d m1 m2 range target accepts offered h =
      elim (Bool-cases (is_agreed d m1.fee_satoshis)) [
        | inl agreed ↦ absurd (finish-ends d m1.fee_satoshis m1.signature m2 none (rw agreed at h))
        | inr other ↦ elim (Result-cases (closing_fee_bounds d target)) [
          | inr (inl (x, e)) ↦ let h' = rw (other, e) at h in absurd cc
          | inr (inr e) ↦ let h' = rw (other, e) at h in absurd cc
          | inl ((our_fee, our_min, our_max), e) ↦
              let ours : ClosingSignedFeeRange = record {
                min_fee_satoshis = our_min;
                max_fee_satoshis = our_max;
              } in
              let lo = max our_min range.min_fee_satoshis in
              let hi = min our_max range.max_fee_satoshis in
              elim (Bool-cases (ltb hi lo)) [
                | inl apart ↦ let h' = rw (other, e, offered, apart) at h in absurd cc
                | inr overlap ↦
                    let (low, high, echoed) =
                      propose_in_range-IsInside d m1 m2 our_fee lo hi ours
                        (rw (other, e, offered, overlap, accepts) at h) in
                    (ours, echoed, (low, high))
              ]
        ]
      ]

  pub on_closing_signed-IsInside :
      (d : Channel) (m1 m2 : ClosingSigned) (range : ClosingSignedFeeRange) (target : FeeRatePerKw)
      → is_opener d.role ≡ false
      → m1.fee_range ≡ some range
      → (on_closing_signed env d m1 target).1 ≡ ok (reply m2 none)
      → (ours : ClosingSignedFeeRange) × (m2.fee_range ≡ some ours)
        × IsInside m2.fee_satoshis ours range
  unfolding on_closing_signed
  on_closing_signed-IsInside d m1 m2 range target accepts offered h =
      let d' = record d { state = negotiating_close } in
      elim (Bool-cases (ready_to_negotiate_close d)) [
        | inr busy ↦ let h' = rw busy at h in absurd cc
        | inl ready ↦
            elim (Result-cases (verify_their_closing_sig env d' m1.fee_satoshis m1.signature)) [
              | inr (inl (x, e)) ↦ let h' = rw (ready, e) at h in absurd cc
              | inr (inr e) ↦ let h' = rw (ready, e) at h in absurd cc
              | inl (tx, e) ↦
                  answer_closing-IsInside d' m1 m2 range target accepts offered (rw (ready, e) at h)
            ]
      ]
