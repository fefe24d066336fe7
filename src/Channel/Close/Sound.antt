-- ===== src/Channel/Close/Sound.antt =====
-- src/channel/close.rs: with what a channel closes.
use keraunos.Prelude.{
  ℕ, true, ◌≡◌, refl, sym, ap, ◌∙◌, ◌⊎◌, inl, inr, Option, some, Bytes, Bool-cases, ◌==◌, ltb, ◌||◌,
  Option-cases, min, max, ==_iff,
}
use keraunos.Types.{FeeRatePerKw}
use mathlib.Core.Path.{subst}
use keraunos.Commitment.{Transaction}
use keraunos.Channel.Data.{Channel, closed, negotiating_close, ok, Result, Result-cases, is_opener}
use keraunos.Channel.Env.{Env}
use keraunos.Channel.Balance.{balances_for}
use keraunos.Channel.Build.{counterparty, funding_sighash}
use keraunos.Channel.Close.{build_and_sign_closing, closing_tx_at}
use keraunos.Wire.Msgs.Data.{ClosingSigned, ClosingSignedFeeRange}
use keraunos.Channel.Close.{
  ready_to_negotiate_close, clamp, closing_fee_bounds, verify_their_closing_sig, signed_closing_tx,
  finalize_closing,
}
use keraunos.Channel.Close.Negotiate.{
  ClosingSignedOutcome, finish, finish_and_reply, propose, remember_fee, accept_in_range,
  propose_in_range, negotiate_range, legacy_fee, negotiate_legacy, is_agreed, answer_closing,
  on_closing_signed,
}

-- Negotiation goes on, or the channel has closed with the transaction for this fee and signature.
abbrev pub Ends : Env → Channel → ℕ → Bytes → Channel → Type 0
Ends env c fee sig after =
    (after.state ≡ negotiating_close)
    ⊎ ((tx : Transaction) × (after.state ≡ closed)
        × (after.closing_tx ≡ some tx)
        × (signed_closing_tx env c fee sig ≡ ok tx))

abbrev pub with_proposal : ℕ → Channel → Channel
with_proposal fee c = record c { last_closing_fee_proposal = some fee }

abbrev pub negotiating : Channel → Channel
negotiating c = record c { state = negotiating_close }

module _ (env : Env) where
  finalize_closing-Ends :
      (c : Channel) (fee : ℕ) (sig : Bytes)
      → c.state ≡ negotiating_close
      → Ends env c fee sig (finalize_closing env c fee sig).0
  unfolding finalize_closing
  finalize_closing-Ends c fee sig h = elim (Result-cases (signed_closing_tx env c fee sig)) [
    | inl (tx, e) ↦ rw (e, finalize_closing) (inr (tx, refl, refl, refl))
    | inr (inl (x, e)) ↦ rw (e, finalize_closing) (inl h)
    | inr (inr e) ↦ rw (e, finalize_closing) (inl h)
  ]

  remember_fee-Ends :
      (c : Channel) (fee kept : ℕ) (sig : Bytes) (out : Channel × Result ClosingSignedOutcome)
      → Ends env c fee sig out.0
      → Ends env c fee sig (remember_fee kept out).0
  unfolding remember_fee
  remember_fee-Ends c fee kept sig (c', r) h = elim (Result-cases r) [
    | inl (o, e) ↦ rw (e, remember_fee) h
    | inr (inl (x, e)) ↦ rw (e, remember_fee) h
    | inr (inr e) ↦ rw (e, remember_fee) h
  ]

  proposed-Ends :
      (c after : Channel) (last : Option ℕ) (fee : ℕ) (sig : Bytes)
      → Ends env (record c { last_closing_fee_proposal = last }) fee sig after
      → Ends env c fee sig after
  unfolding signed_closing_tx build_and_sign_closing closing_tx_at balances_for funding_sighash
      counterparty
  proposed-Ends c after last fee sig h = h

  finish_proposed-Ends :
      (c : Channel) (fee fee' : ℕ) (sig : Bytes)
      → c.state ≡ negotiating_close
      → fee ≡ fee'
      → Ends env c fee' sig (finalize_closing env (with_proposal fee c) fee sig).0
  finish_proposed-Ends c fee fee' sig h same =
      let after = (finalize_closing env (with_proposal fee c) fee sig).0 in
      subst (λ f. Ends env c f sig after) same
        (proposed-Ends c after (some fee) fee sig
          (finalize_closing-Ends (with_proposal fee c) fee sig h))

  module _ (c : Channel) (msg : ClosingSigned) (open_state : c.state ≡ negotiating_close) where
    accept_in_range-Ends :
        (lo hi : ℕ) (ours : ClosingSignedFeeRange)
        → Ends env c msg.fee_satoshis msg.signature (accept_in_range env c msg lo hi ours).0
    unfolding accept_in_range finish_and_reply
    accept_in_range-Ends lo hi ours =
        elim (Bool-cases (ltb msg.fee_satoshis lo || ltb hi msg.fee_satoshis)) [
          | inl outside ↦ rw outside (inl open_state)
          | inr inside ↦ rw inside (
              remember_fee-Ends c msg.fee_satoshis msg.fee_satoshis msg.signature
                (finish_and_reply env c msg.fee_satoshis msg.signature (some ours))
                (finalize_closing-Ends c msg.fee_satoshis msg.signature open_state))
        ]

    propose_in_range-Ends :
        (our_fee lo hi : ℕ) (ours : ClosingSignedFeeRange)
        → Ends env c msg.fee_satoshis msg.signature
            (propose_in_range env c msg our_fee lo hi ours).0
    unfolding propose_in_range finish finish_and_reply propose
    propose_in_range-Ends our_fee lo hi ours = elim (Option-cases c.last_closing_fee_proposal) [
      | inr (sent, e) ↦ elim (Bool-cases (msg.fee_satoshis == sent)) [
        | inl same ↦
            rw (e, propose_in_range, same)
              (finalize_closing-Ends c msg.fee_satoshis msg.signature open_state)
        | inr moved ↦ rw (e, propose_in_range, moved) (inl open_state)
      ]
      | inl e ↦ elim (Result-cases (clamp our_fee lo hi)) [
        | inr (inl (x, k)) ↦ rw (e, propose_in_range, k, propose_in_range) (inl open_state)
        | inr (inr k) ↦ rw (e, propose_in_range, k, propose_in_range) (inl open_state)
        | inl (fee, k) ↦ elim (Bool-cases (fee == msg.fee_satoshis)) [
          | inl same ↦
              rw (e, propose_in_range, k, propose_in_range, same)
                (finish_proposed-Ends c fee msg.fee_satoshis msg.signature open_state
                  ((==_iff fee msg.fee_satoshis).0 same))
          | inr other ↦ rw (e, propose_in_range, k, propose_in_range, other) (inl open_state)
        ]
      ]
    ]

    negotiate_legacy-Ends :
        (our_fee : ℕ)
        → Ends env c msg.fee_satoshis msg.signature (negotiate_legacy env c msg our_fee).0
    unfolding negotiate_legacy finish_and_reply propose
    negotiate_legacy-Ends our_fee =
        let next = legacy_fee c.last_closing_fee_proposal our_fee msg.fee_satoshis in
        elim (Bool-cases (next == msg.fee_satoshis)) [
          | inr other ↦ rw other (inl open_state)
          | inl same ↦
              let equal : next ≡ msg.fee_satoshis = (==_iff next msg.fee_satoshis).0 same in
              rw same (
                subst
                  (λ f.
                    Ends env c msg.fee_satoshis msg.signature
                      (finalize_closing env (with_proposal next c) f msg.signature).0)
                  equal
                  (finish_proposed-Ends c next msg.fee_satoshis msg.signature open_state equal))
        ]

    negotiate_range-Ends :
        (our_fee : ℕ) (ours range : ClosingSignedFeeRange)
        → Ends env c msg.fee_satoshis msg.signature (negotiate_range env c msg our_fee ours range).0
    unfolding negotiate_range
    negotiate_range-Ends our_fee ours range =
        let P : Channel × Result ClosingSignedOutcome → Type 0 =
          λ out. Ends env c msg.fee_satoshis msg.signature out.0 in
        let lo = max ours.min_fee_satoshis range.min_fee_satoshis in
        let hi = min ours.max_fee_satoshis range.max_fee_satoshis in
        elim (Bool-cases (ltb hi lo)) [
          | inl apart ↦ rw apart (inl open_state)
          | inr overlap ↦ elim (Bool-cases (is_opener c.role)) [
            | inl funder ↦
                let eq : negotiate_range env c msg our_fee ours range
                    ≡ accept_in_range env c msg lo hi ours =
                  rw (overlap, funder) refl in
                subst P (sym eq) (accept_in_range-Ends lo hi ours)
            | inr other ↦
                let eq : negotiate_range env c msg our_fee ours range
                    ≡ propose_in_range env c msg our_fee lo hi ours =
                  rw (overlap, other) refl in
                subst P (sym eq) (propose_in_range-Ends our_fee lo hi ours)
          ]
        ]

    answer_closing-Ends :
        (target : FeeRatePerKw)
        → Ends env c msg.fee_satoshis msg.signature (answer_closing env c msg target).0
    unfolding answer_closing finish
    answer_closing-Ends target = elim (Bool-cases (is_agreed c msg.fee_satoshis)) [
      | inl agreed ↦ rw agreed (finalize_closing-Ends c msg.fee_satoshis msg.signature open_state)
      | inr other ↦ elim (Result-cases (closing_fee_bounds c target)) [
        | inr (inl (x, e)) ↦ rw (other, e) (inl open_state)
        | inr (inr e) ↦ rw (other, e) (inl open_state)
        | inl ((our_fee, our_min, our_max), e) ↦ elim (Option-cases msg.fee_range) [
          | inl legacy ↦ rw (other, e, legacy) (negotiate_legacy-Ends our_fee)
          | inr (range, offered) ↦
              rw (other, e, offered)
                (negotiate_range-Ends our_fee
                  (record { min_fee_satoshis = our_min; max_fee_satoshis = our_max }) range)
        ]
      ]
    ]

  -- A channel closes only on a quiescent channel, and only with their verified signature: after
  -- `on_closing_signed`, negotiation goes on, the channel is as before, or it is closed, their
  -- signature verified on the transaction for their fee, and the stored transaction is that one with
  -- both signatures.
  pub on_closing_signed_sound :
      (c : Channel) (msg : ClosingSigned) (target : FeeRatePerKw)
      → ((on_closing_signed env c msg target).0 ≡ c)
        ⊎ (((on_closing_signed env c msg target).0.state ≡ negotiating_close)
            ⊎ ((ready_to_negotiate_close c ≡ true)
                × (base : Transaction) × (tx : Transaction) × (verify_their_closing_sig env
                      (negotiating c)
                      msg.fee_satoshis
                      msg.signature
                    ≡ ok base)
                × (signed_closing_tx env (negotiating c) msg.fee_satoshis msg.signature ≡ ok tx)
                × ((on_closing_signed env c msg target).0.state ≡ closed)
                × ((on_closing_signed env c msg target).0.closing_tx ≡ some tx)))
  unfolding on_closing_signed
  on_closing_signed_sound c msg target = elim (Bool-cases (ready_to_negotiate_close c)) [
    | inr busy ↦ inl (rw busy refl)
    | inl ready ↦
        let c' = negotiating c in
        inr (elim (Result-cases (verify_their_closing_sig env c' msg.fee_satoshis msg.signature)) [
          | inr (inl (x, e)) ↦ rw (ready, e, on_closing_signed) (inl refl)
          | inr (inr e) ↦ rw (ready, e, on_closing_signed) (inl refl)
          | inl (base, e) ↦
              let eq : on_closing_signed env c msg target ≡ answer_closing env c' msg target =
                rw (ready, e, on_closing_signed) refl in
              elim (answer_closing-Ends c' msg refl target) [
                | inl going ↦ inl (ap (λ out. out.0.state) eq ∙ going)
                | inr (tx, done_state, stored, signed) ↦ inr (
                  ready,
                  base,
                  tx,
                  e,
                  signed,
                  ap (λ out. out.0.state) eq ∙ done_state,
                  ap (λ out. out.0.closing_tx) eq ∙ stored,
                )
              ]
        ])
  ]
