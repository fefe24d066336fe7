-- ===== src/Channel/Close/Agreement.antt =====
-- src/channel/close.rs: the funder's offer, the other side's counter-proposal, and the end.
use keraunos.Prelude.{
  not, List, ℕ, ◌≡◌, refl, sym, ap, ◌∙◌, arith, true, false, Bool, Bool-cases, none, some, inl, inr,
  Bytes, min, max, ltb, ◌||◌,
}
use mathlib.Core.Path.{subst}
use keraunos.Types.{FeeRatePerKw}
use keraunos.Commitment.{Transaction, ChannelPublicKeys}
use keraunos.Channel.Data.{
  Channel, Result, ok, err, panic, Result-cases, closed, negotiating_close, is_opener, >>=-eq-ok,
  ◌>>◌, deny, ChannelError, ok_or,
}
use keraunos.Channel.Env.{Env}
use keraunos.Channel.Balance.{balances_for}
use keraunos.Channel.Build.{counterparty, funding_sighash}
use keraunos.Wire.Msgs.Data.{ClosingSigned, ClosingSignedFeeRange}
use keraunos.Commitment.Build.{build_closing_tx}
use keraunos.Commitment.Witness.{funding_spend_witness}
use keraunos.Channel.Close.{
  ready_to_negotiate_close, closing_fee_bounds, closing_tx_at, build_and_sign_closing,
  verify_their_closing_sig, set_witness, signed_closing_tx, finalize_closing,
}
use keraunos.Channel.Close.Negotiate.{
  ClosingSignedOutcome, reply, has_proposal, offer_of, maybe_send_closing_signed, finish,
  finish_and_reply, remember_fee, accept_in_range, negotiate_range, is_agreed, answer_closing,
  on_closing_signed,
}
use keraunos.Channel.Close.InRange.{
  IsInside, ok-inj, closing_signed_at-fee, on_closing_signed-IsInside,
}

after_deny {ℓ} :
    {A : Type ℓ} (b : Bool) (e : ChannelError) (next : Result A) {a : A}
    → (deny b e >> next) ≡ ok a
    → next ≡ ok a
after_deny true e next h = absurd cc
after_deny false e next h = h

-- The channel of a funder that has sent an offer.
abbrev pub after_offer : Channel → ClosingSigned → Channel
after_offer c m1 = record c {
  state = negotiating_close;
  last_closing_fee_proposal = some m1.fee_satoshis;
}

after_offer-same :
    (c : Channel) (m1 : ClosingSigned) (target : FeeRatePerKw)
    → closing_fee_bounds (after_offer c m1) target ≡ closing_fee_bounds c target
unfolding closing_fee_bounds balances_for
after_offer-same c m1 target = refl

after_offer-is_ready :
    (c : Channel) (m1 : ClosingSigned)
    → ready_to_negotiate_close c ≡ true
    → ready_to_negotiate_close (after_offer c m1) ≡ true
unfolding ready_to_negotiate_close
after_offer-is_ready c m1 h = ground arith

-- Closed, with the transaction for a fee and the peer's signature stored.
abbrev pub ClosesWith : Env → Channel → ClosingSigned → Channel → Type 0
ClosesWith env c m after =
    (after.state ≡ closed)
    × (tx : Transaction) × (after.closing_tx ≡ some tx)
    × (signed_closing_tx env c m.fee_satoshis m.signature ≡ ok tx)

module _ (env : Env) where
  -- A closing transaction has the input that the witness goes to.
  set_witness-closing :
      (c : Channel) (fee : ℕ) (base : Transaction) (witness : List Bytes)
      → closing_tx_at c fee ≡ ok base
      → (tx : Transaction) × (set_witness env base witness ≡ ok tx)
  unfolding closing_tx_at build_closing_tx set_witness
  set_witness-closing c fee base witness h =
      let (a, e1, h1) = >>=-eq-ok (ok_or c.holder_shutdown_script _) _ h in
      let (b, e2, h2) = >>=-eq-ok (ok_or c.counterparty_shutdown_script _) _ h1 in
      let (f, e3, h3) = >>=-eq-ok (ok_or c.funding_outpoint _) _ h2 in
      let built = after_deny _ _ _ h3 in
      subst (λ t. (tx : Transaction) × (set_witness env t witness ≡ ok tx)) {y = base}
        (ok-inj built) (_, refl)

  signed_closing_tx-eq :
      (c : Channel) (fee : ℕ) (sig : Bytes) (base tx : Transaction) (digest : Bytes)
      (cp : ChannelPublicKeys)
      → closing_tx_at c fee ≡ ok base
      → funding_sighash env c base ≡ ok digest
      → counterparty c ≡ ok cp
      → set_witness env base (
          funding_spend_witness env.serialize_der c.holder_pubkeys.funding_pubkey cp.funding_pubkey
            (env.sign_with_funding_key digest)
            sig)
        ≡ ok tx
      → signed_closing_tx env c fee sig ≡ ok tx
  unfolding signed_closing_tx build_and_sign_closing
  signed_closing_tx-eq c fee sig base tx digest cp built hashed keyed placed =
      rw (built, hashed, keyed) placed

  -- What verifies can be signed.
  verify_their_closing_sig-signs :
      (c : Channel) (fee : ℕ) (sig : Bytes) (base : Transaction)
      → verify_their_closing_sig env c fee sig ≡ ok base
      → (tx : Transaction) × (signed_closing_tx env c fee sig ≡ ok tx)
  unfolding verify_their_closing_sig signed_closing_tx build_and_sign_closing
  verify_their_closing_sig-signs c fee sig base h =
      let (p, e1, h1) = >>=-eq-ok (build_and_sign_closing env c fee) _ h in
      let (cp, e2, h2) = >>=-eq-ok (counterparty c) _ h1 in
      let (t, e3, h3) = >>=-eq-ok (closing_tx_at c fee) _ e1 in
      let (digest, e4, h4) = >>=-eq-ok (funding_sighash env c t) _ h3 in
      let witness =
        funding_spend_witness env.serialize_der c.holder_pubkeys.funding_pubkey cp.funding_pubkey
          (env.sign_with_funding_key digest) sig in
      let (tx, e5) = set_witness-closing c fee t witness e3 in
      (tx, signed_closing_tx-eq c fee sig t tx digest cp e3 e4 e2 e5)

  finalize_closing-closes :
      (c : Channel) (fee : ℕ) (sig : Bytes) (tx : Transaction)
      → signed_closing_tx env c fee sig ≡ ok tx
      → ((finalize_closing env c fee sig).0.state ≡ closed)
        × ((finalize_closing env c fee sig).0.closing_tx ≡ some tx)
  unfolding finalize_closing
  finalize_closing-closes c fee sig tx e =
      (rw (e, finalize_closing) refl, rw (e, finalize_closing) refl)

  remember_fee-keeps :
      (fee : ℕ) (out : Channel × Result ClosingSignedOutcome)
      → ((remember_fee fee out).0.state ≡ out.0.state)
        × ((remember_fee fee out).0.closing_tx ≡ out.0.closing_tx)
  unfolding remember_fee
  remember_fee-keeps fee (c, ok outcome) = (refl, refl)
  remember_fee-keeps fee (c, err e) = (refl, refl)
  remember_fee-keeps fee (c, panic) = (refl, refl)

  -- The funder closes with a counter-proposal inside both ranges.
  negotiate_range-closes :
      (c : Channel) (m : ClosingSigned) (our_fee : ℕ) (ours range : ClosingSignedFeeRange)
      (tx : Transaction)
      → is_opener c.role ≡ true
      → IsInside m.fee_satoshis range ours
      → signed_closing_tx env c m.fee_satoshis m.signature ≡ ok tx
      → ((negotiate_range env c m our_fee ours range).0.state ≡ closed)
        × ((negotiate_range env c m our_fee ours range).0.closing_tx ≡ some tx)
  unfolding negotiate_range accept_in_range finish_and_reply
  negotiate_range-closes c m our_fee ours range tx opens inside signed =
      let (low, high) = inside in
      let fee = m.fee_satoshis in
      let lo = max ours.min_fee_satoshis range.min_fee_satoshis in
      let hi = min ours.max_fee_satoshis range.max_fee_satoshis in
      let overlap : ltb hi lo ≡ false = ground arith in
      let fits : ltb fee lo || ltb hi fee ≡ false = ground arith in
      let out = finish_and_reply env c fee m.signature (some ours) in
      let (kept, stored) = remember_fee-keeps fee out in
      let (state, closing) = finalize_closing-closes c fee m.signature tx signed in
      rw (overlap, opens, fits) (kept ∙ state, stored ∙ closing)

  offer_of-range :
      (c : Channel) (target : FeeRatePerKw) (m : ClosingSigned)
      → offer_of env c target ≡ ok m
      → (our_fee : ℕ) × (range : ClosingSignedFeeRange) × (m.fee_range ≡ some range)
        × (closing_fee_bounds c target
            ≡ ok (our_fee, range.min_fee_satoshis, range.max_fee_satoshis))
  unfolding offer_of
  offer_of-range c target m e =
      let (b, bounds, made) = >>=-eq-ok (closing_fee_bounds c target) _ e in
      let range : ClosingSignedFeeRange = record {
        min_fee_satoshis = b.1;
        max_fee_satoshis = b.2;
      } in
      let (fee, echoed) = closing_signed_at-fee env c b.0 (some range) m made in
      (b.0, range, echoed, bounds)

  offer-cases :
      (c : Channel) (m1 : ClosingSigned) (target : FeeRatePerKw)
      → (maybe_send_closing_signed env c target).1 ≡ ok (some m1)
      → (ready_to_negotiate_close c ≡ true)
        × (is_opener c.role ≡ true)
        × ((maybe_send_closing_signed env c target).0 ≡ after_offer c m1)
        × (our_fee : ℕ) × (range : ClosingSignedFeeRange) × (m1.fee_range ≡ some range)
        × (closing_fee_bounds c target
            ≡ ok (our_fee, range.min_fee_satoshis, range.max_fee_satoshis))
  unfolding maybe_send_closing_signed
  offer-cases c m1 target h = elim (Bool-cases (ready_to_negotiate_close c)) [
    | inr busy ↦ let h' = rw busy at h in absurd cc
    | inl ready ↦ elim (Bool-cases (not (is_opener c.role) || has_proposal c)) [
      | inl quiet ↦ let h' = rw (ready, quiet) at h in absurd cc
      | inr speaks ↦ elim (Result-cases (offer_of env c target)) [
        | inr (inl (x, e)) ↦ let h' = rw (ready, speaks, e) at h in absurd cc
        | inr (inr e) ↦ let h' = rw (ready, speaks, e) at h in absurd cc
        | inl (m, e) ↦
            let h' = rw (ready, speaks, e) at h in
            let same : m ≡ m1 = cc in
            let (fee, range, echoed, bounds) = offer_of-range c target m1 (e ∙ ap ok same) in
            (ready, ground arith, rw (ready, speaks, e, same) refl, fee, range, echoed, bounds)
      ]
    ]
  ]

  answer_closing-closes :
      (c : Channel) (m : ClosingSigned) (target : FeeRatePerKw) (our_fee : ℕ)
      (ours theirs : ClosingSignedFeeRange) (tx : Transaction)
      → is_opener c.role ≡ true
      → closing_fee_bounds c target ≡ ok (our_fee, ours.min_fee_satoshis, ours.max_fee_satoshis)
      → m.fee_range ≡ some theirs
      → IsInside m.fee_satoshis theirs ours
      → signed_closing_tx env c m.fee_satoshis m.signature ≡ ok tx
      → ((answer_closing env c m target).0.state ≡ closed)
        × ((answer_closing env c m target).0.closing_tx ≡ some tx)
  unfolding answer_closing finish
  answer_closing-closes c m target our_fee ours theirs tx opens bounds offered inside signed =
      elim (Bool-cases (is_agreed c m.fee_satoshis)) [
        | inl agreed ↦ rw agreed (finalize_closing-closes c m.fee_satoshis m.signature tx signed)
        | inr other ↦
            rw (other, bounds, offered)
              (negotiate_range-closes c m our_fee ours theirs tx opens inside signed)
      ]

  on_closing_signed-after_offer :
      (c : Channel) (m1 m : ClosingSigned) (target : FeeRatePerKw) (our_fee : ℕ)
      (ours theirs : ClosingSignedFeeRange) (base : Transaction)
      → ready_to_negotiate_close c ≡ true
      → is_opener c.role ≡ true
      → closing_fee_bounds c target ≡ ok (our_fee, ours.min_fee_satoshis, ours.max_fee_satoshis)
      → m.fee_range ≡ some theirs
      → IsInside m.fee_satoshis theirs ours
      → verify_their_closing_sig env (after_offer c m1) m.fee_satoshis m.signature ≡ ok base
      → ClosesWith env (after_offer c m1) m (on_closing_signed env (after_offer c m1) m target).0
  unfolding on_closing_signed
  on_closing_signed-after_offer c m1 m target our_fee ours theirs base ready opens bounds offered
        inside verified =
      let c' = after_offer c m1 in
      let ready' = after_offer-is_ready c m1 ready in
      let (tx, signed) =
        verify_their_closing_sig-signs c' m.fee_satoshis m.signature base verified in
      let (state, closing) =
        answer_closing-closes c' m target our_fee ours theirs tx opens
          (after_offer-same c m1 target ∙ bounds) offered inside signed in
      rw (ready', verified) (state, tx, closing, signed)

-- The funder `c` sends its offer `m1`, and the other side `d` answers with a counter-proposal `m2`.
-- Then the fee of `m2` lies inside the ranges of both, and if its signature verifies and the funder's
-- target feerate is still the same, the funder closes the channel on `m2`, at that fee, with the signed
-- transaction stored.
pub on_closing_signed-closes :
    (env_c env_d : Env) (c d : Channel) (m1 m2 : ClosingSigned) (target_c target_d : FeeRatePerKw)
    (base : Transaction)
    → (maybe_send_closing_signed env_c c target_c).1 ≡ ok (some m1)
    → is_opener d.role ≡ false
    → (on_closing_signed env_d d m1 target_d).1 ≡ ok (reply m2 none)
    → verify_their_closing_sig env_c
        (maybe_send_closing_signed env_c c target_c).0
        m2.fee_satoshis
        m2.signature
      ≡ ok base
    → (ours : ClosingSignedFeeRange) × (theirs : ClosingSignedFeeRange) × (m1.fee_range ≡ some ours)
      × (m2.fee_range ≡ some theirs)
      × IsInside m2.fee_satoshis theirs ours
      × ClosesWith env_c
          (maybe_send_closing_signed env_c c target_c).0
          m2
          (on_closing_signed env_c (maybe_send_closing_signed env_c c target_c).0 m2 target_c).0
on_closing_signed-closes env_c env_d c d m1 m2 target_c target_d base sent accepts answered
      verified =
    let (ready, opens, after_eq, our_fee, ours, offered, bounds) =
      offer-cases env_c c m1 target_c sent in
    let (theirs, echoed, inside) =
      on_closing_signed-IsInside env_d d m1 m2 ours target_d accepts offered answered in
    let verified' : verify_their_closing_sig env_c (after_offer c m1) m2.fee_satoshis m2.signature
        ≡ ok base =
      subst (λ t. verify_their_closing_sig env_c t m2.fee_satoshis m2.signature ≡ ok base) after_eq
        verified in
    (
      ours,
      theirs,
      offered,
      echoed,
      inside,
      subst (λ t. ClosesWith env_c t m2 (on_closing_signed env_c t m2 target_c).0) (sym after_eq)
          (on_closing_signed-after_offer env_c c m1 m2 target_c our_fee ours theirs base ready opens
            bounds echoed inside verified'),
    )
