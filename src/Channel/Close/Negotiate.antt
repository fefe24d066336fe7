-- ===== src/Channel/Close/Negotiate.antt =====
-- src/channel/close.rs: `closing_signed`, sent and received.
use keraunos.Prelude.{
  ℕ, ◌+◌, ◌-◌, ◌/◌, ◌%◌, Bool, true, false, not, ◌||◌, ◌==◌, ltb, leb, min, max, if◌then◌else◌,
  Option, none, some, Bytes, u64_mod,
}
use keraunos.Types.{FeeRatePerKw}
use keraunos.Commitment.{Transaction}
use keraunos.Channel.Data.{
  Channel, negotiating_close, is_opener, Result, ok, err, panic, text, close, ignore, ◌>>=◌,
}
use keraunos.Channel.Env.{Env}
use keraunos.Wire.Msgs.Data.{ClosingSigned, ClosingSignedFeeRange}
use keraunos.Channel.Close.{
  ready_to_negotiate_close, clamp, closing_fee_bounds, build_and_sign_closing,
  verify_their_closing_sig, finalize_closing,
}

pub data ClosingSignedOutcome : Type 0 where
  reply : ClosingSigned → Option Transaction → ClosingSignedOutcome
  done : Transaction → ClosingSignedOutcome

-- `self.last_closing_fee_proposal = Some(their_fee)`, if nothing before it returned.
unfoldable pub remember_fee :
    ℕ → Channel × Result ClosingSignedOutcome → Channel × Result ClosingSignedOutcome
remember_fee fee (c, r) = elim r [
  | ok outcome ↦ (record c { last_closing_fee_proposal = some fee }, ok outcome)
  | err e ↦ (c, err e)
  | panic ↦ (c, panic)
]

-- `abs_diff` is the larger less the smaller; the u64 sum wraps.
unfoldable pub legacy_fee : Option ℕ → ℕ → ℕ → ℕ
legacy_fee none our_fee their_fee = our_fee
legacy_fee (some sent) our_fee their_fee =
    if leb (max their_fee sent - min their_fee sent) 1
    then their_fee
    else (their_fee + sent) % u64_mod / 2

-- `Some(their_fee) == self.last_closing_fee_proposal`
unfoldable pub is_agreed : Channel → ℕ → Bool
is_agreed c their_fee = elim c.last_closing_fee_proposal [
  | none ↦ false
  | some sent ↦ their_fee == sent
]

-- `self.last_closing_fee_proposal.is_some()`
unfoldable pub has_proposal : Channel → Bool
has_proposal c = elim c.last_closing_fee_proposal [ none ↦ false | some fee ↦ true ]

module _ (env : Env) where
  unfoldable pub closing_signed_at :
      Channel → ℕ → Option ClosingSignedFeeRange → Result ClosingSigned
  unfolding build_and_sign_closing
  closing_signed_at c fee range = do
    (tx, sig) ← build_and_sign_closing env c fee
    ok (record {
      channel_id = c.channel_id;
      fee_satoshis = fee;
      signature = sig;
      fee_range = range;
    })

  -- The funder's offer: its fee, and the range it would accept.
  unfoldable pub offer_of : Channel → FeeRatePerKw → Result ClosingSigned
  unfolding closing_fee_bounds closing_signed_at
  offer_of c target_feerate = closing_fee_bounds c target_feerate >>= λ b.
      closing_signed_at c b.0 (some (record { min_fee_satoshis = b.1; max_fee_satoshis = b.2 }))

  unfoldable pub maybe_send_closing_signed :
      Channel → FeeRatePerKw → Channel × Result (Option ClosingSigned)
  unfolding ready_to_negotiate_close offer_of has_proposal
  maybe_send_closing_signed c target_feerate =
      if not (ready_to_negotiate_close c)
      then (c, ok none)
      else if not (is_opener c.role) || has_proposal c
      then (c, ok none)
      else elim (offer_of c target_feerate) [
        | ok msg ↦ (
          record c { state = negotiating_close; last_closing_fee_proposal = some msg.fee_satoshis },
          ok (some msg),
        )
        | err e ↦ (c, err e)
        | panic ↦ (c, panic)
      ]

  -- `Done(self.finalize_closing(…)?)`
  unfoldable pub finish : Channel → ℕ → Bytes → Channel × Result ClosingSignedOutcome
  unfolding finalize_closing
  finish c fee sig = let (c', r) = finalize_closing env c fee sig in (c', r >>= λ tx. ok (done tx))

  -- Finalize, then reply with the same fee and the transaction.
  unfoldable pub finish_and_reply :
      Channel → ℕ → Bytes → Option ClosingSignedFeeRange → Channel × Result ClosingSignedOutcome
  unfolding finalize_closing closing_signed_at
  finish_and_reply c fee sig range =
      let (c', r) = finalize_closing env c fee sig in
      (c', r >>= λ tx. closing_signed_at c' fee range >>= λ msg. ok (reply msg (some tx)))

  unfoldable pub propose :
      Channel → ℕ → Option ClosingSignedFeeRange → Channel × Result ClosingSignedOutcome
  unfolding closing_signed_at
  propose c fee range = (c, closing_signed_at c fee range >>= λ msg. ok (reply msg none))

  -- The funder, on an offer with a range.
  unfoldable pub accept_in_range :
      Channel
      → ClosingSigned
      → ℕ
      → ℕ
      → ClosingSignedFeeRange
      → Channel × Result ClosingSignedOutcome
  unfolding finish_and_reply remember_fee
  accept_in_range c msg lo hi ours =
      if ltb msg.fee_satoshis lo || ltb hi msg.fee_satoshis
      then (c, err (close (text "closing fee outside negotiated range")))
      else remember_fee msg.fee_satoshis
          (finish_and_reply c msg.fee_satoshis msg.signature (some ours))

  unfoldable pub propose_in_range :
      Channel
      → ClosingSigned
      → ℕ
      → ℕ
      → ℕ
      → ClosingSignedFeeRange
      → Channel × Result ClosingSignedOutcome
  unfolding finish finish_and_reply propose clamp
  propose_in_range c msg our_fee lo hi ours = elim c.last_closing_fee_proposal [
    | some sent ↦
        if not (msg.fee_satoshis == sent)
        then (c, err (close (text "funder moved fee after our range proposal")))
        else finish c msg.fee_satoshis msg.signature
    | none ↦ elim (clamp our_fee lo hi) [
      | panic ↦ (c, panic)
      | err e ↦ (c, err e)
      | ok fee ↦
          let c' = record c { last_closing_fee_proposal = some fee } in
          if fee == msg.fee_satoshis
          then finish_and_reply c' fee msg.signature (some ours)
          else propose c' fee (some ours)
    ]
  ]

  unfoldable pub negotiate_range :
      Channel
      → ClosingSigned
      → ℕ
      → ClosingSignedFeeRange
      → ClosingSignedFeeRange
      → Channel × Result ClosingSignedOutcome
  unfolding accept_in_range propose_in_range
  negotiate_range c msg our_fee ours range =
      let lo = max ours.min_fee_satoshis range.min_fee_satoshis in
      let hi = min ours.max_fee_satoshis range.max_fee_satoshis in
      if ltb hi lo
      then (c, err (ignore (text "no overlap between closing fee ranges")))
      else if is_opener c.role
      then accept_in_range c msg lo hi ours
      else propose_in_range c msg our_fee lo hi ours

  unfoldable pub negotiate_legacy :
      Channel → ClosingSigned → ℕ → Channel × Result ClosingSignedOutcome
  unfolding legacy_fee finish_and_reply propose
  negotiate_legacy c msg our_fee =
      let our_next = legacy_fee c.last_closing_fee_proposal our_fee msg.fee_satoshis in
      let c' = record c { last_closing_fee_proposal = some our_next } in
      if our_next == msg.fee_satoshis
      then finish_and_reply c' msg.fee_satoshis msg.signature none
      else propose c' our_next none

  -- What follows the check of their signature.
  unfoldable pub answer_closing :
      Channel → ClosingSigned → FeeRatePerKw → Channel × Result ClosingSignedOutcome
  unfolding is_agreed finish closing_fee_bounds negotiate_range negotiate_legacy
  answer_closing c msg target_feerate =
      if is_agreed c msg.fee_satoshis
      then finish c msg.fee_satoshis msg.signature
      else elim (closing_fee_bounds c target_feerate) [
        | panic ↦ (c, panic)
        | err e ↦ (c, err e)
        | ok (our_fee, our_min, our_max) ↦ elim msg.fee_range [
          | some range ↦
              negotiate_range c msg our_fee
                (record { min_fee_satoshis = our_min; max_fee_satoshis = our_max }) range
          | none ↦ negotiate_legacy c msg our_fee
        ]
      ]

  unfoldable pub on_closing_signed :
      Channel → ClosingSigned → FeeRatePerKw → Channel × Result ClosingSignedOutcome
  unfolding ready_to_negotiate_close verify_their_closing_sig answer_closing
  on_closing_signed c msg target_feerate =
      if not (ready_to_negotiate_close c)
      then (c, err (close (text "closing_signed before channel is quiescent")))
      else (let c' = record c { state = negotiating_close } in
          elim (verify_their_closing_sig env c' msg.fee_satoshis msg.signature) [
            | panic ↦ (c', panic)
            | err e ↦ (c', err e)
            | ok tx ↦ answer_closing c' msg target_feerate
          ])
