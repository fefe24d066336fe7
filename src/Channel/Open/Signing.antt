-- ===== src/Channel/Open/Signing.antt =====
-- src/channel/mod.rs: the funding messages and `channel_ready` of an opening channel.
use keraunos.Prelude.{
  ◌⊎◌, inl, inr, ℕ, true, false, bytes_eq, ◌≡◌, refl, arith, [], Option, none, some, Bytes,
  Bool-cases,
}
use keraunos.Channel.Data
use keraunos.Channel.Data.{
  Channel, ChannelConfig, ChannelState, Result, ok, err, panic, text, deny, expect, ok_or, ◌>>=◌,
  ◌>>◌, >>=-eq-ok, Result-cases, is_normal,
}
use keraunos.Channel.Env.{Env}
use keraunos.Channel.Htlcs.{is_some}
use keraunos.Channel.Build.{
  counterparty_params, holder_params, counterparty_htlcs, holder_htlcs, counterparty,
  build_holder_commitment_at, build_counterparty_commitment_at, counterparty_info_from_built,
  sign_counterparty_commitment_tx, verify_counterparty_funding_sig, funding_sighash, holder_params,
}
use keraunos.Channel.Open.Data.{FundingCreated, FundingSigned}
use keraunos.Channel.Open.Fund.{
  is_accept_sent, is_funding_created_sent, bind_funding, sign_first, verify_first, check_funding,
  funding_created, on_funding_created, on_funding_signed,
}
use keraunos.Channel.Invariant.Flush.{is_panic}
use keraunos.Channel.Balance.{balances_for}
use keraunos.Channel.Open.Invariant.{IsOpen}

is_some-inv : {A : Type 0} (m : Option A) → is_some m ≡ true → (a : A) × (m ≡ some a)
is_some-inv none h = absurd cc
is_some-inv (some a) h = (a, refl)

module _ (env : Env) (c : Channel) (keyed : is_some c.counterparty_pubkeys ≡ true)
    (funded : is_some c.funding_outpoint ≡ true) where
  sign_first-ok :
      is_some c.counterparty_current_point ≡ true
      → (x : Option Data.CounterpartyCommitmentInfo) × (sig : Bytes) × (sign_first env c
          ≡ ok (record c { current_counterparty_commitment = x }, sig))
  unfolding sign_first counterparty_params build_counterparty_commitment_at
      sign_counterparty_commitment_tx funding_sighash counterparty
  sign_first-ok pointed =
      let (cp, k) = is_some-inv c.counterparty_pubkeys keyed in
      let (o, f) = is_some-inv c.funding_outpoint funded in
      let (p, q) = is_some-inv c.counterparty_current_point pointed in
      let built = env.build_commitment_tx (counterparty_params env c 0 p cp o) in
      (
        some (counterparty_info_from_built c 0 p built (counterparty_htlcs c)),
        env.sign_with_funding_key (
            env.segwit_v0_sighash built.tx
              (env.funding_redeemscript c.holder_pubkeys.funding_pubkey cp.funding_pubkey)
              c.funding_amount_sat),
        rw (q, sign_first, k, f) refl,
      )

  verify_first-cases :
      (sig : Bytes)
      → ((x : Option Data.HolderCommitment) × (verify_first env c sig
            ≡ ok (record c { current_holder_commitment = x })))
        ⊎ (verify_first env c sig ≡ err (Data.close (text "invalid commitment signature")))
  unfolding verify_first build_holder_commitment_at verify_counterparty_funding_sig funding_sighash
      counterparty is_some-inv balances_for
  verify_first-cases sig =
      let (cp, k) = is_some-inv c.counterparty_pubkeys keyed in
      let (o, f) = is_some-inv c.funding_outpoint funded in
      elim (Bool-cases (
        env.verify_ecdsa
          (env.segwit_v0_sighash (env.build_commitment_tx (holder_params env c 0 cp o)).tx
            (env.funding_redeemscript c.holder_pubkeys.funding_pubkey cp.funding_pubkey)
            c.funding_amount_sat)
          sig cp.funding_pubkey)) [
            | inl good ↦ inl (
              some (record {
                number = 0;
                built = env.build_commitment_tx (holder_params env c 0 cp o);
                counterparty_sig = sig;
                counterparty_htlc_sigs = [];
                htlcs = holder_htlcs c;
                keys = (holder_params env c 0 cp o).keys;
                feerate = c.feerate_holder;
              }),
              rw (k, f, good, verify_first) refl,
            )
            | inr bad ↦ inr (rw (k, f, bad, verify_first) refl)
          ]

-- Signing and verifying the first commitments changes none of the fields that the invariant reads.
module _ (c : Channel) (o : IsOpen c) (keyed : is_some c.counterparty_pubkeys ≡ true) where
  bind_funding-IsOpen : (txid : Bytes) (i : ℕ) → IsOpen (bind_funding c txid i)
  unfolding bind_funding
  bind_funding-IsOpen txid i = record {
    valid = record {
      good = o.valid.good;
      distinct = o.valid.distinct;
      entries = o.valid.entries;
      in_flight = o.valid.in_flight;
      point = o.valid.point;
      points = o.valid.points;
    };
    keyed = o.keyed;
    pointed = o.pointed;
    funded = ground arith;
  }

  stored-IsOpen :
      (mine : Option Data.HolderCommitment) (theirs : Option Data.CounterpartyCommitmentInfo)
      (state : ChannelState)
      → is_some c.funding_outpoint ≡ true
      → IsOpen (record c {
        current_holder_commitment = mine;
        current_counterparty_commitment = theirs;
        state = state;
      })
  stored-IsOpen mine theirs state funded = record {
    valid = record {
      good = o.valid.good;
      distinct = o.valid.distinct;
      entries = o.valid.entries;
      in_flight = o.valid.in_flight;
      point = o.valid.point;
      points = o.valid.points;
    };
    keyed = ground arith;
    pointed = o.pointed;
    funded = ground arith;
  }

check_funding_inv :
    (c : Channel) {u : Unit {0}} → check_funding c ≡ ok u → is_some c.counterparty_pubkeys ≡ true
unfolding check_funding
check_funding_inv c e = ground arith

check_funding-no_panic : (c : Channel) → is_panic (check_funding c) ≡ false
unfolding check_funding
check_funding-no_panic c = ground arith

module _ (c : Channel) (o : IsOpen c) where
  accept_sent-keyed : is_accept_sent c.state ≡ true → is_some c.counterparty_pubkeys ≡ true
  accept_sent-keyed sent = ground (arith, o.keyed)

  pointed-inv : is_some c.counterparty_pubkeys ≡ true → is_some c.counterparty_current_point ≡ true
  pointed-inv keyed = ground (arith, o.pointed)

  funding_created_sent-inv :
      is_funding_created_sent c.state ≡ true
      → (is_some c.counterparty_pubkeys ≡ true) × (is_some c.funding_outpoint ≡ true)
  funding_created_sent-inv sent = (ground (arith, o.keyed), ground (arith, o.funded))

module _ (env : Env) (c : Channel) (o : IsOpen c) where
  -- On a channel that satisfies the invariant of opening, the opener's `funding_created` keeps it
  -- and never meets its `expect`.
  pub funding_created-IsOpen :
      (txid : Bytes) (i : ℕ)
      → IsOpen (funding_created env c txid i).0 × is_panic (funding_created env c txid i).1 ≡ false
  unfolding funding_created
  funding_created-IsOpen txid i = elim (Result-cases (check_funding c)) [
    | inl (u, e) ↦
        let keyed = check_funding_inv c e in
        let bound = bind_funding c txid i in
        let open_bound = bind_funding-IsOpen c o keyed txid i in
        let (x, sig, made) = sign_first-ok env bound keyed refl (ground arith) in
        rw (e, funding_created, made)
          (
            stored-IsOpen bound open_bound keyed c.current_holder_commitment x
                Data.funding_created_sent refl,
            refl,
          )
    | inr failed ↦ ground (arith, check_funding-no_panic c)
  ]

  -- On a channel that satisfies the invariant of opening, the accepter's `funding_created` keeps it
  -- and never meets its `expect`.
  pub on_funding_created-IsOpen :
      (msg : FundingCreated)
      → IsOpen (on_funding_created env c msg).0 × is_panic (on_funding_created env c msg).1 ≡ false
  unfolding on_funding_created
  on_funding_created-IsOpen msg = elim (Bool-cases (is_accept_sent c.state)) [
    | inr other ↦ rw (other, on_funding_created) (o, refl)
    | inl sent ↦
        let keyed = accept_sent-keyed c o sent in
        let bound = bind_funding c msg.funding_txid msg.funding_output_index in
        let open_bound = bind_funding-IsOpen c o keyed msg.funding_txid msg.funding_output_index in
        elim (verify_first-cases env bound keyed refl msg.signature) [
          | inr bad ↦ rw (sent, on_funding_created, bad) (open_bound, refl)
          | inl (mine, good) ↦
              let verified = record bound { current_holder_commitment = mine } in
              let (x, sig, made) = sign_first-ok env verified keyed refl (pointed-inv c o keyed) in
              rw (sent, on_funding_created, good, made)
                (stored-IsOpen bound open_bound keyed mine x Data.awaiting_channel_ready refl, refl)
        ]
  ]

  -- `funding_signed` keeps the invariant of opening and never panics.
  pub on_funding_signed-IsOpen :
      (msg : FundingSigned)
      → IsOpen (on_funding_signed env c msg).0 × is_panic (on_funding_signed env c msg).1 ≡ false
  unfolding on_funding_signed
  on_funding_signed-IsOpen msg = elim (Bool-cases (is_funding_created_sent c.state)) [
    | inr other ↦ rw (other, on_funding_signed) (o, refl)
    | inl sent ↦ elim (Bool-cases (bytes_eq msg.channel_id c.channel_id)) [
      | inr other ↦ rw (sent, other, on_funding_signed) (o, refl)
      | inl same ↦
          let (keyed, funded) = funding_created_sent-inv c o sent in
          elim (verify_first-cases env c keyed funded msg.signature) [
            | inr bad ↦ rw (sent, same, on_funding_signed, bad) (o, refl)
            | inl (mine, good) ↦
                rw (sent, same, on_funding_signed, good)
                  (
                    stored-IsOpen c o keyed mine c.current_counterparty_commitment
                        Data.awaiting_channel_ready funded,
                    refl,
                  )
          ]
    ]
  ]
