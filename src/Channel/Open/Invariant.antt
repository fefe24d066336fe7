-- ===== src/Channel/Open/Invariant.antt =====
-- src/channel/mod.rs: what holds of a channel while it opens.
use keraunos.Prelude.{
  bytes_eq, ◌≢◌, ◌⊎◌, inl, inr, ℕ, ◌+◌, ◌*◌, ◌<◌, ◌≤◌, Bool, true, false, ◌||◌, ltb, if◌then◌else◌,
  ◌≡◌, refl, sym, arith, Option, some, Bytes, mul64, sub64, u64_mod, ap,
}
use keraunos.Types.{Msat, FeeRatePerKw}
use keraunos.Commitment.{ChannelPublicKeys}
use keraunos.Channel.Data
use keraunos.Channel.Data.{
  Channel, ChannelConfig, ChannelError, ChannelState, Result, ok, err, panic, text, deny, expect,
  ok_or, ◌>>=◌, ◌>>◌, >>=-eq-ok, Result-cases, is_normal,
}
use keraunos.Channel.Env.{Env}
use keraunos.Channel.Htlcs.{is_some}
use keraunos.Channel.Open.Data.{OpenChannel, AcceptChannel, reserve_for, pubkeys_from_msg}
use keraunos.Channel.Open.Start.{
  is_open_sent, fresh, new_outbound, new_inbound, check_open, check_accept, accepted,
  on_accept_channel, inbound_params,
}
use keraunos.Channel.Invariant.{IsValid}
use mathlib.Core.Path.{subst}

-- What a `match` on the state says of the fields that later steps take for granted.
abbrev pub is_opening : ChannelState → Bool
is_opening Data.open_sent = true
is_opening _ = false

abbrev pub is_unfunded : ChannelState → Bool
is_unfunded Data.open_sent = true
is_unfunded Data.accept_sent = true
is_unfunded _ = false

pub record IsOpen (c : Channel) : Type 0 where
  pub valid : IsValid c
  pub keyed : is_opening c.state || is_some c.counterparty_pubkeys ≡ true
  pub pointed : is_some c.counterparty_pubkeys ≡ is_some c.counterparty_current_point
  pub funded : is_unfunded c.state || is_some c.funding_outpoint ≡ true

fresh-IsOpen :
    (role : Data.ChannelRole) (state : ChannelState) (config : ChannelConfig)
    (params : Data.ChannelParams) (name : Bytes) (funding : ℕ) (push : Msat)
    (feerate : FeeRatePerKw) (keys : ChannelPublicKeys) (cp : Option ChannelPublicKeys)
    (obscure : ℕ) (announce : Bool) (mine theirs : Msat) (point : Option Bytes)
    → is_opening state || is_some cp ≡ true
    → is_some cp ≡ is_some point
    → is_unfunded state ≡ true
    → IsOpen (
        fresh role state config params name funding push feerate keys cp obscure announce mine
          theirs point)
unfolding fresh
fresh-IsOpen role state config params name funding push feerate keys cp obscure announce mine theirs
      point k p u =
    record {
      valid = record {
        good = tt;
        distinct = tt;
        entries = tt;
        in_flight = refl;
        point = refl;
        points = refl;
      };
      keyed = k;
      pointed = p;
      funded = ground arith;
    }

ok-channel :
    {A : Type 0} {c d : Channel} {a b : A}
    → ◌≡◌ {A = Result (Channel × A)} (ok (c, a)) (ok (d, b))
    → c ≡ d
ok-channel h = cc

ok-message :
    {A : Type 0} {c d : Channel} {a b : A}
    → ◌≡◌ {A = Result (Channel × A)} (ok (c, a)) (ok (d, b))
    → a ≡ b
ok-message h = cc

if-err-inv :
    {A : Type 0} (b : Bool) (e : Data.ChannelError) {x y : A}
    → (if b then err e else ok x) ≡ ok y
    → (b ≡ false) × (ok x ≡ ok y)
if-err-inv true e h = absurd cc
if-err-inv false e h = (refl, h)

-- The limits that the peer's choices are held to.
pub record IsBounded (c : Channel) : Type 0 where
  pub delay_bound : c.params.counterparty_selected_delay ≤ 2016
  pub htlcs_bound : c.params.counterparty_max_accepted_htlcs ≤ 483
  pub dust_bound : c.params.counterparty_dust_limit_sat ≤ c.params.holder_selected_reserve_sat

-- The two balances of a new channel are the funding, and the peer's share is what was pushed.
abbrev pub IsSplit : Channel → Type 0
IsSplit c = c.to_holder_msat + c.to_counterparty_msat ≡ c.funding_amount_sat * 1000

split-eq :
    (funding push : ℕ)
    → funding * 1000 < u64_mod
    → push ≤ mul64 funding 1000
    → push + sub64 (mul64 funding 1000) push ≡ funding * 1000
unfolding mul64 sub64
split-eq funding push fits le = omega arith

check_open_inv :
    (config : ChannelConfig) (chain : Bytes) (msg : OpenChannel) {u : Unit {0}}
    → check_open config chain msg ≡ ok u
    → (msg.to_self_delay ≤ 2016)
      × (msg.max_accepted_htlcs ≤ 483)
      × (msg.dust_limit_satoshis ≤ reserve_for config msg.funding_satoshis)
      × (msg.push_msat ≤ mul64 msg.funding_satoshis 1000)
unfolding check_open
check_open_inv config chain msg e = (ground arith, ground arith, ground arith, ground arith)

module _ (env : Env) (keys : ChannelPublicKeys) (config : ChannelConfig) (chain : Bytes) where
  -- What `new_inbound` returns is a channel that is ready for `funding_created`: the invariant holds,
  -- the peer's keys and first point are known, its limits are respected and, where the funding in
  -- millisatoshi fits a word, the two balances add up to the funding.
  pub new_inbound-IsOpen :
      (msg : OpenChannel) (c : Channel) (reply : AcceptChannel)
      → msg.funding_satoshis * 1000 < u64_mod
      → new_inbound env keys config chain msg ≡ ok (c, reply)
      → IsOpen c
        × IsBounded c
        × IsSplit c
        × (c.counterparty_current_point ≡ some msg.first_per_commitment_point)
  unfolding new_inbound inbound_params fresh
  new_inbound-IsOpen msg c reply fits h =
      let (u, passed, made) = >>=-eq-ok (check_open config chain msg) _ h in
      let (delay, count, dust, push) = check_open_inv config chain msg passed in
      subst
        (λ d.
          IsOpen d
          × IsBounded d
          × IsSplit d
          × (d.counterparty_current_point ≡ some msg.first_per_commitment_point))
        (ok-channel made)
        (
          fresh-IsOpen _ _ _ _ _ _ _ _ _ _ _ _ _ _ _ refl refl refl,
          record { delay_bound = delay; htlcs_bound = count; dust_bound = dust },
          split-eq msg.funding_satoshis msg.push_msat fits push,
          refl,
        )

  -- An opener's channel, where the push is covered, satisfies the invariant, and its balances add up
  -- to the funding.
  pub new_outbound-IsOpen :
      (name : Bytes) (funding : ℕ) (push : Msat) (feerate : FeeRatePerKw) (c : Channel)
      (msg : OpenChannel)
      → funding * 1000 < u64_mod
      → new_outbound env keys config chain name funding push feerate ≡ ok (c, msg)
      → IsOpen c × IsSplit c × (msg.push_msat ≡ c.to_counterparty_msat)
  unfolding new_outbound fresh
  new_outbound-IsOpen name funding push feerate c msg fits h =
      let (covered, made) = if-err-inv (ltb (mul64 funding 1000) push) _ h in
      subst (λ d. IsOpen d × IsSplit d × (msg.push_msat ≡ d.to_counterparty_msat)) (ok-channel made)
        (
          fresh-IsOpen _ _ _ _ _ _ _ _ _ _ _ _ _ _ _ refl refl refl,
          omega (arith, split-eq funding push fits (ground arith)),
          ap (λ m. m.push_msat) (sym (ok-message made)),
        )

-- What we demand of an `accept_channel`.
pub record IsAcceptable (c : Channel) (msg : AcceptChannel) : Type 0 where
  pub awaited : is_open_sent c.state ≡ true
  pub same_channel : bytes_eq msg.temporary_channel_id c.temporary_channel_id ≡ true
  pub dust : msg.dust_limit_satoshis ≤ c.params.holder_selected_reserve_sat
  pub reserve : c.params.holder_dust_limit_sat ≤ msg.channel_reserve_satoshis
  pub delay : msg.to_self_delay ≤ 2016
  pub depth : msg.minimum_depth ≤ 144
  pub htlcs : msg.max_accepted_htlcs ≤ 483

-- The channel has taken the peer's keys, first point and limits over from its message.
pub record HasTaken (msg : AcceptChannel) (c : Channel) : Type 0 where
  pub keys_taken : c.counterparty_pubkeys ≡ some (pubkeys_from_msg msg.basepoints)
  pub point_taken : c.counterparty_current_point ≡ some msg.first_per_commitment_point
  pub dust_taken : c.params.counterparty_dust_limit_sat ≡ msg.dust_limit_satoshis
  pub reserve_taken : c.params.counterparty_selected_reserve_sat ≡ msg.channel_reserve_satoshis
  pub value_taken :
      c.params.counterparty_max_htlc_value_in_flight_msat ≡ msg.max_htlc_value_in_flight_msat
  pub minimum_taken : c.params.counterparty_htlc_minimum_msat ≡ msg.htlc_minimum_msat
  pub htlcs_taken : c.params.counterparty_max_accepted_htlcs ≡ msg.max_accepted_htlcs
  pub delay_taken : c.params.counterparty_selected_delay ≡ msg.to_self_delay

check_accept-IsAcceptable :
    (c : Channel) (msg : AcceptChannel) {u : Unit {0}}
    → check_accept c msg ≡ ok u
    → IsAcceptable c msg
unfolding check_accept
check_accept-IsAcceptable c msg e = record {
  awaited = ground arith;
  same_channel = ground arith;
  dust = ground arith;
  reserve = ground arith;
  delay = ground arith;
  depth = ground arith;
  htlcs = ground arith;
}

IsAcceptable-check_accept :
    (c : Channel) (msg : AcceptChannel) → IsAcceptable c msg → check_accept c msg ≡ ok tt
unfolding check_accept
IsAcceptable-check_accept c msg a =
    ground (arith, a.awaited, a.same_channel, a.dust, a.reserve, a.delay, a.depth, a.htlcs)

check_accept-no_panic : (c : Channel) (msg : AcceptChannel) → check_accept c msg ≢ panic
unfolding check_accept
check_accept-no_panic c msg e = ground arith

accepted-IsOpen :
    (env : Env) (c : Channel) (msg : AcceptChannel) → IsOpen c → IsOpen (accepted env c msg)
unfolding accepted
accepted-IsOpen env c msg o = record {
  valid = record {
    good = o.valid.good;
    distinct = o.valid.distinct;
    entries = o.valid.entries;
    in_flight = o.valid.in_flight;
    point = o.valid.point;
    points = ground arith;
  };
  keyed = ground arith;
  pointed = refl;
  funded = o.funded;
}

module _ (env : Env) (c : Channel) where
  pub on_accept_channel-IsOpen :
      (msg : AcceptChannel)
      → IsOpen c
      → IsOpen (on_accept_channel env c msg).0
        × ((IsAcceptable c msg
              × ((on_accept_channel env c msg).1 ≡ ok tt)
              × HasTaken msg (on_accept_channel env c msg).0
              × IsBounded (on_accept_channel env c msg).0)
            ⊎ ((¬ IsAcceptable c msg)
                × (e : ChannelError) × (on_accept_channel env c msg ≡ (c, err e))))
  unfolding on_accept_channel accepted
  on_accept_channel-IsOpen msg o = elim (Result-cases (check_accept c msg)) [
    | inl (u, e) ↦
        let a = check_accept-IsAcceptable c msg e in
        rw (e, on_accept_channel)
          (
            accepted-IsOpen env c msg o,
            inl (
              a,
              refl,
              record {
                keys_taken = refl;
                point_taken = refl;
                dust_taken = refl;
                reserve_taken = refl;
                value_taken = refl;
                minimum_taken = refl;
                htlcs_taken = refl;
                delay_taken = refl;
              },
              record { delay_bound = a.delay; htlcs_bound = a.htlcs; dust_bound = a.dust },
            ),
          )
    | inr (inl (why, e)) ↦
        rw (e, on_accept_channel)
          (o, inr (λ a. absurd (ground (arith, IsAcceptable-check_accept c msg a)), why, refl))
    | inr (inr e) ↦ absurd (check_accept-no_panic c msg e)
  ]
