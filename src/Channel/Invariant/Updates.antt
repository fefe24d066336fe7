-- ===== src/Channel/Invariant/Updates.antt =====
-- The updates of src/channel/dance.rs, sent and received, keep the invariant.
use keraunos.Prelude.{
  ℕ, ◌+◌, ◌≤◌, ◌<◌, Bool, true, false, ◌≡◌, refl, arith, List, [], ◌∷◌, some, All, inl, inr,
  All-append, u64_mod, add64, add64-eq, Bytes,
}
use keraunos.Types.{Msat, FeeRatePerKw}
use keraunos.Channel.Data.{
  Channel, Htlc, HtlcSource, HtlcResolution, ok, credited, removing, fulfill, fail, fail_malformed,
  Result-cases,
}
use keraunos.Channel.Env.{Env}
use keraunos.Channel.Messages.{
  UpdateAddHtlc, UpdateFulfillHtlc, UpdateFailHtlc, UpdateFailMalformedHtlc, UpdateFee,
}
use keraunos.Channel.Htlcs.{
  is_htlc, is_some, find_htlc, inbound_committed, outbound_committed, both_committed,
}
use keraunos.Channel.Send.{
  outbound_htlc, push_outbound, send_add_htlc, remove_inbound, send_fulfill_htlc, send_fail_htlc,
  send_fail_malformed_htlc, send_update_fee,
}
use keraunos.Channel.Receive.{
  validate_inbound_add, inbound_htlc, push_inbound, on_update_add_htlc, remove_outbound,
  on_update_fulfill_htlc, on_update_fail_htlc, on_update_fail_malformed_htlc, on_update_fee,
}
use keraunos.Channel.Invariant.{IsValid, IsGood, held, counter, removed_of, IsNumbered}
use keraunos.Channel.Invariant.Lists.{
  is_htlc-eq, All-find, All-update_found, Distinct-update_htlc, Distinct-append, All-map,
}

-- An HTLC with a number that no snapshot entry has is held vacuously.
held_fresh :
    (nh nc : ℕ) (removed : List (Bool × ℕ)) (h : Htlc)
    → All (IsNumbered nh nc) removed
    → h.id ≡ counter h.outbound nh nc
    → held removed h ≡ true
held_fresh nh nc [] h bound e = refl
held_fresh nh nc ((o, n) ∷ es) h bound e = ground (arith, held_fresh nh nc es h bound.1, bound.0)

-- The counters only grow.
IsGood-mono :
    (nh nc nh' nc' : ℕ) (removed : List (Bool × ℕ)) (h : Htlc)
    → nh ≤ nh'
    → nc ≤ nc'
    → IsGood nh nc removed h
    → IsGood nh' nc' removed h
IsGood-mono nh nc nh' nc' removed h p q g = record {
  legal_phases = g.legal_phases;
  sourced = g.sourced;
  numbered = ground (arith, g.numbered);
  is_held = g.is_held;
}

IsNumbered-mono :
    (nh nc nh' nc' : ℕ) (e : Bool × ℕ)
    → nh ≤ nh'
    → nc ≤ nc'
    → IsNumbered nh nc e
    → IsNumbered nh' nc' e
IsNumbered-mono nh nc nh' nc' (o, n) p q b = ground arith

-- A number at the counter is unlike every number handed out.
fresh_key :
    (nh nc : ℕ) (removed : List (Bool × ℕ)) (new h : Htlc)
    → new.id ≡ counter new.outbound nh nc
    → IsGood nh nc removed h
    → is_htlc h.outbound h.id new ≡ false
fresh_key nh nc removed new h e g = ground (arith, g.numbered)

module _ (c : Channel) (v : IsValid c) where
  push_outbound-IsValid :
      (amount : Msat) (hash : Bytes) (cltv : ℕ) (onion : Bytes) (source : HtlcSource)
      → c.next_holder_htlc_id + 1 < u64_mod
      → IsValid (push_outbound c amount hash cltv onion source)
  unfolding push_outbound
  push_outbound-IsValid amount hash cltv onion source room =
      let nh = c.next_holder_htlc_id in
      let nc = c.next_counterparty_htlc_id in
      let removed = removed_of c.pending_counterparty_commitment in
      let new = outbound_htlc nh amount hash cltv onion source in
      let next : add64 nh 1 ≡ nh + 1 = add64-eq nh 1 room in
      record {
        good = rw next (
            All-append (IsGood (nh + 1) nc removed) c.htlcs (new ∷ [])
              (All-map c.htlcs
                (λ h. IsGood-mono nh nc (nh + 1) nc removed h (omega arith) (omega arith)) v.good)
              (
                record {
                  legal_phases = refl;
                  sourced = refl;
                  numbered = omega arith;
                  is_held = held_fresh nh nc removed new v.entries refl;
                },
                tt,
              ));
        distinct =
            Distinct-append c.htlcs new v.distinct
              (All-map c.htlcs (λ h. fresh_key nh nc removed new h refl) v.good);
        entries = rw next (
            All-map removed (λ e. IsNumbered-mono nh nc (nh + 1) nc e (omega arith) (omega arith))
              v.entries);
        in_flight = v.in_flight;
        point = v.point;
        points = v.points;
      }

  push_inbound-IsValid :
      (msg : UpdateAddHtlc)
      → msg.id ≡ c.next_counterparty_htlc_id
      → c.next_counterparty_htlc_id + 1 < u64_mod
      → IsValid (push_inbound c msg)
  unfolding push_inbound
  push_inbound-IsValid msg numbered room =
      let nh = c.next_holder_htlc_id in
      let nc = c.next_counterparty_htlc_id in
      let removed = removed_of c.pending_counterparty_commitment in
      let new = inbound_htlc msg in
      let next : add64 nc 1 ≡ nc + 1 = add64-eq nc 1 room in
      record {
        good = rw next (
            All-append (IsGood nh (nc + 1) removed) c.htlcs (new ∷ [])
              (All-map c.htlcs
                (λ h. IsGood-mono nh nc nh (nc + 1) removed h (omega arith) (omega arith)) v.good)
              (
                record {
                  legal_phases = refl;
                  sourced = refl;
                  numbered = omega arith;
                  is_held = held_fresh nh nc removed new v.entries numbered;
                },
                tt,
              ));
        distinct =
            Distinct-append c.htlcs new v.distinct
              (All-map c.htlcs (λ h. fresh_key nh nc removed new h numbered) v.good);
        entries = rw next (
            All-map removed (λ e. IsNumbered-mono nh nc nh (nc + 1) e (omega arith) (omega arith))
              v.entries);
        in_flight = v.in_flight;
        point = v.point;
        points = v.points;
      }

held-credited :
    (removed : List (Bool × ℕ)) (h : Htlc)
    → credited h.phase_counterparty ≡ true
    → held removed h ≡ true
held-credited [] h e = refl
held-credited ((o, n) ∷ es) h e = ground (arith, held-credited es h e)

held_outbound : (removed : List (Bool × ℕ)) (h : Htlc) → h.outbound ≡ true → held removed h ≡ true
held_outbound [] h e = refl
held_outbound ((o, n) ∷ es) h e = ground (arith, held_outbound es h e)

-- What `inbound_committed_mut` and `outbound_committed_mut` find.
abbrev pub IsRemovable : Bool → ℕ → Channel → Htlc → Type 0
IsRemovable o id c h =
    (find_htlc o id c.htlcs ≡ some h) × (is_some h.resolution ≡ false) × (both_committed h ≡ true)

pub inbound_committed_inv :
    (c : Channel) (id : ℕ) (h : Htlc) → inbound_committed c id ≡ ok h → IsRemovable false id c h
unfolding inbound_committed
inbound_committed_inv c id h e = ground arith

pub outbound_committed_inv :
    (c : Channel) (id : ℕ) (h : Htlc) → outbound_committed c id ≡ ok h → IsRemovable true id c h
unfolding outbound_committed
outbound_committed_inv c id h e = ground arith

module _ (c : Channel) (v : IsValid c) (id : ℕ) (h : Htlc) (r : HtlcResolution) where
  remove_inbound-IsValid : IsRemovable false id c h → IsValid (remove_inbound c id r)
  unfolding remove_inbound credited
  remove_inbound-IsValid found =
      let removed = removed_of c.pending_counterparty_commitment in
      let P = IsGood c.next_holder_htlc_id c.next_counterparty_htlc_id removed in
      let f = λ (g : Htlc). record g { resolution = some r; phase_counterparty = removing } in
      let (good, key) = All-find P false id c.htlcs h found.0 v.good in
      record {
        good =
            All-update_found P false id f c.htlcs h found.0
              (record {
                legal_phases = ground arith;
                sourced = good.sourced;
                numbered = good.numbered;
                is_held = held-credited removed (f h) refl;
              })
              v.good;
        distinct = Distinct-update_htlc false id f c.htlcs (λ g. (refl, refl)) v.distinct;
        entries = v.entries;
        in_flight = v.in_flight;
        point = v.point;
        points = v.points;
      }

  remove_outbound-IsValid : IsRemovable true id c h → IsValid (remove_outbound c id r)
  unfolding remove_outbound
  remove_outbound-IsValid found =
      let removed = removed_of c.pending_counterparty_commitment in
      let P = IsGood c.next_holder_htlc_id c.next_counterparty_htlc_id removed in
      let f = λ (g : Htlc). record g { resolution = some r; phase_holder = removing } in
      let (good, key) = All-find P true id c.htlcs h found.0 v.good in
      record {
        good =
            All-update_found P true id f c.htlcs h found.0
              (record {
                legal_phases = ground arith;
                sourced = good.sourced;
                numbered = good.numbered;
                is_held = held_outbound removed (f h) (is_htlc-eq true id h key).0;
              })
              v.good;
        distinct = Distinct-update_htlc true id f c.htlcs (λ g. (refl, refl)) v.distinct;
        entries = v.entries;
        in_flight = v.in_flight;
        point = v.point;
        points = v.points;
      }

-- An accepted add carries the next number.
pub validate_inbound_add_id :
    (c : Channel) (msg : UpdateAddHtlc) {u : Unit {0}}
    → validate_inbound_add c msg ≡ ok u
    → msg.id ≡ c.next_counterparty_htlc_id
unfolding validate_inbound_add
validate_inbound_add_id c msg e = ground arith

-- The room that a counter needs for one more HTLC.
abbrev pub HasRoom : ℕ → Type 0
HasRoom counter = counter + 1 < u64_mod

module _ (c : Channel) (v : IsValid c) where
  -- Neither the holding cell nor the fee rates, the commitment counters and `counterparty_dirty`
  -- stand in the invariant.
  pub send_add_htlc-IsValid :
      (amount : Msat) (hash : Bytes) (cltv : ℕ) (onion : Bytes) (source : HtlcSource)
      → HasRoom c.next_holder_htlc_id
      → IsValid (send_add_htlc c amount hash cltv onion source).0
  unfolding send_add_htlc
  send_add_htlc-IsValid amount hash cltv onion source room =
      ground (arith, push_outbound-IsValid c v amount hash cltv onion source room)

  pub send_fulfill_htlc-IsValid :
      (env : Env) (id : ℕ) (preimage : Bytes) → IsValid (send_fulfill_htlc env c id preimage).0
  unfolding send_fulfill_htlc
  send_fulfill_htlc-IsValid env id preimage = elim (Result-cases (inbound_committed c id)) [
    | inl (h, e) ↦
        ground (
          arith,
          remove_inbound-IsValid c v id h (fulfill preimage) (inbound_committed_inv c id h e),
        )
    | inr failed ↦ ground arith
  ]

  pub send_fail_htlc-IsValid : (id : ℕ) (reason : Bytes) → IsValid (send_fail_htlc c id reason).0
  unfolding send_fail_htlc
  send_fail_htlc-IsValid id reason = elim (Result-cases (inbound_committed c id)) [
    | inl (h, e) ↦
        ground
          (arith, remove_inbound-IsValid c v id h (fail reason) (inbound_committed_inv c id h e))
    | inr failed ↦ ground arith
  ]

  pub send_fail_malformed_htlc-IsValid :
      (id : ℕ) (sha : Bytes) (code : ℕ) → IsValid (send_fail_malformed_htlc c id sha code).0
  unfolding send_fail_malformed_htlc
  send_fail_malformed_htlc-IsValid id sha code = elim (Result-cases (inbound_committed c id)) [
    | inl (h, e) ↦ ground (
      arith,
      remove_inbound-IsValid c v id h (fail_malformed sha code) (inbound_committed_inv c id h e),
    )
    | inr failed ↦ ground arith
  ]

  pub send_update_fee-IsValid : (feerate : FeeRatePerKw) → IsValid (send_update_fee c feerate).0
  unfolding send_update_fee
  send_update_fee-IsValid feerate = ground arith

  pub on_update_add_htlc-IsValid :
      (msg : UpdateAddHtlc)
      → HasRoom c.next_counterparty_htlc_id
      → IsValid (on_update_add_htlc c msg).0
  unfolding on_update_add_htlc
  on_update_add_htlc-IsValid msg room = elim (Result-cases (validate_inbound_add c msg)) [
    | inl (u, e) ↦
        rw (e, on_update_add_htlc)
          (push_inbound-IsValid c v msg (validate_inbound_add_id c msg e) room)
    | inr failed ↦ ground arith
  ]

  pub on_update_fulfill_htlc-IsValid :
      (env : Env) (msg : UpdateFulfillHtlc) → IsValid (on_update_fulfill_htlc env c msg).0
  unfolding on_update_fulfill_htlc
  on_update_fulfill_htlc-IsValid env msg = elim (Result-cases (outbound_committed c msg.id)) [
    | inl (h, e) ↦ ground (
      arith,
      remove_outbound-IsValid c v msg.id h (fulfill msg.payment_preimage)
          (outbound_committed_inv c msg.id h e),
    )
    | inr failed ↦ ground arith
  ]

  pub on_update_fail_htlc-IsValid : (msg : UpdateFailHtlc) → IsValid (on_update_fail_htlc c msg).0
  unfolding on_update_fail_htlc
  on_update_fail_htlc-IsValid msg = elim (Result-cases (outbound_committed c msg.id)) [
    | inl (h, e) ↦ ground (
      arith,
      remove_outbound-IsValid c v msg.id h (fail msg.reason) (outbound_committed_inv c msg.id h e),
    )
    | inr failed ↦ ground arith
  ]

  pub on_update_fail_malformed_htlc-IsValid :
      (msg : UpdateFailMalformedHtlc) → IsValid (on_update_fail_malformed_htlc c msg).0
  unfolding on_update_fail_malformed_htlc
  on_update_fail_malformed_htlc-IsValid msg = elim (Result-cases (outbound_committed c msg.id)) [
    | inl (h, e) ↦ ground (
      arith,
      remove_outbound-IsValid c v msg.id h (fail_malformed msg.sha256_of_onion msg.failure_code)
          (outbound_committed_inv c msg.id h e),
    )
    | inr failed ↦ ground arith
  ]

  pub on_update_fee-IsValid : (msg : UpdateFee) → IsValid (on_update_fee c msg).0
  unfolding on_update_fee
  on_update_fee-IsValid msg = ground arith
