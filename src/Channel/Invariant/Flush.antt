-- ===== src/Channel/Invariant/Flush.antt =====
-- The flush of the holding cell keeps the invariant, and `revoke_and_ack` with it.
use keraunos.Prelude.{
  ℕ, ◌+◌, ◌≤◌, ◌<◌, Bool, true, false, not, ◌≡◌, refl, arith, List, [], ◌∷◌, Option, none, some,
  Bool-cases, inl, inr, u64_mod, add64, Bytes, length,
}
use keraunos.Types.{Msat}
use keraunos.Shachain.{SecretStore}
use keraunos.Channel.Data.{
  Channel, HtlcSource, Result, ok, err, panic, Result-cases, HoldingCellOp, add, fulfill_op,
  fail_op, fail_malformed_op, PendingCounterpartyCommitment,
}
use keraunos.Channel.Env.{Env}
use keraunos.Channel.Messages.{RevokeAndAck, RaaOutcome}
use keraunos.Channel.Htlcs.{inbound_committed}
use keraunos.Channel.Balance.{gc_htlcs}
use keraunos.Channel.Send.{
  send_add_htlc, send_fulfill_htlc, send_fail_htlc, send_fail_malformed_htlc, validate_outbound_add,
}
use keraunos.Channel.Commit.{can_send_commitment}
use keraunos.Channel.Revoke.{
  collect_forwardable, check_revocation, lock_counterparty, flush_op, flush_ops, sign_flushed,
  on_revoke_and_ack,
}
use keraunos.Channel.Invariant.{IsValid}
use keraunos.Channel.Invariant.Updates.{
  HasRoom, send_add_htlc-IsValid, send_fulfill_htlc-IsValid, send_fail_htlc-IsValid,
  send_fail_malformed_htlc-IsValid,
}
use keraunos.Channel.Invariant.Commits.{gc_htlcs-IsValid, send_commitment_signed-IsValid}
use keraunos.Channel.Invariant.Revokes.{
  check_revocation_inv, lock_counterparty-IsValid, collect_forwardable-IsValid,
}

-- A message, or an error: neither a parked update nor a panic.
abbrev pub is_answer {ℓ} : {A : Type ℓ} → Result (Option A) → Bool
is_answer (ok (some a)) = true
is_answer (ok none) = false
is_answer (err e) = true
is_answer panic = false

abbrev pub is_panic {ℓ} : {A : Type ℓ} → Result A → Bool
is_panic (ok a) = false
is_panic (err e) = false
is_panic panic = true

pub validate_outbound_add-no_panic :
    (c : Channel) (amount : Msat) (cltv : ℕ)
    → is_panic (validate_outbound_add c amount cltv) ≡ false
unfolding validate_outbound_add
validate_outbound_add-no_panic c amount cltv = ground arith

pub inbound_committed-no_panic : (c : Channel) (id : ℕ) → is_panic (inbound_committed c id) ≡ false
unfolding inbound_committed
inbound_committed-no_panic c id = ground arith

-- With no commitment in flight an update is not parked, and at most one number is handed out.
abbrev pub Answers : Channel → Channel → Bool → Type 0
Answers c c' answered =
    (c'.awaiting_raa ≡ false)
    × (c'.next_holder_htlc_id ≤ c.next_holder_htlc_id + 1)
    × (answered ≡ true)

add64-le : (n : ℕ) → add64 n 1 ≤ n + 1
unfolding add64
add64-le n = omega arith

module _ (c : Channel) (idle : c.awaiting_raa ≡ false) where
  send_add_htlc-Answers :
      (amount : Msat) (hash : Bytes) (cltv : ℕ) (onion : Bytes) (source : HtlcSource)
      → let r = send_add_htlc c amount hash cltv onion source in Answers c r.0 (is_answer r.1)
  unfolding send_add_htlc
  send_add_htlc-Answers amount hash cltv onion source =
      ground (arith, validate_outbound_add-no_panic c amount cltv, add64-le c.next_holder_htlc_id)

  send_fulfill_htlc-Answers :
      (env : Env) (id : ℕ) (preimage : Bytes)
      → let r = send_fulfill_htlc env c id preimage in Answers c r.0 (is_answer r.1)
  unfolding send_fulfill_htlc
  send_fulfill_htlc-Answers env id preimage = ground (arith, inbound_committed-no_panic c id)

  send_fail_htlc-Answers :
      (id : ℕ) (reason : Bytes)
      → let r = send_fail_htlc c id reason in Answers c r.0 (is_answer r.1)
  unfolding send_fail_htlc
  send_fail_htlc-Answers id reason = ground (arith, inbound_committed-no_panic c id)

  send_fail_malformed_htlc-Answers :
      (id : ℕ) (sha : Bytes) (code : ℕ)
      → let r = send_fail_malformed_htlc c id sha code in Answers c r.0 (is_answer r.1)
  unfolding send_fail_malformed_htlc
  send_fail_malformed_htlc-Answers id sha code = ground (arith, inbound_committed-no_panic c id)

-- The invariant of the flush.
abbrev Flushes : Channel → Channel × Result RaaOutcome → Type 0
Flushes c r = IsValid r.0 × Answers c r.0 (not (is_panic r.1))

flush_op-Flushes :
    (env : Env) (c : Channel) (op : HoldingCellOp) (out : RaaOutcome)
    → IsValid c
    → c.awaiting_raa ≡ false
    → HasRoom c.next_holder_htlc_id
    → Flushes c (flush_op env c op out)
unfolding flush_op
flush_op-Flushes env c (add amount hash cltv onion source) out v idle room = ground (
  arith,
  send_add_htlc-IsValid c v amount hash cltv onion source room,
  send_add_htlc-Answers c idle amount hash cltv onion source,
)
flush_op-Flushes env c (fulfill_op id preimage) out v idle room = ground (
  arith,
  send_fulfill_htlc-IsValid c v env id preimage,
  send_fulfill_htlc-Answers c idle env id preimage,
)
flush_op-Flushes env c (fail_op id reason) out v idle room =
    ground (arith, send_fail_htlc-IsValid c v id reason, send_fail_htlc-Answers c idle id reason)
flush_op-Flushes env c (fail_malformed_op id sha code) out v idle room = ground (
  arith,
  send_fail_malformed_htlc-IsValid c v id sha code,
  send_fail_malformed_htlc-Answers c idle id sha code,
)

-- Room for one number for each waiting update.
abbrev pub HasRoomFor : ℕ → List HoldingCellOp → Type 0
HasRoomFor counter ops = counter + length ops + 1 < u64_mod

pub flush_ops-IsValid :
    (env : Env) (c : Channel) (ops : List HoldingCellOp) (out : RaaOutcome)
    → IsValid c
    → c.awaiting_raa ≡ false
    → HasRoomFor c.next_holder_htlc_id ops
    → IsValid (flush_ops env c ops out).0
      × ((flush_ops env c ops out).0.awaiting_raa ≡ false)
      × (is_panic (flush_ops env c ops out).1 ≡ false)
unfolding flush_ops
flush_ops-IsValid env c [] out v idle room = (v, idle, refl)
flush_ops-IsValid env c (op ∷ ops) out v idle room =
    let all = flush_op-Flushes env c op out v idle (omega arith) in
    let v' = all.0 in
    let (idle', few, fine) = all.1 in
    elim (Result-cases (flush_op env c op out).1) [
      | inl (out', e) ↦
          rw (e, flush_ops)
            (flush_ops-IsValid env (flush_op env c op out).0 ops out' v' idle' (omega arith))
      | inr (inl (x, e)) ↦ rw (e, flush_ops) (v', idle', refl)
      | inr (inr e) ↦ absurd (ground arith)
    ]

sign_flushed-IsValid :
    (env : Env) (r : Channel × Result RaaOutcome) → IsValid r.0 → IsValid (sign_flushed env r).0
unfolding sign_flushed
sign_flushed-IsValid env (c, err e) v = v
sign_flushed-IsValid env (c, panic) v = v
sign_flushed-IsValid env (c, ok out) v = elim (Bool-cases (can_send_commitment c)) [
  | inl signs ↦ rw (signs, sign_flushed) (send_commitment_signed-IsValid env c v)
  | inr quiet ↦ rw (quiet, sign_flushed) v
]

-- The channel when the flush begins.
unfoldable pub locked : Channel → PendingCounterpartyCommitment → SecretStore → Bytes → Channel
unfolding lock_counterparty gc_htlcs collect_forwardable
locked c s secrets point =
    record (collect_forwardable (gc_htlcs (lock_counterparty c s secrets point))).0 {
      holding_cell = [];
    }

pub locked-IsValid :
    (c : Channel) (s : PendingCounterpartyCommitment) (secrets : SecretStore) (point : Bytes)
    → IsValid c
    → c.awaiting_raa ≡ true
    → c.pending_counterparty_commitment ≡ some s
    → IsValid (locked c s secrets point)
unfolding locked
locked-IsValid c s secrets point v waiting taken =
    let v' = collect_forwardable-IsValid (gc_htlcs (lock_counterparty c s secrets point)) (
      gc_htlcs-IsValid (lock_counterparty c s secrets point)
        (lock_counterparty-IsValid c s secrets point v waiting taken)) in
    record {
      good = v'.good;
      distinct = v'.distinct;
      entries = v'.entries;
      in_flight = v'.in_flight;
      point = v'.point;
      points = v'.points;
    }

pub on_revoke_and_ack-IsValid :
    (env : Env) (c : Channel) (msg : RevokeAndAck)
    → IsValid c
    → HasRoomFor c.next_holder_htlc_id c.holding_cell
    → IsValid (on_revoke_and_ack env c msg).0
unfolding on_revoke_and_ack locked
on_revoke_and_ack-IsValid env c msg v room = elim (Result-cases (check_revocation env c msg)) [
  | inr failed ↦ ground arith
  | inl ((s, secrets), e) ↦
      let point = msg.next_per_commitment_point in
      let (waiting, taken) = check_revocation_inv env c msg s secrets e in
      let start = locked-IsValid c s secrets point v waiting taken in
      rw (e, on_revoke_and_ack)
        (sign_flushed-IsValid env _
          (flush_ops-IsValid env (locked c s secrets point) c.holding_cell _ start refl room).0)
]
