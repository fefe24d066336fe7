-- ===== src/Channel/Invariant/Commits.antt =====
-- `commitment_signed`, sent and received, keeps the invariant.
use keraunos.Prelude.{
  ℕ, Bool, true, false, ◌≡◌, refl, arith, List, [], ◌∷◌, some, All, Bool-cases, inl, inr,
}
use keraunos.Channel.Data.{
  Channel, Htlc, ok, credited, removing, HolderCommitment, PendingCounterpartyCommitment, phase_eq,
  pending, Result-cases,
}
use keraunos.Channel.Env.{Env}
use keraunos.Channel.Messages.{CommitmentSigned}
use keraunos.Channel.Htlcs.{is_htlc, is_some}
use keraunos.Channel.Balance.{gc_htlcs}
use keraunos.Channel.Commit.{
  sign_next, send_commitment_signed, ids_in, lock_htlcs, lock_htlc, acknowledge_htlcs, acknowledge,
  accept_commitment, verify_next, on_commitment_signed,
}
use keraunos.Channel.Phases.{holds_entry, acknowledge-lock-IsLegal}
use keraunos.Channel.Invariant.{IsValid, IsGood, Distinct, held, removed_of, IsNumbered}
use keraunos.Channel.Invariant.Lists.{All-retain_live, Distinct-retain_live}

-- The names of the HTLCs that are on their way out hold of an HTLC, if none of those is a namesake.
held_others :
    (hs : List Htlc) (h : Htlc)
    → All (λ g. is_htlc h.outbound h.id g ≡ false) hs
    → held (ids_in removing hs) h ≡ true
unfolding ids_in
held_others [] h d = refl
held_others (g ∷ hs) h d = ground (arith, held_others hs h d.1, d.0)

-- An HTLC in front adds an entry for itself only.
held_front :
    (h g : Htlc) (hs : List Htlc)
    → is_htlc h.outbound h.id g ≡ false
    → held (ids_in removing hs) g ≡ true
    → held (ids_in removing (h ∷ hs)) g ≡ true
unfolding ids_in
held_front h g hs d e = ground arith

All-held_front :
    (h : Htlc) (hs gs : List Htlc)
    → All (λ g. is_htlc h.outbound h.id g ≡ false) gs
    → All (λ g. held (ids_in removing hs) g ≡ true) gs
    → All (λ g. held (ids_in removing (h ∷ hs)) g ≡ true) gs
All-held_front h hs [] d all = tt
All-held_front h hs (g ∷ gs) d all = (held_front h g hs d.0 all.0, All-held_front h hs gs d.1 all.1)

held_self :
    (h : Htlc) (hs : List Htlc)
    → held (ids_in removing hs) h ≡ true
    → held (ids_in removing (h ∷ hs)) h ≡ true
unfolding ids_in credited
held_self h hs e = ground arith

-- A snapshot is right about the HTLCs that it was taken of.
snapshot_held : (hs : List Htlc) → Distinct hs → All (λ h. held (ids_in removing hs) h ≡ true) hs
snapshot_held [] d = tt
snapshot_held (h ∷ hs) d =
    (held_self h hs (held_others hs h d.0), All-held_front h hs hs d.0 (snapshot_held hs d.1))

snapshot_numbered :
    (nh nc : ℕ) (removed : List (Bool × ℕ)) (hs : List Htlc)
    → All (IsGood nh nc removed) hs
    → All (IsNumbered nh nc) (ids_in removing hs)
unfolding ids_in
snapshot_numbered nh nc removed [] all = tt
snapshot_numbered nh nc removed (h ∷ hs) all =
    elim (Bool-cases (phase_eq h.phase_counterparty removing)) [
      | inl out ↦ rw out (all.0.numbered, snapshot_numbered nh nc removed hs all.1)
      | inr stays ↦ rw stays (snapshot_numbered nh nc removed hs all.1)
    ]

IsGood-removed :
    (nh nc : ℕ) (removed removed' : List (Bool × ℕ)) (hs : List Htlc)
    → All (IsGood nh nc removed) hs
    → All (λ h. held removed' h ≡ true) hs
    → All (IsGood nh nc removed') hs
IsGood-removed nh nc removed removed' [] good all = tt
IsGood-removed nh nc removed removed' (h ∷ hs) good all = (
  record {
    legal_phases = good.0.legal_phases;
    sourced = good.0.sourced;
    numbered = good.0.numbered;
    is_held = all.0;
  },
  IsGood-removed nh nc removed removed' hs good.1 all.1,
)

-- What a signed commitment was signed from.
pub sign_next_inv :
    (env : Env) (c : Channel) (msg : CommitmentSigned) (snapshot : PendingCounterpartyCommitment)
    → sign_next env c ≡ ok (msg, snapshot)
    → (c.awaiting_raa ≡ false)
      × (is_some c.counterparty_next_point ≡ true)
      × (snapshot.included ≡ ids_in pending c.htlcs)
      × (snapshot.removed ≡ ids_in removing c.htlcs)
unfolding sign_next
sign_next_inv env c msg snapshot e = ground arith

send_commitment_signed-ok :
    (env : Env) (c : Channel) (v : IsValid c) (msg : CommitmentSigned)
    (s : PendingCounterpartyCommitment)
    → sign_next env c ≡ ok (msg, s)
    → IsValid (record c {
      pending_counterparty_commitment = some s;
      awaiting_raa = true;
      counterparty_dirty = false;
    })
send_commitment_signed-ok env c v msg s e =
    let (idle, next, in_s, out_s) = sign_next_inv env c msg s e in
    let nh = c.next_holder_htlc_id in
    let nc = c.next_counterparty_htlc_id in
    let removed = removed_of c.pending_counterparty_commitment in
    record {
      good = rw out_s (
          IsGood-removed nh nc removed (ids_in removing c.htlcs) c.htlcs v.good
            (snapshot_held c.htlcs v.distinct));
      distinct = v.distinct;
      entries = rw out_s (snapshot_numbered nh nc removed c.htlcs v.good);
      in_flight = refl;
      point = next;
      points = v.points;
    }

pub send_commitment_signed-IsValid :
    (env : Env) (c : Channel) → IsValid c → IsValid (send_commitment_signed env c).0
unfolding send_commitment_signed
send_commitment_signed-IsValid env c v = elim (Result-cases (sign_next env c)) [
  | inl ((msg, s), e) ↦ rw (e, send_commitment_signed) (send_commitment_signed-ok env c v msg s e)
  | inr failed ↦ ground arith
]

-- Removing dead HTLCs keeps the invariant.
pub gc_htlcs-IsValid : (c : Channel) → IsValid c → IsValid (gc_htlcs c)
unfolding gc_htlcs
gc_htlcs-IsValid c v = record {
  good =
      All-retain_live
        (IsGood c.next_holder_htlc_id c.next_counterparty_htlc_id
          (removed_of c.pending_counterparty_commitment))
        c.htlcs v.good;
  distinct = Distinct-retain_live c.htlcs v.distinct;
  entries = v.entries;
  in_flight = v.in_flight;
  point = v.point;
  points = v.points;
}

abbrev acked : Htlc → Htlc
acked h = acknowledge (lock_htlc h)

acked_key :
    (h : Htlc)
    → ((acked h).outbound ≡ h.outbound) × ((acked h).id ≡ h.id) × ((acked h).source ≡ h.source)
unfolding acknowledge lock_htlc
acked_key h = ground arith

acked_entry : (e : Bool × ℕ) (h : Htlc) → holds_entry e h ≡ true → holds_entry e (acked h) ≡ true
unfolding acknowledge lock_htlc credited
acked_entry e h k = ground arith

acked-held :
    (removed : List (Bool × ℕ)) (h : Htlc) → held removed h ≡ true → held removed (acked h) ≡ true
acked-held [] h k = refl
acked-held (e ∷ es) h k = ground (arith, acked_entry e h, acked-held es h)

acked-IsGood :
    (nh nc : ℕ) (removed : List (Bool × ℕ)) (h : Htlc)
    → IsGood nh nc removed h
    → IsGood nh nc removed (acked h)
acked-IsGood nh nc removed h g =
    let (same_o, same_id, same_source) = acked_key h in
    record {
      legal_phases = acknowledge-lock-IsLegal h g.legal_phases;
      sourced = rw (same_o, same_source) g.sourced;
      numbered = rw (same_o, same_id) g.numbered;
      is_held = acked-held removed h g.is_held;
    }

acknowledge-lock-IsGood :
    (nh nc : ℕ) (removed : List (Bool × ℕ)) (hs : List Htlc)
    → All (IsGood nh nc removed) hs
    → All (IsGood nh nc removed) (acknowledge_htlcs (lock_htlcs hs))
unfolding acknowledge_htlcs lock_htlcs
acknowledge-lock-IsGood nh nc removed [] all = tt
acknowledge-lock-IsGood nh nc removed (h ∷ hs) all =
    (acked-IsGood nh nc removed h all.0, acknowledge-lock-IsGood nh nc removed hs all.1)

acked_others :
    (o : Bool) (n : ℕ) (hs : List Htlc)
    → All (λ g. is_htlc o n g ≡ false) hs
    → All (λ g. is_htlc o n g ≡ false) (acknowledge_htlcs (lock_htlcs hs))
unfolding acknowledge_htlcs lock_htlcs
acked_others o n [] all = tt
acked_others o n (h ∷ hs) all =
    let (same_o, same_id, same_source) = acked_key h in
    (rw (same_o, same_id) all.0, acked_others o n hs all.1)

acknowledge-lock-Distinct :
    (hs : List Htlc) → Distinct hs → Distinct (acknowledge_htlcs (lock_htlcs hs))
unfolding acknowledge_htlcs lock_htlcs
acknowledge-lock-Distinct [] d = tt
acknowledge-lock-Distinct (h ∷ hs) d =
    let (same_o, same_id, same_source) = acked_key h in
    (rw (same_o, same_id) (acked_others h.outbound h.id hs d.0), acknowledge-lock-Distinct hs d.1)

accept_commitment-IsValid :
    (c : Channel) (hc : HolderCommitment) → IsValid c → IsValid (accept_commitment c hc)
unfolding accept_commitment
accept_commitment-IsValid c hc v = record {
  good =
      acknowledge-lock-IsGood c.next_holder_htlc_id c.next_counterparty_htlc_id
        (removed_of c.pending_counterparty_commitment) c.htlcs v.good;
  distinct = acknowledge-lock-Distinct c.htlcs v.distinct;
  entries = v.entries;
  in_flight = v.in_flight;
  point = v.point;
  points = v.points;
}

pub on_commitment_signed-IsValid :
    (env : Env) (c : Channel) (msg : CommitmentSigned)
    → IsValid c
    → IsValid (on_commitment_signed env c msg).0
unfolding on_commitment_signed
on_commitment_signed-IsValid env c msg v = elim (Result-cases (verify_next env c msg)) [
  | inl (hc, e) ↦
      rw (e, on_commitment_signed)
        (gc_htlcs-IsValid (accept_commitment c hc) (accept_commitment-IsValid c hc v))
  | inr failed ↦ ground arith
]
