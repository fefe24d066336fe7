-- ===== src/Channel/Invariant/Revokes.antt =====
-- `revoke_and_ack` and the flush of the holding cell keep the invariant.
use keraunos.Prelude.{
  ℕ, Bool, true, false, ◌≡◌, refl, arith, List, [], ◌∷◌, some, All, Bool-cases, inl, inr, Bytes,
}
use keraunos.Shachain.{SecretStore}
use keraunos.Channel.Data.{Channel, Htlc, ok, credited, PendingCounterpartyCommitment}
use keraunos.Channel.Env.{Env}
use keraunos.Channel.Messages.{RevokeAndAck}
use keraunos.Channel.Htlcs.{is_htlc, update_htlc}
use keraunos.Channel.Revoke.{
  include_htlc, exclude_htlc, include_htlcs, exclude_htlcs, mark_processed, collect_forwardable,
  check_revocation, lock_counterparty, is_forwardable,
}
use keraunos.Channel.Phases.{IsLegal, holds_entry, include-IsLegal, exclude-IsLegal}
use keraunos.Channel.Invariant.{IsValid, IsGood, Distinct, held, removed_of}
use keraunos.Channel.Invariant.Lists.{
  is_htlc-eq, All-update_htlc, All-update_change, Distinct-update_htlc,
}
use mathlib.Core.Path.{subst}

include_key :
    (o : Bool) (h : Htlc)
    → ((include_htlc o h).outbound ≡ h.outbound) × ((include_htlc o h).id ≡ h.id)
unfolding include_htlc
include_key o h = ground arith

exclude_key :
    (o : Bool) (h : Htlc)
    → ((exclude_htlc o h).outbound ≡ h.outbound) × ((exclude_htlc o h).id ≡ h.id)
unfolding exclude_htlc
exclude_key o h = ground arith

include_entry :
    (e : Bool × ℕ) (o : Bool) (h : Htlc)
    → holds_entry e h ≡ true
    → holds_entry e (include_htlc o h) ≡ true
unfolding include_htlc credited
include_entry e o h k = ground arith

exclude_entry :
    (e : Bool × ℕ) (o : Bool) (h : Htlc)
    → holds_entry e h ≡ true
    → holds_entry e (exclude_htlc o h) ≡ true
unfolding exclude_htlc credited
exclude_entry e o h k = ground arith

include_held :
    (es : List (Bool × ℕ)) (o : Bool) (h : Htlc)
    → held es h ≡ true
    → held es (include_htlc o h) ≡ true
include_held [] o h k = refl
include_held (e ∷ es) o h k = ground (arith, include_entry e o h, include_held es o h)

exclude_held :
    (es : List (Bool × ℕ)) (o : Bool) (h : Htlc)
    → held es h ≡ true
    → held es (exclude_htlc o h) ≡ true
exclude_held [] o h k = refl
exclude_held (e ∷ es) o h k = ground (arith, exclude_entry e o h, exclude_held es o h)

module _ (nh nc : ℕ) where
  include-IsGood :
      (es : List (Bool × ℕ)) (o : Bool) (n : ℕ) (h : Htlc)
      → is_htlc o n h ≡ true
      → IsGood nh nc es h
      → IsGood nh nc es (include_htlc o h)
  include-IsGood es o n h hit g =
      let (same_o, same_id) = include_key o h in
      record {
        legal_phases =
            subst (λ k. IsLegal (include_htlc k h)) (is_htlc-eq o n h hit).0
              (include-IsLegal h g.legal_phases);
        sourced = unfold include_htlc in ground (arith, g.sourced);
        numbered = rw (same_o, same_id) g.numbered;
        is_held = include_held es o h g.is_held;
      }

  exclude-IsGood :
      (es : List (Bool × ℕ)) (o : Bool) (n : ℕ) (h : Htlc)
      → is_htlc o n h ≡ true
      → IsGood nh nc ((o, n) ∷ es) h
      → IsGood nh nc es (exclude_htlc o h)
  exclude-IsGood es o n h hit g =
      let (same_o, same_id) = exclude_key o h in
      record {
        legal_phases =
            subst (λ k. IsLegal (exclude_htlc k h)) (is_htlc-eq o n h hit).0
              (exclude-IsLegal h g.legal_phases (λ inbound. ground (arith, g.is_held)));
        sourced = unfold exclude_htlc in ground (arith, g.sourced);
        numbered = rw (same_o, same_id) g.numbered;
        is_held = exclude_held es o h (ground (arith, g.is_held));
      }

  IsGood-tail :
      (e : Bool × ℕ) (es : List (Bool × ℕ)) (h : Htlc) → IsGood nh nc (e ∷ es) h → IsGood nh nc es h
  IsGood-tail e es h g = record {
    legal_phases = g.legal_phases;
    sourced = g.sourced;
    numbered = g.numbered;
    is_held = ground (arith, g.is_held);
  }

  include_htlcs-IsGood :
      (es ids : List (Bool × ℕ)) (hs : List Htlc)
      → All (IsGood nh nc es) hs
      → All (IsGood nh nc es) (include_htlcs ids hs)
  unfolding include_htlcs
  include_htlcs-IsGood es [] hs all = all
  include_htlcs-IsGood es ((o, n) ∷ ids) hs all =
      include_htlcs-IsGood es ids (update_htlc o n (include_htlc o) hs)
        (All-update_htlc (IsGood nh nc es) o n (include_htlc o) hs (include-IsGood es o n) all)

  exclude_htlcs-IsGood :
      (es : List (Bool × ℕ)) (hs : List Htlc)
      → All (IsGood nh nc es) hs
      → All (IsGood nh nc []) (exclude_htlcs es hs)
  unfolding exclude_htlcs
  exclude_htlcs-IsGood [] hs all = all
  exclude_htlcs-IsGood ((o, n) ∷ es) hs all =
      exclude_htlcs-IsGood es (update_htlc o n (exclude_htlc o) hs) (
        All-update_change o n (exclude_htlc o) hs (exclude-IsGood es o n) (IsGood-tail (o, n) es)
          all)

include_htlcs-Distinct :
    (ids : List (Bool × ℕ)) (hs : List Htlc) → Distinct hs → Distinct (include_htlcs ids hs)
unfolding include_htlcs
include_htlcs-Distinct [] hs d = d
include_htlcs-Distinct ((o, n) ∷ ids) hs d =
    include_htlcs-Distinct ids (update_htlc o n (include_htlc o) hs)
      (Distinct-update_htlc o n (include_htlc o) hs (include_key o) d)

exclude_htlcs-Distinct :
    (ids : List (Bool × ℕ)) (hs : List Htlc) → Distinct hs → Distinct (exclude_htlcs ids hs)
unfolding exclude_htlcs
exclude_htlcs-Distinct [] hs d = d
exclude_htlcs-Distinct ((o, n) ∷ ids) hs d =
    exclude_htlcs-Distinct ids (update_htlc o n (exclude_htlc o) hs)
      (Distinct-update_htlc o n (exclude_htlc o) hs (exclude_key o) d)

-- What a checked revocation was checked against.
pub check_revocation_inv :
    (env : Env) (c : Channel) (msg : RevokeAndAck) (s : PendingCounterpartyCommitment)
    (secrets : SecretStore)
    → check_revocation env c msg ≡ ok (s, secrets)
    → (c.awaiting_raa ≡ true) × (c.pending_counterparty_commitment ≡ some s)
unfolding check_revocation
check_revocation_inv env c msg s secrets e = ground arith

pub lock_counterparty-IsValid :
    (c : Channel) (s : PendingCounterpartyCommitment) (secrets : SecretStore) (point : Bytes)
    → IsValid c
    → c.awaiting_raa ≡ true
    → c.pending_counterparty_commitment ≡ some s
    → IsValid (lock_counterparty c s secrets point)
unfolding lock_counterparty
lock_counterparty-IsValid c s secrets point v waiting taken =
    let nh = c.next_holder_htlc_id in
    let nc = c.next_counterparty_htlc_id in
    let good : All (IsGood nh nc s.removed) c.htlcs =
      subst (λ p. All (IsGood nh nc (removed_of p)) c.htlcs) taken v.good in
    record {
      good =
          exclude_htlcs-IsGood nh nc s.removed (include_htlcs s.included c.htlcs)
            (include_htlcs-IsGood nh nc s.removed s.included c.htlcs good);
      distinct =
          exclude_htlcs-Distinct s.removed (include_htlcs s.included c.htlcs)
            (include_htlcs-Distinct s.included c.htlcs v.distinct);
      entries = tt;
      in_flight = refl;
      point = refl;
      points = ground (arith, v.point);
    }

mark_processed-IsGood :
    (nh nc : ℕ) (es : List (Bool × ℕ)) (hs : List Htlc)
    → All (IsGood nh nc es) hs
    → All (IsGood nh nc es) (mark_processed hs)
unfolding mark_processed
mark_processed-IsGood nh nc es [] all = tt
mark_processed-IsGood nh nc es (h ∷ hs) all = elim (Bool-cases (is_forwardable h)) [
  | inl f ↦ rw f (marked, mark_processed-IsGood nh nc es hs all.1)
  | inr n ↦ rw n (all.0, mark_processed-IsGood nh nc es hs all.1)
]
  where
    marked_held :
        (es : List (Bool × ℕ)) → held es h ≡ true → held es (record h { processed = true }) ≡ true
    marked_held = elim [ [] ↦ (λ k. refl) | e ∷ (es → ih) ↦ λ k. ground (arith, ih) ]

    marked : IsGood nh nc es (record h { processed = true })
    marked = record {
      legal_phases = all.0.legal_phases;
      sourced = all.0.sourced;
      numbered = all.0.numbered;
      is_held = marked_held es all.0.is_held;
    }

marked_others :
    (o : Bool) (n : ℕ) (hs : List Htlc)
    → All (λ g. is_htlc o n g ≡ false) hs
    → All (λ g. is_htlc o n g ≡ false) (mark_processed hs)
unfolding mark_processed
marked_others o n [] all = tt
marked_others o n (h ∷ hs) all = elim (Bool-cases (is_forwardable h)) [
  | inl f ↦ rw f (all.0, marked_others o n hs all.1)
  | inr k ↦ rw k (all.0, marked_others o n hs all.1)
]

mark_processed-Distinct : (hs : List Htlc) → Distinct hs → Distinct (mark_processed hs)
unfolding mark_processed
mark_processed-Distinct [] d = tt
mark_processed-Distinct (h ∷ hs) d = elim (Bool-cases (is_forwardable h)) [
  | inl f ↦ rw f (marked_others h.outbound h.id hs d.0, mark_processed-Distinct hs d.1)
  | inr k ↦ rw k (marked_others h.outbound h.id hs d.0, mark_processed-Distinct hs d.1)
]

pub collect_forwardable-IsValid : (c : Channel) → IsValid c → IsValid (collect_forwardable c).0
unfolding collect_forwardable
collect_forwardable-IsValid c v = record {
  good =
      mark_processed-IsGood c.next_holder_htlc_id c.next_counterparty_htlc_id
        (removed_of c.pending_counterparty_commitment) c.htlcs v.good;
  distinct = mark_processed-Distinct c.htlcs v.distinct;
  entries = v.entries;
  in_flight = v.in_flight;
  point = v.point;
  points = v.points;
}
