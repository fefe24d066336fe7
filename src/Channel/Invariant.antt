-- ===== src/Channel/Invariant.antt =====
-- src/channel: what holds of a channel between any two of its messages and commands.
pub mod Lists
pub mod Updates
pub mod Commits
pub mod Revokes
pub mod Flush
pub mod Panics
pub mod Total
pub mod Steps
use keraunos.Prelude.{
  ℕ, ◌<◌, Bool, true, false, not, ◌&&◌, ◌||◌, ◌==◌, if◌then◌else◌, ◌≡◌, List, [], ◌∷◌, Option, none,
  some, All,
}
use keraunos.Channel.Data.{Channel, Htlc, credited, PendingCounterpartyCommitment}
use keraunos.Channel.Htlcs.{is_htlc, is_some}
use keraunos.Channel.Phases.{IsLegal, holds_entry}

-- The counter that numbers the HTLCs of a direction.
abbrev pub counter : Bool → ℕ → ℕ → ℕ
counter true next_holder next_counterparty = next_holder
counter false next_holder next_counterparty = next_counterparty

-- Every entry of a snapshot's `removed` that names the HTLC finds it on its way out.
abbrev pub held : List (Bool × ℕ) → Htlc → Bool
held [] h = true
held (e ∷ es) h = holds_entry e h && held es h

-- Of one HTLC: its phases are a legal pair; if it is outbound it has a source; its number was
-- handed out; and the pending snapshot is right about it.
pub record IsGood (nh nc : ℕ) (removed : List (Bool × ℕ)) (h : Htlc) : Type 0 where
  pub legal_phases : IsLegal h
  pub sourced : not h.outbound || is_some h.source ≡ true
  pub numbered : h.id < counter h.outbound nh nc
  pub is_held : held removed h ≡ true

-- No two HTLCs have both direction and number in common.
abbrev pub Distinct : List Htlc → Type 0
Distinct [] = Unit {0}
Distinct (h ∷ hs) = All (λ g. is_htlc h.outbound h.id g ≡ false) hs × Distinct hs

abbrev pub removed_of : Option PendingCounterpartyCommitment → List (Bool × ℕ)
removed_of none = []
removed_of (some snapshot) = snapshot.removed

abbrev pub IsNumbered : ℕ → ℕ → Bool × ℕ → Type 0
IsNumbered nh nc e = e.1 < counter e.0 nh nc

pub record IsValid (c : Channel) : Type 0 where
  pub good :
      All
        (IsGood c.next_holder_htlc_id c.next_counterparty_htlc_id
          (removed_of c.pending_counterparty_commitment))
        c.htlcs
  pub distinct : Distinct c.htlcs
  pub entries :
      All
        (IsNumbered c.next_holder_htlc_id c.next_counterparty_htlc_id)
        (removed_of c.pending_counterparty_commitment)
  -- A snapshot is kept exactly while a `revoke_and_ack` is awaited.
  pub in_flight : c.awaiting_raa ≡ is_some c.pending_counterparty_commitment
  pub point : not c.awaiting_raa || is_some c.counterparty_next_point ≡ true
  pub points :
      not (is_some c.counterparty_next_point) || is_some c.counterparty_current_point ≡ true
