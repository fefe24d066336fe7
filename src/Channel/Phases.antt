-- ===== src/Channel/Phases.antt =====
-- src/channel: the phases that an HTLC passes through on the two commitments. The source lists the
-- phases of one side; the pairs follow from its handlers.
use keraunos.Prelude.{ℕ, Bool, true, false, not, ◌&&◌, if◌then◌else◌, ◌≡◌, arith}
use keraunos.Channel.Data.{Htlc, HtlcPhase, not_yet, pending, committed, removing, gone, credited}
use keraunos.Channel.Htlcs.{is_htlc, is_some}
use keraunos.Channel.Commit.{lock_htlc, acknowledge}
use keraunos.Channel.Revoke.{include_htlc, exclude_htlc}

-- outbound, resolved, phase on our commitment, phase on theirs
abbrev pub legal : Bool → Bool → HtlcPhase → HtlcPhase → Bool
legal true false not_yet pending = true
legal true false pending committed = true
legal true false committed committed = true
legal true true removing committed = true
legal true true gone removing = true
legal true true gone gone = true
legal false false pending not_yet = true
legal false false committed pending = true
legal false false committed committed = true
legal false true committed removing = true
legal false true removing gone = true
legal false true gone gone = true
legal _ _ _ _ = false

abbrev pub IsLegal : Htlc → Type 0
IsLegal h = legal h.outbound (is_some h.resolution) h.phase_holder h.phase_counterparty ≡ true

-- What an entry of a snapshot's `removed` says of an HTLC: if it is inbound and the one named, it is
-- on its way out of their commitment.
abbrev pub holds_entry : Bool × ℕ → Htlc → Bool
holds_entry (outbound, id) h =
    if not outbound && is_htlc false id h then credited h.phase_counterparty else true

module _ (h : Htlc) (l : IsLegal h) where
  pub acknowledge-lock-IsLegal : IsLegal (acknowledge (lock_htlc h))
  unfolding acknowledge lock_htlc
  acknowledge-lock-IsLegal = ground arith

  pub include-IsLegal : IsLegal (include_htlc h.outbound h)
  unfolding include_htlc
  include-IsLegal = ground arith

  pub exclude-IsLegal :
      (not h.outbound ≡ true → credited h.phase_counterparty ≡ true)
      → IsLegal (exclude_htlc h.outbound h)
  unfolding exclude_htlc credited
  exclude-IsLegal k = ground arith
