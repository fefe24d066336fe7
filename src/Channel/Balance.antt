-- ===== src/Channel/Balance.antt =====
-- src/channel/mod.rs: the balances of one side's next commitment, and the removal of dead HTLCs.
use keraunos.Prelude.{
  Bool, true, false, ◌&&◌, if◌then◌else◌, List, [], ◌∷◌, Option, none, some, add64,
}
use keraunos.Types.{Msat, saturating_sub}
use keraunos.Channel.Data.{
  Channel, Htlc, HtlcPhase, HtlcResolution, fulfill, fail, fail_malformed, included, credited, gone,
  phase_eq,
}

-- (to_holder, to_counterparty)
abbrev pub Balances : Type 0
Balances = Msat × Msat

-- The amount leaves the offerer.
unfoldable pub debit : Bool → Msat → Balances → Balances
unfolding saturating_sub
debit true amount (to_holder, to_counterparty) = (saturating_sub to_holder amount, to_counterparty)
debit false amount (to_holder, to_counterparty) = (to_holder, saturating_sub to_counterparty amount)

-- The amount goes from the offerer to the recipient.
unfoldable pub settle : Bool → Msat → Balances → Balances
unfolding saturating_sub
settle true amount (to_holder, to_counterparty) =
    (saturating_sub to_holder amount, add64 to_counterparty amount)
settle false amount (to_holder, to_counterparty) =
    (add64 to_holder amount, saturating_sub to_counterparty amount)

-- A removed HTLC: only a fulfilled one moves its amount. One with no resolution fails a debug
-- assertion, and changes nothing in a release build.
unfoldable pub apply_resolution : Option HtlcResolution → Bool → Msat → Balances → Balances
unfolding settle
apply_resolution none outbound amount bal = bal
apply_resolution (some (fulfill preimage)) outbound amount bal = settle outbound amount bal
apply_resolution (some (fail reason)) outbound amount bal = bal
apply_resolution (some (fail_malformed sha code)) outbound amount bal = bal

unfoldable pub apply_balance : Htlc → HtlcPhase → Balances → Balances
unfolding debit apply_resolution included credited
apply_balance h phase bal =
    if included phase
    then debit h.outbound h.amount_msat bal
    else if credited phase
    then apply_resolution h.resolution h.outbound h.amount_msat bal
    else bal

-- `if holder_side { h.phase_holder } else { h.phase_counterparty }`
abbrev pub phase_on : Bool → Htlc → HtlcPhase
phase_on true h = h.phase_holder
phase_on false h = h.phase_counterparty

unfoldable pub apply_balances : Bool → List Htlc → Balances → Balances
apply_balances holder_side [] bal = bal
apply_balances holder_side (h ∷ hs) bal =
    apply_balances holder_side hs (apply_balance h (phase_on holder_side h) bal)

unfoldable pub balances_for : Channel → Bool → Balances
unfolding apply_balances
balances_for c holder_side =
    apply_balances holder_side c.htlcs (c.to_holder_msat, c.to_counterparty_msat)

unfoldable pub is_dead : Htlc → Bool
is_dead h = phase_eq h.phase_holder gone && phase_eq h.phase_counterparty gone

-- `retain`, with the balances that its closure updates.
unfoldable pub retain_live : List Htlc → List Htlc
unfolding is_dead
retain_live [] = []
retain_live (h ∷ hs) = if is_dead h then retain_live hs else h ∷ retain_live hs

unfoldable pub bake : List Htlc → Balances → Balances
unfolding is_dead
bake [] bal = bal
bake (h ∷ hs) bal = bake hs (if is_dead h then apply_balance h gone bal else bal)

unfoldable pub gc_htlcs : Channel → Channel
unfolding retain_live bake
gc_htlcs c =
    let bal = bake c.htlcs (c.to_holder_msat, c.to_counterparty_msat) in
    record c { htlcs = retain_live c.htlcs; to_holder_msat = bal.0; to_counterparty_msat = bal.1 }
