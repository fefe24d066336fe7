-- ===== src/Channel/Accounts.antt =====
-- src/channel/mod.rs: what `balances_for` computes, and that `gc_htlcs` does not change it.
use keraunos.Prelude.{
  ℕ, ◌+◌, ◌-◌, ◌≤◌, ◌<◌, Bool, true, false, ◌&&◌, if◌then◌else◌, ◌≡◌, refl, arith, inl, inr, List,
  [], ◌∷◌, Option, some, add64, u64_mod, Bool-cases, sym, ◌∙◌,
}
use keraunos.Types.{saturating_sub}
use keraunos.Channel.Data.{Channel, Htlc, HtlcResolution, fulfill, included, credited, gone}
use keraunos.Channel.Htlcs.{bool_eq}
use keraunos.Channel.Balance.{
  Balances, debit, settle, apply_resolution, apply_balance, phase_on, apply_balances, balances_for,
  is_dead, retain_live, bake, gc_htlcs,
}

abbrev pub is_fulfilled : Option HtlcResolution → Bool
is_fulfilled (some (fulfill preimage)) = true
is_fulfilled _ = false

-- What an HTLC has paid to its recipient, and what it has in flight, on a commitment.
abbrev pub paid_by : Bool → Bool → Htlc → ℕ
paid_by side outbound h =
    if bool_eq h.outbound outbound && (credited (phase_on side h) && is_fulfilled h.resolution)
    then h.amount_msat
    else 0

abbrev pub flying_by : Bool → Bool → Htlc → ℕ
flying_by side outbound h =
    if bool_eq h.outbound outbound && included (phase_on side h) then h.amount_msat else 0

abbrev pub paid : Bool → Bool → List Htlc → ℕ
paid side outbound [] = 0
paid side outbound (h ∷ hs) = paid_by side outbound h + paid side outbound hs

abbrev pub flying : Bool → Bool → List Htlc → ℕ
flying side outbound [] = 0
flying side outbound (h ∷ hs) = flying_by side outbound h + flying side outbound hs

-- The offerers can pay for all that has left their balances, and no sum overflows.
pub record Covered (side : Bool) (hs : List Htlc) (mine theirs : ℕ) : Type 0 where
  pub mine_covers : paid side true hs + flying side true hs ≤ mine
  pub theirs_cover : paid side false hs + flying side false hs ≤ theirs
  pub fits : mine + theirs < u64_mod

apply_balance-eq :
    (side : Bool) (h : Htlc) (mine theirs : ℕ)
    → paid_by side true h + flying_by side true h ≤ mine
    → paid_by side false h + flying_by side false h ≤ theirs
    → mine + theirs < u64_mod
    → apply_balance h (phase_on side h) (mine, theirs) ≡ (
      mine - (paid_by side true h + flying_by side true h) + paid_by side false h,
      theirs - (paid_by side false h + flying_by side false h) + paid_by side true h,
    )
unfolding apply_balance debit settle apply_resolution saturating_sub add64 included credited
apply_balance-eq side h mine theirs p q fits = ground arith

pair-eq : {a b c d : ℕ} → a ≡ c → b ≡ d → ◌≡◌ {A = Balances} (a, b) (c, d)
pair-eq p q = cc

apply_balances-eq :
    (side : Bool) (hs : List Htlc) (mine theirs : ℕ)
    → Covered side hs mine theirs
    → apply_balances side hs (mine, theirs) ≡ (
      mine - (paid side true hs + flying side true hs) + paid side false hs,
      theirs - (paid side false hs + flying side false hs) + paid side true hs,
    )
unfolding apply_balances
apply_balances-eq side [] mine theirs k = pair-eq (omega arith) (omega arith)
apply_balances-eq side (h ∷ hs) mine theirs k =
    let p = k.mine_covers in
    let q = k.theirs_cover in
    let f = k.fits in
    rw (apply_balance-eq side h mine theirs (omega arith) (omega arith) f) (
      apply_balances-eq side hs _ _
        (record { mine_covers = omega arith; theirs_cover = omega arith; fits = omega arith })
      ∙ pair-eq (omega arith) (omega arith))

-- Where the balances cover what has left them and the channel's total fits a word, so that nothing
-- saturates or wraps, the balances of either side's commitment and the HTLCs in flight there add up
-- to the channel's total.
pub balances_for-conserved :
    (c : Channel) (side : Bool)
    → Covered side c.htlcs c.to_holder_msat c.to_counterparty_msat
    → (balances_for c side).0
        + (balances_for c side).1
        + (flying side true c.htlcs + flying side false c.htlcs)
      ≡ c.to_holder_msat + c.to_counterparty_msat
unfolding balances_for
balances_for-conserved c side k =
    rw (apply_balances-eq side c.htlcs c.to_holder_msat c.to_counterparty_msat k)
      (omega (arith, k.mine_covers, k.theirs_cover))

-- A dead HTLC is only paid, on both sides alike.
is_dead-phase : (side : Bool) (h : Htlc) → is_dead h ≡ true → phase_on side h ≡ gone
unfolding is_dead
is_dead-phase side h dead = ground arith

is_dead-paid :
    (side outbound : Bool) (h : Htlc)
    → is_dead h ≡ true
    → (paid_by side outbound h ≡ paid_by true outbound h) × (flying_by side outbound h ≡ 0)
unfolding included
is_dead-paid side outbound h dead =
    let p = is_dead-phase side h dead in
    let q = is_dead-phase true h dead in (rw (p, q) refl, rw p (ground arith))

-- What the dead HTLCs have paid.
abbrev pub baked_by : Bool → Htlc → ℕ
baked_by outbound h = if is_dead h then paid_by true outbound h else 0

abbrev pub baked : Bool → List Htlc → ℕ
baked outbound [] = 0
baked outbound (h ∷ hs) = baked_by outbound h + baked outbound hs

retain_live-paid :
    (side outbound : Bool) (hs : List Htlc)
    → (paid side outbound hs ≡ baked outbound hs + paid side outbound (retain_live hs))
      × (flying side outbound hs ≡ flying side outbound (retain_live hs))
unfolding retain_live
retain_live-paid side outbound [] = (refl, refl)
retain_live-paid side outbound (h ∷ hs) = elim (Bool-cases (is_dead h)) [
  | inl dead ↦
      let (ih, jh) = retain_live-paid side outbound hs in
      let (same, none_flies) = is_dead-paid side outbound h dead in
      rw (dead, retain_live) (omega arith, omega arith)
  | inr alive ↦
      let (ih, jh) = retain_live-paid side outbound hs in
      rw (alive, retain_live) (omega arith, omega arith)
]

bake_one-eq :
    (h : Htlc) (mine theirs : ℕ)
    → baked_by true h ≤ mine
    → baked_by false h ≤ theirs
    → mine + theirs < u64_mod
    → (if is_dead h then apply_balance h gone (mine, theirs) else (mine, theirs))
      ≡ (mine - baked_by true h + baked_by false h, theirs - baked_by false h + baked_by true h)
unfolding apply_balance debit settle apply_resolution saturating_sub add64 included credited is_dead
bake_one-eq h mine theirs p q fits = ground arith

bake-eq :
    (hs : List Htlc) (mine theirs : ℕ)
    → baked true hs ≤ mine
    → baked false hs ≤ theirs
    → mine + theirs < u64_mod
    → bake hs (mine, theirs)
      ≡ (mine - baked true hs + baked false hs, theirs - baked false hs + baked true hs)
unfolding bake
bake-eq [] mine theirs p q f = pair-eq (omega arith) (omega arith)
bake-eq (h ∷ hs) mine theirs p q f =
    rw (bake_one-eq h mine theirs (omega arith) (omega arith) f) (
      bake-eq hs _ _ (omega arith) (omega arith) (omega arith)
      ∙ pair-eq (omega arith) (omega arith))

-- Where the balances cover what has left them, removing the dead HTLCs and settling them moves no
-- money: the balances of either side's commitment and the channel's total are as before.
pub gc_htlcs-balances_for :
    (c : Channel) (side : Bool)
    → Covered side c.htlcs c.to_holder_msat c.to_counterparty_msat
    → (balances_for (gc_htlcs c) side ≡ balances_for c side)
      × ((gc_htlcs c).to_holder_msat + (gc_htlcs c).to_counterparty_msat
          ≡ c.to_holder_msat + c.to_counterparty_msat)
unfolding balances_for gc_htlcs
gc_htlcs-balances_for c side k =
    let (tp, tf) = retain_live-paid side true c.htlcs in
    let (fp, ff) = retain_live-paid side false c.htlcs in
    let p = k.mine_covers in
    let q = k.theirs_cover in
    let f = k.fits in
    let baked_eq =
      bake-eq c.htlcs c.to_holder_msat c.to_counterparty_msat (omega arith) (omega arith) f in
    (
      rw baked_eq (
          apply_balances-eq side (retain_live c.htlcs) _ _
            (record { mine_covers = omega arith; theirs_cover = omega arith; fits = omega arith })
          ∙ pair-eq (omega arith) (omega arith)
          ∙ sym (apply_balances-eq side c.htlcs c.to_holder_msat c.to_counterparty_msat k)),
      rw baked_eq (omega arith),
    )
