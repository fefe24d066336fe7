-- ===== src/Channel/Invariant/Lists.antt =====
-- How the list operations of src/channel/dance.rs keep predicates of single HTLCs, and distinctness.
use keraunos.Prelude.{
  ℕ, Bool, true, false, ◌≡◌, sym, arith, List, [], ◌∷◌, ◌++◌, some, All, Bool-cases, inl, inr,
  All-append,
}
use keraunos.Channel.Data.{Htlc}
use keraunos.Channel.Htlcs.{is_htlc, find_htlc, update_htlc}
use keraunos.Channel.Balance.{retain_live, is_dead}
use keraunos.Channel.Invariant.{Distinct}
use mathlib.Core.Path.{subst}

pub is_htlc-eq :
    (o : Bool) (n : ℕ) (h : Htlc) → is_htlc o n h ≡ true → (h.outbound ≡ o) × (h.id ≡ n)
is_htlc-eq o n h e = ground arith

module _ (P : Htlc → Type 0) where
  -- The change meets the first HTLC of that direction and number, which is the one that `find` returns.
  pub All-update_found :
      (o : Bool) (n : ℕ) (f : Htlc → Htlc) (hs : List Htlc) (g : Htlc)
      → find_htlc o n hs ≡ some g
      → P (f g)
      → All P hs
      → All P (update_htlc o n f hs)
  unfolding find_htlc update_htlc
  All-update_found o n f [] g e p all = tt
  All-update_found o n f (h ∷ hs) g e p all = elim (Bool-cases (is_htlc o n h)) [
    | inl hit ↦ let same : h ≡ g = ground arith in rw hit (subst (λ x. P (f x)) (sym same) p, all.1)
    | inr miss ↦ rw miss (all.0, All-update_found o n f hs g (rw miss at e) p all.1)
  ]

  pub All-update_htlc :
      (o : Bool) (n : ℕ) (f : Htlc → Htlc) (hs : List Htlc)
      → ((h : Htlc) → is_htlc o n h ≡ true → P h → P (f h))
      → All P hs
      → All P (update_htlc o n f hs)
  unfolding update_htlc
  All-update_htlc o n f [] keep all = tt
  All-update_htlc o n f (h ∷ hs) keep all = elim (Bool-cases (is_htlc o n h)) [
    | inl hit ↦ rw hit (keep h hit all.0, all.1)
    | inr miss ↦ rw miss (all.0, All-update_htlc o n f hs keep all.1)
  ]

  pub All-retain_live : (hs : List Htlc) → All P hs → All P (retain_live hs)
  unfolding retain_live
  All-retain_live [] all = tt
  All-retain_live (h ∷ hs) all = elim (Bool-cases (is_dead h)) [
    | inl dead ↦ rw dead (All-retain_live hs all.1)
    | inr alive ↦ rw alive (all.0, All-retain_live hs all.1)
  ]

-- A change that keeps direction and number.
abbrev pub KeepsKey : (Htlc → Htlc) → Type 0
KeepsKey f = (h : Htlc) → ((f h).outbound ≡ h.outbound) × ((f h).id ≡ h.id)

update_htlc-key :
    (o : Bool) (n : ℕ) (f : Htlc → Htlc) (k : Bool) (m : ℕ) (hs : List Htlc)
    → KeepsKey f
    → All (λ g. is_htlc k m g ≡ false) hs
    → All (λ g. is_htlc k m g ≡ false) (update_htlc o n f hs)
update_htlc-key o n f k m hs keep =
    All-update_htlc (λ g. is_htlc k m g ≡ false) o n f hs
      (λ h hit miss. rw ((keep h).0, (keep h).1) miss)

pub Distinct-update_htlc :
    (o : Bool) (n : ℕ) (f : Htlc → Htlc) (hs : List Htlc)
    → KeepsKey f
    → Distinct hs
    → Distinct (update_htlc o n f hs)
unfolding update_htlc
Distinct-update_htlc o n f [] keep d = tt
Distinct-update_htlc o n f (h ∷ hs) keep d = elim (Bool-cases (is_htlc o n h)) [
  | inl hit ↦ rw hit (rw ((keep h).0, (keep h).1) d.0, d.1)
  | inr miss ↦
      rw miss
        (update_htlc-key o n f h.outbound h.id hs keep d.0, Distinct-update_htlc o n f hs keep d.1)
]

pub Distinct-retain_live : (hs : List Htlc) → Distinct hs → Distinct (retain_live hs)
unfolding retain_live
Distinct-retain_live [] d = tt
Distinct-retain_live (h ∷ hs) d = elim (Bool-cases (is_dead h)) [
  | inl dead ↦ rw dead (Distinct-retain_live hs d.1)
  | inr alive ↦
      rw alive (
        All-retain_live (λ g. is_htlc h.outbound h.id g ≡ false) hs d.0,
        Distinct-retain_live hs d.1,
      )
]

pub Distinct-append :
    (hs : List Htlc) (new : Htlc)
    → Distinct hs
    → All (λ h. is_htlc h.outbound h.id new ≡ false) hs
    → Distinct (hs ++ new ∷ [])
Distinct-append [] new d fresh = (tt, tt)
Distinct-append (h ∷ hs) new d fresh = (
  All-append (λ g. is_htlc h.outbound h.id g ≡ false) hs (new ∷ []) d.0 (fresh.0, tt),
  Distinct-append hs new d.1 fresh.1,
)

pub All-map {ℓ} :
    {A : Type ℓ} {P Q : A → Type 0} (xs : List A) → ((x : A) → P x → Q x) → All P xs → All Q xs
All-map [] f all = tt
All-map (x ∷ xs) f all = (f x all.0, All-map xs f all.1)

pub All-find :
    (P : Htlc → Type 0) (o : Bool) (n : ℕ) (hs : List Htlc) (g : Htlc)
    → find_htlc o n hs ≡ some g
    → All P hs
    → P g × (is_htlc o n g ≡ true)
unfolding find_htlc
All-find P o n [] g e all = absurd (ground arith)
All-find P o n (h ∷ hs) g e all = elim (Bool-cases (is_htlc o n h)) [
  | inl hit ↦
      let same : h ≡ g = ground arith in
      (subst P same all.0, subst (λ x. is_htlc o n x ≡ true) same hit)
  | inr miss ↦ All-find P o n hs g (rw miss at e) all.1
]

-- A change that turns one predicate into a weaker one.
pub All-update_change :
    {P Q : Htlc → Type 0} (o : Bool) (n : ℕ) (f : Htlc → Htlc) (hs : List Htlc)
    → ((h : Htlc) → is_htlc o n h ≡ true → P h → Q (f h))
    → ((h : Htlc) → P h → Q h)
    → All P hs
    → All Q (update_htlc o n f hs)
unfolding update_htlc
All-update_change o n f [] change weaken all = tt
All-update_change o n f (h ∷ hs) change weaken all = elim (Bool-cases (is_htlc o n h)) [
  | inl hit ↦ rw hit (change h hit all.0, All-map hs weaken all.1)
  | inr miss ↦ rw miss (weaken h all.0, All-update_change o n f hs change weaken all.1)
]
