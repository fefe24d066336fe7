-- ===== src/Shachain/Store.antt =====
-- src/shachain.rs: what the store answers when every secret in it comes from one seed.
use keraunos.Prelude.{
  sub64, ℕ, zero, suc, ◌+◌, ◌*◌, ◌/◌, ◌%◌, ◌^◌, ◌≤◌, ◌<◌, ◌≡◌, refl, sym, ap, ◌∙◌, arith, Bytes,
  true, false, ◌==◌, inl, inr, [], ◌∷◌, Option, none, some, length, set, bytes_eq→eq, Option-cases,
  Bool-cases, get_elem?, get_elem?-set_self, get_elem?-set_ne, ◌≢◌, length-set,
}
use keraunos.Shachain.{
  SecretStore, inserted, out_of_range, index_for_commitment, bucket, trailing_zeros, mask_low,
  derive_secret, generate_from_seed, rederives, check_lower, insert, covers, secret_in, secret_from,
  secret_for,
}
use keraunos.Shachain.Derive.{Agree, LowZero, two_pow-pos, derive_secret-derive_secret}
use native.Mathlib.Nat.{pow-suc, mul-div_cancel, div-eq_of_lt, div-add-mod', mul-mod_left}
use mathlib.Core.Path.{subst}

-- `mask_low` forgets the low bits and no other.
mask_low-Agree : (b i j : ℕ) → mask_low b i ≡ mask_low b j → Agree b i j
unfolding mask_low
mask_low-Agree b i j e =
    sym (mul-div_cancel (i / 2 ^ b) (two_pow-pos b))
    ∙ ap (λ (t : ℕ). t / 2 ^ b) e
    ∙ mul-div_cancel (j / 2 ^ b) (two_pow-pos b)

covers-Agree : (b i j : ℕ) → i < 2 ^ 48 → j < 2 ^ 48 → covers b j i ≡ true → Agree b i j
unfolding covers
covers-Agree b i j hi hj h = elim (Bool-cases (b == 48)) [
  | inl e ↦ let e' : b ≡ 48 = ground arith in rw e' (div-eq_of_lt hi ∙ sym (div-eq_of_lt hj))
  | inr e ↦ mask_low-Agree b i j (ground arith)
]

LowZero-of_multiple : (n i q : ℕ) → i ≡ q * 2 ^ n → LowZero n i
LowZero-of_multiple n i q e = rw e (mul-mod_left q (2 ^ n))

LowZero-multiple : (n i : ℕ) → LowZero n i → i ≡ i / 2 ^ n * 2 ^ n
LowZero-multiple n i z = omega (arith, div-add-mod' i (2 ^ n))

trailing_zeros-LowZero : (fuel i : ℕ) → LowZero (trailing_zeros fuel i) i
unfolding trailing_zeros
trailing_zeros-LowZero zero i = omega arith
trailing_zeros-LowZero (suc fuel) i = elim (Bool-cases (i % 2 == 1)) [
  | inl odd ↦ rw odd (omega arith)
  | inr even ↦
      let k = trailing_zeros fuel (i / 2) in
      rw (even, trailing_zeros)
        (LowZero-of_multiple (suc k) i (i / 2 / 2 ^ k) (
          rw pow-suc (
            omega (
              arith,
              LowZero-multiple k (i / 2) (trailing_zeros-LowZero fuel (i / 2)),
              parity even,
            ))))
]
  where
    parity : (i % 2 == 1) ≡ false → i % 2 ≡ 0
    parity e = ground arith

-- The slot of a 48-bit index: that many low bits are zero, and it is one of the 49.
pub bucket-LowZero : (i : ℕ) → LowZero (bucket i) i
unfolding bucket
bucket-LowZero i = elim (Bool-cases (i == 0)) [
  | inl z ↦ let z' : i ≡ 0 = ground arith in rw (z, bucket) (rw z' refl)
  | inr nz ↦ rw (nz, bucket) (trailing_zeros-LowZero 64 i)
]

trailing_zeros-lt : (fuel n i : ℕ) → 0 < i → i < 2 ^ n → trailing_zeros fuel i < n
unfolding trailing_zeros
trailing_zeros-lt fuel zero i some_bit fits = absurd (omega arith)
trailing_zeros-lt zero (suc n) i some_bit fits = omega arith
trailing_zeros-lt (suc fuel) (suc n) i some_bit fits = elim (Bool-cases (i % 2 == 1)) [
  | inl odd ↦ rw odd (omega arith)
  | inr even ↦
      let is_even : i % 2 ≡ 0 = ground arith in
      let rest = trailing_zeros-lt fuel n (i / 2) (omega arith) (omega (arith, pow-suc 2 n)) in
      rw (even, trailing_zeros) (omega arith)
]

pub bucket-lt : (i : ℕ) → i < 2 ^ 48 → bucket i < 49
unfolding bucket
bucket-lt i fits = elim (Bool-cases (i == 0)) [
  | inl z ↦ rw z (omega arith)
  | inr nz ↦ rw nz (omega (arith, trailing_zeros-lt 64 48 i (ground arith) fits))
]

-- A store with its 49 slots has one for every 48-bit index.
pub insert-in_range :
    (sha256 : Bytes → Bytes) (known : SecretStore) (index : ℕ) (secret : Bytes)
    → length known ≡ 49
    → index < 2 ^ 48
    → insert sha256 known index secret ≢ out_of_range
unfolding insert
insert-in_range sha256 known index secret len fits e = ground (arith, bucket-lt index fits)

pub index_for_commitment-lt : (n : ℕ) → n < 2 ^ 48 → index_for_commitment n < 2 ^ 48
unfolding index_for_commitment sub64
index_for_commitment-lt n fits = omega arith

module _ (sha256 : Bytes → Bytes) (seed : Bytes) where
  -- A slot that is empty, or holds the seed's secret for an index with `b` trailing zeros.
  abbrev pub HonestSlot : ℕ → Option (ℕ × Bytes) → Type 0
  HonestSlot b none = Unit {0}
  HonestSlot b (some (i, s)) = LowZero b i × (i < 2 ^ 48) × (s ≡ generate_from_seed sha256 seed i)

  abbrev pub HonestFrom : ℕ → SecretStore → Type 0
  HonestFrom b [] = Unit {0}
  HonestFrom b (slot ∷ slots) = HonestSlot b slot × HonestFrom (suc b) slots

  secret_in_sound :
      (b : ℕ) (slot : Option (ℕ × Bytes)) (j : ℕ) (s : Bytes)
      → b ≤ 48
      → HonestSlot b slot
      → j < 2 ^ 48
      → secret_in sha256 b slot j ≡ some s
      → s ≡ generate_from_seed sha256 seed j
  unfolding secret_in generate_from_seed
  secret_in_sound b none j s hb honest hj h = absurd (ground arith)
  secret_in_sound b (some (i, t)) j s hb honest hj h = elim (Bool-cases (covers b j i)) [
    | inr e ↦ absurd (ground arith)
    | inl e ↦
        let same : s ≡ derive_secret sha256 t b j = ground arith in
        same
        ∙ ap (λ u. derive_secret sha256 u b j) honest.2
        ∙ derive_secret-derive_secret sha256 seed b 48 i j hb (covers-Agree b i j honest.1 hj e)
            honest.0
  ]

  secret_from_sound :
      (slots : SecretStore) (b j : ℕ) (s : Bytes)
      → length slots + b ≤ 49
      → HonestFrom b slots
      → j < 2 ^ 48
      → secret_from sha256 b slots j ≡ some s
      → s ≡ generate_from_seed sha256 seed j
  unfolding secret_from
  secret_from_sound [] b j s hb honest hj h = absurd (ground arith)
  secret_from_sound (slot ∷ slots) b j s hb honest hj h =
      elim (Option-cases (secret_in sha256 b slot j)) [
        | inl e ↦
            secret_from_sound slots (suc b) j s (omega arith) honest.1 hj (rw (e, secret_from) at h)
        | inr (t, e) ↦ secret_in_sound b slot j s (omega arith) honest.0 hj (ground arith)
      ]

  -- If every slot is empty or holds the seed's secret for an index with the slot's number of
  -- trailing zeros, then `secret_for` answers any 48-bit index with the seed's secret, or not at all.
  pub secret_for_sound :
      (known : SecretStore) (j : ℕ) (s : Bytes)
      → length known ≡ 49
      → HonestFrom 0 known
      → j < 2 ^ 48
      → secret_for sha256 known j ≡ some s
      → s ≡ generate_from_seed sha256 seed j
  unfolding secret_for
  secret_for_sound known j s len honest hj h =
      secret_from_sound known 0 j s (omega arith) honest hj h

  set-HonestFrom :
      (slots : SecretStore) (b k : ℕ) (v : Option (ℕ × Bytes))
      → HonestFrom b slots
      → HonestSlot (b + k) v
      → HonestFrom b (set slots k v)
  set-HonestFrom [] b k v honest h = tt
  set-HonestFrom (slot ∷ slots) b zero v honest h =
      (subst (λ m. HonestSlot m v) {x = b + 0} {y = b} (omega arith) h, honest.1)
  set-HonestFrom (slot ∷ slots) b (suc k) v honest h = (
    honest.0,
    set-HonestFrom slots (suc b) k v honest.1
        (subst (λ m. HonestSlot m v) {x = b + suc k} {y = suc b + k} (omega arith) h),
  )

  -- A store of the seed's secrets stays one when the seed's secret for a 48-bit index is inserted.
  pub insert-HonestFrom :
      (known known' : SecretStore) (index : ℕ)
      → HonestFrom 0 known
      → index < 2 ^ 48
      → insert sha256 known index (generate_from_seed sha256 seed index) ≡ inserted known'
      → HonestFrom 0 known' × (length known' ≡ length known)
  unfolding insert
  insert-HonestFrom known known' index honest hi h =
      let secret = generate_from_seed sha256 seed index in
      let stored : known' ≡ set known (bucket index) (some (index, secret)) = ground arith in
      rw stored (
        set-HonestFrom known 0 (bucket index) (some (index, secret)) honest (
            subst (λ m. HonestSlot m (some (index, secret))) {x = bucket index}
              {y = 0 + bucket index} (omega arith) (bucket-LowZero index, hi, refl)),
        length-set known (bucket index) (some (index, secret)),
      )

module _ (sha256 : Bytes → Bytes) where
  check_lower_inv :
      (slots : SecretStore) (secret : Bytes) (b n l i : ℕ) (s : Bytes)
      → check_lower sha256 secret b n slots ≡ true
      → l < n
      → get_elem? slots l ≡ some (some (i, s))
      → derive_secret sha256 secret b i ≡ s
  unfolding check_lower rederives
  check_lower_inv slots secret b zero l i s h lt e = absurd (omega arith)
  check_lower_inv [] secret b (suc n) l i s h lt e = absurd (ground arith)
  check_lower_inv (slot ∷ slots) secret b (suc n) zero i s h lt e =
      ground (arith, bytes_eq→eq (derive_secret sha256 secret b i) s)
  check_lower_inv (slot ∷ slots) secret b (suc n) (suc l) i s h lt e =
      check_lower_inv slots secret b n l i s (ground arith) (omega arith) e

  pub insert_consistent :
      (known known' : SecretStore) (index : ℕ) (secret : Bytes)
      → bucket index < length known
      → insert sha256 known index secret ≡ inserted known'
      → ((l i : ℕ) (s : Bytes)
          → l < bucket index
          → get_elem? known l ≡ some (some (i, s))
          → derive_secret sha256 secret (bucket index) i ≡ s)
        × (get_elem? known' (bucket index) ≡ some (some (index, secret)))
        × ((l : ℕ) → bucket index ≢ l → get_elem? known' l ≡ get_elem? known l)
  unfolding insert
  insert_consistent known known' index secret room h =
      let stored : known' ≡ set known (bucket index) (some (index, secret)) = ground arith in
      (
        λ l i s lt e.
            check_lower_inv known secret (bucket index) (bucket index) l i s (ground arith) lt e,
        rw stored (get_elem?-set_self known (bucket index) (some (index, secret)) room),
        λ l ne. rw stored (get_elem?-set_ne known (some (index, secret)) ne),
      )

  -- `insert` accepts a secret only if it re-derives the secret in every occupied lower slot; then the
  -- new entry is in the slot of its index, and a lower slot keeps its entry.
  pub insert_rederives :
      (known known' : SecretStore) (index : ℕ) (secret : Bytes) (l i : ℕ) (s : Bytes)
      → bucket index < length known
      → insert sha256 known index secret ≡ inserted known'
      → l < bucket index
      → get_elem? known l ≡ some (some (i, s))
      → (derive_secret sha256 secret (bucket index) i ≡ s)
        × (get_elem? known' (bucket index) ≡ some (some (index, secret)))
        × (get_elem? known' l ≡ some (some (i, s)))
  insert_rederives known known' index secret l i s room e lt at =
      let (rederived, placed, kept) = insert_consistent known known' index secret room e in
      (rederived l i s lt at, placed, kept l (λ same. omega arith) ∙ at)
