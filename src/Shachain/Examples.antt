-- ===== src/Shachain/Examples.antt =====
-- src/shachain.rs: the store on concrete secrets. The hash of these examples appends a byte.
use keraunos.Prelude.{
  ℕ, zero, suc, bytes_eq, ◌≡◌, refl, arith, Bytes, [], ◌∷◌, ◌++◌, none, some, length, get_elem?,
  replicate,
}
use keraunos.Shachain.{
  SecretStore, inserted, insert, bucket, trailing_zeros, derive_step, derive_secret,
  generate_from_seed, secret_for,
}
use keraunos.Shachain.Store.{HonestFrom, insert-HonestFrom, secret_for_sound, insert_rederives}

abbrev append_one : Bytes → Bytes
append_one b = b ++ 1 ∷ []

abbrev seed : Bytes
seed = replicate 32 7

-- The store that holds the secret of index 8.
abbrev one_secret : SecretStore
one_secret = none ∷ none ∷ none ∷ some (8, generate_from_seed append_one seed 8) ∷ replicate 45 none

nothing_held : (n b : ℕ) → HonestFrom append_one seed b (replicate n none)
nothing_held zero b = tt
nothing_held (suc n) b = (tt, nothing_held n (suc b))

held_8 : HonestFrom append_one seed 0 one_secret
held_8 = (tt, (tt, (tt, ((refl, omega arith, refl), nothing_held 45 4))))

secret_for_sound_example :
    derive_secret append_one (generate_from_seed append_one seed 8) 3 11
    ≡ generate_from_seed append_one seed 11
unfolding secret_for
secret_for_sound_example =
    secret_for_sound append_one seed one_secret 11
      (derive_secret append_one (generate_from_seed append_one seed 8) 3 11) refl held_8
      (omega arith) refl

-- The store that holds the secret of index 11, and the one after index 10.
abbrev secret_11 : SecretStore
secret_11 = some (11, generate_from_seed append_one seed 11) ∷ replicate 48 none

abbrev secrets_11_10 : SecretStore
secrets_11_10 =
    some (11, generate_from_seed append_one seed 11)
    ∷ some (10, generate_from_seed append_one seed 10)
    ∷ replicate 47 none

takes_10 :
    insert append_one secret_11 10 (generate_from_seed append_one seed 10) ≡ inserted secrets_11_10
unfolding insert generate_from_seed bytes_eq trailing_zeros derive_step
takes_10 = refl

held_11 : HonestFrom append_one seed 0 secret_11
held_11 = ((refl, omega arith, refl), nothing_held 48 1)

insert-HonestFrom_example :
    HonestFrom append_one seed 0 secrets_11_10 × (length secrets_11_10 ≡ length secret_11)
insert-HonestFrom_example =
    insert-HonestFrom append_one seed secret_11 secrets_11_10 10 held_11 (omega arith) takes_10

insert_rederives_example :
    (derive_secret append_one (generate_from_seed append_one seed 10) (bucket 10) 11
      ≡ generate_from_seed append_one seed 11)
    × (get_elem? secrets_11_10 (bucket 10)
        ≡ some (some (10, generate_from_seed append_one seed 10)))
    × (get_elem? secrets_11_10 0 ≡ some (some (11, generate_from_seed append_one seed 11)))
unfolding bucket trailing_zeros
insert_rederives_example =
    insert_rederives append_one secret_11 secrets_11_10 10 (generate_from_seed append_one seed 10) 0
      11 (generate_from_seed append_one seed 11) (omega arith) takes_10 (omega arith) refl
