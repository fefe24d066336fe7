-- ===== src/Prelude/Sort.antt =====
-- `sort_by`: the standard library's stable sort, whose result a comparison determines, as insertion.
use Prim.Native.Nat.{ℕ, compare, Ordering, ◌+◌}
use mathlib.Core.Path.{◌≡◌, refl, ap, ◌∙◌}
use mathlib.Core.Logic.{◌≢◌, ◌⊎◌, inl, inr}
use mathlib.Core.List.{List, [], ◌∷◌, ◌++◌}
use native.Mathlib.Omega.{arith}
use keraunos.Prelude.Lists.{All}

abbrev pub then_with : Ordering → Ordering → Ordering
then_with Ordering.lt o = Ordering.lt
then_with Ordering.eq o = o
then_with Ordering.gt o = Ordering.gt

-- The order of `[u8]`: the shorter first on a common prefix.
unfoldable pub bytes_cmp : List ℕ → List ℕ → Ordering
bytes_cmp [] [] = Ordering.eq
bytes_cmp [] (y ∷ ys) = Ordering.lt
bytes_cmp (x ∷ xs) [] = Ordering.gt
bytes_cmp (x ∷ xs) (y ∷ ys) = then_with (compare x y) (bytes_cmp xs ys)

value_cases : (o : Ordering) → (o ≡ Ordering.lt) ⊎ ((o ≡ Ordering.eq) ⊎ (o ≡ Ordering.gt))
value_cases Ordering.lt = inl refl
value_cases Ordering.eq = inr (inl refl)
value_cases Ordering.gt = inr (inr refl)

unfoldable pub total {ℓ} : {A : Type ℓ} → (A → ℕ) → List A → ℕ
total weight [] = 0
total weight (x ∷ xs) = weight x + total weight xs

pub total-append {ℓ} :
    {A : Type ℓ} (weight : A → ℕ) (xs ys : List A)
    → total weight (xs ++ ys) ≡ total weight xs + total weight ys
unfolding total
total-append weight [] ys = omega arith
total-append weight (x ∷ xs) ys = omega (arith, total-append weight xs ys)

-- The second comparison is the first one the other way round.
abbrev pub IsFlip : Ordering → Ordering → Type 0
IsFlip o r = (o ≡ Ordering.gt → r ≡ Ordering.lt) × (o ≡ Ordering.eq → r ≡ Ordering.eq)

pub compare-IsFlip : (a b : ℕ) → IsFlip (compare a b) (compare b a)
compare-IsFlip a b = ground arith

pub then_with-IsFlip :
    {o r o' r' : Ordering} → IsFlip o r → IsFlip o' r' → IsFlip (then_with o o') (then_with r r')
then_with-IsFlip {o = Ordering.lt} h k = (λ e. cc, λ e. cc)
then_with-IsFlip {o = Ordering.eq} h k = rw (h.1 refl) k
then_with-IsFlip {o = Ordering.gt} h k = (λ e. rw (h.0 refl) refl, λ e. cc)

pub bytes_cmp-IsFlip : (xs ys : List ℕ) → IsFlip (bytes_cmp xs ys) (bytes_cmp ys xs)
unfolding bytes_cmp
bytes_cmp-IsFlip [] [] = (λ e. cc, λ e. refl)
bytes_cmp-IsFlip [] (y ∷ ys) = (λ e. cc, λ e. cc)
bytes_cmp-IsFlip (x ∷ xs) [] = (λ e. refl, λ e. cc)
bytes_cmp-IsFlip (x ∷ xs) (y ∷ ys) = then_with-IsFlip (compare-IsFlip x y) (bytes_cmp-IsFlip xs ys)

pub IsFlip-ne : {o r : Ordering} → IsFlip o r → o ≡ Ordering.gt → r ≢ Ordering.gt
IsFlip-ne h e f = cc (h.0 e)

module _ {ℓ} {A : Type ℓ} (cmp : A → A → Ordering) where
  unfoldable pub insert_by : A → List A → List A
  insert_by x [] = x ∷ []
  insert_by x (y ∷ ys) = elim (cmp x y) [
    | Ordering.gt ↦ y ∷ insert_by x ys
    | Ordering.eq ↦ x ∷ y ∷ ys
    | Ordering.lt ↦ x ∷ y ∷ ys
  ]

  unfoldable pub sort_by : List A → List A
  unfolding insert_by
  sort_by [] = []
  sort_by (x ∷ xs) = insert_by x (sort_by xs)

  -- No element is greater than the one behind it.
  abbrev pub IsSortedBy : List A → Type 0
  IsSortedBy [] = Unit {0}
  IsSortedBy (x ∷ []) = Unit {0}
  IsSortedBy (x ∷ y ∷ ys) = (cmp x y ≢ Ordering.gt) × IsSortedBy (y ∷ ys)

  Ordering-cases : (x y : A) → (cmp x y ≡ Ordering.gt) ⊎ (cmp x y ≢ Ordering.gt)
  Ordering-cases x y = elim (value_cases (cmp x y)) [
    | inl e ↦ inr (λ f. cc)
    | inr (inl e) ↦ inr (λ f. cc)
    | inr (inr e) ↦ inl e
  ]

  insert_by-front :
      (x y : A) (ys : List A) → cmp x y ≢ Ordering.gt → insert_by x (y ∷ ys) ≡ x ∷ y ∷ ys
  unfolding insert_by
  insert_by-front x y ys h = elim (value_cases (cmp x y)) [
    | inl e ↦ rw (e, insert_by) refl
    | inr (inl e) ↦ rw (e, insert_by) refl
    | inr (inr e) ↦ absurd (h e)
  ]

  insert_by-behind :
      (x y : A) (ys : List A) → cmp x y ≡ Ordering.gt → insert_by x (y ∷ ys) ≡ y ∷ insert_by x ys
  unfolding insert_by
  insert_by-behind x y ys h = rw (h, insert_by) refl

  -- A property of all elements, and a sum over them, do not depend on the order.
  module _ {κ} (P : A → Type κ) where
    insert_by-All : (x : A) (xs : List A) → P x → All P xs → All P (insert_by x xs)
    unfolding insert_by
    insert_by-All x [] p q = (p, tt)
    insert_by-All x (y ∷ ys) p q = elim (Ordering-cases x y) [
      | inl e ↦ rw (insert_by-behind x y ys e) (q.0, insert_by-All x ys p q.1)
      | inr e ↦ rw (insert_by-front x y ys e) (p, q)
    ]

    pub sort_by-All : (xs : List A) → All P xs → All P (sort_by xs)
    unfolding sort_by
    sort_by-All [] p = tt
    sort_by-All (x ∷ xs) p = insert_by-All x (sort_by xs) p.0 (sort_by-All xs p.1)

  insert_by-total :
      (weight : A → ℕ) (x : A) (xs : List A)
      → total weight (insert_by x xs) ≡ weight x + total weight xs
  unfolding insert_by total
  insert_by-total weight x [] = refl
  insert_by-total weight x (y ∷ ys) = elim (Ordering-cases x y) [
    | inl e ↦ rw (insert_by-behind x y ys e) (omega (arith, insert_by-total weight x ys))
    | inr e ↦ rw (insert_by-front x y ys e) refl
  ]

  pub sort_by-total : (weight : A → ℕ) (xs : List A) → total weight (sort_by xs) ≡ total weight xs
  unfolding sort_by total
  sort_by-total weight [] = refl
  sort_by-total weight (x ∷ xs) =
      insert_by-total weight x (sort_by xs) ∙ ap (λ n. weight x + n) (sort_by-total weight xs)

  module _ (flip : (x y : A) → cmp x y ≡ Ordering.gt → cmp y x ≢ Ordering.gt) where
    insert_by-IsSortedBy : (x : A) (xs : List A) → IsSortedBy xs → IsSortedBy (insert_by x xs)
    insert_by-IsSortedBy x [] h = unfold insert_by in tt
    insert_by-IsSortedBy x (y ∷ []) h = elim (Ordering-cases x y) [
      | inl e ↦ rw (insert_by-behind x y [] e) (unfold insert_by in (flip x y e, tt))
      | inr e ↦ rw (insert_by-front x y [] e) (e, tt)
    ]
    insert_by-IsSortedBy x (y ∷ z ∷ zs) h = elim (Ordering-cases x y) [
      | inr e ↦ rw (insert_by-front x y (z ∷ zs) e) (e, h)
      | inl e ↦ rw (insert_by-behind x y (z ∷ zs) e) (elim (Ordering-cases x z) [
        | inl f ↦
            let ih : IsSortedBy (z ∷ insert_by x zs) =
              rw (insert_by-behind x z zs f) at (insert_by-IsSortedBy x (z ∷ zs) h.1) in
            rw (insert_by-behind x z zs f) (h.0, ih)
        | inr f ↦ rw (insert_by-front x z zs f) (flip x y e, (f, h.1))
      ])
    ]

    pub sort_by-IsSortedBy : (xs : List A) → IsSortedBy (sort_by xs)
    unfolding sort_by
    sort_by-IsSortedBy [] = tt
    sort_by-IsSortedBy (x ∷ xs) = insert_by-IsSortedBy x (sort_by xs) (sort_by-IsSortedBy xs)
