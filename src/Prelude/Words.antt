-- ===== src/Prelude/Words.antt =====
-- Machine words: u64 arithmetic with its wrap-around, and big-endian bytes.
use Prim.Native.Nat.{ℕ, zero, suc, ◌+◌, ◌-◌, ◌*◌, ◌/◌, ◌%◌, ◌^◌, ◌≤◌, ◌<◌}
use mathlib.Core.Path.{◌≡◌, refl, sym, ap, ap₂, ◌∙◌}
use mathlib.Core.List.{List, [], ◌∷◌, ◌++◌, append-nil, append_assoc}
use native.Mathlib.Omega.{arith}
use native.Mathlib.Nat.{pow-suc}
use keraunos.Prelude.Lists.{length, length-append, All, All-append}

abbrev pub Bytes : Type 0
Bytes = List ℕ

abbrev pub u64_mod : ℕ
u64_mod = 2 ^ 64

abbrev pub IsByte : ℕ → Type 0
IsByte b = b < 256

-- The release build's u64 `+`, `-` and `*`.
unfoldable pub add64 : ℕ → ℕ → ℕ
add64 a b = (a + b) % u64_mod

unfoldable pub sub64 : ℕ → ℕ → ℕ
sub64 a b = (a + u64_mod - b) % u64_mod

unfoldable pub mul64 : ℕ → ℕ → ℕ
mul64 a b = a * b % u64_mod

pub add64-eq : (a b : ℕ) → a + b < u64_mod → add64 a b ≡ a + b
unfolding add64
add64-eq a b h = omega arith

pub sub64-eq : (a b : ℕ) → b ≤ a → a < u64_mod → sub64 a b ≡ a - b
unfolding sub64
sub64-eq a b h k = omega arith

-- `to_be_bytes` of an integer of `n` bytes, and `from_be_bytes`.
unfoldable pub be_bytes : ℕ → ℕ → Bytes
be_bytes zero v = []
be_bytes (suc n) v = be_bytes n (v / 256) ++ v % 256 ∷ []

unfoldable pub from_be : ℕ → Bytes → ℕ
from_be acc [] = acc
from_be acc (b ∷ bs) = from_be (acc * 256 + b) bs

pub length-be_bytes : (n v : ℕ) → length (be_bytes n v) ≡ n
unfolding be_bytes
length-be_bytes zero v = refl
length-be_bytes (suc n) v =
    omega (arith, length-append (be_bytes n (v / 256)) (v % 256 ∷ []), length-be_bytes n (v / 256))

pub be_bytes-IsByte : (n v : ℕ) → All IsByte (be_bytes n v)
unfolding be_bytes
be_bytes-IsByte zero v = tt
be_bytes-IsByte (suc n) v =
    All-append IsByte (be_bytes n (v / 256)) (v % 256 ∷ []) (be_bytes-IsByte n (v / 256))
      (omega arith)

from_be-snoc : (acc b : ℕ) (bs : Bytes) → from_be acc (bs ++ b ∷ []) ≡ from_be acc bs * 256 + b
unfolding from_be
from_be-snoc acc b [] = refl
from_be-snoc acc b (x ∷ bs) = from_be-snoc (acc * 256 + x) b bs

pub from_be-be_bytes : (n v : ℕ) → v < 256 ^ n → from_be 0 (be_bytes n v) ≡ v
unfolding be_bytes
from_be-be_bytes zero v h = unfold from_be in omega arith
from_be-be_bytes (suc n) v h =
    from_be-snoc 0 (v % 256) (be_bytes n (v / 256))
    ∙ omega (arith, from_be-be_bytes n (v / 256) (omega (arith, pow-suc 256 n)))

be_bytes-snoc :
    (m acc b : ℕ) → b < 256 → be_bytes (suc m) (acc * 256 + b) ≡ be_bytes m acc ++ b ∷ []
unfolding be_bytes
be_bytes-snoc m acc b h =
    ap₂ {A = ℕ} {B = ℕ} (λ k t. be_bytes m k ++ t ∷ []) (omega arith) (omega arith)

pub be_bytes-from_be_acc :
    (xs : Bytes) (m acc : ℕ)
    → All IsByte xs
    → be_bytes (length xs + m) (from_be acc xs) ≡ be_bytes m acc ++ xs
unfolding from_be
be_bytes-from_be_acc [] m acc h =
    ap (λ k. be_bytes k acc) (omega arith) ∙ sym (append-nil (be_bytes m acc))
be_bytes-from_be_acc (b ∷ bs) m acc h =
    ap (λ k. be_bytes k (from_be (acc * 256 + b) bs)) (omega arith)
    ∙ be_bytes-from_be_acc bs (suc m) (acc * 256 + b) h.1
    ∙ ap (λ t. t ++ bs) (be_bytes-snoc m acc b h.0)
    ∙ append_assoc (be_bytes m acc) (b ∷ []) bs

pub be_bytes-from_be :
    (n : ℕ) (xs : Bytes) → All IsByte xs → length xs ≡ n → be_bytes n (from_be 0 xs) ≡ xs
unfolding be_bytes
be_bytes-from_be n xs h e =
    ap (λ k. be_bytes k (from_be 0 xs)) {x = n} {y = length xs + 0} (omega arith)
    ∙ be_bytes-from_be_acc xs 0 0 h

pub scale_le : (a b p : ℕ) → a ≤ b → a * p ≤ b * p
scale_le a b p h = grind arith

from_be-lt_acc :
    (xs : Bytes) (acc : ℕ) → All IsByte xs → from_be acc xs < (acc + 1) * 256 ^ length xs
unfolding from_be
from_be-lt_acc [] acc h = omega arith
from_be-lt_acc (b ∷ bs) acc h = rw pow-suc (
    omega (
      arith,
      from_be-lt_acc bs (acc * 256 + b) h.1,
      scale_le (acc * 256 + b + 1) ((acc + 1) * 256) (256 ^ length bs) (omega arith),
    ))

pub from_be-lt : (n : ℕ) (xs : Bytes) → All IsByte xs → length xs ≡ n → from_be 0 xs < 256 ^ n
from_be-lt n xs h e = rw (← e) (omega (arith, from_be-lt_acc xs 0 h))
