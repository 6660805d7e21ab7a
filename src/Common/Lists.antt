-- ===== src/Common/Lists.antt =====
-- Lists measured by native numbers, under the library's names, and counting by a test.
use Prim.Native.Nat.{ℕ, zero, suc, ◌+◌, ◌*◌, ◌≤◌, min}
use mathlib.Core.Path.{◌≡◌, refl, ap}
use mathlib.Core.Bool.{Bool, true, not, ◌&&◌}
use mathlib.Core.List.{List, [], ◌∷◌, ◌++◌, map}
use native.Mathlib.Omega.{arith}
use ppl_me.Common.Tests.{if◌then◌else◌, one_if}

module _ {ℓ} {A : Type ℓ} where
  abbrev pub length : List A → ℕ
  length [] = 0
  length (x ∷ xs) = suc (length xs)

  abbrev pub take : ℕ → List A → List A
  take zero xs = []
  take (suc n) [] = []
  take (suc n) (x ∷ xs) = x ∷ take n xs

  abbrev pub drop : ℕ → List A → List A
  drop zero xs = xs
  drop (suc n) [] = []
  drop (suc n) (x ∷ xs) = drop n xs

  -- The elements that pass a test, in order.
  abbrev pub select : (A → Bool) → List A → List A
  select p [] = []
  select p (x ∷ xs) = if p x then x ∷ select p xs else select p xs

  -- How many elements pass a test.
  abbrev pub count : (A → Bool) → List A → ℕ
  count p [] = 0
  count p (x ∷ xs) = one_if (p x) + count p xs

  abbrev pub All {κ} : (A → Type κ) → List A → Type κ
  All P [] = Unit
  All P (x ∷ xs) = P x × All P xs

  pub length-append : (xs ys : List A) → length (xs ++ ys) ≡ length xs + length ys
  length-append [] ys = omega arith
  length-append (x ∷ xs) ys = omega (arith, length-append xs ys)

  pub drop-append : (xs ys : List A) → drop (length xs) (xs ++ ys) ≡ ys
  drop-append [] ys = refl
  drop-append (x ∷ xs) ys = drop-append xs ys

  pub count-append : (p : A → Bool) (xs ys : List A) → count p (xs ++ ys) ≡ count p xs + count p ys
  count-append p [] ys = omega arith
  count-append p (x ∷ xs) ys = omega (arith, count-append p xs ys)

  pub count-congr : (p q : A → Bool) (xs : List A) → ((x : A) → p x ≡ q x) → count p xs ≡ count q xs
  count-congr p q [] h = refl
  count-congr p q (x ∷ xs) h = omega (arith, ap one_if (h x), count-congr p q xs h)

  pub length-take : (n : ℕ) (xs : List A) → length (take n xs) ≡ min n (length xs)
  length-take zero xs = omega arith
  length-take (suc n) [] = omega arith
  length-take (suc n) (x ∷ xs) = omega (arith, length-take n xs)

  pub count_mono :
      (p q : A → Bool) (xs : List A) → ((x : A) → p x ≡ true → q x ≡ true) → count p xs ≤ count q xs
  count_mono p q [] h = omega arith
  count_mono p q (x ∷ xs) h = ground (arith, h x, count_mono p q xs h)

  -- The sum of a weight over a list.
  abbrev pub sum_of : (A → ℕ) → List A → ℕ
  sum_of w [] = 0
  sum_of w (x ∷ xs) = w x + sum_of w xs

  pub sum_of-append : (w : A → ℕ) (xs ys : List A) → sum_of w (xs ++ ys) ≡ sum_of w xs + sum_of w ys
  sum_of-append w [] ys = omega arith
  sum_of-append w (x ∷ xs) ys = omega (arith, sum_of-append w xs ys)

  pub sum_of-one_if : (p : A → Bool) (xs : List A) → sum_of (λ x. one_if (p x)) xs ≡ count p xs
  sum_of-one_if p [] = refl
  sum_of-one_if p (x ∷ xs) = omega (arith, sum_of-one_if p xs)

  pub All-append {κ} : (P : A → Type κ) (xs ys : List A) → All P xs → All P ys → All P (xs ++ ys)
  All-append P [] ys a b = b
  All-append P (x ∷ xs) ys a b = (a.0, All-append P xs ys a.1 b)

  pub count-take-le : (p : A → Bool) (n : ℕ) (xs : List A) → count p (take n xs) ≤ count p xs
  count-take-le p zero xs = omega arith
  count-take-le p (suc n) [] = omega arith
  count-take-le p (suc n) (x ∷ xs) = omega (arith, count-take-le p n xs)

  pub count-true : (xs : List A) → count (λ x. true) xs ≡ length xs
  count-true [] = refl
  count-true (x ∷ xs) = omega (arith, count-true xs)

  pub count-not : (p : A → Bool) (xs : List A) → count p xs + count (λ x. not (p x)) xs ≡ length xs
  count-not p [] = refl
  count-not p (x ∷ xs) = ground (arith, count-not p xs)

  pub sum_of-add :
      (v w u : A → ℕ) (xs : List A)
      → ((x : A) → v x + w x ≡ u x)
      → sum_of v xs + sum_of w xs ≡ sum_of u xs
  sum_of-add v w u [] h = refl
  sum_of-add v w u (x ∷ xs) h = omega (arith, h x, sum_of-add v w u xs h)

  -- Weights that differ by a constant where a test passes.
  pub sum_of-bump {κ} :
      (P : A → Type κ) (v w : A → ℕ) (p : A → Bool) (k : ℕ) (xs : List A)
      → All P xs
      → ((x : A) → P x → w x ≡ v x + (if p x then k else 0))
      → sum_of w xs ≡ sum_of v xs + k * count p xs
  sum_of-bump P v w p k [] a h = omega arith
  sum_of-bump P v w p k (x ∷ xs) a h = ground (arith, h x a.0, sum_of-bump P v w p k xs a.1 h)

  pub count-select :
      (p q : A → Bool) (xs : List A) → count p (select q xs) ≡ count (λ x. q x && p x) xs
  count-select p q [] = refl
  count-select p q (x ∷ xs) = ground (arith, count-select p q xs)

  pub All-map {κ ι} :
      (P : A → Type κ) (Q : A → Type ι) (xs : List A) → All P xs → ((x : A) → P x → Q x) → All Q xs
  All-map P Q [] a f = tt
  All-map P Q (x ∷ xs) a f = (f x a.0, All-map P Q xs a.1 f)

  pub sum_of-congr : (v w : A → ℕ) (xs : List A) → ((x : A) → v x ≡ w x) → sum_of v xs ≡ sum_of w xs
  sum_of-congr v w [] h = refl
  sum_of-congr v w (x ∷ xs) h = omega (arith, h x, sum_of-congr v w xs h)

  pub sum_of-zero : (xs : List A) → sum_of (λ x. 0) xs ≡ 0
  sum_of-zero [] = refl
  sum_of-zero (x ∷ xs) = omega (arith, sum_of-zero xs)

pub length-map {ℓ κ} :
    {A : Type ℓ} {B : Type κ} (f : A → B) (xs : List A) → length (map f xs) ≡ length xs
length-map f [] = refl
length-map f (x ∷ xs) = omega (arith, length-map f xs)
