-- ===== src/Common/Bag.antt =====
-- Lists up to order: what is left of a list when only how many elements pass a test is asked.
use Prim.Native.Nat.{ℕ}
use mathlib.Core.Path.{◌≡◌, ap, sym, ◌∙◌}
use mathlib.Core.Bool.{Bool, true, ◌&&◌}
use mathlib.Core.List.{List}
use mathlib.Core.Quot
use mathlib.Core.Quot.{Quot, Quot-set}
use ppl_me.Common.Lists.{count, select, count-select}

abbrev pub SameCounts {ℓ} : {A : Type ℓ} → List A → List A → Type ℓ
SameCounts {A} xs ys = (t : A → Bool) → count t xs ≡ count t ys

abbrev pub Bag {ℓ} : Type ℓ → Type ℓ
Bag A = Quot (SameCounts {A = A})

abbrev pub bag {ℓ} : {A : Type ℓ} → List A → Bag A
bag = Quot.mk

module _ {ℓ} {A : Type ℓ} where
  -- How many elements pass a test, and how many there are.
  unfoldable pub passing : (A → Bool) → Bag A → ℕ
  passing t = Quot.lift (hlevel) (count t) λ xs ys h. h t

  abbrev pub size : Bag A → ℕ
  size = passing (λ x. true)

  -- The elements that pass a test.
  unfoldable pub filter : (A → Bool) → Bag A → Bag A
  filter p =
      Quot.lift Quot-set (λ xs. bag (select p xs))
        λ xs ys h.
          Quot.sound λ t. count-select t p xs ∙ h (λ x. p x && t x) ∙ sym (count-select t p ys)

  -- Equal bags have equal counts.
  pub bag_exact : (xs ys : List A) → bag xs ≡ bag ys → SameCounts xs ys
  unfolding passing
  bag_exact xs ys e t = ap (passing t) e

  pub bag_ext : (xs ys : List A) → SameCounts xs ys → bag xs ≡ bag ys
  bag_ext xs ys h = Quot.sound h
