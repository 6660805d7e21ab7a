-- ===== src/Pplme/Find/Sets.antt =====
-- Lists of locators that stand for sets: membership, removal and sums over them.
use ppl_me.Common.{
  ℕ, ◌+◌, ◌≤◌, ◌≡◌, ap, sym, subst, true, List, [], ◌∷◌, All, length, arith, one_if, sum_of,
  Bool-cases, inl, inr,
}
use ppl_me.Pplme.Grid.{CellLocator, locator_eq}
use ppl_me.Pplme.Find.{contains, erase}

pub locator_eq-eq : (c d : CellLocator) → locator_eq c d ≡ true → c ≡ d
locator_eq-eq c d h =
    let lat : c.latitude_index ≡ d.latitude_index = ground arith in
    let long : c.longitude_index ≡ d.longitude_index = ground arith in
    λ i. record { latitude_index = lat i; longitude_index = long i }

pub locator_eq_self : (c : CellLocator) → locator_eq c c ≡ true
locator_eq_self c = ground arith

-- How often a cell occurs.
abbrev pub occurs : CellLocator → List CellLocator → ℕ
occurs c = sum_of (λ d. one_if (locator_eq c d))

pub contains-occurs :
    (c : CellLocator) (xs : List CellLocator) → contains c xs ≡ true → 1 ≤ occurs c xs
contains-occurs c [] h = absurd (ground arith)
contains-occurs c (d ∷ ds) h = ground (arith, contains-occurs c ds)

pub occurs-contains :
    (c : CellLocator) (xs : List CellLocator) → 1 ≤ occurs c xs → contains c xs ≡ true
occurs-contains c [] h = absurd (omega arith)
occurs-contains c (d ∷ ds) h = ground (arith, occurs-contains c ds)

-- Taking a member out takes its weight off the sum.
pub sum_of-erase :
    (w : CellLocator → ℕ) (c : CellLocator) (xs : List CellLocator)
    → contains c xs ≡ true
    → sum_of w xs ≡ w c + sum_of w (erase c xs)
sum_of-erase w c [] h = absurd (ground arith)
sum_of-erase w c (d ∷ ds) h = elim (Bool-cases (locator_eq c d)) [
  | inl e ↦ rw e (ap (λ x. w x + sum_of w ds) (sym (locator_eq-eq c d e)))
  | inr e ↦ rw e (omega (arith, sum_of-erase w c ds (ground arith)))
]

pub All-erase :
    (P : CellLocator → Type 0) (c : CellLocator) (xs : List CellLocator)
    → All P xs
    → All P (erase c xs)
All-erase P c [] a = tt
All-erase P c (d ∷ ds) a = ground (arith, All-erase P c ds a.1)

pub All-contains :
    (P : CellLocator → Type 0) (c : CellLocator) (xs : List CellLocator)
    → All P xs
    → contains c xs ≡ true
    → P c
All-contains P c [] a h = absurd (ground arith)
All-contains P c (d ∷ ds) a h = elim (Bool-cases (locator_eq c d)) [
  | inl e ↦ subst P (sym (locator_eq-eq c d e)) a.0
  | inr e ↦ All-contains P c ds a.1 (ground arith)
]

pub length-erase : (c : CellLocator) (xs : List CellLocator) → length (erase c xs) ≤ length xs
length-erase c [] = omega arith
length-erase c (d ∷ ds) = ground (arith, length-erase c ds)
