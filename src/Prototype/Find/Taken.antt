-- ===== src/Prototype/Find/Taken.antt =====
-- What taking an element out of a list does to its sums and its length.
use ppl_me.Common.{
  ℕ, zero, suc, ◌+◌, ◌≡◌, ap, sym, subst, ◌∙◌, Option, some, none, List, [], ◌∷◌, All, arith,
  sum_of, length, Option-cases, inl, inr,
}
use ppl_me.Prototype.Find.{take_at}

take_at-suc :
    {C : Type 0} (n : ℕ) (d : C) (ds : List C) (c : C) (rest : List C)
    → take_at (suc n) (d ∷ ds) ≡ some (c, rest)
    → (others : List C) × (take_at n ds ≡ some (c, others)) × (rest ≡ d ∷ others)
take_at-suc {C} n d ds c rest e = elim (Option-cases (take_at n ds)) [
  | inl h ↦ let e' : ◌≡◌ {A = Option (C × List C)} none (some (c, rest)) = rw h at e in cc
  | inr ((x, xs), h) ↦
      let e' : ◌≡◌ {A = Option (C × List C)} (some (x, d ∷ xs)) (some (c, rest)) = rw h at e in
      (xs, (h ∙ cc), cc)
]

-- An element that was taken, and the others, are all there was.
pub sum_of-take_at :
    {C : Type 0} (w : C → ℕ) (n : ℕ) (cs : List C) (c : C) (rest : List C)
    → take_at n cs ≡ some (c, rest)
    → sum_of w cs ≡ w c + sum_of w rest
sum_of-take_at w n [] c rest e = cc
sum_of-take_at w zero (d ∷ ds) c rest e = ap (sum_of w) (let h : d ∷ ds ≡ c ∷ rest = cc in h)
sum_of-take_at w (suc n) (d ∷ ds) c rest e =
    let (others, e', same) = take_at-suc n d ds c rest e in
    omega (arith, sum_of-take_at w n ds c others e', ap (sum_of w) same)

pub length-take_at :
    {C : Type 0} (n : ℕ) (cs : List C) (c : C) (rest : List C)
    → take_at n cs ≡ some (c, rest)
    → length cs ≡ suc (length rest)
length-take_at n [] c rest e = cc
length-take_at zero (d ∷ ds) c rest e = ap length (let h : d ∷ ds ≡ c ∷ rest = cc in h)
length-take_at (suc n) (d ∷ ds) c rest e =
    let (others, e', same) = take_at-suc n d ds c rest e in
    omega (arith, length-take_at n ds c others e', ap length same)

pub All-take_at :
    {C : Type 0} (P : C → Type 0) (n : ℕ) (cs : List C) (c : C) (rest : List C)
    → take_at n cs ≡ some (c, rest)
    → All P cs
    → P c × All P rest
All-take_at P n [] c rest e all = cc
All-take_at P zero (d ∷ ds) c rest e all = subst (All P) (let h : d ∷ ds ≡ c ∷ rest = cc in h) all
All-take_at P (suc n) (d ∷ ds) c rest e all =
    let (others, e', same) = take_at-suc n d ds c rest e in
    let (this, those) = All-take_at P n ds c others e' all.1 in
    (this, subst (All P) (sym same) (all.0, those))
