-- ===== src/Slurper/Laws.antt =====
-- Populate ends, and whatever happens the provider holds the persons that were read.
use ppl_me.Common.{
  ℕ, zero, suc, ◌<◌, ◌≤◌, ◌≡◌, ◌≢◌, refl, subst, Bool, true, false, Option, some, none, List, [],
  ◌∷◌, arith, if◌then◌else◌, Bool-cases, Option-cases, inl, inr,
}
use ppl_me.Core.{Person}
use ppl_me.Repository.{PplRepository, add_each}
use ppl_me.Slurper.{
  StreamOps, Line, Error, no_id, on_line, ended, failed, parsed, Populated, out_of_fuel, aborted,
  populated, on_read, is_char, read_longitude, read_latitude, read_dob, read_line, populate,
}

-- Documented of streams: readers put nothing back, and getline takes at least one character
-- whenever it succeeds.
pub record StreamLaws (S U D F : Type 0) (so : StreamOps S U D F) : Type 0 where
  pub remaining : S → ℕ
  pub getline_takes :
      (s : S) (text : Prim.Native.String.String)
      → (so.getline_comma s).1 ≡ some text
      → remaining (so.getline_comma s).0 < remaining s
  pub getline_le : (s : S) → remaining (so.getline_comma s).0 ≤ remaining s
  pub read_date_le : (s : S) → remaining (so.read_date s).0 ≤ remaining s
  pub read_float_le : (s : S) → remaining (so.read_float s).0 ≤ remaining s
  pub get_le : (s : S) → remaining (so.get s).0 ≤ remaining s

module _ {S U D F M : Type 0} (so : StreamOps S U D F) (laws : StreamLaws S U D F so)
    (repo : PplRepository M (Person U D F)) where
  -- A person that was read leaves less than `n`.
  Less : ℕ → S → Line U D F → Type 0
  Less n s ended = Unit {0}
  Less n s (failed what) = Unit {0}
  Less n s (parsed p) = laws.remaining s < n

  Shrinks : ℕ → S × Line U D F → Type 0
  Shrinks n x = Less n x.0 x.1

  failed-Shrinks : (n : ℕ) (s : S) (what : Error) → Shrinks n (s, failed what)
  unfolding Shrinks Less
  failed-Shrinks n s what = tt

  ended-Shrinks : (n : ℕ) (s : S) (b : Bool) → Shrinks n (s, if b then ended else failed no_id)
  unfolding Shrinks Less
  ended-Shrinks n s true = tt
  ended-Shrinks n s false = tt

  parsed-Shrinks :
      (n : ℕ) (s : S) (p : Person U D F) → laws.remaining s < n → Shrinks n (s, parsed p)
  unfolding Shrinks Less
  parsed-Shrinks n s p h = h

  Shrinks-parsed :
      (n : ℕ) (x : S × Line U D F) (p : Person U D F)
      → x.1 ≡ parsed p
      → Shrinks n x
      → laws.remaining x.0 < n
  unfolding Shrinks Less
  Shrinks-parsed n x p e h = subst (λ l. Less n x.0 l) e h

  on_read-Shrinks :
      {A : Type 0} (n : ℕ) (o : Option A) (x : S × Line U D F) (k : A → S × Line U D F)
      → Shrinks n x
      → ((a : A) → o ≡ some a → Shrinks n (k a))
      → Shrinks n (on_read o x k)
  on_read-Shrinks n none x k h f = h
  on_read-Shrinks n (some a) x k h f = f a refl

  if-Shrinks :
      (n : ℕ) (b : Bool) (x y : S × Line U D F)
      → Shrinks n x
      → Shrinks n y
      → Shrinks n (if b then x else y)
  if-Shrinks n true x y h k = h
  if-Shrinks n false x y h k = k

  read_longitude-Shrinks :
      (n : ℕ) (id : U) (name : Prim.Native.String.String) (dob : D) (lat : F) (s : S)
      → laws.remaining s < n
      → Shrinks n (read_longitude so repo id name dob lat s)
  unfolding read_longitude
  read_longitude-Shrinks n id name dob lat s h =
      on_read-Shrinks n (so.read_float s).1 _ _ (failed-Shrinks n _ _) (λ a e.
        if-Shrinks n (is_char 10 (so.get (so.read_float s).0).1) _ _
          (parsed-Shrinks n (so.get (so.read_float s).0).0 _
            (omega (arith, laws.read_float_le s, laws.get_le (so.read_float s).0)))
          (failed-Shrinks n _ _))

  read_latitude-Shrinks :
      (n : ℕ) (id : U) (name : Prim.Native.String.String) (dob : D) (s : S)
      → laws.remaining s < n
      → Shrinks n (read_latitude so repo id name dob s)
  unfolding read_latitude
  read_latitude-Shrinks n id name dob s h =
      on_read-Shrinks n (so.read_float s).1 _ _ (failed-Shrinks n _ _) (λ a e.
        if-Shrinks n (is_char 44 (so.get (so.read_float s).0).1) _ _
          (read_longitude-Shrinks n id name dob a (so.get (so.read_float s).0).0
            (omega (arith, laws.read_float_le s, laws.get_le (so.read_float s).0)))
          (failed-Shrinks n _ _))

  read_dob-Shrinks :
      (n : ℕ) (id : U) (name : Prim.Native.String.String) (s : S)
      → laws.remaining s < n
      → Shrinks n (read_dob so repo id name s)
  unfolding read_dob
  read_dob-Shrinks n id name s h =
      on_read-Shrinks n (so.read_date s).1 _ _ (failed-Shrinks n _ _) (λ a e.
        if-Shrinks n (is_char 44 (so.get (so.read_date s).0).1) _ _
          (read_latitude-Shrinks n id name a (so.get (so.read_date s).0).0
            (omega (arith, laws.read_date_le s, laws.get_le (so.read_date s).0)))
          (failed-Shrinks n _ _))

  -- A round that reads a person takes something from the stream.
  read_line-Shrinks : (s : S) → Shrinks (laws.remaining s) (read_line so repo s)
  unfolding read_line
  read_line-Shrinks s =
      on_read-Shrinks (laws.remaining s) (so.getline_comma s).1 _ _
        (ended-Shrinks _ _ (so.is_eof (so.getline_comma s).0))
        (λ text e.
          on_read-Shrinks (laws.remaining s) (so.uuid_of_string text) _ _ (failed-Shrinks _ _ _)
            (λ id e'.
              on_read-Shrinks (laws.remaining s) (so.getline_comma (so.getline_comma s).0).1 _ _
                (failed-Shrinks _ _ _)
                (λ name e''.
                  read_dob-Shrinks (laws.remaining s) id name
                    (so.getline_comma (so.getline_comma s).0).0
                    (omega (
                      arith,
                      laws.getline_takes s text e,
                      laws.getline_le (so.getline_comma s).0,
                    )))))

  on_line_ends :
      (l : Line U D F) (m : M) (b : Bool) (next_round : M → Populated M)
      → ((p : Person U D F) → l ≡ parsed p → (m' : M) → next_round m' ≢ out_of_fuel)
      → on_line so repo l m b next_round ≢ out_of_fuel
  unfolding on_line
  on_line_ends ended m b k h = λ e. cc
  on_line_ends (failed what) m b k h = λ e. cc
  on_line_ends (parsed p) m b k h = on_added (repo.add_person m p)
    where
      on_added : (o : Option (M)) → on_read o aborted k ≢ out_of_fuel
      on_added none = λ e. cc
      on_added (some m') = h p refl m'

  -- For a stream whose readers put nothing back and whose getline takes something when it
  -- succeeds, Populate ends within as many rounds as the stream has characters left, and one.
  pub populate_ends :
      (fuel : ℕ) (s : S) (m : M) → laws.remaining s < fuel → populate so repo fuel s m ≢ out_of_fuel
  unfolding populate
  populate_ends zero s m h = absurd (omega arith)
  populate_ends (suc fuel) s m h = elim (Bool-cases (so.is_good s)) [
    | inr bad ↦ rw bad (λ e. cc)
    | inl good ↦ rw good (
        on_line_ends (read_line so repo s).1 m _ _ (λ p e m'.
          populate_ends fuel (read_line so repo s).0 m'
            (omega (arith, Shrinks-parsed _ (read_line so repo s) p e (read_line-Shrinks s)))))
  ]

  on_line-add_each :
      (l : Line U D F) (m m' : M) (b ok : Bool) (next_round : M → Populated M)
      → ((m1 : M)
          → next_round m1 ≡ populated m' ok
          → (ps : List (Person U D F)) × (add_each repo m1 ps ≡ some m'))
      → on_line so repo l m b next_round ≡ populated m' ok
      → (ps : List (Person U D F)) × (add_each repo m ps ≡ some m')
  unfolding on_line add_each
  on_line-add_each ended m m' b ok k h e = ([], cc)
  on_line-add_each (failed what) m m' b ok k h e = ([], cc)
  on_line-add_each (parsed p) m m' b ok k h e = elim (Option-cases (repo.add_person m p)) [
    | inl n ↦ absurd (refused n)
    | inr (m1, a) ↦ (p ∷ (h m1 (taken m1 a)).0, rw a (h m1 (taken m1 a)).1)
  ]
    where
      refused : repo.add_person m p ≡ none → ⊥
      refused n = let e' : aborted ≡ populated m' ok = rw n at e in cc

      taken : (m1 : M) → repo.add_person m p ≡ some m1 → k m1 ≡ populated m' ok
      taken m1 a = rw a at e

  -- When Populate returns, with or without success, the provider is the one it got with some
  -- persons added to it by AddPerson one after the other.
  pub populate-add_each :
      (fuel : ℕ) (s : S) (m m' : M) (ok : Bool)
      → populate so repo fuel s m ≡ populated m' ok
      → (ps : List (Person U D F)) × (add_each repo m ps ≡ some m')
  unfolding populate add_each
  populate-add_each zero s m m' ok e = absurd (cc)
  populate-add_each (suc fuel) s m m' ok e = elim (Bool-cases (so.is_good s)) [
    | inr bad ↦ ([], over (rw bad at e))
    | inl good ↦
        on_line-add_each (read_line so repo s).1 m m' _ ok _
          (λ m1 e'. populate-add_each fuel (read_line so repo s).0 m1 m' ok e') (rw good at e)
  ]
    where
      over : populated m (so.is_eof s) ≡ populated m' ok → some m ≡ some m'
      over h = cc
