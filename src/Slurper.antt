-- ===== src/Slurper.antt =====
-- ppl_slurper.cc: reading people from a CSV file into a repository. The stream, with the readers of
-- the standard library and boost, is a parameter.
pub mod Laws
use Prim.Native.String.{String}
use ppl_me.Common.{
  ℕ, zero, suc, Bool, true, false, not, ◌&&◌, Option, some, none, ◌==◌, if◌then◌else◌,
}
use ppl_me.Core.{Person, geo_position}
use ppl_me.Repository.{PplRepository}

-- Each reader returns the stream after it; `none` is a stream that has failed, or the end for get().
pub record StreamOps (S U D F : Type 0) : Type 0 where
  -- operator bool and eof()
  pub is_good : S → Bool
  pub is_eof : S → Bool
  -- std::getline up to the next ','
  pub getline_comma : S → S × Option String
  pub read_date : S → S × Option D
  pub read_float : S → S × Option F
  pub get : S → S × Option ℕ
  -- boost::uuids::string_generator; `none` is std::runtime_error
  pub uuid_of_string : String → Option U

-- The errors that Populate logs.
pub data Error : Type 0 where
  no_id bad_id no_name no_date no_comma_after_date no_latitude no_comma_after_latitude no_longitude
        trailing_stuff :
      Error

-- What one round of the loop reads: nothing as the file is over, an error, or a person.
pub data Line (U D F : Type 0) : Type 0 where
  ended : Line U D F
  failed : Error → Line U D F
  parsed : Person U D F → Line U D F

-- What Populate does: a CHECK of AddPerson fails, or it returns; or the model's fuel ran out.
pub data Populated (M : Type 0) : Type 0 where
  out_of_fuel aborted : Populated M
  populated : M → Bool → Populated M

-- What follows a reader that failed or succeeded.
abbrev pub on_read : {A B : Type 0} → Option A → B → (A → B) → B
on_read none x k = x
on_read (some a) x k = k a

-- get() == c
abbrev pub is_char : ℕ → Option ℕ → Bool
is_char c none = false
is_char c (some d) = d == c

module _ {S U D F M : Type 0} (so : StreamOps S U D F) (repo : PplRepository M (Person U D F)) where
  open so use {is_good, is_eof, getline_comma, read_date, read_float, get, uuid_of_string}

  -- The rest of a line from the longitude on.
  unfoldable pub read_longitude : U → String → D → F → S → S × Line U D F
  read_longitude id name dob latitude s =
      let (s1, longitude) = read_float s in
      let (s2, newline) = get s1 in
      on_read longitude (s1, failed no_longitude)
        (λ long.
          if is_char 10 newline
          then (
            s2,
            parsed (record {
              id = record { value = id };
              name = name;
              date_of_birth = dob;
              location_of_home = geo_position latitude long;
            }),
          )
          else (s2, failed trailing_stuff))

  -- The rest of a line from the latitude on.
  unfoldable pub read_latitude : U → String → D → S → S × Line U D F
  unfolding read_longitude
  read_latitude id name dob s =
      let (s1, latitude) = read_float s in
      let (s2, comma) = get s1 in
      on_read latitude (s1, failed no_latitude)
        (λ lat.
          if is_char 44 comma
          then read_longitude id name dob lat s2
          else (s2, failed no_comma_after_latitude))

  -- The rest of a line from the date of birth on.
  unfoldable pub read_dob : U → String → S → S × Line U D F
  unfolding read_latitude
  read_dob id name s =
      let (s1, date) = read_date s in
      let (s2, comma) = get s1 in
      on_read date (s1, failed no_date)
        (λ dob.
          if is_char 44 comma
          then read_latitude id name dob s2
          else (s2, failed no_comma_after_date))

  -- The body of the loop, up to AddPerson.
  unfoldable pub read_line : S → S × Line U D F
  unfolding read_dob
  read_line s =
      let (s1, id_string) = getline_comma s in
      let (s2, name_string) = getline_comma s1 in
      on_read id_string (s1, if is_eof s1 then ended else failed no_id)
        (λ text.
          on_read (uuid_of_string text) (s1, failed bad_id)
            (λ id. on_read name_string (s2, failed no_name) (λ name. read_dob id name s2)))

  -- The loop after a line: AddPerson and the next round, or its end.
  unfoldable pub on_line : Line U D F → M → Bool → (M → Populated M) → Populated M
  on_line ended m at_eof next_round = populated m at_eof
  on_line (failed what) m at_eof next_round = populated m false
  on_line (parsed person) m at_eof next_round =
      on_read (repo.add_person m person) aborted next_round

  -- Populate from the loop on.
  unfoldable pub populate : ℕ → S → M → Populated M
  unfolding read_line on_line
  populate zero s m = out_of_fuel
  populate (suc fuel) s m =
      if is_good s
      then on_line (read_line s).1 m (is_eof (read_line s).0) (populate fuel (read_line s).0)
      else populated m (is_eof s)
