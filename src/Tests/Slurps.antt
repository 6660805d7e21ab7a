-- ===== src/Tests/Slurps.antt =====
-- Examples about reading people from a stream of octets.
use Prim.Native.String.{String}
use ppl_me.Common.{
  ℕ, ◌<◌, ◌≤◌, ◌≡◌, ◌≢◌, refl, Bool, true, false, not, Option, some, none, List, [], ◌∷◌, length,
  arith, ◌==◌, if◌then◌else◌,
}
use ppl_me.Common.Int.{ℤ, pos}
use ppl_me.Core.{Person, geo_position}
use ppl_me.Pplme.Grid.{get_ppl_index_at}
use ppl_me.Pplme.Provider.{Impl, update_cell, add_person}
use ppl_me.Slurper.{StreamOps, out_of_fuel, populated, populate}
use ppl_me.Slurper.Laws.{StreamLaws, populate_ends}
use ppl_me.Pplme.Repository.{pplme_repository}
use ppl_me.Net.Server.{StartOps, start, no_server}
use ppl_me.Pplme.Grid.{calculate_size_for_ppl_grid}
use ppl_me.Pplme.Provider.{create, chosen_concurrency}
use ppl_me.Pplmed.Daemon.{
  Flags, are_valid_flags, TestData, create_server, port_cast, went, go, main,
}
use ppl_me.Tests.OnePerson.{all_start}
use ppl_me.Pplmed.Daemon.Sound.{IsSound, main-IsSound}
use ppl_me.Tests.Platform.{dates, dates_laws, Uuid, uuids, floats}

abbrev tail : List ℕ → List ℕ
tail [] = []
tail (x ∷ xs) = xs

abbrev after_comma : List ℕ → List ℕ
after_comma [] = []
after_comma (x ∷ xs) = if x == 44 then xs else after_comma xs

abbrev line_text : List ℕ → Option String
line_text [] = none
line_text (x ∷ xs) = some "text"

abbrev head : List ℕ → Option ℕ
head [] = none
head (x ∷ xs) = some x

abbrev whole : Option ℕ → Option ℤ
whole none = none
whole (some n) = some (pos n)

abbrev is_over : List ℕ → Bool
is_over [] = true
is_over (x ∷ xs) = false

-- Dates and numbers are one octet each.
abbrev stream : StreamOps (List ℕ) Uuid ℕ ℤ
stream = record {
  is_good = λ l. not (is_over l);
  is_eof = is_over;
  getline_comma = λ l. (after_comma l, line_text l);
  read_date = λ l. (tail l, head l);
  read_float = λ l. (tail l, whole (head l));
  get = λ l. (tail l, head l);
  uuid_of_string = λ text. some (uuids.of_octets (7 ∷ []));
}

tail_le : (l : List ℕ) → length (tail l) ≤ length l
tail_le [] = omega arith
tail_le (x ∷ xs) = omega arith

after_comma_le : (l : List ℕ) → length (after_comma l) ≤ length l
after_comma_le [] = omega arith
after_comma_le (x ∷ xs) = ground (arith, after_comma_le xs)

after_comma_lt :
    (l : List ℕ) (text : String) → line_text l ≡ some text → length (after_comma l) < length l
after_comma_lt [] text e = cc
after_comma_lt (x ∷ xs) text e = ground (arith, after_comma_le xs)

stream_laws : StreamLaws (List ℕ) Uuid ℕ ℤ stream
stream_laws = record {
  remaining = length;
  getline_takes = after_comma_lt;
  getline_le = after_comma_le;
  read_date_le = tail_le;
  read_float_le = tail_le;
  get_le = tail_le;
}

abbrev empty_grid : Impl Uuid ℕ ℤ
empty_grid = record {
  resolution = 1;
  max_age_difference = pos 10;
  max_ppl = 2;
  per_find_concurrency = 3;
  grid_size = 65884;
  ppl = λ i. [];
}

-- An id and a name, the date 5, and the home 10, 20.
abbrev one_line : List ℕ
one_line = 1 ∷ 44 ∷ 2 ∷ 44 ∷ 5 ∷ 44 ∷ 10 ∷ 44 ∷ 20 ∷ 10 ∷ []

abbrev reader : Person Uuid ℕ ℤ
reader = record {
  id = record { value = uuids.of_octets (7 ∷ []) };
  name = "text";
  date_of_birth = 5;
  location_of_home = geo_position (pos 10) (pos 20);
}

abbrev with_reader : Impl Uuid ℕ ℤ
with_reader = record empty_grid {
  ppl = update_cell floats dates empty_grid.ppl 36300 (reader ∷ []);
}

has_read :
    populate stream (pplme_repository floats dates) 11 one_line empty_grid
    ≡ populated with_reader true
unfolding populate add_person get_ppl_index_at
has_read = refl

populate_ends_example :
    populate stream (pplme_repository floats dates) 11 one_line empty_grid ≢ out_of_fuel
unfolding stream_laws
populate_ends_example =
    populate_ends stream stream_laws (pplme_repository floats dates) 11 one_line empty_grid
      (omega arith)

abbrev nothing_drawn : TestData Uuid ℕ ℤ
nothing_drawn = record {
  today = 5;
  add_days = λ d n. d;
  to_string = λ n. "0";
  draw = λ i. record {
    uuid = uuids.of_octets (7 ∷ []);
    age = pos 0;
    latitude = pos 10;
    longitude = pos 20;
  };
}

abbrev starts : StartOps
starts = record { open_ok = true; bind_ok = true; listen_ok = true; thread_ok = true }

abbrev flags : Flags (List ℕ)
flags = record {
  port = pos 3333;
  test_database_size = pos 0;
  grid_resolution = pos 1;
  max_ppl = pos 2;
  max_age_difference = pos 10;
  ppldata = some one_line;
}

main-IsSound_example :
    (are_valid_flags flags ≡ true)
    × IsSound stream stream_laws floats dates dates_laws nothing_drawn starts
        (went with_reader (start starts no_server).0 true)
unfolding main are_valid_flags create_server port_cast create chosen_concurrency
    calculate_size_for_ppl_grid go populate add_person get_ppl_index_at start
main-IsSound_example =
    main-IsSound stream stream_laws floats dates dates_laws nothing_drawn starts (all_start 3) 11
      flags (went with_reader (start starts no_server).0 true) refl
