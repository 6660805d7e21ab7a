-- ===== src/Pplmed/Daemon/Serves.antt =====
-- What valid flags are good for.
use ppl_me.Common.{
  ℕ, zero, suc, ◌+◌, ◌≤◌, ◌≡◌, refl, Bool, true, ◌&&◌, some, none, arith, Option-cases, inl, inr,
}
use ppl_me.Common.Int.{ℤ, pos, negsuc, pos_part, ltb_ℤ, leb_ℤ}
use ppl_me.Core.{geo_position, is_valid_position}
use ppl_me.Core.Outside.{FloatOps, FloatLaws, DateOps, DateLaws}
use ppl_me.Pplme.Provider.{Impl, ThreadOps, create, chosen_concurrency}
use ppl_me.Pplme.Grid.{calculate_size_for_ppl_grid}
use ppl_me.Pplme.Provider.Invariant.{IsValid, create-IsValid, add_person-IsValid, add_person_total}
use ppl_me.Slurper.{StreamOps}
use ppl_me.Net.Server.{SingleShotServer, StartOps, start, no_server}
use ppl_me.Net.Server.Life.{IsServing, start-IsServing}
use ppl_me.Pplmed.Daemon.{
  Flags, are_valid_flags, port_cast, TestData, test_person, create_server, went, populate_test_db,
  go, main,
}

-- What a conjunction in the shape of the validators gives.
valid_parts :
    (a a' b c c' d e : Bool)
    → (a && a') && b && (c && c') && d && e ≡ true
    → (a ≡ true) × (a' ≡ true) × (b ≡ true) × (c ≡ true) × (c' ≡ true) × (d ≡ true) × (e ≡ true)
valid_parts a a' b c c' d e h = (
  ground arith,
  ground arith,
  ground arith,
  ground arith,
  ground arith,
  ground arith,
  ground arith,
)

positive : (z : ℤ) → ltb_ℤ (pos 0) z ≡ true → (n : ℕ) × (z ≡ pos n) × (1 ≤ n)
positive (pos n) h = (n, refl, ground arith)
positive (negsuc n) h = absurd (ground arith)

not_negative : (z : ℤ) → leb_ℤ (pos 0) z ≡ true → (n : ℕ) × (z ≡ pos n)
not_negative (pos n) h = (n, refl)
not_negative (negsuc n) h = absurd (ground arith)

-- The numbers behind valid flags.
pub record Numbers {S : Type 0} (flags : Flags S) : Type 0 where
  pub port : ℕ
  pub size : ℕ
  pub resolution : ℕ
  pub people : ℕ
  pub difference : ℕ
  pub port_is : flags.port ≡ pos port
  pub size_is : flags.test_database_size ≡ pos size
  pub resolution_is : flags.grid_resolution ≡ pos resolution
  pub people_is : flags.max_ppl ≡ pos people
  pub difference_is : flags.max_age_difference ≡ pos difference
  pub port_range : (1 ≤ port) × (port ≤ 65535)
  pub resolution_range : (1 ≤ resolution) × (resolution ≤ 100)
  pub some_people : 1 ≤ people

at_most : (z : ℤ) (n m : ℕ) → z ≡ pos n → leb_ℤ z (pos m) ≡ true → n ≤ m
at_most z n m e h = le_pos n m (rw e at h)
  where
    le_pos : (n m : ℕ) → leb_ℤ (pos n) (pos m) ≡ true → n ≤ m
    le_pos n m h = ground arith

pub flag-Numbers : {S : Type 0} (flags : Flags S) → are_valid_flags flags ≡ true → Numbers flags
unfolding are_valid_flags
flag-Numbers flags valid =
    let (low, high, size_ok, coarse, fine, some_ok, difference_ok) =
      valid_parts (ltb_ℤ (pos 0) flags.port) (leb_ℤ flags.port (pos 65535))
        (leb_ℤ (pos 0) flags.test_database_size) (ltb_ℤ (pos 0) flags.grid_resolution)
        (leb_ℤ flags.grid_resolution (pos 100)) (ltb_ℤ (pos 0) flags.max_ppl)
        (leb_ℤ (pos 0) flags.max_age_difference) valid in
    let (port, port_is, port_low) = positive flags.port low in
    let (size, size_is) = not_negative flags.test_database_size size_ok in
    let (resolution, resolution_is, resolution_low) = positive flags.grid_resolution coarse in
    let (people, people_is, people_low) = positive flags.max_ppl some_ok in
    let (difference, difference_is) = not_negative flags.max_age_difference difference_ok in
    record {
      port = port;
      size = size;
      resolution = resolution;
      people = people;
      difference = difference;
      port_is = port_is;
      size_is = size_is;
      resolution_is = resolution_is;
      people_is = people_is;
      difference_is = difference_is;
      port_range = (port_low, at_most flags.port port 65535 port_is high);
      resolution_range =
          (resolution_low, at_most flags.grid_resolution resolution 100 resolution_is fine);
      some_people = people_low;
    }

checked_port : (n : ℕ) → n ≤ 65535 → port_cast (pos n) ≡ some n
unfolding port_cast
checked_port n h = ground arith

created :
    {U D F : Type 0} (hardware : ThreadOps) (res difference people : ℕ)
    → hardware.pool_starts ≡ true
    → res ≤ 100
    → 1 ≤ people
    → (m : Impl U D F) × (create hardware res (pos difference) (pos people) none ≡ some m)
unfolding create chosen_concurrency calculate_size_for_ppl_grid
created {U = U} {D = D} {F = F} hardware res difference people pool small some_ok =
    elim (Option-cases
      (create {U = U} {D = D} {F = F} hardware res (pos difference) (pos people) none)) [
        | inl bad ↦ absurd (ground arith)
        | inr made ↦ made
      ]

module _ (U : Type 0) {D F : Type 0} (fl : FloatOps F) (dt : DateOps D) (laws : DateLaws D dt) where
  -- A server that its constructor has made.
  pub record Made {S : Type 0} (hardware : ThreadOps) (flags : Flags S) : Type 0 where
    pub provider : Impl U D F
    pub port : ℕ
    pub made : create_server hardware flags ≡ some (provider, port)
    pub built :
        create hardware (pos_part flags.grid_resolution) flags.max_age_difference flags.max_ppl none
        ≡ some provider
    pub valid : IsValid fl dt laws provider
    pub port_is : flags.port ≡ pos port
    pub port_range : (1 ≤ port) × (port ≤ 65535)

  Made-of :
      {S : Type 0} (hardware : ThreadOps) (flags : Flags S) (port resolution people difference : ℕ)
      → hardware.pool_starts ≡ true
      → flags.port ≡ pos port
      → flags.grid_resolution ≡ pos resolution
      → flags.max_ppl ≡ pos people
      → flags.max_age_difference ≡ pos difference
      → (1 ≤ port) × (port ≤ 65535)
      → (1 ≤ resolution) × (resolution ≤ 100)
      → 1 ≤ people
      → Made hardware flags
  unfolding create_server
  Made-of hardware flags port resolution people difference pool port_is resolution_is people_is
        difference_is port_range range some_people =
      let (m, made) =
        created {U = U} {D = D} {F = F} hardware resolution difference people pool range.1
          some_people in
      record {
        provider = m;
        port = port;
        made =
            rw
              (
                resolution_is,
                difference_is,
                people_is,
                made,
                port_is,
                checked_port port port_range.1,
              )
              refl;
        built = rw (resolution_is, difference_is, people_is) made;
        valid =
            create-IsValid fl dt laws hardware resolution (pos difference) (pos people) none m
              range.0 made;
        port_is = port_is;
        port_range = port_range;
      }

  -- For flags that are valid.
  pub create_server-Made :
      {S : Type 0} (hardware : ThreadOps) (flags : Flags S)
      → are_valid_flags flags ≡ true
      → hardware.pool_starts ≡ true
      → Made hardware flags
  create_server-Made hardware flags valid pool =
      let n = flag-Numbers flags valid in
      Made-of hardware flags n.port n.resolution n.people n.difference pool n.port_is
        n.resolution_is n.people_is n.difference_is n.port_range n.resolution_range n.some_people

  module _ (fls : FloatLaws F fl) (test_data : TestData U D F)
      (in_range : (i : ℕ)
        → is_valid_position fl
            (geo_position (test_data.draw i).latitude (test_data.draw i).longitude)
          ≡ true)
      {S : Type 0} (so : StreamOps S U D F) (ops : StartOps) where
    -- The test data is added, whatever is drawn.
    pub populate_test_db_total :
        (left i : ℕ) (m : Impl U D F)
        → IsValid fl dt laws m
        → (m' : Impl U D F) × (populate_test_db so fl dt test_data ops left i m ≡ some m')
          × IsValid fl dt laws m'
    unfolding populate_test_db test_person
    populate_test_db_total zero i m v = (m, refl, v)
    populate_test_db_total (suc left) i m v =
        let (m1, added) =
          add_person_total fl dt laws fls m (test_person test_data i) v (in_range i) in
        let (m', rest, valid) =
          populate_test_db_total left (i + 1) m1
            (add_person-IsValid fl dt laws m m1 (test_person test_data i) v added) in
        (m', rw (added, rest) refl, valid)

    -- With flags that the validators accept, no data file, test persons drawn with valid
    -- positions, a pool that can start its threads, and a Start whose calls have no error, pplmed fails no CHECK and throws
    -- nothing up to where it waits for input: Go succeeds with a valid provider and a server
    -- that serves.
    pub main-serves :
        (hardware : ThreadOps) (fuel : ℕ) (flags : Flags S)
        → are_valid_flags flags ≡ true
        → hardware.pool_starts ≡ true
        → flags.ppldata ≡ none
        → (start ops no_server).1 ≡ true
        → (m : Impl U D F) × (server : SingleShotServer) × (main so fl dt test_data ops hardware
              fuel flags
            ≡ some (went m server true))
          × IsValid fl dt laws m
          × IsServing server
    unfolding main go
    main-serves hardware fuel flags valid pool no_file started =
        let server = create_server-Made hardware flags valid pool in
        let (m, populated, m_valid) =
          populate_test_db_total (pos_part flags.test_database_size) 0 server.provider
            server.valid in
        (
          m,
          (start ops no_server).0,
          rw (valid, server.made, no_file, populated, started) refl,
          m_valid,
          (start-IsServing ops).0 started,
        )
