-- ===== src/MyFirst/Repository.antt =====
-- My1stMatchingPplProvider as a repository.
use ppl_me.Core.{Person}
use ppl_me.Core.Outside.{FloatOps, DateOps}
use ppl_me.Repository.{PplRepository}
use ppl_me.MyFirst.{MyFirstMatchingPplProvider, add_person}

abbrev pub my_first_repository :
    {U D F : Type 0}
    → FloatOps F
    → DateOps D
    → PplRepository (MyFirstMatchingPplProvider U D F) (Person U D F)
my_first_repository fl dt = record { add_person = add_person fl dt }
