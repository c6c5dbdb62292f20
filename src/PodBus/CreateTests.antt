-- ===== src/PodBus/CreateTests.antt =====
-- A bounded bus created and connected to.
use crossbar.Base.{ℕ, ◌≡◌, refl, true, none, some, List, [], ◌∷◌, All, is_power_of_two}
use crossbar.Error.{ok}
use crossbar.Layout.{is_valid_segment_name, contains, contains_dots}
use crossbar.PodBus.Create.{
  PodType, BusCalls, BusOwner, BusFile, create_inner, check_alignment, validate_name,
}
use crossbar.PodBus.Started.{started}
use crossbar.PodBus.History.{Holds}
use crossbar.PodBus.Lossless.{Lossless}
use crossbar.PodBus.Claims.{Join, AtStart}
use crossbar.PodBus.Joined.{join_all, join_results, Waiting, create_inner-join_all}

abbrev word : PodType
word = record { size = 8; align = 8 }

abbrev half : PodType
half = record { size = 4; align = 4 }

-- `b`
abbrev name : List ℕ
name = 98 ∷ []

abbrev granted : BusCalls
granted = record {
  lock_file = ok tt;
  exclusive = true;
  removed = true;
  file = ok tt;
  set_len = ok tt;
  mmap = ok tt;
  pid = 3;
  now = some 1000;
  created_ino = some 9;
  shared = true;
}

abbrev owner : BusOwner
owner = record { created_ino = some 9 }

abbrev file : BusFile
file = started 3 1000 word 4 (some 1)

created : create_inner granted word name 4 (some 1) none ≡ some (ok owner, some file)
unfolding create_inner validate_name check_alignment is_valid_segment_name contains contains_dots
    is_power_of_two
created = refl

abbrev joins : List Join
joins =
    record { type = word; now = some 2000; clock = λ i. none; pid = 5 }
    ∷ record { type = half; now = some 2000; clock = λ i. none; pid = 6 }
    ∷ []

create_inner-join_all_example :
    let b = (join_all joins file).bus in
    Waiting 4 b
    × All (AtStart 4 (some 1) b) (join_results joins file)
    × Holds (λ s w. 7) b
    × Lossless (λ pid. true) 3 b
create_inner-join_all_example =
    create_inner-join_all (λ s w. 7) (λ pid. true) 3 joins granted word name 4 (some 1) none owner
      file created
