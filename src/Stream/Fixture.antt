-- ===== src/Stream/Fixture.antt =====
-- An empty history on the small region, and a block that is not in it.
use crossbar.Base.{ℕ, refl, arith, is_power_of_two}
use crossbar.Region.State.{data_capacity}
use crossbar.Region.Fixture.{blank}
use crossbar.Stream.Receive.{SlotRead}
use crossbar.Stream.History.{Holds}
use crossbar.Stream.Append.{Fresh}

abbrev pub nothing : ℕ → SlotRead
nothing s = record { block_idx = 0; data_len = 0 }

abbrev pub three_bytes : SlotRead
three_bytes = record { block_idx = 1; data_len = 3 }

pub blank-Holds : Holds nothing 0 blank
unfolding is_power_of_two
blank-Holds = record {
  power = refl;
  depth = omega arith;
  blocks = omega arith;
  room = omega arith;
  recent = λ s pos below near. absurd (omega arith);
  apart = λ s t pos less below near. absurd (omega arith);
  unused = λ s above within. refl;
}

pub three_bytes-Fresh : Fresh nothing 0 three_bytes blank
unfolding data_capacity
three_bytes-Fresh = record {
  block = omega arith;
  len = omega arith;
  unheld = λ s pos below near. absurd (omega arith);
}
