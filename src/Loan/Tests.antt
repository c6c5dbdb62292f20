-- ===== src/Loan/Tests.antt =====
-- Data, and a structured value, on their way through a block.
use crossbar.Base.{ℕ, ◌≡◌, refl, true, some, List, [], ◌∷◌, arith, write_at, is_power_of_two}
use crossbar.Error.{ok}
use crossbar.Region.State.{data_capacity}
use crossbar.Region.Fixture.{blank}
use crossbar.Stream.Receive.{SlotRead}
use crossbar.Stream.History.{Holds}
use crossbar.Stream.Append.{Fresh}
use crossbar.Loan.Write.{Loan, set_data, set_bytes, write_structured, read_array, read_header}
use crossbar.Loan.Copy.{set_data_plain}
use crossbar.Loan.Structured.{structured_roundtrip}
use crossbar.Loan.Deliver.{deliver, caught_up, deliver_lem}

abbrev nothing : ℕ → SlotRead
nothing s = record { block_idx = 0; data_len = 0 }

abbrev content : List ℕ
content = 104 ∷ 105 ∷ 33 ∷ []

abbrev loan : Loan
loan = record { capacity = 56; len = 0; block_idx = 1; topic_idx = 0; single_publisher = true }

blank-Holds : Holds nothing 0 blank
unfolding is_power_of_two
blank-Holds = record {
  power = refl;
  depth = omega arith;
  blocks = omega arith;
  room = omega arith;
  recent = λ s pos below near. absurd (omega arith);
  apart = λ s t pos less below near. absurd (omega arith);
  unused = λ s above within. refl;
}

content-Fresh : Fresh nothing 0 (record { block_idx = 1; data_len = 3 }) blank
unfolding data_capacity
content-Fresh = record {
  block = omega arith;
  len = omega arith;
  unheld = λ s pos below near. absurd (omega arith);
}

deliver_lem_example : deliver 4096 true content loan (caught_up 0 0 blank) blank ≡ some content
deliver_lem_example =
    deliver_lem nothing 4096 true content loan 0 blank blank-Holds content-Fresh (omega arith)
      (omega arith) (omega arith)

set_data_plain_example :
    set_data 4096 content loan blank
    ≡ (ok tt, record loan { len = 3 }, set_bytes 1 (write_at (λ i. 0) 0 content) blank)
set_data_plain_example = set_data_plain 4096 content loan blank (omega arith)

-- A header of four bytes and two entries of two bytes.
abbrev header : List ℕ
header = 1 ∷ 2 ∷ 3 ∷ 4 ∷ []

abbrev entries : List (List ℕ)
entries = (5 ∷ 6 ∷ []) ∷ (7 ∷ 8 ∷ []) ∷ []

structured_roundtrip_example :
    let (written, r') = write_structured 56 1 2 header entries blank in
    (written ≡ ok 12)
    × (read_array 4096 4 2 2 (record { block_idx = 1; len = 12 }) r' ≡ some entries)
    × (read_header 4096 4 4 (record { block_idx = 1; len = 12 }) r' ≡ some header)
structured_roundtrip_example =
    structured_roundtrip 4096 56 1 2 2 4 header entries blank (refl, (refl, tt)) (omega arith)
      (omega arith) (omega arith) refl refl
