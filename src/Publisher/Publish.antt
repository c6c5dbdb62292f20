-- ===== src/Publisher/Publish.antt =====
-- Publishing in one call. A loan that an error leaves unpublished is dropped.
use crossbar.Base.{ℕ, true, Option, none, some, List}
use crossbar.Error.{Result, ok, err}
use crossbar.Region.State.{Region}
use crossbar.Loan.Write.{set_data, commit, drop_loan, send}
use crossbar.Publisher.Topics.{Topic}
use crossbar.Publisher.Blocks.{Publisher, update_heartbeat, loan, loan_typed}

-- `addr` gives the address of the data of a block; `none` is the failed assertion of `commit`.
unfoldable pub publish :
    (instant : ℕ) (now : Option ℕ) (addr : ℕ → ℕ)
    → Topic
    → List ℕ
    → Publisher
    → Region
    → Option (Result (Unit {0}) × Publisher × Region)
publish instant now addr handle content p r =
    let (loaned, p1, r1) = loan instant now handle p r in
    elim loaned [
      | err e ↦ some (err e, p1, r1)
      | ok l ↦
          let (copied, l', r2) = set_data (addr l.block_idx) content l r1 in
          elim copied [
            | err e ↦ some (err e, p1, drop_loan l' r2)
            | ok _ ↦ elim (commit true l' r2) [ none ↦ none | some r3 ↦ some (ok tt, p1, r3) ]
          ]
    ]

unfoldable pub publish_typed :
    (instant : ℕ) (now : Option ℕ)
    → Topic
    → (value : List ℕ) → Publisher
    → Region
    → Result (Unit {0}) × Publisher × Region
publish_typed instant now handle value p r =
    let (loaned, p1, r1) = loan_typed instant now handle p r in
    elim loaned [ err e ↦ (err e, p1, r1) | ok l ↦ (ok tt, p1, send value l r1) ]

-- `Publisher::heartbeat`
unfoldable pub heartbeat :
    (instant : ℕ) (now : Option ℕ) → Publisher → Region → Result (Unit {0}) × Publisher × Region
heartbeat instant now p r =
    let (beaten, r') = update_heartbeat now r in
    (elim beaten [
      | err e ↦ (err e, p, r')
      | ok _ ↦ (ok tt, record p { last_heartbeat = instant }, r')
    ])
