-- ===== src/Channel/Endpoint.antt =====
-- src/platform/channel.rs: the endpoint of a channel. It writes to the region that it created, its
-- own, and reads from the one that the other endpoint created.
use crossbar.Base.{
  ℕ, zero, suc, ◌+◌, Bool, false, Option, none, some, List, ltb, ◌==◌, if◌then◌else◌, ◌++◌,
}
use crossbar.Error.{Error, Result, ok, err}
use crossbar.Layout.{Config}
use crossbar.Region.State.{Region}
use crossbar.Region.Pool.{Interference}
use crossbar.Loan.Write.{Loan}
use crossbar.Stream.Receive.{Stream, Sample, During}
use crossbar.Stream.Receive
use crossbar.Wait.Strategy.{WaitStrategy}
use crossbar.Wait.Blocking.{Round, Blocked}
use crossbar.Wait.Blocking
use crossbar.Publisher.Files.{RegionFile, Opened, ascii}
use crossbar.Publisher.Blocks.{Publisher, update_heartbeat, drop_publisher}
use crossbar.Publisher.Blocks
use crossbar.Publisher.Topics.{Topic, register, subscribe}
use crossbar.Publisher.Publish.{publish}
use crossbar.Publisher.Publish
use crossbar.Publisher.Create.{CreateCalls, Owner, create, removes_file}
use crossbar.Publisher.Open

-- `tx_pub`, `tx_topic` and `rx`; `_rx_sub` only keeps the region mapped.
pub record Channel : Type 0 where
  pub tx_pub : Owner
  pub tx_topic : Topic
  pub rx : Stream

-- What one round of the wait for the peer finds: the file that stands at the peer's path then, the
-- time of day, and the `instant` at which a failure is compared with the deadline.
pub record Attempt : Type 0 where
  pub file : Opened RegionFile
  pub path_text : List ℕ
  pub mmap : Result (Unit {0})
  pub now : Option ℕ
  pub instant : ℕ

abbrev pub channel_uri : List ℕ
channel_uri = ascii "/ch"

-- The stream starts from the first message.
unfoldable pub subscribed : Result Stream × Region → Result (Stream × Region)
subscribed t = elim t.0 [ err e ↦ err e | ok rx ↦ ok (record rx { last_seq = 0 }, t.1) ]

-- One round: connect to the peer's region and subscribe to its topic.
unfoldable pub attempt : Attempt → List ℕ → Result (Stream × Region)
unfolding subscribed
attempt a region_name = elim (Open.connect a.file a.path_text a.mmap a.now region_name) [
  | err e ↦ err e
  | ok r ↦ subscribed (subscribe channel_uri r)
]

-- The guard of both retries.
unfoldable pub time_left : (deadline : Option ℕ) (instant : ℕ) → Bool
time_left deadline instant = elim deadline [ none ↦ false | some d ↦ ltb instant d ]

-- The loop, from round `i` on, in `fuel` rounds.
unfoldable pub wait_rounds :
    (deadline : Option ℕ)
    → (ℕ → Attempt)
    → List ℕ
    → (fuel i : ℕ) → Option (Result (Stream × Region))
unfolding attempt time_left
wait_rounds deadline world region_name zero i = none
wait_rounds deadline world region_name (suc fuel) i =
    let rest = wait_rounds deadline world region_name fuel (i + 1) in
    elim (attempt (world i) region_name) [
      | ok found ↦ some (ok found)
      | err e ↦ if time_left deadline (world i).instant then rest else some (err e)
    ]

abbrev pub deadline_of : (start timeout : ℕ) → Option ℕ
deadline_of start timeout = if timeout == 0 then none else some (start + timeout)

-- `start` is the time of the call.
unfoldable pub wait_for_peer :
    (start timeout : ℕ) → (ℕ → Attempt) → (fuel : ℕ) → List ℕ → Option (Result (Stream × Region))
unfolding wait_rounds
wait_for_peer start timeout world fuel region_name =
    wait_rounds (deadline_of start timeout) world region_name fuel 0

-- What an endpoint finds while it is set up: the calls that create its region, the file with the
-- region's path when a failure drops the publisher, what the peer does to the region during the wait,
-- and the rounds of the wait.
pub record Setup : Type 0 where
  pub calls : CreateCalls
  pub current_ino : Option ℕ
  pub meanwhile : Interference
  pub start : ℕ
  pub world : ℕ → Attempt
  pub fuel : ℕ

-- The endpoint with the peer's region, or an error; and the file of its own region.
abbrev pub Joined : Type 0
Joined = Option (Result (Channel × Region)) × Option RegionFile

-- An early return drops the publisher.
unfoldable pub give_up : Option ℕ → Owner → Error → RegionFile → Joined
give_up current_ino tx_pub e f = (
  some (err e),
  (if removes_file tx_pub current_ino
      then none
      else some (record f { memory = (drop_publisher tx_pub.publisher f.memory).1 })),
)

-- From the registered topic on.
unfoldable pub join_peer :
    Setup → (peer_name : List ℕ) (timeout : ℕ) → Owner → Topic → RegionFile → Joined
unfolding wait_for_peer give_up
join_peer setup peer_name timeout tx_pub tx_topic f =
    let f' : RegionFile = record f { memory = setup.meanwhile f.memory } in
    elim (wait_for_peer setup.start timeout setup.world setup.fuel peer_name) [
      | none ↦ (none, some f')
      | some found ↦ elim found [
        | err e ↦ give_up setup.current_ino tx_pub e f'
        | ok (rx, r) ↦
            (some (ok (record { tx_pub = tx_pub; tx_topic = tx_topic; rx = rx }, r)), some f')
      ]
    ]

-- The body of `listen` and of `connect`, which differ in the two names. A `create` that succeeds leaves
-- a file, so that the case of none does not arise.
unfoldable pub set_up :
    Setup → (own_name peer_name : List ℕ) → Config → (timeout : ℕ) → Option RegionFile → Joined
unfolding join_peer
set_up setup own_name peer_name config timeout old =
    let (made, file) = create setup.calls own_name config old in
    elim made [
      | err e ↦ (some (err e), file)
      | ok tx_pub ↦ elim file [
        | none ↦ (none, none)
        | some f ↦
            let (handle, memory) = register tx_pub.publisher.id channel_uri f.memory in
            let f' : RegionFile = record f { memory = memory } in
            elim handle [
              | err e ↦ give_up setup.current_ino tx_pub e f'
              | ok tx_topic ↦ join_peer setup peer_name timeout tx_pub tx_topic f'
            ]
      ]
    ]

unfoldable pub listen : Setup → List ℕ → Config → (timeout : ℕ) → Option RegionFile → Joined
unfolding set_up
listen setup name config timeout old =
    set_up setup (name ++ ascii "-srv") (name ++ ascii "-cli") config timeout old

unfoldable pub connect : Setup → List ℕ → Config → (timeout : ℕ) → Option RegionFile → Joined
unfolding set_up
connect setup name config timeout old =
    set_up setup (name ++ ascii "-cli") (name ++ ascii "-srv") config timeout old

abbrev pub with_publisher : Publisher → Channel → Channel
with_publisher p c = record c { tx_pub = record c.tx_pub { publisher = p } }

-- The body of `send` is that of the publisher's `publish`: loan, copy and publish.
unfoldable pub send :
    (instant : ℕ) (now : Option ℕ) (addr : ℕ → ℕ)
    → List ℕ
    → Channel
    → Region
    → Option (Result (Unit {0}) × Channel × Region)
send instant now addr content c r =
    elim (publish instant now addr c.tx_topic content c.tx_pub.publisher r) [
      | none ↦ none
      | some (sent, p, r') ↦ some (sent, with_publisher p c, r')
    ]

unfoldable pub loan :
    (instant : ℕ) (now : Option ℕ) → Channel → Region → Result Loan × Channel × Region
loan instant now c r =
    let (loaned, p, r') = Blocks.loan instant now c.tx_topic c.tx_pub.publisher r in
    (loaned, with_publisher p c, r')

unfoldable pub heartbeat :
    (instant : ℕ) (now : Option ℕ) → Channel → Region → Result (Unit {0}) × Channel × Region
heartbeat instant now c r =
    let (beaten, p, r') = Publish.heartbeat instant now c.tx_pub.publisher r in
    (beaten, with_publisher p c, r')

-- `r` is the peer's region.
unfoldable pub try_recv : (ℕ → During) → Channel → Region → Option Sample × Channel × Region
try_recv during c r =
    let (sample, rx, r') = Receive.try_recv during c.rx r in (sample, record c { rx = rx }, r')

unfoldable pub recv_with :
    WaitStrategy
    → (during : ℕ → During) → List Round
    → Channel
    → Region
    → Blocked Sample × Channel × Region
recv_with strategy during rounds c r =
    let (sample, rx, r') = Blocking.recv_with strategy during rounds c.rx r in
    (sample, record c { rx = rx }, r')

unfoldable pub recv :
    (during : ℕ → During) → List Round → Channel → Region → Blocked Sample × Channel × Region
recv during rounds c r =
    let (sample, rx, r') = Blocking.recv during rounds c.rx r in (sample, record c { rx = rx }, r')
