-- ===== src/Registry/Tests.antt =====
-- A registry opened, filled, searched and cleared.
use mathlib.Core.List.{Mem}
use crossbar.Base.{
  ℕ, ◌+◌, ◌≡◌, refl, not, ◌&&◌, none, some, List, [], ◌∷◌, ◌++◌, arith, ltb, ◌==◌, bytes_eq,
  filter_by,
}
use crossbar.Error.{io, os_error, ok, err}
use crossbar.Layout.{contains}
use crossbar.Registry.Text.{utf8_after, from_utf8_lossy, read_fixed_str, write_fixed_str}
use crossbar.Registry.Strings.{read_fixed_str-write_fixed_str}
use crossbar.Registry.State.{Registry, DiscoveredTopic}
use crossbar.Registry.Update.{register, unregister, prune_stale}
use crossbar.Registry.Discover.{discover, discover_since}
use crossbar.Registry.Open.{fresh_registry, open_at}
use crossbar.Registry.Clear.{discover_filters}
use crossbar.Registry.Found.{Fits, register-discover}
use crossbar.Registry.Count.{IsRegistry, Change, registering, unregistering, change_all}
use crossbar.Registry.Reopen.{open_at-change_all}

-- `r`, `/tick/` and `A`
abbrev region : List ℕ
region = 114 ∷ []

abbrev tick : List ℕ
tick = 47 ∷ 116 ∷ 105 ∷ 99 ∷ 107 ∷ 47 ∷ []

region-Fits : Fits region 48
unfolding utf8_after contains
region-Fits = (omega arith, refl, refl)

uri-Fits : Fits (tick ++ 65 ∷ []) 64
unfolding utf8_after contains
uri-Fits = (omega arith, refl, refl)

-- A lone continuation byte and a character that is cut off; a euro sign is kept.
lossy_broken :
    from_utf8_lossy (97 ∷ 0x80 ∷ 0xe2 ∷ 0x82 ∷ [])
    ≡ 97 ∷ 0xef ∷ 0xbf ∷ 0xbd ∷ 0xef ∷ 0xbf ∷ 0xbd ∷ []
unfolding from_utf8_lossy
lossy_broken = refl

lossy_euro : from_utf8_lossy (0xe2 ∷ 0x82 ∷ 0xac ∷ 98 ∷ []) ≡ 0xe2 ∷ 0x82 ∷ 0xac ∷ 98 ∷ []
unfolding from_utf8_lossy
lossy_euro = refl

read_fixed_str-write_fixed_str_example :
    read_fixed_str (write_fixed_str (λ i. 7) region 48) 48 ≡ region
read_fixed_str-write_fixed_str_example =
    read_fixed_str-write_fixed_str (λ i. 7) region 48 region-Fits.0 region-Fits.1 region-Fits.2

register-discover_example :
    let t : DiscoveredTopic = record {
      region = region;
      uri = tick ++ 65 ∷ [];
      pid = 9;
      timestamp_us = 50;
    } in
    let g = register (some 50) region (tick ++ 65 ∷ []) 9 fresh_registry in
    Mem t (discover (tick ++ 65 ∷ []) g) × Mem t (discover (tick ++ b'*' ∷ []) g)
unfolding register
register-discover_example =
    register-discover (some 50) region tick (65 ∷ []) 9 3 fresh_registry region-Fits uri-Fits
      (omega arith) refl

abbrev one_topic : Registry
one_topic = register (some 50) region (tick ++ 65 ∷ []) 9 fresh_registry

discover_filters_example :
    let star = tick ++ b'*' ∷ [] in
    (discover star (unregister region 9 one_topic)
      ≡ filter_by (λ t. not ((t.pid == 9) && bytes_eq t.region region)) (discover star one_topic))
    × (discover star (prune_stale (some 90) 30 one_topic)
        ≡ filter_by (λ t. not (ltb (t.timestamp_us + 30) 90)) (discover star one_topic))
    × (discover_since star 50 one_topic
        ≡ filter_by (λ t. ltb 50 t.timestamp_us) (discover star one_topic))
discover_filters_example =
    discover_filters region 9 90 30 50 (tick ++ b'*' ∷ []) one_topic (omega arith)

abbrev changes : List Change
changes =
    registering (some 50) region (tick ++ 65 ∷ []) 9
    ∷ registering none region tick 9
    ∷ unregistering region 9
    ∷ []

opens : open_at (err (io (os_error 2))) (ok tt) ≡ ok fresh_registry
unfolding open_at
opens = refl

open_at-change_all_example :
    let h = change_all changes fresh_registry in
    IsRegistry h
    × (open_at (ok (record { size = 32832; content = h })) (err (io (os_error 13))) ≡ ok h)
open_at-change_all_example =
    open_at-change_all (err (io (os_error 2))) (ok tt) (err (io (os_error 13))) fresh_registry
      changes 32832 tt opens (omega arith)
