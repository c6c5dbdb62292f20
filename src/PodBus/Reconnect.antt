-- ===== src/PodBus/Reconnect.antt =====
-- Connecting to a bus that was created.
use crossbar.Base.{ℕ, ◌≡◌, refl, not, ◌⊎◌, inl, inr, Option, none, some, ◌==◌, if◌then◌else◌}
use crossbar.Error.{Reason, invalid_region, Result, ok, err}
use crossbar.PodBus.State.{PodBus, BusSubscriber}
use crossbar.PodBus.Create.{PodType, version_for}

module _ (type other : PodType) where
  -- The answer of `connect` to a subscriber of another type.
  abbrev answer : BusSubscriber → Result BusSubscriber
  answer sub =
      if not (type.size == other.size)
      then err (invalid_region (Reason.value_size_mismatch type.size other.size))
      else if not (type.align == other.align)
      then err (invalid_region (Reason.value_align_mismatch type.align other.align))
      else ok sub

  abbrev type_check : Result (Unit {0})
  type_check =
      if not (type.size == other.size)
      then err (invalid_region (Reason.value_size_mismatch type.size other.size))
      else if not (type.align == other.align)
      then err (invalid_region (Reason.value_align_mismatch type.align other.align))
      else ok tt

abbrev slot_for : Option ℕ → Option ℕ
slot_for watermark = elim watermark [ none ↦ none | some w ↦ some 0 ]

version_for-cases :
    (watermark : Option ℕ) → (version_for watermark ≡ 1) ⊎ (version_for watermark ≡ 3)
version_for-cases none = inl refl
version_for-cases (some watermark) = inr refl

-- Everything of `connect` that follows the checks of the file.
abbrev after_check :
    Result (Unit {0}) → Result (Unit {0}) → Result BusSubscriber → Result BusSubscriber
after_check checked alive sub = elim checked [
  | err e ↦ err e
  | ok _ ↦ elim alive [ err e ↦ err e | ok _ ↦ sub ]
]
