-- ===== src/Db/DeviceTable/Names.antt =====
-- UNIQUE of Device.Name: each statement on the table keeps the names of the devices distinct.
-- No device has the name of a later one.
use collector_service.StdString.{is_found}
use collector_service.Prelude.Result.{err, ok}
use collector_service.Db.{Tables, c_str}
use collector_service.Models.{Device, DeviceUpsert}
use collector_service.Db.DeviceTable.{
  inserted_row, updated_row, find_device, insert_device, rewrite_devices, without_device,
  update_devices,
}
use collector_service.Prelude.{
  Bool-cases, Bytes, List, Option-cases, [], ap, arith, equal, equal_iff, false, inl, inr, none,
  refl, suc, ◌++◌, ◌∷◌, ◌≡◌, ◌⊎◌, not, ◌&&◌, equal-false-sym,
}

abbrev pub UniqueNames : List Device → Type 0
UniqueNames [] = Unit {0}
UniqueNames (d ∷ ds) = (find_device d.name ds ≡ none) × UniqueNames ds

find_device-append :
    (name : Bytes) (ds : List Device) (d : Device)
    → find_device name ds ≡ none
    → equal d.name name ≡ false
    → find_device name (ds ++ d ∷ []) ≡ none
unfolding find_device
find_device-append name [] d e ne = rw ne refl
find_device-append name (x ∷ ds) d e ne = ground (arith, find_device-append name ds d)

append-UniqueNames :
    (ds : List Device) (d : Device)
    → UniqueNames ds
    → find_device d.name ds ≡ none
    → UniqueNames (ds ++ d ∷ [])
unfolding find_device
append-UniqueNames [] d u e = (refl, tt)
append-UniqueNames (x ∷ ds) d u e = ground (
  arith,
  find_device-append x.name ds d,
  append-UniqueNames ds d,
  equal_iff x.name d.name,
  equal_iff d.name x.name,
)

pub insert_device-UniqueNames :
    (u : DeviceUpsert) (t v : Tables)
    → UniqueNames t.devices
    → insert_device u t ≡ ok v
    → UniqueNames v.devices
unfolding insert_device inserted_row
insert_device-UniqueNames u t v h e = elim (Option-cases (find_device (c_str u.name) t.devices)) [
  | inr (d, found) ↦ let bad = rw found at e in cc bad
  | inl free ↦
      let good = rw free at e in
      let same : t.devices ++ inserted_row (suc t.device_seq) u ∷ [] ≡ v.devices =
        ap (λ r. elim r [ ok x ↦ x.devices | err what ↦ [] ]) good in
      rw (← same) (append-UniqueNames t.devices (inserted_row (suc t.device_seq) u) h free)
]

find_device-without :
    (name gone : Bytes) (ds : List Device)
    → find_device name ds ≡ none
    → find_device name (without_device gone ds) ≡ none
unfolding find_device without_device
find_device-without name gone [] e = refl
find_device-without name gone (d ∷ ds) e = ground (arith, find_device-without name gone ds)

pub without_device-UniqueNames :
    (gone : Bytes) (ds : List Device) → UniqueNames ds → UniqueNames (without_device gone ds)
unfolding without_device
without_device-UniqueNames gone [] u = tt
without_device-UniqueNames gone (d ∷ ds) u = elim (Bool-cases (equal d.name gone)) [
  | inl yes_it_is ↦ rw yes_it_is (without_device-UniqueNames gone ds u.1)
  | inr no_it_is ↦
      rw no_it_is (find_device-without d.name gone ds u.0, without_device-UniqueNames gone ds u.1)
]

-- No row is rewritten where none has the name.
rewrite_devices-absent :
    (target : Bytes) (u : DeviceUpsert) (ds : List Device)
    → find_device target ds ≡ none
    → rewrite_devices target u ds ≡ ds
unfolding find_device rewrite_devices
rewrite_devices-absent target u [] e = refl
rewrite_devices-absent target u (d ∷ ds) e = ground (arith, rewrite_devices-absent target u ds)

find_device-rewrite :
    (name target : Bytes) (u : DeviceUpsert) (ds : List Device)
    → find_device name ds ≡ none
    → equal (c_str u.name) name ≡ false
    → find_device name (rewrite_devices target u ds) ≡ none
unfolding find_device rewrite_devices updated_row
find_device-rewrite name target u [] e ne = refl
find_device-rewrite name target u (d ∷ ds) e ne =
    ground (arith, find_device-rewrite name target u ds)

-- What the UNIQUE constraint lets an UPDATE do: its new name is the old one or is free.
abbrev pub MayRename : Bytes → DeviceUpsert → List Device → Type 0
MayRename target u ds = (c_str u.name ≡ target) ⊎ (find_device (c_str u.name) ds ≡ none)

pub MayRename-tail :
    (target : Bytes) (u : DeviceUpsert) (d : Device) (ds : List Device)
    → MayRename target u (d ∷ ds)
    → MayRename target u ds
unfolding find_device
MayRename-tail target u d ds (inl e) = inl e
MayRename-tail target u d ds (inr e) = elim (Bool-cases (equal d.name (c_str u.name))) [
  | inl yes_it_is ↦ let bad = rw yes_it_is at e in cc bad
  | inr no_it_is ↦ inr (rw no_it_is at e)
]

-- The new name is not that of a row that stays.
pub MayRename-head :
    (target : Bytes) (u : DeviceUpsert) (d : Device) (ds : List Device)
    → MayRename target u (d ∷ ds)
    → equal d.name target ≡ false
    → equal (c_str u.name) d.name ≡ false
unfolding find_device
MayRename-head target u d ds (inl e) miss = rw e (equal-false-sym d.name target miss)
MayRename-head target u d ds (inr e) miss = elim (Bool-cases (equal d.name (c_str u.name))) [
  | inl yes_it_is ↦ let bad = rw yes_it_is at e in cc bad
  | inr no_it_is ↦ equal-false-sym d.name (c_str u.name) no_it_is
]

new_name-free :
    (target : Bytes) (u : DeviceUpsert) (ds : List Device)
    → MayRename target u ds
    → find_device target ds ≡ none
    → find_device (c_str u.name) ds ≡ none
new_name-free target u ds (inl e) free = rw e free
new_name-free target u ds (inr e) free = e

rewrite_devices-UniqueNames :
    (target : Bytes) (u : DeviceUpsert) (ds : List Device)
    → MayRename target u ds
    → UniqueNames ds
    → UniqueNames (rewrite_devices target u ds)
unfolding rewrite_devices updated_row
rewrite_devices-UniqueNames target u [] m h = tt
rewrite_devices-UniqueNames target u (d ∷ ds) m h = elim (Bool-cases (equal d.name target)) [
  | inl hit ↦
      let e : d.name ≡ target = (equal_iff d.name target).0 hit in
      let free : find_device target ds ≡ none = rw e at h.0 in
      rw (hit, rewrite_devices-absent target u ds free)
        (new_name-free target u ds (MayRename-tail target u d ds m) free, h.1)
  | inr miss ↦ rw miss (
    find_device-rewrite d.name target u ds h.0 (MayRename-head target u d ds m miss),
    rewrite_devices-UniqueNames target u ds (MayRename-tail target u d ds m) h.1,
  )
]

-- The test of the constraint, where it passes.
pub MayRename-of_test :
    (target : Bytes) (u : DeviceUpsert) (ds : List Device)
    → (not (equal (c_str u.name) target) && is_found (find_device (c_str u.name) ds)) ≡ false
    → MayRename target u ds
MayRename-of_test target u ds e = elim (Bool-cases (equal (c_str u.name) target)) [
  | inl same ↦ inl ((equal_iff (c_str u.name) target).0 same)
  | inr other ↦ elim (Option-cases (find_device (c_str u.name) ds)) [
    | inl free ↦ inr free
    | inr (d, found) ↦ let bad = rw (other, found) at e in cc bad
  ]
]

pub update_devices-UniqueNames :
    (u : DeviceUpsert) (target : Bytes) (t v : Tables)
    → UniqueNames t.devices
    → update_devices u target t ≡ ok v
    → UniqueNames v.devices
unfolding update_devices
update_devices-UniqueNames u target t v h e = elim (Option-cases (find_device target t.devices)) [
  | inl absent ↦
      let done = rw absent at e in
      let same : rewrite_devices target u t.devices ≡ v.devices =
        ap (λ r. elim r [ ok x ↦ x.devices | err what ↦ [] ]) done in
      rw (← same, rewrite_devices-absent target u t.devices absent) h
  | inr (d, found) ↦
      elim (Bool-cases
        (not (equal (c_str u.name) target) && is_found (find_device (c_str u.name) t.devices))) [
          | inl clash ↦ let bad = rw (found, clash) at e in cc bad
          | inr clear ↦
              let done = rw (found, clear) at e in
              let same : rewrite_devices target u t.devices ≡ v.devices =
                ap (λ r. elim r [ ok x ↦ x.devices | err what ↦ [] ]) done in
              rw (← same) (
                rewrite_devices-UniqueNames target u t.devices
                  (MayRename-of_test target u t.devices clear) h)
        ]
]
