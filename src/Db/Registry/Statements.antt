-- ===== src/Db/Registry/Statements.antt =====
-- The statements on the table Device, seen as the registry.
use collector_service.StdString.{is_found}
use collector_service.Db.Manager.Created.{insert_device-found}
use collector_service.Db.DeviceTable.Names.{
  MayRename, MayRename-head, MayRename-tail, MayRename-of_test,
}
use collector_service.Db.{Tables, c_str}
use collector_service.Prelude.Result.{ok, Result, err}
use collector_service.Models.{Device, DeviceUpsert}
use collector_service.Db.DeviceTable.{
  delete_devices, inserted_row, updated_row, find_device, insert_device, rewrite_devices,
  update_devices, without_device,
}
use collector_service.Prelude.{
  Bool-cases, Bytes, List, [], arith, equal, equal-false-sym, equal_iff, equal_refl, false,
  if◌then◌else◌, inl, inr, none, refl, some, ℕ, ◌∷◌, ◌≡◌, Option-cases, ap, not, suc, ◌&&◌, ◌++◌,
}
use collector_service.Db.Registry.{registry_of, assign, forget, given_profile}

find_device-without :
    (name gone : Bytes) (ds : List Device)
    → find_device name (without_device gone ds)
      ≡ (if equal gone name then none else find_device name ds)
unfolding find_device without_device
find_device-without name gone [] = ground arith
find_device-without name gone (d ∷ ds) = ground (
  arith,
  find_device-without name gone ds,
  equal_iff d.name gone,
  equal_iff d.name name,
  equal_iff gone name,
)

find_device-rewrite :
    (name target : Bytes) (u : DeviceUpsert) (ds : List Device)
    → equal (c_str u.name) name ≡ false
    → find_device name (rewrite_devices target u ds)
      ≡ (if equal target name then none else find_device name ds)
unfolding find_device rewrite_devices updated_row
find_device-rewrite name target u [] ne = ground arith
find_device-rewrite name target u (d ∷ ds) ne = ground (
  arith,
  find_device-rewrite name target u ds,
  equal_iff d.name target,
  equal_iff d.name name,
  equal_iff target name,
)

-- The row that is rewritten is found under its new name.
find_device-rewritten :
    (target : Bytes) (u : DeviceUpsert) (ds : List Device) (d : Device)
    → find_device target ds ≡ some d
    → MayRename target u ds
    → (id : ℕ) × (find_device (c_str u.name) (rewrite_devices target u ds)
        ≡ some (updated_row id u))
unfolding find_device rewrite_devices updated_row
find_device-rewritten target u [] d e m = cc e
find_device-rewritten target u (x ∷ ds) d e m = elim (Bool-cases (equal x.name target)) [
  | inl hit ↦ (x.id, rw (hit, equal_refl (c_str u.name)) refl)
  | inr miss ↦
      let later = rw miss at e in
      let (id, f) = find_device-rewritten target u ds d later (MayRename-tail target u x ds m) in
      (id, rw (miss, equal-false-sym (c_str u.name) x.name (MayRename-head target u x ds m miss)) f)
]

find_device-append_miss :
    (name : Bytes) (ds : List Device) (d : Device)
    → equal d.name name ≡ false
    → find_device name (ds ++ d ∷ []) ≡ find_device name ds
unfolding find_device
find_device-append_miss name [] d e = rw e refl
find_device-append_miss name (x ∷ ds) d e = ground (arith, find_device-append_miss name ds d)

-- The devices of tables that a statement made.
devices_of : Result Tables → List Device
devices_of (ok t) = t.devices
devices_of (err what) = []

pub insert_device-registry :
    (u : DeviceUpsert) (t v : Tables) (name : Bytes)
    → insert_device u t ≡ ok v
    → registry_of v.devices name
      ≡ assign (c_str u.name) (given_profile u) (registry_of t.devices) name
unfolding insert_device registry_of assign inserted_row devices_of
insert_device-registry u t v name e = elim (Option-cases (find_device (c_str u.name) t.devices)) [
  | inr (d, found) ↦ let bad = rw found at e in cc bad
  | inl free ↦
      let done = rw free at e in
      let same : t.devices ++ inserted_row (suc t.device_seq) u ∷ [] ≡ v.devices =
        ap devices_of done in
      elim (Bool-cases (equal (c_str u.name) name)) [
        | inl hit ↦
            let new : c_str u.name ≡ name = (equal_iff (c_str u.name) name).0 hit in
            rw (hit, ← new) (rw (insert_device-found u t v e, registry_of) refl)
        | inr miss ↦
            rw
              (
                miss,
                ← same,
                find_device-append_miss name t.devices (inserted_row (suc t.device_seq) u) miss,
                registry_of,
              )
              refl
      ]
]

pub update_devices-registry :
    (u : DeviceUpsert) (target : Bytes) (d : Device) (t v : Tables) (name : Bytes)
    → find_device target t.devices ≡ some d
    → update_devices u target t ≡ ok v
    → registry_of v.devices name
      ≡ assign (c_str u.name) (given_profile u) (forget target (registry_of t.devices)) name
unfolding update_devices registry_of assign forget updated_row devices_of
update_devices-registry u target d t v name found e =
    elim (Bool-cases
      (not (equal (c_str u.name) target) && is_found (find_device (c_str u.name) t.devices))) [
        | inl clash ↦ let bad = rw (found, clash) at e in cc bad
        | inr clear ↦
            let done = rw (found, clear) at e in
            let same : rewrite_devices target u t.devices ≡ v.devices = ap devices_of done in
            elim (Bool-cases (equal (c_str u.name) name)) [
              | inl hit ↦
                  let new : c_str u.name ≡ name = (equal_iff (c_str u.name) name).0 hit in
                  let (id, f) =
                    find_device-rewritten target u t.devices d found
                      (MayRename-of_test target u t.devices clear) in
                  rw (hit, ← new, ← same) (rw (f, registry_of) refl)
              | inr miss ↦
                  rw (miss, ← same, find_device-rewrite name target u t.devices miss, registry_of)
                    (ground arith)
            ]
      ]

pub delete_devices-registry :
    (gone : Bytes) (t v : Tables) (name : Bytes)
    → delete_devices gone t ≡ ok v
    → registry_of v.devices name ≡ forget gone (registry_of t.devices) name
unfolding delete_devices registry_of forget devices_of
delete_devices-registry gone t v name e =
    let same : without_device gone t.devices ≡ v.devices = ap devices_of e in
    rw (← same, find_device-without name gone t.devices, registry_of) (ground arith)
