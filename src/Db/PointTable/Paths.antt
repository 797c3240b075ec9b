-- ===== src/Db/PointTable/Paths.antt =====
-- UNIQUE(DName, NamePath) of DataPoint: inserting and deleting rows keeps the pairs distinct.
use collector_service.Models.{DataPoint, Device}
use collector_service.Prelude.Result.{err, ok}
use collector_service.Db.{Tables, c_str}
use collector_service.Db.PointTable.{has_point, insert_point, point_row, points_without}
use collector_service.Prelude.{
  equal, Bool-cases, Bytes, List, [], ap, arith, equal_iff, false, inl, inr, refl, suc, ◌&&◌, ◌++◌,
  ◌∷◌, ◌≡◌,
}

-- No row has the device and the path of a later one.
abbrev pub UniquePaths : List DataPoint → Type 0
UniquePaths [] = Unit {0}
UniquePaths (p ∷ ps) = (has_point p.device_name p.name_path ps ≡ false) × UniquePaths ps

has_point-append :
    (name path : Bytes) (ps : List DataPoint) (p : DataPoint)
    → has_point name path ps ≡ false
    → (equal p.device_name name && equal p.name_path path) ≡ false
    → has_point name path (ps ++ p ∷ []) ≡ false
unfolding has_point
has_point-append name path [] p e ne = rw ne refl
has_point-append name path (x ∷ ps) p e ne = ground (arith, has_point-append name path ps p)

pair-sym : (a b c d : Bytes) → (equal a b && equal c d) ≡ false → (equal b a && equal d c) ≡ false
pair-sym a b c d e = ground (arith, equal_iff a b, equal_iff b a, equal_iff c d, equal_iff d c)

append-UniquePaths :
    (ps : List DataPoint) (p : DataPoint)
    → UniquePaths ps
    → has_point p.device_name p.name_path ps ≡ false
    → UniquePaths (ps ++ p ∷ [])
unfolding has_point
append-UniquePaths [] p u e = (refl, tt)
append-UniquePaths (x ∷ ps) p u e =
    elim (Bool-cases (equal x.device_name p.device_name && equal x.name_path p.name_path)) [
      | inl same ↦ let bad = rw same at e in cc bad
      | inr other ↦
          let later : has_point p.device_name p.name_path ps ≡ false = rw other at e in
          (
            has_point-append x.device_name x.name_path ps p u.0
                (pair-sym x.device_name p.device_name x.name_path p.name_path other),
            append-UniquePaths ps p u.1 later,
          )
    ]

pub insert_point-UniquePaths :
    (d : Device) (p : DataPoint) (t v : Tables)
    → UniquePaths t.points
    → insert_point d p t ≡ ok v
    → UniquePaths v.points
unfolding insert_point point_row
insert_point-UniquePaths d p t v h e =
    elim (Bool-cases (has_point (c_str d.name) (c_str p.name_path) t.points)) [
      | inl found ↦ let bad = rw found at e in cc bad
      | inr free ↦
          let done = rw free at e in
          let same : t.points ++ point_row (suc t.point_seq) d p ∷ [] ≡ v.points =
            ap (λ r. elim r [ ok x ↦ x.points | err what ↦ [] ]) done in
          rw (← same) (append-UniquePaths t.points (point_row (suc t.point_seq) d p) h free)
    ]

has_point-without :
    (name path gone : Bytes) (ps : List DataPoint)
    → has_point name path ps ≡ false
    → has_point name path (points_without gone ps) ≡ false
unfolding has_point points_without
has_point-without name path gone [] e = refl
has_point-without name path gone (p ∷ ps) e = ground (arith, has_point-without name path gone ps)

pub points_without-UniquePaths :
    (gone : Bytes) (ps : List DataPoint) → UniquePaths ps → UniquePaths (points_without gone ps)
unfolding points_without
points_without-UniquePaths gone [] u = tt
points_without-UniquePaths gone (p ∷ ps) u = elim (Bool-cases (equal p.device_name gone)) [
  | inl yes_it_is ↦ rw yes_it_is (points_without-UniquePaths gone ps u.1)
  | inr no_it_is ↦ rw no_it_is (
    has_point-without p.device_name p.name_path gone ps u.0,
    points_without-UniquePaths gone ps u.1,
  )
]
