-- ===== src/Db/PointTable/Rename.antt =====
-- UNIQUE(DName, NamePath) of DataPoint: renaming a device keeps the pairs distinct.
use collector_service.Models.{DataPoint}
use collector_service.Db.PointTable.{has_point, move_points, rename_clashes, rename_points}
use collector_service.Db.PointTable.Paths.{UniquePaths}
use collector_service.Prelude.Result.{err, ok}
use collector_service.Db.{Tables}
use collector_service.Prelude.{
  equal, Bool-cases, Bytes, List, [], ap, arith, equal-false-sym, equal_iff, equal_refl, false, inl,
  inr, refl, true, ◌∷◌, ◌≡◌,
}

module _ (from to : Bytes) where
  has_point-rename_other :
      (name path : Bytes) (ps : List DataPoint)
      → equal to name ≡ false
      → equal from name ≡ false
      → has_point name path ps ≡ false
      → has_point name path (rename_points from to ps) ≡ false
  unfolding has_point rename_points
  has_point-rename_other name path [] nt nf e = refl
  has_point-rename_other name path (p ∷ ps) nt nf e =
      ground (arith, has_point-rename_other name path ps)

  has_point-rename_to :
      (path : Bytes) (ps : List DataPoint)
      → has_point to path ps ≡ false
      → has_point from path ps ≡ false
      → has_point to path (rename_points from to ps) ≡ false
  unfolding has_point rename_points
  has_point-rename_to path [] et ef = refl
  has_point-rename_to path (p ∷ ps) et ef =
      ground
        (arith, has_point-rename_to path ps, equal_refl p.device_name, equal_iff p.device_name from)

  -- Where nothing clashes, a path of a row that moves is free at the new name.
  rename_clashes-free :
      (path : Bytes) (all_points ps : List DataPoint)
      → rename_clashes from to all_points ps ≡ false
      → has_point from path ps ≡ true
      → has_point to path all_points ≡ false
  unfolding has_point rename_clashes
  rename_clashes-free path all_points [] c e = cc e
  rename_clashes-free path all_points (p ∷ ps) c e =
      ground (arith, rename_clashes-free path all_points ps, equal_iff p.name_path path)

  -- The rows of the new name are among all rows.
  abbrev Among : List DataPoint → List DataPoint → Type 0
  Among all_points ps =
      (path : Bytes) → has_point to path all_points ≡ false → has_point to path ps ≡ false

  Among-tail :
      (all_points : List DataPoint) (p : DataPoint) (ps : List DataPoint)
      → Among all_points (p ∷ ps)
      → Among all_points ps
  unfolding has_point
  Among-tail all_points p ps a path e = ground (arith, a path e)

  clashes-tail :
      (all_points : List DataPoint) (p : DataPoint) (ps : List DataPoint)
      → rename_clashes from to all_points (p ∷ ps) ≡ false
      → rename_clashes from to all_points ps ≡ false
  unfolding rename_clashes
  clashes-tail all_points p ps c = ground arith

  clashes-head :
      (all_points : List DataPoint) (p : DataPoint) (ps : List DataPoint)
      → rename_clashes from to all_points (p ∷ ps) ≡ false
      → equal p.device_name from ≡ true
      → has_point to p.name_path all_points ≡ false
  unfolding rename_clashes
  clashes-head all_points p ps c hit = ground arith

  -- The path of a row of the new name is no path of a row that moves.
  not_moved :
      (all_points : List DataPoint) (p : DataPoint) (ps : List DataPoint)
      → rename_clashes from to all_points ps ≡ false
      → Among all_points (p ∷ ps)
      → equal p.device_name to ≡ true
      → has_point from p.name_path ps ≡ false
  unfolding has_point
  not_moved all_points p ps c a is_to = elim (Bool-cases (has_point from p.name_path ps)) [
    | inr fresh ↦ fresh
    | inl moves ↦
        let gone = a p.name_path (rename_clashes-free p.name_path all_points ps c moves) in
        let bad = rw (is_to, equal_refl p.name_path) at gone in cc bad
  ]

  rename_points-UniquePaths :
      (all_points ps : List DataPoint)
      → rename_clashes from to all_points ps ≡ false
      → Among all_points ps
      → UniquePaths ps
      → UniquePaths (rename_points from to ps)
  unfolding rename_points
  rename_points-UniquePaths all_points [] c a u = tt
  rename_points-UniquePaths all_points (p ∷ ps) c a u =
      let c' = clashes-tail all_points p ps c in
      let a' = Among-tail all_points p ps a in
      let rest = rename_points-UniquePaths all_points ps c' a' u.1 in
      elim (Bool-cases (equal p.device_name from)) [
        | inl hit ↦
            let e : p.device_name ≡ from = (equal_iff p.device_name from).0 hit in
            rw hit (
              has_point-rename_to p.name_path ps
                  (a' p.name_path (clashes-head all_points p ps c hit)) (rw e at u.0),
              rest,
            )
        | inr miss ↦ elim (Bool-cases (equal p.device_name to)) [
          | inl is_to ↦
              let e : p.device_name ≡ to = (equal_iff p.device_name to).0 is_to in
              rw miss (
                rw e (
                    has_point-rename_to p.name_path ps (rw e at u.0)
                      (not_moved all_points p ps c' a is_to)),
                rest,
              )
          | inr other ↦ rw miss (
            has_point-rename_other p.device_name p.name_path ps
                (equal-false-sym p.device_name to other) (equal-false-sym p.device_name from miss)
                u.0,
            rest,
          )
        ]
      ]

rename_points-same : (name : Bytes) (ps : List DataPoint) → rename_points name name ps ≡ ps
unfolding rename_points
rename_points-same name [] = refl
rename_points-same name (p ∷ ps) =
    ground (arith, rename_points-same name ps, equal_iff p.device_name name)

pub move_points-UniquePaths :
    (from to : Bytes) (t v : Tables)
    → UniquePaths t.points
    → move_points from to t ≡ ok v
    → UniquePaths v.points
unfolding move_points
move_points-UniquePaths from to t v h e = elim (Bool-cases (equal from to)) [
  | inl same ↦
      let done = rw same at e in
      let kept : rename_points from to t.points ≡ v.points =
        ap (λ r. elim r [ ok x ↦ x.points | err what ↦ [] ]) done in
      let e' : from ≡ to = (equal_iff from to).0 same in
      rw (← kept, e', rename_points-same to t.points) h
  | inr differ ↦ elim (Bool-cases (rename_clashes from to t.points t.points)) [
    | inl clash ↦ let bad = rw (differ, clash) at e in cc bad
    | inr clear ↦
        let done = rw (differ, clear) at e in
        let kept : rename_points from to t.points ≡ v.points =
          ap (λ r. elim r [ ok x ↦ x.points | err what ↦ [] ]) done in
        rw (← kept)
          (rename_points-UniquePaths from to t.points t.points clear (λ path free. free) h)
  ]
]
