-- ===== src/ModelFile/Parser/Points.antt =====
-- The data points that a model file gives.
-- A data point that is ready to be stored for the device.
use collector_service.StdString.{starts_with}
use collector_service.Prelude.Result.{ok}
use collector_service.Models.{DataPoint, Device}
use collector_service.Prelude.{
  All, Bool-cases, Bytes, List, [], arith, false, inl, inr, is_empty, not, refl, text, ◌++◌, ◌||◌,
  ◌∷◌, ◌≡◌, Bool, equal, if◌then◌else◌, leb, true, ◌&&◌,
}
use collector_service.ModelFile.Parser.{
  Parse, begin_component, begin_point, default_item_path, default_name_path, flush_point, flushed,
  initial, lines_of, parse_data_items, parse_line, parse_lines, parse_model_to_data_points,
  point_line, trim, indent_of,
}

abbrev pub IsPointOf : Device → DataPoint → Type 0
IsPointOf device p =
    (p.device_id ≡ device.id)
    × (p.device_name ≡ device.name)
    × (is_empty p.item_name ≡ false)
    × (is_empty p.name_path ≡ false)
    × (is_empty p.item_path ≡ false)

All-append_points :
    (device : Device) (ps qs : List DataPoint)
    → All (IsPointOf device) ps
    → All (IsPointOf device) qs
    → All (IsPointOf device) (ps ++ qs)
All-append_points device [] qs a b = b
All-append_points device (p ∷ ps) qs a b = (a.0, All-append_points device ps qs a.1 b)

flushed-IsPointOf :
    (device : Device) (component : Bytes) (p : DataPoint)
    → is_empty p.item_name ≡ false
    → IsPointOf device (flushed device component p)
unfolding flushed default_name_path default_item_path is_empty text
flushed-IsPointOf device component p h = (refl, refl, h, ground arith, ground arith)

-- All points so far are ready.
abbrev Ready : Device → Parse → Type 0
Ready device s = All (IsPointOf device) s.points

Ready-if :
    (device : Device) (b : Bool) (s t : Parse)
    → Ready device s
    → Ready device t
    → Ready device (if b then s else t)
Ready-if device true s t hs ht = hs
Ready-if device false s t hs ht = ht

flush_point-Ready :
    (device : Device) (s : Parse) → Ready device s → Ready device (flush_point device s)
unfolding flush_point
flush_point-Ready device s h = elim (Bool-cases (not s.has_point || is_empty s.point.item_name)) [
  | inl skip ↦ rw skip h
  | inr go ↦ rw go (
      All-append_points device s.points _ h
        (flushed-IsPointOf device s.component s.point (ground arith), tt))
]

point_line-Ready :
    (device : Device) (line : Bytes) (s : Parse) → Ready device s → Ready device (point_line line s)
unfolding point_line
point_line-Ready device line s h =
    Ready-if device (not s.has_point) _ _ h
      (Ready-if device (starts_with (text "Description:") line) _ _ h (Ready-if device _ _ _ h h))

parse_line-Ready :
    (device : Device) (line : Bytes) (s : Parse)
    → Ready device s
    → Ready device (parse_line device line s)
unfolding parse_line begin_point begin_component
parse_line-Ready device line s h =
    let f = flush_point-Ready device s h in
    Ready-if device (is_empty (trim line)) _ _ h (
      Ready-if device (equal (trim line) (text "DataItem:")) _ _ h (
        Ready-if device (starts_with (text "- Name:") (trim line)) _ _
          (Ready-if device (s.in_data_item && leb 8 (indent_of line)) _ _ f f)
          (point_line-Ready device (trim line) s h)))

parse_lines-Ready :
    (device : Device) (lines : List Bytes) (s : Parse)
    → Ready device s
    → Ready device (parse_lines device lines s)
unfolding parse_lines
parse_lines-Ready device [] s h = h
parse_lines-Ready device (line ∷ lines) s h =
    parse_lines-Ready device lines (parse_line device line s) (parse_line-Ready device line s h)

-- Where a model file is parsed, there is a data point; each is of the device, and has a name, a
-- name path and an item path, none of them empty.
pub parse_model-IsPointOf :
    (device : Device) (model_text : Bytes) (ps : List DataPoint)
    → parse_model_to_data_points device model_text ≡ ok ps
    → All (IsPointOf device) ps × (is_empty ps ≡ false)
unfolding parse_model_to_data_points parse_data_items
parse_model-IsPointOf device model_text ps e =
    elim (Bool-cases (is_empty (parse_data_items device model_text))) [
      | inl nothing ↦ let bad = rw nothing at e in cc bad
      | inr some_there ↦
          let good = rw some_there at e in
          let same : parse_data_items device model_text ≡ ps = cc good in
          rw (← same) (
            flush_point-Ready device (parse_lines device (lines_of model_text) initial)
                (parse_lines-Ready device (lines_of model_text) initial tt),
            some_there,
          )
    ]
