-- ===== src/ModelFile/Parser.antt =====
-- src/model/ModelParser.cpp.
pub mod Points
use collector_service.Task.Response.{blanks}
use collector_service.Prelude.Result.{Result, err, ok}
use collector_service.Models.{DataPoint, Device}
use collector_service.StdString.{find_char, is_member, split_last, starts_with}
use collector_service.Prelude.{
  Bool, Bytes, List, Option, [], drop, equal, false, if◌then◌else◌, is_empty, leb, none, not, some,
  suc, text, true, ℕ, ◌&&◌, ◌++◌, ◌==◌, ◌||◌, ◌∷◌,
}

unfoldable pub trim_left : Bytes → Bytes
unfolding is_member
trim_left [] = []
trim_left (c ∷ cs) = let rest = trim_left cs in if is_member blanks c then rest else c ∷ cs

unfoldable pub trim_right : Bytes → Bytes
unfolding is_member is_empty
trim_right [] = []
trim_right (c ∷ cs) =
    let rest = trim_right cs in if is_empty rest && is_member blanks c then [] else c ∷ rest

unfoldable pub trim : Bytes → Bytes
unfolding trim_left trim_right
trim value = trim_right (trim_left value)

unfoldable pub indent_of : Bytes → ℕ
indent_of [] = 0
indent_of (c ∷ cs) = let rest = indent_of cs in if c == b' ' then suc rest else 0

-- What stands in front of a quote that ends the value; `value` itself where none does.
unfoldable pub inside_quotes : Bytes → Option (Bytes × Bytes) → Bytes
inside_quotes value none = value
inside_quotes value (some (inner, [])) = inner
inside_quotes value (some (inner, c ∷ cs)) = value

-- A value of two bytes or more that begins and ends with a quote loses both.
unfoldable pub without_quotes : Bytes → Bytes
unfolding inside_quotes split_last
without_quotes (c ∷ d ∷ cs) =
    if c == b'\'' then inside_quotes (c ∷ d ∷ cs) (split_last b'\'' (d ∷ cs)) else c ∷ d ∷ cs
without_quotes value = value

unfoldable pub value_after_colon : Bytes → Bytes
unfolding find_char trim without_quotes
value_after_colon line = elim (find_char b':' line) [
  | none ↦ []
  | some at_colon ↦ without_quotes (trim (drop 1 at_colon))
]

-- The lines that std::getline reads.
abbrev pub add_front : ℕ → List Bytes → List Bytes
add_front c [] = (c ∷ []) ∷ []
add_front c (line ∷ lines) = (c ∷ line) ∷ lines

unfoldable pub lines_of : Bytes → List Bytes
lines_of [] = []
lines_of (c ∷ cs) = let rest = lines_of cs in if c == b'\n' then [] ∷ rest else add_front c rest

-- The locals of parseDataItems.
pub record Parse : Type 0 where
  pub points : List DataPoint
  pub component : Bytes
  pub point : DataPoint
  pub in_data_item : Bool
  pub has_point : Bool

abbrev pub empty_point : DataPoint
empty_point = record {
  id = 0;
  device_id = 0;
  device_name = [];
  name_path = [];
  item_path = [];
  item_name = [];
  item_description = [];
}

abbrev pub initial : Parse
initial = record {
  points = [];
  component = [];
  point = empty_point;
  in_data_item = false;
  has_point = false;
}

unfoldable pub default_name_path : Bytes → Bytes → Bytes
default_name_path component name = b'/' ∷ (component ++ (b'/' ∷ name))

unfoldable pub default_item_path : Bytes → Bytes → Bytes → Bytes
unfolding text
default_item_path device component name =
    text "/DV:" ++ (device ++ (text "/CP:" ++ (component ++ (text "/DT:" ++ name))))

-- The point that flushPoint adds.
unfoldable pub flushed : Device → Bytes → DataPoint → DataPoint
unfolding is_empty default_name_path default_item_path
flushed device component p = record p {
  device_id = device.id;
  device_name = device.name;
  name_path = if is_empty p.name_path then default_name_path component p.item_name else p.name_path;
  item_path =
      if is_empty p.item_path
      then default_item_path device.name component p.item_name
      else p.item_path;
}

unfoldable pub flush_point : Device → Parse → Parse
unfolding is_empty flushed
flush_point device s = if not s.has_point || is_empty s.point.item_name then s else record s {
  points = s.points ++ flushed device s.component s.point ∷ [];
  point = empty_point;
  has_point = false;
}

-- At "- Name:", in an item list or not.
unfoldable pub begin_point : Device → Bytes → Parse → Parse
unfolding flush_point default_name_path default_item_path
begin_point device name s =
    let t = flush_point device s in
    record t {
      point = record empty_point {
        item_name = name;
        name_path = default_name_path t.component name;
        item_path = default_item_path device.name t.component name;
      };
      has_point = true;
    }

unfoldable pub begin_component : Device → Bytes → Parse → Parse
unfolding flush_point
begin_component device name s = record (flush_point device s) {
  component = name;
  in_data_item = false;
}

-- Any other line, on the point that is open.
unfoldable pub point_line : Bytes → Parse → Parse
unfolding starts_with value_after_colon text
point_line stripped s =
    if not s.has_point
    then s
    else if starts_with (text "Description:") stripped
    then record s { point = record s.point { item_description = value_after_colon stripped } }
    else if starts_with (text "NamePath:") stripped
        || starts_with (text "namePath:") stripped
        || starts_with (text "Path:") stripped
        || starts_with (text "path:") stripped
    then record s { point = record s.point { name_path = value_after_colon stripped } }
    else s

-- One round of the loop.
unfoldable pub parse_line : Device → Bytes → Parse → Parse
unfolding trim is_empty equal starts_with value_after_colon indent_of begin_point begin_component
    point_line text
parse_line device line s =
    let stripped = trim line in
    if is_empty stripped
    then s
    else if equal stripped (text "DataItem:")
    then record s { in_data_item = true }
    else if starts_with (text "- Name:") stripped
    then (if s.in_data_item && leb 8 (indent_of line)
        then begin_point device (value_after_colon stripped) s
        else begin_component device (value_after_colon stripped) s)
    else point_line stripped s

unfoldable pub parse_lines : Device → List Bytes → Parse → Parse
unfolding parse_line
parse_lines device [] s = s
parse_lines device (line ∷ lines) s = parse_lines device lines (parse_line device line s)

unfoldable pub parse_data_items : Device → Bytes → List DataPoint
unfolding parse_lines lines_of flush_point
parse_data_items device model_text =
    (flush_point device (parse_lines device (lines_of model_text) initial)).points

abbrev pub no_data_item : Device → Bytes
no_data_item device = text "model has no DataItem: " ++ device.model

unfoldable pub parse_model_to_data_points : Device → Bytes → Result (List DataPoint)
unfolding parse_data_items is_empty
parse_model_to_data_points device model_text =
    let points = parse_data_items device model_text in
    if is_empty points then err (no_data_item device) else ok points
