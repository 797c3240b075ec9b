-- ===== src/Driver/MockServer/Record.antt =====
-- The record that processResponse makes of what the mock driver answers for a point.
use collector_service.Driver.MockServer.Object.{mock_path, object_text}
use collector_service.Models.{DataPoint, Device, Double, ResourceRecord}
use collector_service.Prelude.Maybe.{or_else}
use collector_service.Driver.MockServer.{description_for_path, item_name_from_path, value_for_path}
use collector_service.Task.Response.{Stod, or_own, record_of}
use collector_service.Driver.MockServer.Paths.{IsPrinted, IsPath, description-IsLabel}
use collector_service.Prelude.{Bytes, [], false, is_empty, map, refl, text, ◌++◌, ◌∷◌, ◌≡◌}
use collector_service.Driver.MockServer.Fields.{
  dev_time-found, item_description-found, item_name-found, item_path-found, number_field,
  object-value, string_field, svr_time-found,
}
use collector_service.Command.Field.RoundTrip.{kept_byte}

-- The record that the object of a point's path is read as.
unfoldable pub mock_record :
    (Double → Bytes) → Double → Stod → Double → Device → DataPoint → ResourceRecord
mock_record fixed_text timestamp stod now device point = record {
  device_name = device.name;
  data_item_name_path = point.name_path;
  content = b'[' ∷ (fixed_text (value_for_path point.name_path) ++ b']' ∷ []);
  dev_time = or_else (stod (fixed_text timestamp)) now;
  svr_time = or_else (stod (fixed_text timestamp)) now;
  data_item_path = map kept_byte (mock_path point.name_path);
  data_item_name = map kept_byte (item_name_from_path point.name_path);
  data_item_description = map kept_byte (description_for_path point.name_path);
}

or_own-kept : (v own : Bytes) → is_empty v ≡ false → or_own (map kept_byte v) own ≡ map kept_byte v
unfolding or_own is_empty
or_own-kept [] own e = cc e
or_own-kept (c ∷ v) own e = refl

mock_path-given : (path : Bytes) → is_empty (mock_path path) ≡ false
unfolding is_empty text
mock_path-given path = refl

pub record_of-object :
    (fixed_text : Double → Bytes) (timestamp : Double) (numeric : IsPrinted fixed_text timestamp)
    (stod : Stod) (now : Double) (device : Device) (point : DataPoint)
    → IsPath point.name_path
    → record_of stod now device point (object_text fixed_text timestamp point.name_path [])
      ≡ mock_record fixed_text timestamp stod now device point
unfolding record_of mock_record
record_of-object fixed_text timestamp numeric stod now device point p =
    let path = point.name_path in
    let number = number_field fixed_text timestamp numeric path p stod in
    let field = string_field fixed_text timestamp numeric path p in
    rw
      (
        object-value fixed_text timestamp numeric path p,
        number (text "dev_time") _ now (dev_time-found fixed_text timestamp numeric path p),
        number (text "svr_time") _ now (svr_time-found fixed_text timestamp numeric path p),
        field (text "item_path") (mock_path path) _
            (item_path-found fixed_text timestamp numeric path p),
        field (text "item_description") (description_for_path path) _
            (item_description-found fixed_text timestamp numeric path p),
        field (text "item_name") (item_name_from_path path) _
            (item_name-found fixed_text timestamp numeric path p),
        or_own-kept (mock_path path) point.item_path (mock_path-given path),
        or_own-kept (item_name_from_path path) point.item_name p.name_given,
        or_own-kept (description_for_path path) point.item_description
            (description-IsLabel path p).given,
      )
      refl
