-- ===== src/Task/Response/Records.antt =====
-- The records that a response gives.
-- A record of one data point.
use collector_service.Prelude.Result.{ok}
use collector_service.Task.Response.{
  Stod, collect_records, extract_array_field_text, extract_object_for_path, point_record,
  process_response, record_of,
}
use collector_service.Prelude.{
  Bool-cases, Bytes, List, Option-cases, [], ap, inl, inr, is_empty, some, sym, text, ◌∷◌, ◌≡◌,
  false,
}
use collector_service.Models.{DataPoint, Device, Double, ResourceRecord}

abbrev pub IsRecordOf : Device → DataPoint → ResourceRecord → Type 0
IsRecordOf device p r =
    (r.device_name ≡ device.name)
    × (r.data_item_name_path ≡ p.name_path)
    × (is_empty r.content ≡ false)

-- Records of some of the points, in their order and at most one of each.
pub data FromPoints (device : Device) : List DataPoint → List ResourceRecord → Type 0 where
  no_more : FromPoints device [] []
  left_out :
      {p : DataPoint} {ps : List DataPoint} {rs : List ResourceRecord}
      → FromPoints device ps rs
      → FromPoints device (p ∷ ps) rs
  recorded :
      {p : DataPoint} {ps : List DataPoint} {r : ResourceRecord} {rs : List ResourceRecord}
      → IsRecordOf device p r
      → FromPoints device ps rs
      → FromPoints device (p ∷ ps) (r ∷ rs)

point_record-IsRecordOf :
    (stod : Stod) (now : Double) (device : Device) (response : Bytes) (p : DataPoint)
    (r : ResourceRecord)
    → point_record stod now device response p ≡ some r
    → IsRecordOf device p r
unfolding point_record record_of is_empty
point_record-IsRecordOf stod now device response p r e =
    elim (Bool-cases (is_empty (extract_object_for_path response p.name_path))) [
      | inl missing ↦ let bad = rw missing at e in cc bad
      | inr found ↦
          elim (Bool-cases (
            is_empty (
              extract_array_field_text (extract_object_for_path response p.name_path)
                (text "value")))) [
                  | inl no_value ↦ let bad = rw (found, no_value) at e in cc bad
                  | inr value ↦
                      let good = rw (found, value) at e in
                      let same : record_of stod now device p
                            (extract_object_for_path response p.name_path)
                          ≡ r =
                        cc good in
                      (
                        ap (λ x. x.device_name) (sym same),
                        ap (λ x. x.data_item_name_path) (sym same),
                        rw (← same) value,
                      )
                ]
    ]

collect_records-FromPoints :
    (stod : Stod) (now : Double) (device : Device) (response : Bytes) (ps : List DataPoint)
    → FromPoints device ps (collect_records stod now device response ps)
unfolding collect_records
collect_records-FromPoints stod now device response [] = FromPoints.no_more
collect_records-FromPoints stod now device response (p ∷ ps) =
    let rest = collect_records-FromPoints stod now device response ps in
    elim (Option-cases (point_record stod now device response p)) [
      | inl nothing ↦ rw (nothing, collect_records) (FromPoints.left_out rest)
      | inr (r, e) ↦
          rw (e, collect_records)
            (FromPoints.recorded (point_record-IsRecordOf stod now device response p r e) rest)
    ]

-- Where processResponse returns, there is a record; the records are of the device and of some of
-- the points, in the order of the points and at most one of each, and none has an empty value.
pub process_response-FromPoints :
    (stod : Stod) (now : Double) (device : Device) (ps : List DataPoint) (response : Bytes)
    (rs : List ResourceRecord)
    → process_response stod now device ps response ≡ ok rs
    → FromPoints device ps rs × (is_empty rs ≡ false)
unfolding process_response is_empty
process_response-FromPoints stod now device ps response rs e =
    elim (Bool-cases (is_empty (collect_records stod now device response ps))) [
      | inl nothing ↦ let bad = rw nothing at e in cc bad
      | inr some_there ↦
          let good = rw some_there at e in
          let same : collect_records stod now device response ps ≡ rs = cc good in
          (
            rw (← same) (collect_records-FromPoints stod now device response ps),
            rw (← same) some_there,
          )
    ]
