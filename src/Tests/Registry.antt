-- ===== src/Tests/Registry.antt =====
-- The theorems on the registry of devices and on the commands at the tables of Tests/Data.
use collector_service.Db.ResourceTable.Everyone.{trim_all-IsTrimmed}
use collector_service.Db.ResourceTable.Trimmed.{IsTrimmed}
use collector_service.Command.Processor.Bystanders.{handle-Shows}
use collector_service.Db.Atomic.{durable}
use collector_service.Task.Shown.{Shows}
use collector_service.Command.Field.{extract_string_field}
use collector_service.Command.Processor.{handle}
use collector_service.Task.Worker.{World}
use collector_service.Command.Processor.Handle.{IsReplyTo, handle-IsReplyTo}
use collector_service.Models.{DeviceUpsert}
use collector_service.Db.Manager
use collector_service.Db.{c_str}
use collector_service.Db.DeviceTable.{find_device, insert_device}
use collector_service.Prelude.Exec.{pure, raise, returned, after}
use collector_service.Db.ResourceTable.{resources_of, trim_all, has_row}
use collector_service.Db.Registry.History.{Acted, run_requests, run_requests-act_all}
use collector_service.Command.Parser.Bounds.{IsFit, parse_device_upsert-IsFit}
use collector_service.Prelude.Exec.Triple.{Post}
use collector_service.Db.{Tables}
use collector_service.Command.Processor.Devices.{Answered, DeviceCommand, Threw}
use collector_service.Tests.Data.{
  db_a, dev_a, env_a, fault_a, full_a, renamed_a, trimmed_a, upsert_b, world_a,
  newest_a-IsTimeOrder,
}
use collector_service.Command.Processor.Acts.{run_command-Answered}
use collector_service.Prelude.{Bytes, List, [], pos, refl, text, ◌∷◌, ◌≡◌, equal, Option, arith}
use collector_service.Db.Manager.Constraints.{Request, run_request}
use collector_service.Db.Registry.Refinement.{Refines, run_request-Refines}
use collector_service.Db.Registry.{registry_of}
use collector_service.Db.Registry.History.{act_all}
use collector_service.Command.Processor.Devices.{run_command}
use collector_service.Command.Parser.{parse_addr, parse_device_upsert}

-- A new device, then another name for the first one.
abbrev requests_a : List Request
requests_a = Request.creates upsert_b ∷ Request.updates renamed_a ∷ []

run_request-Refines_example :
    Refines
      (Request.updates renamed_a)
      db_a.tables.devices
      (run_request fault_a env_a.newest (Request.updates renamed_a) db_a)
run_request-Refines_example =
    run_request-Refines fault_a env_a.newest (Request.updates renamed_a) db_a refl

run_requests-act_all_example :
    (rs : List Request) × Acted fault_a env_a.newest requests_a db_a rs
    × ((name : Bytes)
        → registry_of (run_requests fault_a env_a.newest requests_a db_a).tables.devices name
          ≡ act_all rs (registry_of db_a.tables.devices) name)
unfolding run_request Manager.create_device pure find_device equal text c_str insert_device
    Manager.update_device raise
run_requests-act_all_example =
    run_requests-act_all fault_a env_a.newest requests_a db_a refl (refl, (refl, tt))

-- An update that gives no status.
abbrev update_text : Bytes
update_text = text "{\"category\":\"update_device\",\"device_name\":\"devA\",\"model\":\"M1\"}"

run_command-Answered_example :
    Post
      (Answered update_text world_a.db.tables.devices DeviceCommand.update_command)
      (Threw update_text world_a.db.tables.devices DeviceCommand.update_command)
      (run_command env_a DeviceCommand.update_command update_text (text "m1") world_a)
run_command-Answered_example =
    run_command-Answered env_a DeviceCommand.update_command update_text (text "m1") world_a refl

abbrev upsert_read : DeviceUpsert
upsert_read = record {
  old_name = [];
  name = dev_a;
  ip = text "127.0.0.1";
  port = pos 9001;
  sample_interval_ms = pos 1000;
  status = pos 1;
  model = text "M1";
  model_version = [];
  driver_path = [];
}

parse_device_upsert-IsFit_example : IsFit upsert_read
unfolding parse_device_upsert text parse_addr
parse_device_upsert-IsFit_example = parse_device_upsert-IsFit update_text upsert_read refl

abbrev trimmed_all : Tables
trimmed_all = trimmed_a

trim_all-IsTrimmed_example :
    IsTrimmed env_a.newest 1
      (resources_of dev_a full_a.resources)
      (resources_of dev_a trimmed_all.resources)
    × (trimmed_all.devices ≡ full_a.devices)
    × (trimmed_all.points ≡ full_a.points)
    × (trimmed_all.resource_seq ≡ full_a.resource_seq)
unfolding trim_all equal text has_row
trim_all-IsTrimmed_example =
    trim_all-IsTrimmed env_a.newest dev_a 1 full_a trimmed_all newest_a-IsTimeOrder
      (omega arith, refl, (omega arith, refl, tt)) refl

handle-IsReplyTo_example :
    (reply : Option Bytes) × (v : World) × (handle env_a (λ d. []) update_text world_a
      ≡ returned reply v)
    × IsReplyTo (λ d. []) (extract_string_field update_text (text "mid")) reply v
handle-IsReplyTo_example = handle-IsReplyTo env_a (λ d. []) update_text world_a

abbrev start_text : Bytes
start_text = text "{\"category\":\"start_device_collect\",\"device_name\":\"devA\"}"

handle-Shows_example :
    Shows
      (registry_of (durable world_a.db).devices)
      (after (handle env_a (λ d. []) start_text world_a)).db
unfolding text extract_string_field equal
handle-Shows_example = handle-Shows env_a (λ d. []) start_text world_a refl
