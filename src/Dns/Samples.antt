-- ===== src/Dns/Samples.antt =====
-- A provider that does what it is asked, and a plan for it.
use iac_modules.Common.{String, true, false, Option, some, [], ◌∷◌, ok, if◌then◌else◌}
use iac_modules.Json.{
  pos, Value, null, bool, int, str, obj, arr, nil, cons, end, texts, mapping, put, is_null,
}
use iac_modules.Dns.Record.{Ipv4}
use iac_modules.Dns.Host.{
  Request, read_zone, list_records, create_record, update_record, delete_record, Host, Step,
}

-- The record that stands at the provider, or null, and the checkpoint file.
pub record World : Type 0 where
  pub stands : Value
  pub file : Option Value

abbrev account_id : String
account_id = "aaaaaaaaaaaaaaaaaaaaaaaaaaaaaaaa"

abbrev zone_id : String
zone_id = "bbbbbbbbbbbbbbbbbbbbbbbbbbbbbbbb"

abbrev pub record_id : String
record_id = "cccccccccccccccccccccccccccccccc"

abbrev answer : Value → Value
answer result = mapping (("success", bool true) ∷ ("result", result) ∷ [])

abbrev the_zone : Value
the_zone = mapping (
    ("id", str zone_id)
    ∷ ("name", str "example.com")
    ∷ ("status", str "active")
    ∷ ("account", mapping (("id", str account_id) ∷ []))
    ∷ [])

abbrev answers : Request → Step World Value
answers (read_zone z) w = (ok (answer the_zone), w)
answers (list_records z n) w =
    (ok (answer (arr (if is_null w.stands then nil else cons w.stands nil))), w)
answers (create_record z r) w =
    let made = put "id" (str record_id) r in
    (ok (answer made), record { stands = made; file = w.file })
answers (update_record z id r) w =
    let made = put "id" id r in (ok (answer made), record { stands = made; file = w.file })
answers (delete_record z id) w =
    (ok (answer (mapping (("id", id) ∷ []))), record { stands = null; file = w.file })

abbrev pub host : Host World
host = record {
  send = answers;
  load = λ w. (ok w.file, w);
  save = λ v w. (ok tt, record { stands = w.stands; file = some v });
  lock = λ w. (ok tt, w);
  converges = λ name address w. (ok true, w);
}

abbrev pub ipv4 : Ipv4
ipv4 = record { reads = λ v. true; is_global = λ v. true }

abbrev wanted : Value
wanted = mapping (
    ("type", str "A")
    ∷ ("name", str "gateway.example.com")
    ∷ ("content", str "8.8.4.4")
    ∷ ("ttl", int (pos 60))
    ∷ ("proxied", bool false)
    ∷ [])

abbrev pub spec : Value
spec = mapping (
    ("version", int (pos 1))
    ∷ ("environment", str "uat")
    ∷ ("run_id", str "1")
    ∷ ("release_tag", str "v1")
    ∷ ("account_id", str account_id)
    ∷ ("zone_id", str zone_id)
    ∷ ("zone_name", str "example.com")
    ∷ ("owner_tag", str "owner:gateway")
    ∷ ("record", wanted)
    ∷ ("expected_record_id", null)
    ∷ [])

abbrev pub desired : Value
desired = mapping (
    ("comment", str "")
    ∷ ("tags", texts ("owner:gateway" ∷ []))
    ∷ ("settings", obj end)
    ∷ ("type", str "A")
    ∷ ("name", str "gateway.example.com")
    ∷ ("content", str "8.8.4.4")
    ∷ ("ttl", int (pos 60))
    ∷ ("proxied", bool false)
    ∷ [])

abbrev pub plan : Value
plan =
    mapping
      (("version", int (pos 1)) ∷ ("intent", spec) ∷ ("before", null) ∷ ("desired", desired) ∷ [])
