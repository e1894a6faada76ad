-- ===== src/Cmdb/Samples.antt =====
-- Resources and the readers that the tests of the CMDB read them with.
use iac_modules.Common.{true, false, some, [], ◌∷◌, ◌==◌, if◌then◌else◌}
use iac_modules.Json.{Value, null, str, mapping, fields_of}
use iac_modules.Cmdb.Endpoint.{Readers}
use iac_modules.Cmdb.Environment.{joined}
use iac_modules.Cmdb.Resource.{Scope}
use iac_modules.Cmdb.Document.{Making}

-- Two times, the later of which is "late".
abbrev pub readers : Readers
readers = record {
  show = λ v. "";
  ip_address = λ s. some (record { unspecified = false; loopback = false });
  moment = λ s. some (record { zoned = true; instant = if s == "late" then 2 else 1 });
  now = "early";
}

abbrev pub scope : Scope
scope = record {
  cloud_provider = "gcp-cloud";
  environment = "dev";
  project_id = str "p";
  default_region = str "eu";
  observed_at = str "early";
}

abbrev pub vm : Value
vm = mapping (("id", str "7") ∷ ("ip", str "192.0.2.7") ∷ [])

abbrev pub worker : Value
worker =
    mapping
      (("id", str "7") ∷ ("runtime_form", str "serverless") ∷ ("last_observed_at", str "late") ∷ [])

abbrev pub making : Making
making = record {
  cloud_provider = "gcp-cloud";
  resource_paths = joined "resources/dev/a.yaml";
  project_id = str "p";
  environment = null;
  default_region = str "eu";
  observed_at = str "early";
  legacy = fields_of [];
  variable = "";
}
