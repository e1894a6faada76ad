-- ===== src/Dns/Checkpoint.antt =====
-- `checkpoint` and `receipt` of scripts/pipeline/dns-reconcile.py: how far an operation has come.
use iac_modules.Common.{
  String, Bool, true, false, not, ◌&&◌, Option, none, some, [], ◌∷◌, Result, ok, err, refused,
  require, when, ◌>>=◌, ◌>>◌,
}
use iac_modules.Json.{pos, Value, bool, int, str, mapping, get, eq, is_null, is_mapping, text_value}
use iac_modules.Contracts.Target.Tables.{is_among}
use iac_modules.Dns.Record.{identity, has_exactly, is_version}

pub record State : Type 0 where
  pub record_id : Value
  pub phase : String

-- The checkpoint as it is written.
abbrev pub written : Value → State → Value
written plan s = mapping (
    ("version", int (pos 1))
    ∷ ("plan", plan)
    ∷ ("record_id", s.record_id)
    ∷ ("phase", str s.phase)
    ∷ [])

-- `{"id": ..., "record": ...}`
abbrev pub configured : Value → Value → Value
configured id entry = mapping (("id", id) ∷ ("record", entry) ∷ [])

-- What a checkpoint that was read says.
unfoldable pub read_state : Value → Value → Result State
read_state plan v = do
  require
      (is_mapping v
        && (has_exactly ("version" ∷ "plan" ∷ "record_id" ∷ "phase" ∷ []) v
            && (is_version v
                && (eq (get "plan" v) plan
                    && is_among ("prepared" ∷ "applied" ∷ "verified" ∷ "restored" ∷ [])
                        (get "phase" v)))))
      "Checkpoint binding mismatch"
  when (not (is_null (get "record_id" v))) (identity (get "record_id" v) >>= λ _. ok tt)
  when (not (is_null (get "before" plan)))
      (require (eq (get "record_id" v) (get "id" (get "before" plan))) "Checkpoint record mismatch")
  ok (record { record_id = get "record_id" v; phase = text_value (get "phase" v) })

-- The checkpoint of an operation that has begun.
unfoldable pub required_state : Value → Option Value → Result State
required_state plan none = err (refused "Required file is missing")
required_state plan (some v) = read_state plan v

unfoldable pub optional_state : Value → Option Value → Result (Option State)
optional_state plan none = ok none
optional_state plan (some v) = do s ← read_state plan v; ok (some s)

abbrev pub receipt : Value → String → Bool → Value → Bool → Value
receipt spec action changed record_id resolver_verified = mapping (
    ("version", int (pos 1))
    ∷ ("action", str action)
    ∷ ("verified", bool true)
    ∷ ("changed", bool changed)
    ∷ ("provider_verified", bool true)
    ∷ ("resolver_verified", bool resolver_verified)
    ∷ ("host_acceptance", bool false)
    ∷ ("environment", get "environment" spec)
    ∷ ("run_id", get "run_id" spec)
    ∷ ("release_tag", get "release_tag" spec)
    ∷ ("account_id", get "account_id" spec)
    ∷ ("zone_id", get "zone_id" spec)
    ∷ ("name", get "name" (get "record" spec))
    ∷ ("record_id", record_id)
    ∷ [])
