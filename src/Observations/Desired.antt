-- ===== src/Observations/Desired.antt =====
-- `_normalize_desired_entry` of terraform-hcl-standard/scripts/cmdb_observations_v1.py, and the state
-- that `reconcile_observations` begins with.
use iac_modules.Common.{
  String, true, ◌&&◌, none, some, List, [], ◌∷◌, member, ◌==◌, Dict, lookup, store, Result, ok,
  require, expect, ◌>>=◌, ◌>>◌, if◌then◌else◌,
}
use iac_modules.Json.{Value, null, str, arr, nil, get, get_or, put, mapping, is_mapping, eq}
use iac_modules.Cmdb.Words.{strip, text_of, text_or, first_of}
use iac_modules.Cmdb.Keys.{mapping_at, word}
use iac_modules.Cmdb.Endpoint.{Readers}
use iac_modules.Cmdb.Document.{set_default}
use iac_modules.Observations.Checks.{normalize_provider, normalize_native_resource_id}
use iac_modules.Observations.Keys.{
  plain, classify_runtime_form, infer_observation_region, resource_key, canonical_id,
}
use iac_modules.Observations.Item.{scopes}

-- The kind that a desired resource is of, by its form.
unfoldable pub desired_kind : String → String → String
desired_kind form raw =
    if form == "serverless" && raw == "serverless"
    then "serverless_service"
    else if member form ("vm" ∷ "k3s_node" ∷ []) && member raw ("vm" ∷ "k3s_node" ∷ [])
    then "compute"
    else raw

module _ (r : Readers) where
  -- What a desired entry says of itself, before its form and its region are known.
  unfoldable pub desired_facts : String → String → String → String → String → Value → Value
  desired_facts provider scope project kind id item = mapping (
      ("provider", str provider)
      ∷ (
        "account_ref",
        str (
            strip (
              text_of r.show
                (first_of (get "account_ref" item ∷ get "account" item ∷ str project ∷ [])))),
      )
      ∷ ("project_ref", str project)
      ∷ ("resource_kind", str kind)
      ∷ ("runtime_form", get "runtime_form" item)
      ∷ ("native_resource_id", str id)
      ∷ ("region", first_of (get "region" item ∷ get "cloud_region" item ∷ []))
      ∷ ("zone", get "zone" item)
      ∷ ("scope", str scope)
      ∷ ("environment", str scope)
      ∷ ("name", str (text_of r.show (first_of (get "name" item ∷ str id ∷ []))))
      ∷ ("groups", first_of (get "groups" item ∷ arr nil ∷ []))
      ∷ ("attributes", mapping_at "attributes" item)
      ∷ [])

  unfoldable pub desired_record : String → String → String → Value → Value → Value
  desired_record key id form facts item =
      let serverless = form == "serverless" in
      let name = get "name" facts in
      mapping (
        ("resource_key", str key)
        ∷ ("canonical_id", str id)
        ∷ ("provider", get "provider" facts)
        ∷ ("account_ref", get "account_ref" facts)
        ∷ ("project_ref", get "project_ref" facts)
        ∷ ("region", get "region" facts)
        ∷ ("scope", get "scope" facts)
        ∷ ("environment", get "scope" facts)
        ∷ ("resource_kind", get "resource_kind" facts)
        ∷ ("runtime_form", str form)
        ∷ ("native_resource_id", get "native_resource_id" facts)
        ∷ ("name", name)
        ∷ (
          "ssh_host",
          if serverless then null else first_of (get "ssh_host" item ∷ get "ip" item ∷ []),
        )
        ∷ (
          "primary_ip",
          if serverless then null else first_of (get "primary_ip" item ∷ get "ip" item ∷ []),
        )
        ∷ ("service", str (strip (text_of r.show (first_of (get "service" item ∷ name ∷ [])))))
        ∷ ("cluster", str (plain r (get "cluster" item)))
        ∷ ("namespace", str (plain r (get "namespace" item)))
        ∷ (
          "node",
          str (
              strip (
                text_of r.show (
                  first_of (
                    get "node" item
                    ∷ (if member form ("vm" ∷ "k3s_node" ∷ []) then name else str "")
                    ∷ [])))),
        )
        ∷ [])

  module _ (quote : String → String) where
    unfoldable pub normalize_desired_entry : Value → Result (String × Value)
    unfolding desired_facts desired_record desired_kind
    normalize_desired_entry item = do
      expect (is_mapping item)
      provider ←
          normalize_provider (first_of (get "provider" item ∷ get "cloud_provider" item ∷ []))
      let scope =
          word r.show (first_of (get "environment" item ∷ get "scope" item ∷ str "unknown" ∷ []))
      require (member scope scopes) "environment must be one of the scopes"
      let project = plain r (
          first_of (
            get "project_ref" item
            ∷ get "project_id" item
            ∷ get "account_ref" item
            ∷ get "account" item
            ∷ []))
      let raw_kind =
          word r.show
            (first_of (get "resource_kind" item ∷ get "runtime_form" item ∷ str "compute" ∷ []))
      native ← normalize_native_resource_id (
          first_of (
            get "native_resource_id" item
            ∷ get "resource_id" item
            ∷ get "instance_id" item
            ∷ get "name" item
            ∷ []))
      let facts = desired_facts provider scope project raw_kind native item
      form ← classify_runtime_form r facts
      region ← infer_observation_region r facts ""
      let placed =
          put "resource_kind" (str (desired_kind form raw_kind))
            (put "runtime_form" (str form) (put "region" (str region) facts))
      key ← resource_key r placed ""
      id ← canonical_id r quote placed
      ok (key, desired_record key id form placed item)

    unfoldable pub read_desired : List Value → Dict Value → Result (Dict Value)
    unfolding eq
    read_desired [] desired = ok desired
    read_desired (item ∷ rest) desired = do
      entry ← normalize_desired_entry item
      require
          (elim (lookup entry.0 desired) [
            | none ↦ true
            | some old ↦ eq (get "environment" old) (get "environment" entry.1)
          ])
          "conflicting desired environment"
      read_desired rest (store entry.0 entry.1 desired)

    abbrev lifecycle_by : String → String
    lifecycle_by status =
        if status == "deleted"
        then "deletion_confirmed"
        else if status == "unobserved"
        then "never_observed"
        else "present"

    -- A record of the prior state, with what it leaves out.
    unfoldable pub read_prior_entry : Value → Result (String × Value)
    read_prior_entry item = do
      expect (is_mapping item)
      let named = text_or r.show (get "resource_key" item)
      key ← (if named == "" then resource_key r item "" else ok named)
      id ← canonical_id r quote (put "resource_key" (str key) item)
      form ← classify_runtime_form r item
      let known =
          set_default "runtime_form" (str form)
            (set_default "canonical_id" (str id) (put "resource_key" (str key) item))
      let scoped = set_default "environment" (get_or "scope" (str "unknown") known) known
      let whole = set_default "scope" (get_or "environment" (str "unknown") scoped) scoped
      let last = first_of (get "last_observed_at" whole ∷ get "observed_at" whole ∷ [])
      let status =
          text_of r.show
            (first_of (get "status" whole ∷ get "observation_status" whole ∷ str "active" ∷ []))
      ok (
        key,
        set_default "lifecycle" (str (lifecycle_by status)) (
            put "observation_status" (str status) (
              put "status" (str status) (
                put "last_observed_at" last
                  (put "observed_at" (first_of (get "observed_at" whole ∷ last ∷ [])) whole)))),
      )

    unfoldable pub read_prior : List Value → Dict Value → Result (Dict Value)
    unfolding read_prior_entry
    read_prior [] state = ok state
    read_prior (item ∷ rest) state = do
      entry ← read_prior_entry item
      read_prior rest (store entry.0 entry.1 state)

  -- A resource that is declared and was never observed.
  abbrev never_observed : Value → Value
  never_observed desired = put "observed_match" (str "declared_only") (
      put "provider_state" (str "unobserved") (
        put "last_observed_at" null (
          put "observed_at" null (
            put "lifecycle" (str "never_observed") (
              put "observation_status" (str "unobserved")
                (put "status" (str "unobserved") desired))))))

  unfoldable pub declare : Dict Value → Dict Value → Dict Value
  declare [] state = state
  declare ((key, desired) ∷ rest) state =
      declare rest (elim (lookup key state) [
        | none ↦ store key (never_observed desired) state
        | some _ ↦ state
      ])
