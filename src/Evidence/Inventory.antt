-- ===== src/Evidence/Inventory.antt =====
-- `sanitize_inventory` of scripts/pipeline/unified/evidence.py: what of an inventory is published.
-- The module `ipaddress` and `str` of a value are parameters.
pub mod Laws
mod Tests
use Prim.Native.String
use Prim.Native.Char.{Char}
use iac_modules.Common.{
  ℕ, zero, suc, String, Bool, true, false, not, ◌&&◌, ◌||◌, Option, none, some, List, [], ◌∷◌, ◌++◌,
  all, member, eqb, leb, one_of, is_alnum, is_digit, all_chars, size, head_tail, starts_with,
  contains, drop, ◌==◌, Result, ok, err, malformed, refused, require, expect, when, each, ◌>>=◌,
  ◌>>◌, if◌then◌else◌,
}
use iac_modules.Json.{
  ℤ, pos, Value, Fields, int, str, obj, arr, nil, end, field, get, get_or, has, put, set,
  is_mapping, is_str, is_bool, truthy, holds, str_such, elems, keys, fields, eq, text_value,
}

-- What the source asks of an address that `ipaddress.ip_address` reads.
pub record Address : Type 0 where
  pub unspecified : Bool
  pub loopback : Bool
  pub multicast : Bool

-- What `ipaddress.ip_interface` reads, with `str(interface.ip)`.
pub record Interface : Type 0 where
  pub version : ℕ
  pub prefix : ℕ
  pub ip : String

-- The module `ipaddress`, where nothing stands for its ValueError, and `str`.
pub record Addresses : Type 0 where
  pub address : Value → Option Address
  pub interface : String → Option Interface
  pub show : Value → String

abbrev pub permitted : List String
permitted =
    "name" ∷ "fqdn" ∷ "label" ∷ "ip" ∷ "private_ip" ∷ "ipv6" ∷ "instance_id" ∷ "region" ∷ "type"
    ∷ "image" ∷ "groups" ∷ "ansible_user" ∷ "cloud_provider" ∷ "data_volume" ∷ []

abbrev pub host_variables : List String
host_variables =
    "role" ∷ "cloud_provider" ∷ "cloud_region" ∷ "plan" ∷ "image" ∷ "service_domains"
    ∷ "xconnect_role" ∷ "target_generation" ∷ "deployment_mode" ∷ []

abbrev pub dev_variables : List String
dev_variables =
    "k3s_platform_node_name" ∷ "k3s_platform_cluster_name" ∷ "k3s_platform_k3s_version"
    ∷ "k3s_platform_write_kubeconfig_mode" ∷ []

-- `[A-Za-z0-9][A-Za-z0-9_.-]{0,most}`
abbrev pub is_name : ℕ → String → Bool
is_name most s = head_tail is_alnum (λ c. is_alnum c || one_of "_.-" c) most s

-- An address with a prefix of 128 stands for itself.
unfoldable pub plain_ipv6 : Addresses → Value → Result Value
plain_ipv6 a facts =
    if str_such (λ s. contains s "/") (get "ipv6" facts)
    then (do
      interface ← elim (a.interface (text_value (get "ipv6" facts))) [
        | none ↦ err malformed
        | some i ↦ ok i
      ]
      require (eqb interface.version 6 && eqb interface.prefix 128)
          "single IPv6 host address required"
      ok (put "ipv6" (str interface.ip) facts))
    else ok facts

unfoldable pub check_address : Addresses → Value → String → Result (Unit {0})
check_address a facts key = when (truthy (get key facts)) (do
  address ← elim (a.address (get key facts)) [ none ↦ err malformed | some x ↦ ok x ]
  require (not address.unspecified && (not address.loopback && not address.multicast))
      "invalid deployment address")

abbrev letters : String → List Value
letters String.[] = []
letters (String.◌∷◌ c cs) = str (String.◌∷◌ c String.[]) ∷ letters cs

abbrev names_of : Fields → List Value
names_of end = []
names_of (field k v fs) = str k ∷ names_of fs

-- What a loop over the value goes through.
abbrev pub iterated : Value → Result (List Value)
iterated (arr xs) = ok (elems xs)
iterated (obj fs) = ok (names_of fs)
iterated (str s) = ok (letters s)
iterated v = err malformed

abbrev pub keep_fields : List String → Fields → Fields
keep_fields names end = end
keep_fields names (field k v fs) =
    let rest = keep_fields names fs in if member k names then field k v rest else rest

-- `str(v).isdigit() and int(v) > 0`
abbrev pub is_positive : Value → Bool
is_positive (int (pos n)) = not (eqb n 0)
is_positive (str s) = not (s == "") && (all_chars is_digit s && not (all_chars (eqb b'0') s))
is_positive v = false

abbrev pub volume_keys : List String
volume_keys = "filesystem_path" ∷ "label" ∷ "linode_id" ∷ "region" ∷ "size_gb" ∷ "volume_id" ∷ []

abbrev pub is_device_path : String → Bool
is_device_path s =
    starts_with s "/dev/disk/by-id/"
    && (not (drop 16 s == "") && all_chars (λ c. is_alnum c || one_of "._+-" c) (drop 16 s))

abbrev pub is_volume_label : String → Bool
is_volume_label s =
    not (s == "") && (leb (size s) 32 && all_chars (λ c. is_alnum c || one_of "_-" c) s)

abbrev pub chosen_fields : List String → Value → Fields
chosen_fields [] v = end
chosen_fields (k ∷ ks) v = field k (get k v) (chosen_fields ks v)

-- `data_volume`, with the keys that identify it.
unfoldable pub clean_volume : Addresses → Value → Result Value
clean_volume a facts = do
  let volume = get "data_volume" facts
  require (is_mapping volume && all (λ k. has k volume) volume_keys)
      "data volume identity is incomplete"
  each
      (λ k.
        require (not (is_bool (get k volume)) && is_positive (get k volume))
          "invalid data volume numeric identity")
      ("volume_id" ∷ "linode_id" ∷ "size_gb" ∷ [])
  require (a.show (get "linode_id" volume) == a.show (get "instance_id" facts))
      "data volume belongs to another instance"
  require (eq (get "region" volume) (get "region" facts)) "data volume region differs from instance"
  require (str_such is_volume_label (get "label" volume)) "invalid data volume label"
  require (str_such is_device_path (get "filesystem_path" volume))
      "data volume requires a stable device path"
  ok (obj (chosen_fields volume_keys volume))

-- The variables that a host may publish.
abbrev pub published : Value → List String
published groups = if holds "dev" groups then host_variables ++ dev_variables else host_variables

-- The permitted facts, with the volume as it is cleaned.
unfoldable pub clean_facts : Addresses → Value → Result Fields
clean_facts a facts =
    let kept = keep_fields permitted (fields facts) in
    if has "data_volume" facts
    then (do volume ← clean_volume a facts; ok (set "data_volume" volume kept))
    else ok kept

unfoldable pub sanitize_host : Addresses → String → Value → Result Value
sanitize_host a name given = do
  require (is_name 252 name) "invalid inventory hostname"
  require (is_mapping given) "invalid inventory host"
  facts ← plain_ipv6 a given
  each (check_address a facts) ("ip" ∷ "private_ip" ∷ "ipv6" ∷ [])
  let groups = get_or "groups" (arr nil) facts
  members ← iterated groups
  require (all (str_such (is_name 126)) members) "invalid inventory group"
  clean ← clean_facts a facts
  let variables = get_or "host_vars" (obj end) facts
  expect (is_mapping variables)
  ok (obj (set "host_vars" (obj (keep_fields (published groups) (fields variables))) clean))

unfoldable pub sanitize_hosts : Addresses → Fields → Result Fields
sanitize_hosts a end = ok end
sanitize_hosts a (field name facts rest) = do
  host ← sanitize_host a name facts
  others ← sanitize_hosts a rest
  ok (field name host others)

unfoldable pub sanitize_inventory : Addresses → Value → Result Value
sanitize_inventory a raw = do
  require (is_mapping raw) "inventory must be a mapping"
  clean ← sanitize_hosts a (fields raw)
  ok (obj clean)
