-- ===== src/Evidence/Inventory/Tests.antt =====
-- An inventory that is published, and the law at it.
use iac_modules.Common.{◌≡◌, refl, false, some, [], ◌∷◌, ok, starts_with, contains}
use iac_modules.Json.{Value, str, mapping, texts, fields, find, set, eq}
use iac_modules.Evidence.Inventory.{
  Addresses, plain_ipv6, check_address, clean_facts, clean_volume, sanitize_host, sanitize_hosts,
  sanitize_inventory,
}
use iac_modules.Evidence.Inventory.Laws.{ArePublishable, sanitize_inventory-ArePublishable}

-- Addresses that are all public.
abbrev addresses : Addresses
addresses = record {
  address = λ v. some (record { unspecified = false; loopback = false; multicast = false });
  interface = λ s. some (record { version = 6; prefix = 128; ip = "2001:db8::7" });
  show = λ v. "";
}

abbrev raw : Value
raw = mapping (
    (
      "node-1",
      mapping (
          ("ip", str "192.0.2.7")
          ∷ ("ipv6", str "2001:db8::7/128")
          ∷ ("root_pass", str "secret")
          ∷ ("groups", texts ("web" ∷ []))
          ∷ ("host_vars", mapping (("role", str "web") ∷ ("token", str "secret") ∷ []))
          ∷ []),
    )
    ∷ [])

abbrev clean : Value
clean = mapping (
    (
      "node-1",
      mapping (
          ("ip", str "192.0.2.7")
          ∷ ("ipv6", str "2001:db8::7")
          ∷ ("groups", texts ("web" ∷ []))
          ∷ ("host_vars", mapping (("role", str "web") ∷ []))
          ∷ []),
    )
    ∷ [])

is_clean : sanitize_inventory addresses raw ≡ ok clean
unfolding sanitize_inventory sanitize_hosts sanitize_host plain_ipv6 check_address clean_facts
    clean_volume find set eq starts_with contains
is_clean = refl

sanitize_inventory-ArePublishable_example : ArePublishable addresses (fields raw) (fields clean)
sanitize_inventory-ArePublishable_example =
    sanitize_inventory-ArePublishable addresses raw clean is_clean
