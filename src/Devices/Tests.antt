-- ===== src/Devices/Tests.antt =====
-- A registry with a device that is observed again.
use turbobond.Base.{ℕ, ◌≡◌, refl, false, none, some, List, [], ◌∷◌}
use turbobond.Base.TextDict.{text_lookup, text_insert}
use turbobond.Devices.{
  ConnectedDevice, TrackedDevice, DeviceRegistry, merge, merge_from, merge_one, merge_found, key,
  route_map, routes_from,
}
use turbobond.Devices.Known.{Kept, merge-Kept}

abbrev phone : ConnectedDevice ℕ
phone = record {
  mac = "aa:01";
  ip = "192.168.1.20";
  name = "";
  connection = "wifi-5";
  rssi = none;
  rx_bytes = 10;
  tx_bytes = 20;
  bonded = false;
}

abbrev tracked : TrackedDevice ℕ
tracked = record { device = phone; first_seen = 1; last_seen = 1; route = "shadow"; source = "arp" }

abbrev registry : DeviceRegistry ℕ
registry = record { default_route = "direct"; devices = ("aa:01", tracked) ∷ [] }

abbrev seen : List (ConnectedDevice ℕ)
seen = record phone { name = "phone"; rx_bytes = 5 } ∷ record phone { mac = "aa:02" } ∷ []

one_added : (merge (λ s. s) seen "router" 9 registry).0 ≡ 1
unfolding merge merge_from merge_one merge_found key text_lookup text_insert
one_added = refl

-- The map from addresses to routes.
routes : route_map registry ≡ ("192.168.1.20", "shadow") ∷ []
unfolding route_map routes_from text_insert
routes = refl

merge-Kept_example :
    (u : TrackedDevice ℕ) × (text_lookup "aa:01"
        ((merge (λ s. s) seen "router" 9 registry).1.devices)
      ≡ some u)
    × Kept tracked u
unfolding text_lookup
merge-Kept_example = merge-Kept (λ s. s) seen "router" "aa:01" 9 registry tracked refl
