-- ===== src/Devices.antt =====
-- turbobond/lan/devices.py: the registry of the devices on the network. `lower` stands for `str.lower`,
-- and a signal strength, which is only copied, is of any type.
pub mod Known
mod Tests
use turbobond.Base.{
  ℕ, ◌+◌, ◌≤◌, max, Bool, true, false, not, ◌&&◌, ◌||◌, Option, none, some, List, [], ◌∷◌, leb,
  if◌then◌else◌,
}
use turbobond.Base.Text.{text_eq, is_empty, or_text}
use turbobond.Base.TextDict.{TextDict, text_lookup, text_insert}
use Prim.Native.String.{String}

pub record ConnectedDevice (R : Type 0) : Type 0 where
  pub mac : String
  pub ip : String
  pub name : String
  pub connection : String
  pub rssi : Option R
  pub rx_bytes : ℕ
  pub tx_bytes : ℕ
  pub bonded : Bool

pub record TrackedDevice (R : Type 0) : Type 0 where
  pub device : ConnectedDevice R
  pub first_seen : ℕ
  pub last_seen : ℕ
  pub route : String
  pub source : String

pub record DeviceRegistry (R : Type 0) : Type 0 where
  pub default_route : String
  pub devices : TextDict (TrackedDevice R)

-- `if new and not old: old = new`
unfoldable pub fill : String → String → String
fill new old = if not (is_empty new) && is_empty old then new else old

module _ {R : Type 0} where
  unfoldable pub latest : Option R → Option R → Option R
  latest none old = old
  latest (some r) old = some r

  -- What an observation changes of a device that is known.
  unfoldable pub observe : ConnectedDevice R → String → ℕ → TrackedDevice R → TrackedDevice R
  observe d source now t = record t {
    last_seen = now;
    source = source;
    device = record (t.device) {
      name = fill (d.name) (t.device.name);
      ip = fill (d.ip) (t.device.ip);
      connection = fill (d.connection) (t.device.connection);
      rssi = latest (d.rssi) (t.device.rssi);
      rx_bytes = max (t.device.rx_bytes) (d.rx_bytes);
      tx_bytes = max (t.device.tx_bytes) (d.tx_bytes);
    };
  }

  -- `ConnectedDevice.key`
  unfoldable pub key : (String → String) → ConnectedDevice R → String
  key lower d = lower (or_text (d.mac) (d.ip))

  -- One observation, with what the registry holds under its key.
  unfoldable pub merge_found :
      String
      → ConnectedDevice R
      → String
      → ℕ
      → Option (TrackedDevice R)
      → ℕ × DeviceRegistry R
      → ℕ × DeviceRegistry R
  merge_found k d source now none (added, g) = (
    added + 1,
    record g {
      devices =
          text_insert k
            (record {
              device = d;
              first_seen = now;
              last_seen = now;
              route = g.default_route;
              source = source;
            })
            (g.devices);
    },
  )
  merge_found k d source now (some t) (added, g) =
      (added, record g { devices = text_insert k (observe d source now t) (g.devices) })

  unfoldable pub merge_one :
      (String → String)
      → ConnectedDevice R
      → String
      → ℕ
      → ℕ × DeviceRegistry R
      → ℕ × DeviceRegistry R
  merge_one lower d source now (added, g) =
      let k = key lower d in
      if is_empty k
      then (added, g)
      else merge_found k d source now (text_lookup k (g.devices)) (added, g)

  -- The loop of `merge`, with the devices that were added so far; the batch has one time.
  unfoldable pub merge_from :
      (String → String)
      → List (ConnectedDevice R)
      → String
      → ℕ
      → ℕ × DeviceRegistry R
      → ℕ × DeviceRegistry R
  merge_from lower [] source now r = r
  merge_from lower (d ∷ ds) source now r =
      merge_from lower ds source now (merge_one lower d source now r)

  unfoldable pub merge :
      (String → String)
      → List (ConnectedDevice R)
      → String
      → ℕ
      → DeviceRegistry R
      → ℕ × DeviceRegistry R
  merge lower ds source now g = merge_from lower ds source now (0, g)

  unfoldable pub mark_each : Bool → TextDict (TrackedDevice R) → TextDict (TrackedDevice R)
  mark_each bonded [] = []
  mark_each bonded ((k, t) ∷ ts) =
      (k, record t { device = record (t.device) { bonded = bonded } }) ∷ mark_each bonded ts

  unfoldable pub mark_bonded : Bool → DeviceRegistry R → DeviceRegistry R
  mark_bonded bonded g = record g { devices = mark_each bonded (g.devices) }

  -- `set_route`, with what the registry holds under the key.
  unfoldable pub set_route_of :
      String → String → Option (TrackedDevice R) → DeviceRegistry R → Bool × DeviceRegistry R
  set_route_of k route none g = (false, g)
  set_route_of k route (some t) g =
      if not (text_eq route "direct" || text_eq route "shadow")
      then (false, g)
      else (true, record g { devices = text_insert k (record t { route = route }) (g.devices) })

  unfoldable pub set_route :
      (String → String) → String → String → DeviceRegistry R → Bool × DeviceRegistry R
  set_route lower k route g = set_route_of (lower k) route (text_lookup (lower k) (g.devices)) g

  -- The dict comprehension of `route_map`, on the entries made so far: a later device wins.
  unfoldable pub routes_from : TextDict (TrackedDevice R) → TextDict String → TextDict String
  routes_from [] m = m
  routes_from ((k, t) ∷ ts) m =
      routes_from ts (if is_empty (t.device.ip) then m else text_insert (t.device.ip) (t.route) m)

  unfoldable pub route_map : DeviceRegistry R → TextDict String
  route_map g = routes_from (g.devices) []
