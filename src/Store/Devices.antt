-- ===== src/Store/Devices.antt =====
-- The authorised devices: who is known by a public key.
use ipgate.Base.{
  ◌≡◌, ◌==◌, ◌!=◌, nat_eq, list_eq, arith, some, List, [], ◌∷◌, if◌then◌else◌, find, Text, All,
  IsUnique, Bool-cases, Option-cases, inl, inr, IsUnique-retain, IsUnique-concat, All-retain_test,
  All-mono, find-push, find-retain_unique, length-retain_iff, keep_if, is_some, find-test,
}
use ipgate.Proto.Net.{DeviceId, DateTime}
use ipgate.Proto.Entries.{Device}
use ipgate.Store.{
  State, add_device, get_device_by_pubkey, remove_device, touch_device, touch, other_device,
}

-- No two devices share an id or a public key.
pub record HasUniqueDevices (s : State) : Type 0 where
  pub ids : IsUnique (λ d. d.id) s.devices
  pub keys : IsUnique (λ d. d.pubkey) s.devices

module _ (device : Device) (s : State) where
  -- Registering a device takes off every device with its id or its key, so both stay unique.
  pub add_device-HasUniqueDevices : HasUniqueDevices s → HasUniqueDevices (add_device device s)
  unfolding add_device
  add_device-HasUniqueDevices u = record {
    ids =
        IsUnique-concat (λ (d : Device). d.id) _ device (IsUnique-retain _ _ s.devices u.ids)
          (All-mono (λ d h. ground arith) _ (All-retain_test (other_device device) s.devices));
    keys =
        IsUnique-concat (λ (d : Device). d.pubkey) _ device (IsUnique-retain _ _ s.devices u.keys)
          (All-mono (λ d h. ground arith) _ (All-retain_test (other_device device) s.devices));
  }

  -- Its key is then known as the device; any other key is known as before, but not as a device
  -- whose id was replaced.
  pub get_device_by_pubkey-add_device :
      (key : Text)
      → HasUniqueDevices s
      → get_device_by_pubkey (add_device device s) key ≡ (
          if device.pubkey == key
          then some device
          else keep_if (λ d. d.id != device.id) (get_device_by_pubkey s key))
  unfolding add_device get_device_by_pubkey
  get_device_by_pubkey-add_device key u =
      rw (find-push, find-retain_unique (λ d. d.pubkey) key (other_device device) s.devices u.keys)
        (elim (Option-cases (find (λ d. d.pubkey == key) s.devices)) [
          | inl missing ↦ rw missing (ground arith)
          | inr (d, found) ↦
              rw found (ground (arith, find-test (λ d. d.pubkey == key) s.devices found))
        ])

module _ (id : DeviceId) (s : State) where
  -- After a device is revoked no key is known as it, and every other device stays known.
  pub get_device_by_pubkey-remove_device :
      (key : Text)
      → HasUniqueDevices s
      → get_device_by_pubkey (remove_device id s).1 key
        ≡ keep_if (λ d. d.id != id) (get_device_by_pubkey s key)
  unfolding remove_device get_device_by_pubkey
  get_device_by_pubkey-remove_device key u =
      find-retain_unique (λ d. d.pubkey) key (λ d. d.id != id) s.devices u.keys

  pub remove_device-HasUniqueDevices : HasUniqueDevices s → HasUniqueDevices (remove_device id s).1
  unfolding remove_device
  remove_device-HasUniqueDevices u = record {
    ids = IsUnique-retain _ _ s.devices u.ids;
    keys = IsUnique-retain _ _ s.devices u.keys;
  }

  -- The result says whether a device with the id was there.
  pub remove_device_found : (remove_device id s).0 ≡ is_some (find (λ d. d.id == id) s.devices)
  unfolding remove_device
  remove_device_found =
      ground
        (arith, length-retain_iff (λ d. d.id == id) (λ d. d.id != id) s.devices (λ d. ground arith))

module _ (id : DeviceId) (now : DateTime) where
  pub All-touch :
      {P : Device → Type 0} (keep : (d : Device) → P d → P (record d { last_seen = some now }))
      (ds : List Device)
      → All P ds
      → All P (touch id now ds)
  unfolding touch
  All-touch keep [] h = tt
  All-touch keep (d ∷ ds) (p, h) = elim (Bool-cases (d.id == id)) [
    | inl e ↦ rw e (keep d p, h)
    | inr e ↦ rw e (p, All-touch keep ds h)
  ]

  ids-touch : (ds : List Device) → IsUnique (λ d. d.id) ds → IsUnique (λ d. d.id) (touch id now ds)
  unfolding touch
  ids-touch [] u = tt
  ids-touch (d ∷ ds) (new, u) = elim (Bool-cases (d.id == id)) [
    | inl e ↦ rw e (new, u)
    | inr e ↦ rw e (All-touch (λ x p. p) ds new, ids-touch ds u)
  ]

  keys-touch :
      (ds : List Device) → IsUnique (λ d. d.pubkey) ds → IsUnique (λ d. d.pubkey) (touch id now ds)
  unfolding touch
  keys-touch [] u = tt
  keys-touch (d ∷ ds) (new, u) = elim (Bool-cases (d.id == id)) [
    | inl e ↦ rw e (new, u)
    | inr e ↦ rw e (All-touch (λ x p. p) ds new, keys-touch ds u)
  ]

  -- Noting the time of a login changes no id and no key.
  pub touch_device-HasUniqueDevices :
      (s : State) → HasUniqueDevices s → HasUniqueDevices (touch_device id now s)
  unfolding touch_device
  touch_device-HasUniqueDevices s u = record {
    ids = ids-touch s.devices u.ids;
    keys = keys-touch s.devices u.keys;
  }
