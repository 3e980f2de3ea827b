-- ===== src/Proto/Entries.antt =====
-- proto/src/entry.rs, and `Device` of proto/src/auth.rs
use ipgate.Base.{Bool, false, Option, none, some, List, ℕ, Text, leb}
use ipgate.Proto.Net.{DeviceId, EntryId, DateTime, IpNet}

pub record Entry : Type 0 where
  pub id : EntryId
  pub target : IpNet
  pub note : Text
  pub expires_at : Option DateTime
  pub created_at : DateTime
  pub created_by : DeviceId

unfoldable pub is_past : Option DateTime → DateTime → Bool
is_past none now = false
is_past (some t) now = leb t now

unfoldable pub is_expired : Entry → DateTime → Bool
unfolding is_past
is_expired e now = is_past e.expires_at now

pub record AllowRequest : Type 0 where
  pub target : IpNet
  pub note : Text
  pub expires_at : Option DateTime

pub data RevokeRequest : Type 0 where
  by_id : EntryId → RevokeRequest
  by_target : IpNet → RevokeRequest

pub record Allowlist : Type 0 where
  pub entries : List Entry
  pub revision : ℕ

-- `pubkey` is the base64 text of the Noise static key.
pub record Device : Type 0 where
  pub id : DeviceId
  pub name : Text
  pub pubkey : Text
  pub created_at : DateTime
  pub last_seen : Option DateTime
