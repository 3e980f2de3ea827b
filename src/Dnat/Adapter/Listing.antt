-- ===== src/Dnat/Adapter/Listing.antt =====
-- What a client reads in the list it may send back.
use ipgate.Base.{
  list_eq, nat_eq, true, some, List, [], ◌∷◌, map, Text, ◌≡◌, refl, arith, All, All-mono, any,
}
use ipgate.Proto.Forwards.{UnifiedForwardView}
use ipgate.Dnat.Conf.{DnatRule, prefix_key, DnatState}
use ipgate.Dnat.Conf.Removal.{has_key}
use ipgate.Dnat.Adapter.{DnatHost, rules, list, dnat_view, decode_key, encode_key, parse_state}

-- base64url is read back.
abbrev pub Decodes : {D : Type 0} → DnatHost D → Type 0
Decodes host = (p : Text) → host.decode (host.encode p) ≡ some p

-- The key of the view is the encoding of a prefix key that some rule has.
abbrev pub IsDeletable : {D : Type 0} → DnatHost D → D → UnifiedForwardView → Type 0
IsDeletable host d v =
    (key : Text) × (prefix : Text) × (v.dnat_key ≡ some key)
    × (decode_key host key ≡ some prefix)
    × (any (has_key prefix) (rules host d) ≡ true)

has_key_self : (r : DnatRule) → has_key (prefix_key r) r ≡ true
has_key_self r = ground arith

keys_of :
    {D : Type 0} (host : DnatHost D) (d : D) (state : DnatState) (rs : List DnatRule)
    → Decodes host
    → All (λ r. any (has_key (prefix_key r)) (rules host d) ≡ true) rs
    → All (IsDeletable host d) (map (dnat_view host state) rs)
unfolding dnat_view encode_key decode_key
keys_of host d state [] dec h = tt
keys_of host d state (r ∷ rs) dec (hr, h) = (
  (host.encode (prefix_key r), prefix_key r, refl, dec (prefix_key r), hr),
  keys_of host d state rs dec h,
)

own_keys : (rs : List DnatRule) → All (λ r. any (has_key (prefix_key r)) rs ≡ true) rs
unfolding any
own_keys [] = tt
own_keys (r ∷ rs) = (rw (has_key_self r), All-mono (λ x h. ground (arith, h)) rs (own_keys rs))

-- Every forward of dnat that is listed has a key that decodes to the prefix key of a rule, so that
-- a deletion by this key finds one, where base64url is read back.
pub list-IsDeletable :
    {D : Type 0} (host : DnatHost D) (d : D) → Decodes host → All (IsDeletable host d) (list host d)
unfolding list rules
list-IsDeletable host d dec =
    keys_of host d (parse_state host (host.state_text d)) (rules host d) dec
      (own_keys (rules host d))
