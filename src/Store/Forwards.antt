-- ===== src/Store/Forwards.antt =====
-- The forwarding rules and their cache of resolved targets.
use ipgate.Base.{
  ◌⊎◌, subst, sym, inl, inr, Option-cases, ◌≡◌, ◌==◌, ◌!=◌, nat_eq, list_eq, option_eq, ◌&&◌, arith,
  Option, none, some, List, [], ◌∷◌, if◌then◌else◌, find, Text, IsUnique, IsUnique-retain,
  IsUnique-concat, All-retain_test, All-mono, find-retain_key, length-retain_iff, is_some,
}
use ipgate.Base.Maps.{erase, lookup-erase}
use ipgate.Proto.Net.{DeviceId, ForwardId, DateTime, Ipv4Addr}
use ipgate.Proto.Ports.{range_eq, PortRange}
use ipgate.Proto.Forwards.{ForwardRule, AddForwardRequest}
use ipgate.Store.{
  bump, State, add_forward, update_forward, edit_first, edit_rule, remove_forward, find_forward,
  resolved_ip, other_listener,
}

-- The listener of a rule: its interface, as written, and its ports.
abbrev pub listener : ForwardRule → Option Text × PortRange
listener f = (f.iface, f.listen)

abbrev pub HasUniqueListeners : State → Type 0
HasUniqueListeners s = IsUnique listener s.forwards

-- A rule that is added takes the place of the rules with its listener, so listeners stay unique.
pub add_forward-HasUniqueListeners :
    (id : ForwardId) (req : AddForwardRequest) (by : DeviceId) (now : DateTime) (s : State)
    → HasUniqueListeners s
    → HasUniqueListeners (add_forward id req by now s).1
unfolding add_forward
add_forward-HasUniqueListeners id req by now s u =
    IsUnique-concat listener _ _ (IsUnique-retain _ _ s.forwards u)
      (All-mono (λ f h. ground arith) _ (All-retain_test (other_listener req) s.forwards))

find-edit_first :
    (id j : ForwardId) (req : AddForwardRequest) (fs : List ForwardRule)
    → find (λ f. f.id == j) (edit_first id req fs) ≡ (
        if id == j
        then elim (find (λ f. f.id == id) fs) [ none ↦ none | some f ↦ some (edit_rule req f) ]
        else find (λ f. f.id == j) fs)
unfolding find edit_first
find-edit_first id j req [] = ground arith
find-edit_first id j req (f ∷ fs) = ground (arith, find-edit_first id j req fs)

module _ (id : ForwardId) (req : AddForwardRequest) (s : State) where
  -- An update of an id that finds a rule reports the edited rule, which the id finds from then on,
  -- and every other id finds what it did.
  pub update_forward_lem :
      (rule : ForwardRule)
      → find_forward s id ≡ some rule
      → ((update_forward id req s).0 ≡ some (edit_rule req rule))
        × ((j : ForwardId)
            → find_forward (update_forward id req s).1 j
              ≡ (if id == j then some (edit_rule req rule) else find_forward s j))
  unfolding update_forward
  update_forward_lem rule h =
      (ground arith, λ j. ground (arith, find-edit_first id j req s.forwards))

  -- The address that an id was resolved to is forgotten when the host changes, and kept otherwise.
  pub resolved_ip-update_forward :
      (rule : ForwardRule) (j : ForwardId)
      → find_forward s id ≡ some rule
      → resolved_ip (update_forward id req s).1 j
        ≡ (if id == j && (rule.dest_host != req.dest_host) then none else resolved_ip s j)
  unfolding update_forward resolved_ip
  resolved_ip-update_forward rule j h = ground (arith, lookup-erase id j s.resolved)

-- After a removal the id finds no rule, and its resolved address is gone if there was one; other ids
-- find what they did, and the result says whether the rule was there.
pub remove_forward_lem :
    (id j : ForwardId) (s : State)
    → (find_forward (remove_forward id s).1 j ≡ (if id == j then none else find_forward s j))
      × ((remove_forward id s).0 ≡ is_some (find_forward s id))
      × (resolved_ip (remove_forward id s).1 j
          ≡ (if id == j && is_some (find_forward s id) then none else resolved_ip s j))
unfolding remove_forward find_forward resolved_ip
remove_forward_lem id j s =
    let l = length-retain_iff (λ f. f.id == id) (λ f. f.id != id) s.forwards (λ f. ground arith) in
    let c = lookup-erase id j s.resolved in
    (
      find-retain_key (λ (f : ForwardRule). f.id) id j s.forwards,
      ground (arith, l),
      ground (arith, l, c),
    )

-- An update leaves the store, or edits the first rule with the id.
update_forward_store :
    (id : ForwardId) (req : AddForwardRequest) (s : State)
    → ((update_forward id req s).1 ≡ s)
      ⊎ ((m : List (ForwardId × Ipv4Addr)) × ((update_forward id req s).1 ≡ record s {
        forwards = edit_first id req s.forwards;
        forward_revision = bump s.forward_revision;
        resolved = m;
      }))
unfolding update_forward
update_forward_store id req s = elim (Option-cases (find_forward s id)) [
  | inl missing ↦ inl (ground arith)
  | inr (rule, found) ↦
      inr
        (if rule.dest_host == req.dest_host then s.resolved else erase id s.resolved, ground arith)
]

-- What holds of the store holds after an update, when it holds after every edit of the first rule.
pub update_forward_keeps :
    (P : State → Type 0) (id : ForwardId) (req : AddForwardRequest) (s : State)
    → ((m : List (ForwardId × Ipv4Addr))
        → P (record s {
          forwards = edit_first id req s.forwards;
          forward_revision = bump s.forward_revision;
          resolved = m;
        }))
    → P s
    → P (update_forward id req s).1
update_forward_keeps P id req s edited h = elim (update_forward_store id req s) [
  | inl same ↦ subst P (sym same) h
  | inr (m, same) ↦ subst P (sym same) (edited m)
]
