-- ===== src/Nft/Json.antt =====
-- agent/src/nft/parse.rs: how the JSON of `nft -j list set` is read. A value of the crate
-- serde_json is a parameter with its accessors, as is what the crates ipnet and chrono do.
use ipgate.Base.{
  ℕ, ◌%◌, Option, none, some, List, [], ◌∷◌, ◌++◌, Text, lit, Result, ok, err, ◌>>=?◌,
}
use ipgate.Proto.Net.{IpAddr, IpNet, DateTime}
use ipgate.Proto.Ports.{KernelElement}
use ipgate.Nft.Listing.{Readers, host_to_net}

-- `Value` of serde_json: `get` finds nothing in a value that is no object; an i64 is its 64 bits.
pub record Json (V : Type 0) : Type 0 where
  pub from_str : Text → Option V
  pub show : V → Text
  pub get : Text → V → Option V
  pub as_array : V → Option (List V)
  pub as_str : V → Option Text
  pub as_u64 : V → Option ℕ
  pub as_i64 : V → Option ℕ
  pub new_net : IpAddr → ℕ → Result Text IpNet

-- `Option::context`
abbrev pub context : {A : Type 0} → Text → Option A → Result Text A
context e none = err e
context e (some a) = ok a

abbrev pub then_get : {A B : Type 0} → Option A → (A → Option B) → Option B
then_get none f = none
then_get (some a) f = f a

module _ {V : Type 0} (json : Json V) (readers : Readers) where
  abbrev pub host : Text → Result Text IpNet
  host s = context (lit "非法地址: " ++ s) (host_to_net readers s)

  -- The length is cut to eight bits.
  unfoldable pub parse_prefix : V → Result Text IpNet
  parse_prefix p =
      context (lit "prefix.addr 缺失") (then_get (json.get (lit "addr") p) json.as_str) >>=? λ addr.
      context (lit "prefix.len 缺失") (then_get (json.get (lit "len") p) json.as_u64) >>=? λ len.
      context (lit "非法地址: " ++ addr) (readers.parse_ip addr) >>=? λ ip. json.new_net ip (len % 256)

  unfoldable pub parse_val : V → Result Text IpNet
  unfolding parse_prefix
  parse_val v = elim (json.as_str v) [
    | some s ↦ host s
    | none ↦ elim (json.get (lit "prefix") v) [
      | some p ↦ parse_prefix p
      | none ↦ err (lit "无法识别的元素值: " ++ json.show v)
    ]
  ]

  abbrev pub plain_element : IpNet → Result Text KernelElement
  plain_element n = ok (record { target = n; expires_at = none })

  -- nft gives the seconds that are left.
  abbrev pub expiry_of : DateTime → Option ℕ → Option DateTime
  expiry_of now none = none
  expiry_of now (some secs) = some (readers.later now secs)

  unfoldable pub parse_elem : DateTime → V → Result Text KernelElement
  unfolding parse_val parse_prefix
  parse_elem now el = elim (json.as_str el) [
    | some s ↦ host s >>=? plain_element
    | none ↦ elim (json.get (lit "prefix") el) [
      | some p ↦ parse_prefix p >>=? plain_element
      | none ↦ elim (json.get (lit "elem") el) [
        | none ↦ err (lit "无法识别的 nft 元素: " ++ json.show el)
        | some inner ↦
            context (lit "elem.val 缺失") (json.get (lit "val") inner) >>=? parse_val >>=? λ n.
            ok (record {
              target = n;
              expires_at = expiry_of now (then_get (json.get (lit "expires") inner) json.as_i64);
            })
      ]
    ]
  ]

  unfoldable pub parse_elems : DateTime → List V → Result Text (List KernelElement)
  unfolding parse_elem
  parse_elems now [] = ok []
  parse_elems now (el ∷ els) =
      let rest = parse_elems now els in parse_elem now el >>=? λ e. rest >>=? λ es. ok (e ∷ es)

  -- The elements of an item, none in one that is no set or has no elements.
  abbrev pub elements_of : V → List V
  elements_of item =
      elim (then_get (then_get (json.get (lit "set") item) (json.get (lit "elem"))) json.as_array) [
        | none ↦ []
        | some els ↦ els
      ]

  unfoldable pub parse_items : DateTime → List V → Result Text (List KernelElement)
  unfolding parse_elems
  parse_items now [] = ok []
  parse_items now (item ∷ items) =
      let rest = parse_items now items in
      parse_elems now (elements_of item) >>=? λ es. rest >>=? λ more. ok (es ++ more)

  unfoldable pub parse_set_elements : Text → DateTime → Result Text (List KernelElement)
  unfolding parse_items
  parse_set_elements text now = context (lit "nft -j 输出非合法 JSON") (json.from_str text) >>=? λ v.
      context (lit "缺少 nftables 数组") (then_get (json.get (lit "nftables") v) json.as_array)
      >>=? parse_items now
