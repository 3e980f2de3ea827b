-- ===== src/Nft/Listing.antt =====
-- agent/src/nft/parse.rs: how the text of `nft list set` is read. Reading an address or a prefix
-- is a parameter, as is adding seconds to a time. The JSON form is left out.
pub mod Durations
use ipgate.Base.{
  ℕ, ◌+◌, ◌*◌, ◌%◌, ◌^◌, ◌==◌, nat_eq, list_eq, Bool, true, false, Option, none, some, or_else,
  List, [], ◌∷◌, ◌++◌, if◌then◌else◌, map, Text, lit, trim, parse_unsigned, starts_with,
  is_ascii_digit, split_once, split_from, Result, ok, err,
}
use ipgate.Proto.Net.{IpAddr, v4, v6, IpNet, DateTime}
use ipgate.Proto.Ports.{KernelElement}
use ipgate.Sshd.{split_whitespace}

-- What the program uses of the crates ipnet and chrono; the count of seconds is an i64 as its 64
-- bits.
pub record Readers : Type 0 where
  pub parse_net : Text → Option IpNet
  pub parse_ip : Text → Option IpAddr
  pub later : DateTime → ℕ → DateTime

abbrev pub i64_max : ℕ
i64_max = 9223372036854775807

abbrev pub i64_span : ℕ
i64_span = 18446744073709551616

-- A bare address is a network of one host.
abbrev pub host_net : Option IpAddr → Option IpNet
host_net none = none
host_net (some (v4 a)) = some (IpNet.v4 a 32)
host_net (some (v6 a)) = some (IpNet.v6 a 128)

unfoldable pub host_to_net : Readers → Text → Option IpNet
host_to_net readers s = host_net (readers.parse_ip s)

abbrev pub unit_secs : ℕ → Option ℕ
unit_secs c =
    if c == b'w'
    then some 604800
    else if c == b'd'
    then some 86400
    else if c == b'h'
    then some 3600
    else if c == b'm'
    then some 60
    else if c == b's'
    then some 1
    else none

-- The loop, with the digits since the last unit, the total and whether a unit was seen.
unfoldable pub duration_from : Text → ℕ → Bool → Text → Option ℕ
unfolding parse_unsigned is_ascii_digit
duration_from num total saw_unit [] = if saw_unit then some total else none
duration_from num total saw_unit (c ∷ s) = elim (is_ascii_digit c) [
  | true ↦ duration_from (num ++ c ∷ []) total saw_unit s
  | false ↦ elim (parse_unsigned i64_max num) [
    | none ↦ none
    | some n ↦ elim (unit_secs c) [
      | none ↦ none
      | some unit ↦ duration_from [] ((total + n * unit) % i64_span) true s
    ]
  ]
]

unfoldable pub parse_nft_duration : Text → Option ℕ
unfolding duration_from
parse_nft_duration s = duration_from [] 0 false s

-- `str::find`: the text from the first occurrence on.
unfoldable pub find_text : Text → Text → Option Text
unfolding starts_with
find_text pat [] = if starts_with pat [] then some [] else none
find_text pat (c ∷ s) =
    let rest = find_text pat s in if starts_with pat (c ∷ s) then some (c ∷ s) else rest

module _ (readers : Readers) (now : DateTime) where
  -- Each `expires` whose next word is a duration sets the time; the next word is used up.
  unfoldable pub expiry_in : List Text → Option DateTime → Option DateTime
  unfolding parse_nft_duration
  expiry_in [] e = e
  expiry_in (t ∷ []) e = e
  expiry_in (t ∷ d ∷ ts) e =
      let plain = expiry_in (d ∷ ts) e in
      let set =
        expiry_in ts
          (elim (parse_nft_duration d) [ none ↦ e | some secs ↦ some (readers.later now secs) ]) in
      if t == lit "expires" then set else plain

  -- One part between commas: nothing for a part without words or without an address.
  abbrev pub target_of : Text → Option IpNet
  target_of addr = or_else (readers.parse_net addr) (host_to_net readers addr)

  unfoldable pub read_element : List Text → Option KernelElement
  unfolding host_to_net expiry_in
  read_element [] = none
  read_element (addr ∷ rest) = elim (target_of addr) [
    | none ↦ none
    | some n ↦ some (record { target = n; expires_at = expiry_in (addr ∷ rest) none })
  ]

  unfoldable pub read_parts : List Text → List KernelElement
  unfolding read_element trim split_whitespace
  read_parts [] = []
  read_parts (raw ∷ raws) = elim (read_element (split_whitespace (trim raw))) [
    | none ↦ read_parts raws
    | some e ↦ e ∷ read_parts raws
  ]

  unfoldable pub parse_set_elements_text : Text → Result Text (List KernelElement)
  unfolding find_text split_once split_from read_parts
  parse_set_elements_text text = elim (find_text (lit "elements") text) [
    | none ↦ ok []
    | some from ↦ elim (split_once b'{' from) [
      | none ↦ ok []
      | some (_, after) ↦ elim (split_once b'}' after) [
        | none ↦ err (lit "nft 文本输出缺少 elements 闭合括号")
        | some (body, _) ↦
            let (part, parts) = split_from b',' body in ok (read_parts (part ∷ parts))
      ]
    ]
  ]
