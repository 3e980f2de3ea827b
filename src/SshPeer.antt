-- ===== src/SshPeer.antt =====
-- agent/src/sshpeer.rs: the client behind the tunnel, found in the tables of `/proc`. Which sockets
-- a process holds is a parameter. The agent runs on a little-endian machine.
use ipgate.Base.{
  ℕ, ◌+◌, ◌-◌, ◌*◌, ◌/◌, ◌%◌, ◌==◌, ◌!=◌, nat_eq, list_eq, Bool, not, ◌&&◌, Option, none, some,
  List, [], ◌∷◌, ◌++◌, leb, take, drop, retain, find, any, or_else, if◌then◌else◌, Text, split_once,
  lines, is_ascii_digit, at_most, byte_len, parse_unsigned,
}
use ipgate.Proto.Net.{ipv4, IpAddr, v4, v6, ip_eq}
use ipgate.Sshd.{split_whitespace}

abbrev pub tcp_established : ℕ
tcp_established = 1

pub record SocketAddr : Type 0 where
  pub ip : IpAddr
  pub port : ℕ

pub record TcpRow : Type 0 where
  pub local : SocketAddr
  pub remote : SocketAddr
  pub state : ℕ
  pub inode : ℕ

-- The value of a digit of the base 16.
unfoldable pub hex_value : ℕ → Option ℕ
hex_value c =
    if is_ascii_digit c
    then some (c - b'0')
    else if leb b'A' c && leb c b'F'
    then some (c - b'A' + 10)
    else if leb b'a' c && leb c b'f'
    then some (c - b'a' + 10)
    else none

unfoldable pub hex_digits : ℕ → Text → Option ℕ
unfolding hex_value
hex_digits n [] = some n
hex_digits n (c ∷ s) = elim (hex_value c) [ none ↦ none | some v ↦ hex_digits (n * 16 + v) s ]

abbrev pub some_digits : Text → Option ℕ
some_digits [] = none
some_digits (c ∷ s) = hex_digits 0 (c ∷ s)

-- `from_str_radix(16)` with the given largest value; one leading `+` is accepted.
unfoldable pub parse_hex : ℕ → Text → Option ℕ
unfolding hex_digits
parse_hex m [] = none
parse_hex m (c ∷ s) = at_most m (if c == b'+' then some_digits s else some_digits (c ∷ s))

-- The bytes of a word of eight digits, least significant first (`to_ne_bytes`).
abbrev pub le_bytes4 : ℕ → List ℕ
le_bytes4 n = n % 256 ∷ n / 256 % 256 ∷ n / 65536 % 256 ∷ n / 16777216 % 256 ∷ []

abbrev pub u32_max : ℕ
u32_max = 4294967295

unfoldable pub word : Text → ℕ → Option (List ℕ)
unfolding parse_hex
word ip i = elim (parse_hex u32_max (take 8 (drop (i * 8) ip))) [
  | none ↦ none
  | some n ↦ some (le_bytes4 n)
]

abbrev pub v4_of : List ℕ → Option IpAddr
v4_of (a ∷ b ∷ c ∷ d ∷ []) = some (v4 (ipv4 a b c d))
v4_of _ = none

-- Sixteen bytes as the number they are, most significant first.
unfoldable pub number : ℕ → List ℕ → ℕ
number n [] = n
number n (b ∷ bs) = number (n * 256 + b) bs

abbrev pub append_word : Option (List ℕ) → Option (List ℕ) → Option (List ℕ)
append_word (some a) (some b) = some (a ++ b)
append_word _ _ = none

unfoldable pub parse_ip : Text → Option IpAddr
unfolding word number byte_len
parse_ip ip =
    if byte_len ip == 8
    then elim (word ip 0) [ none ↦ none | some b ↦ v4_of b ]
    else if byte_len ip == 32
    then elim (append_word (word ip 0)
        (append_word (word ip 1) (append_word (word ip 2) (word ip 3)))) [
          | none ↦ none
          | some b ↦ some (v6 (number 0 b))
        ]
    else none

unfoldable pub parse_addr : Text → Option SocketAddr
unfolding parse_ip split_once
parse_addr s = elim (split_once b':' s) [
  | none ↦ none
  | some (ip, port) ↦ elim (parse_hex 65535 port) [
    | none ↦ none
    | some p ↦ elim (parse_ip ip) [ none ↦ none | some a ↦ some (record { ip = a; port = p }) ]
  ]
]

-- `get`
unfoldable pub nth : {A : Type 0} → ℕ → List A → Option A
nth n xs = elim (drop n xs) [ [] ↦ none | ◌∷◌ x _ ↦ some x ]

abbrev pub and_then : {A B : Type 0} → Option A → (A → Option B) → Option B
and_then none f = none
and_then (some a) f = f a

abbrev pub u64_max : ℕ
u64_max = 18446744073709551615

unfoldable pub parse_row : Text → Option TcpRow
unfolding split_whitespace nth parse_addr
parse_row line =
    let f = split_whitespace line in
    and_then (and_then (nth 1 f) parse_addr) (λ local.
      and_then (and_then (nth 2 f) parse_addr) (λ remote.
        and_then (and_then (nth 3 f) (parse_hex 255)) (λ state.
          and_then (and_then (nth 9 f) (parse_unsigned u64_max)) (λ inode.
            some (record { local = local; remote = remote; state = state; inode = inode })))))

unfoldable pub rows_of : List Text → List TcpRow
unfolding parse_row
rows_of [] = []
rows_of (l ∷ ls) = elim (parse_row l) [ none ↦ rows_of ls | some r ↦ r ∷ rows_of ls ]

-- The heading is skipped.
unfoldable pub parse_proc_net_tcp : Text → List TcpRow
unfolding rows_of
parse_proc_net_tcp text = rows_of (drop 1 (lines text))

-- `to_canonical`: an address `::ffff:a.b.c.d` is the IPv4 address.
unfoldable pub to_canonical : IpAddr → IpAddr
to_canonical (v4 a) = v4 a
to_canonical (v6 n) =
    if n / 4294967296 == 65535
    then v4 (ipv4 (n / 16777216 % 256) (n / 65536 % 256) (n / 256 % 256) (n % 256))
    else v6 n

unfoldable pub is_loopback : IpAddr → Bool
is_loopback (v4 a) = a.a == 127
is_loopback (v6 n) = n == 1

unfoldable pub same : SocketAddr → SocketAddr → Bool
unfolding to_canonical
same a b = a.port == b.port && to_canonical a.ip == to_canonical b.ip

-- The test of the filter: held by the process, established, and from elsewhere.
unfoldable pub is_client : List ℕ → TcpRow → Bool
unfolding any is_loopback to_canonical
is_client owned r =
    any (λ i. i == r.inode) owned
    && r.state == tcp_established
    && not (is_loopback (to_canonical r.remote.ip))

-- The only one of a slice.
abbrev pub only : List TcpRow → Option TcpRow
only (r ∷ []) = some r
only _ = none

unfoldable pub pick_client : List TcpRow → List ℕ → ℕ → Option IpAddr
unfolding retain is_client find
pick_client rows owned ssh_port =
    let cands = retain (is_client owned) rows in
    and_then (or_else (find (λ r. r.local.port == ssh_port) cands) (only cands))
      (λ hit. some (to_canonical hit.remote.ip))

-- The end of sshd: its local side is our peer and its remote side our local one.
abbrev pub is_tunnel : SocketAddr → SocketAddr → TcpRow → Bool
is_tunnel local peer r = same r.local peer && same r.remote local && r.inode != 0

-- `resolve`, with the text of both tables (empty where one cannot be read) and the sockets of the
-- process that holds a socket.
unfoldable pub resolve :
    Text → Text → (ℕ → Option (List ℕ)) → SocketAddr → SocketAddr → ℕ → Option IpAddr
unfolding parse_proc_net_tcp pick_client same
resolve tcp tcp6 owner local peer ssh_port =
    let rows = parse_proc_net_tcp tcp ++ parse_proc_net_tcp tcp6 in
    and_then (find (is_tunnel local peer) rows)
      (λ tunnel. and_then (owner tunnel.inode) (λ owned. pick_client rows owned ssh_port))
