-- ===== src/Dnat/Conf/Reading.antt =====
-- A line written from a rule in the format of dnat is read back as that rule.
use mathlib.Core.List.{append_assoc}
use ipgate.Base.{
  ℕ, suc, ◌-◌, ◌≤◌, ◌<◌, ◌==◌, ◌!=◌, nat_eq, list_eq, Bool, true, false, not, ◌&&◌, ◌||◌, Option,
  none, some, List, [], ◌∷◌, ◌++◌, leb, if◌then◌else◌, Text, lit, trim, decimal, parse_unsigned,
  split_from, split_once, rsplit_once, ok, err, ◌≡◌, ◌≢◌, refl, sym, ap, ◌∙◌, ◌⊎◌, inl, inr, arith,
  All, All-append, All-mono, Bool-cases, is_ascii_digit, is_whitespace, starts_with, map_err,
  ◌>>=?◌,
}
use ipgate.Base.Str.Trimming.{IsTight, trim-IsTight}
use ipgate.Base.Str.Decimals.{decimal-IsNumeral}
use ipgate.Base.Split.Lines.{IsFree, split_from-free, split_from-part}
use ipgate.Base.Split.Once.{rsplit_once-part}
use ipgate.Proto.Net.{Ipv4Addr, show_ipv4, parse_ipv4}
use ipgate.Proto.Net.Display.{IsAddress, parse_ipv4-show_ipv4}
use ipgate.Proto.Ports.{PortRange, is_nil}
use ipgate.Proto.Forwards.{ForwardSource, auto, ip}
use ipgate.Dnat.Conf.{
  DnatRule, port_spec, prefix_key, parse_source, parse_parts, parse_line, is_range, some_rule,
  four_parts, trimmed_line,
}
use ipgate.Dnat.Conf.Ports.{
  IsPortChar, IsPort, port_spec-chars, port-IsTight, port-IsFree, parse_port_range-port_spec,
}

-- A name in a line: not empty, with no white space and no `>`.
abbrev pub IsName : Text → Type 0
IsName s = (s ≢ []) × IsTight s × IsFree b'>' s

abbrev pub IsSource : ForwardSource → Type 0
IsSource auto = Unit
IsSource (ip a) = IsAddress a

-- A rule that dnat accepts: its ports are not 0 and fit sixteen bits, its interface and its host
-- are names, two ranges have the same length, and an address has octets.
pub record IsRule (r : DnatRule) : Type 0 where
  pub listen_port : IsPort r.listen
  pub iface_name : IsName r.iface
  pub host_name : IsName r.remote_host
  pub dest_ports : IsPort r.dest_port
  pub same_length :
      (is_range r.listen
        && is_range r.dest_port
        && (r.listen.end - r.listen.start) != (r.dest_port.end - r.dest_port.start))
      ≡ false
  pub source_octets : IsSource r.source

-- The fields of a line as dnat writes them: `ports>interface>host:ports>source`.
unfoldable pub source_field : ForwardSource → Text
source_field auto = lit "auto"
source_field (ip a) = show_ipv4 a

unfoldable pub line_of : DnatRule → Text
line_of r =
    prefix_key r ++ (r.remote_host ++ b':' ∷ port_spec r.dest_port ++ b'>' ∷ source_field r.source)

parse_auto : parse_source (lit "auto") ≡ ok auto
unfolding parse_source lit ipgate.Base.list_dec ipgate.Base.ℕ_discrete is_nil
parse_auto = refl

is_nil-written : (s : Text) → s ≢ [] → is_nil s ≡ false
unfolding is_nil
is_nil-written [] ne = absurd (ne refl)
is_nil-written (c ∷ s) ne = refl

no_address : (s : Text) → (is_nil s || s == lit "auto") ≡ true → parse_ipv4 s ≡ none
unfolding parse_ipv4 is_nil lit ipgate.Base.ℕ_discrete ipgate.Base.all
no_address [] e = refl
no_address (c ∷ s) e =
    let word : c ∷ s ≡ lit "auto" = ground (arith, e) in ap parse_ipv4 word ∙ refl

parse_source-address :
    (s : Text) (a : Ipv4Addr) → parse_ipv4 s ≡ some a → parse_source s ≡ ok (ip a)
unfolding parse_source
parse_source-address s a h = elim (Bool-cases (is_nil s || s == lit "auto")) [
  | inr e ↦ rw (e, h)
  | inl e ↦ absurd (ground (arith, h, no_address s e))
]

-- What holds of digits and of the dot holds of every character of an address.
show_ipv4-All :
    (P : ℕ → Type 0)
    → ((c : ℕ) → is_ascii_digit c ≡ true → P c)
    → P b'.'
    → (a : Ipv4Addr) → All P (show_ipv4 a)
unfolding show_ipv4 lit
show_ipv4-All P digit dot a = more _ (more _ (more _ (number a.a) a.b) a.c) a.d
  where
    number : (n : ℕ) → All P (decimal n)
    number n = All-mono digit (decimal n) (decimal-IsNumeral n).0

    more : (s : Text) → All P s → (n : ℕ) → All P (s ++ b'.' ∷ [] ++ decimal n)
    more s h n =
        All-append P (s ++ b'.' ∷ []) (decimal n) (All-append P s (b'.' ∷ []) h (dot, tt))
          (number n)

source_field-All :
    (P : ℕ → Type 0)
    → ((c : ℕ) → is_ascii_digit c ≡ true → P c)
    → P b'.'
    → All P (lit "auto")
    → (s : ForwardSource) → All P (source_field s)
unfolding source_field
source_field-All P digit dot word auto = word
source_field-All P digit dot word (ip a) = show_ipv4-All P digit dot a

source-IsTight : (s : ForwardSource) → IsTight (source_field s)
unfolding is_whitespace is_ascii_digit lit ipgate.Base.ℕ_discrete
source-IsTight =
    source_field-All _ (λ c hc. ground (arith, hc)) refl (refl, (refl, (refl, (refl, tt))))

source-IsFree : (s : ForwardSource) → IsFree b'>' (source_field s)
unfolding is_ascii_digit lit ipgate.Base.ℕ_discrete
source-IsFree =
    source_field-All _ (λ c hc. ground (arith, hc)) refl (refl, (refl, (refl, (refl, tt))))

parse_source-field : (s : ForwardSource) → IsSource s → parse_source (source_field s) ≡ ok s
unfolding source_field
parse_source-field auto h = parse_auto
parse_source-field (ip a) h = parse_source-address (show_ipv4 a) a (parse_ipv4-show_ipv4 a h)

-- The host and the ports of the remote end.
abbrev remote_field : DnatRule → Text
remote_field r = r.remote_host ++ b':' ∷ port_spec r.dest_port

line_of-fields :
    (r : DnatRule)
    → line_of r
      ≡ port_spec r.listen
        ++ b'>' ∷ (r.iface ++ b'>' ∷ (remote_field r ++ b'>' ∷ source_field r.source))
unfolding line_of prefix_key lit
line_of-fields r =
    let rest = remote_field r ++ b'>' ∷ source_field r.source in
    append_assoc (port_spec r.listen ++ b'>' ∷ [] ++ r.iface) (b'>' ∷ []) rest
    ∙ append_assoc (port_spec r.listen ++ b'>' ∷ []) r.iface (b'>' ∷ rest)
    ∙ append_assoc (port_spec r.listen) (b'>' ∷ []) (r.iface ++ b'>' ∷ rest)

parse_parts-rule :
    (r : DnatRule)
    → IsRule r
    → parse_parts (port_spec r.listen) r.iface (remote_field r) (source_field r.source) ≡ ok r
unfolding parse_parts
parse_parts-rule r h = rw (
  parse_port_range-port_spec r.listen h.listen_port,
  trim-IsTight r.iface h.iface_name.1,
  rsplit_once-part b':' r.remote_host (port_spec r.dest_port)
      (port-IsFree b':' _ (inr refl) (port_spec-chars r.dest_port)),
  trim-IsTight r.remote_host h.host_name.1,
  parse_port_range-port_spec r.dest_port h.dest_ports,
  h.same_length,
  trim-IsTight _ (source-IsTight r.source),
  parse_source-field r.source h.source_octets,
  is_nil-written r.iface h.iface_name.0,
  is_nil-written r.remote_host h.host_name.0,
)

split_from-line :
    (r : DnatRule)
    → IsRule r
    → split_from b'>' (line_of r)
      ≡ (port_spec r.listen, r.iface ∷ remote_field r ∷ source_field r.source ∷ [])
split_from-line r h =
    let free_remote : IsFree b'>' (remote_field r) =
      All-append _ r.remote_host _ h.host_name.2 (ground arith, free_ports r.dest_port) in
    rw (
      line_of-fields r,
      split_from-part b'>' (port_spec r.listen)
          (r.iface ++ b'>' ∷ (remote_field r ++ b'>' ∷ source_field r.source))
          (free_ports r.listen),
      split_from-part b'>' r.iface (remote_field r ++ b'>' ∷ source_field r.source) h.iface_name.2,
      split_from-part b'>' (remote_field r) (source_field r.source) free_remote,
      split_from-free b'>' (source_field r.source) (source-IsFree r.source),
    )
  where
    free_ports : (p : PortRange) → IsFree b'>' (port_spec p)
    free_ports p = port-IsFree b'>' (port_spec p) (inl refl) (port_spec-chars p)

remote_field-IsTight : (r : DnatRule) → IsRule r → IsTight (remote_field r)
unfolding is_whitespace ipgate.Base.ℕ_discrete
remote_field-IsTight r h =
    All-append _ r.remote_host (b':' ∷ port_spec r.dest_port) h.host_name.1
      (refl, port-IsTight _ (port_spec-chars r.dest_port))

line_of-IsTight : (r : DnatRule) → IsRule r → IsTight (line_of r)
unfolding is_whitespace ipgate.Base.ℕ_discrete
line_of-IsTight r h =
    let back =
      All-append _ (remote_field r) (b'>' ∷ source_field r.source) (remote_field-IsTight r h)
        (refl, source-IsTight r.source) in
    let middle =
      All-append _ r.iface (b'>' ∷ (remote_field r ++ b'>' ∷ source_field r.source)) h.iface_name.1
        (refl, back) in
    rw (line_of-fields r) (
      All-append _ (port_spec r.listen) _ (port-IsTight _ (port_spec-chars r.listen))
        (refl, middle))

-- A text of ports before a `>` is no comment and not empty.
no_comment :
    (s t : Text)
    → All IsPortChar s
    → (is_nil (s ++ b'>' ∷ t) || starts_with (lit "#") (s ++ b'>' ∷ t)) ≡ false
unfolding is_ascii_digit starts_with is_nil lit ipgate.Base.ℕ_discrete
no_comment [] t h = refl
no_comment (c ∷ s) t (hc, h) = ground (arith, hc)

trimmed_line-fields :
    (t : Text)
    → (is_nil t || starts_with (lit "#") t) ≡ false
    → trimmed_line t ≡ some_rule (four_parts (split_from b'>' t))
unfolding trimmed_line
trimmed_line-fields t e = rw e

-- Only the trimmed text of a line matters.
pub parse_line-trim : (s t : Text) → trim s ≡ t → parse_line s ≡ trimmed_line t
unfolding parse_line
parse_line-trim s t e = ap trimmed_line e

-- A rule whose ports are not 0 and fit sixteen bits, whose interface and host are names without
-- white space and `>`, whose two ranges have the same length, and whose source address has octets
-- is read back from the line `ports>interface>host:ports>source` that begins with its prefix key.
pub parse_line-line_of : (r : DnatRule) → IsRule r → parse_line (line_of r) ≡ ok (some r)
parse_line-line_of r h =
    parse_line-trim (line_of r) (line_of r) (trim-IsTight (line_of r) (line_of-IsTight r h))
    ∙ trimmed_line-fields (line_of r)
        (rw (line_of-fields r) (no_comment (port_spec r.listen) _ (port_spec-chars r.listen)))
    ∙ rw (split_from-line r h, parse_parts-rule r h)
