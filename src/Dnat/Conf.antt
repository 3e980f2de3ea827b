-- ===== src/Dnat/Conf.antt =====
-- agent/src/dnat/conf.rs: the lines of the configuration file of dnat, and the items of its state.
-- The text of an error is left out: `LineError` has one constructor for each place that fails.
pub mod Ports
pub mod Reading
pub mod Removal
use ipgate.Base.{
  ℕ, ◌-◌, ◌==◌, ◌!=◌, nat_eq, list_eq, Bool, true, false, not, ◌&&◌, ◌||◌, Option, none, some, List,
  [], ◌∷◌, ◌++◌, leb, if◌then◌else◌, Text, lit, trim, decimal, parse_unsigned, split_once,
  rsplit_once, starts_with, split_from, lines, join, newline, find, map_err, Result, ok, err,
  ◌>>=?◌,
}
use ipgate.Proto.Net.{Ipv4Addr, parse_ipv4}
use ipgate.Proto.Ports.{PortRange, single, is_nil}
use ipgate.Proto.Forwards.{ForwardSource, auto, ip}

pub record DnatRule : Type 0 where
  pub listen : PortRange
  pub iface : Text
  pub remote_host : Text
  pub dest_port : PortRange
  pub source : ForwardSource

unfoldable pub port_spec : PortRange → Text
port_spec p =
    if p.start == p.end then decimal p.start else decimal p.start ++ lit "-" ++ decimal p.end

unfoldable pub prefix_key : DnatRule → Text
unfolding port_spec
prefix_key r = port_spec r.listen ++ lit ">" ++ r.iface ++ lit ">"

pub data PortError : Type 0 where
  bad_start bad_end bad_port zero_port : PortError
  reversed : ℕ → ℕ → PortError

abbrev pub u16_max : ℕ
u16_max = 65535

abbrev pub port_or : {A : Type 0} → PortError → Option A → Result PortError A
port_or e none = err e
port_or e (some n) = ok n

abbrev pub checked_range : ℕ → ℕ → Result PortError PortRange
checked_range start end =
    if start == 0
    then err zero_port
    else if leb end start
    then err (reversed start end)
    else ok (record { start = start; end = end })

abbrev pub checked_port : ℕ → Result PortError PortRange
checked_port p = if p == 0 then err zero_port else ok (single p)

abbrev pub range_parts : Text → Option (Text × Text) → Result PortError PortRange
range_parts s (some (a, b)) =
    port_or bad_start (parse_unsigned u16_max (trim a))
    >>=? (λ start. port_or bad_end (parse_unsigned u16_max (trim b)) >>=? checked_range start)
range_parts s none = port_or bad_port (parse_unsigned u16_max s) >>=? checked_port

unfoldable pub parse_port_range : Text → Result PortError PortRange
unfolding parse_unsigned trim split_once single
parse_port_range s = range_parts (trim s) (split_once b'-' (trim s))

pub data LineError : Type 0 where
  parts empty_iface no_port empty_host bad_source : LineError
  port : PortError → LineError
  length_mismatch : PortRange → PortRange → LineError

-- `ok_or_else`
abbrev pub ok_or : {A : Type 0} → LineError → Option A → Result LineError A
ok_or e none = err e
ok_or e (some a) = ok a

abbrev pub refuse_if : Bool → LineError → Result LineError (Unit {0})
refuse_if b e = if b then err e else ok tt

abbrev pub is_range : PortRange → Bool
is_range r = not (r.start == r.end)

unfoldable pub parse_source : Text → Result LineError ForwardSource
unfolding parse_ipv4 lit
parse_source s =
    if is_nil s || s == lit "auto"
    then ok auto
    else ok_or bad_source (parse_ipv4 s) >>=? (λ a. ok (ip a))

-- The four parts of a line, each checked before the next is read.
unfoldable pub parse_parts : Text → Text → Text → Text → Result LineError DnatRule
unfolding parse_port_range trim is_nil rsplit_once parse_source
parse_parts listen_text iface_text remote source_text =
    map_err port (parse_port_range listen_text) >>=? (λ listen.
      refuse_if (is_nil (trim iface_text)) empty_iface >>=? (λ _.
        ok_or no_port (rsplit_once b':' remote) >>=? (λ (host, rport).
          refuse_if (is_nil (trim host)) empty_host >>=? (λ _.
            map_err port (parse_port_range rport) >>=? (λ dest.
              refuse_if
                (is_range listen
                  && is_range dest
                  && (listen.end - listen.start) != (dest.end - dest.start))
                (length_mismatch listen dest)
              >>=? (λ _. parse_source (trim source_text) >>=? (λ source. ok (record {
                listen = listen;
                iface = trim iface_text;
                remote_host = trim host;
                dest_port = dest;
                source = source;
              }))))))))

abbrev pub four_parts : Text × List Text → Result LineError DnatRule
four_parts (a, b ∷ c ∷ d ∷ []) = parse_parts a b c d
four_parts _ = err parts

abbrev pub some_rule : Result LineError DnatRule → Result LineError (Option DnatRule)
some_rule (ok r) = ok (some r)
some_rule (err e) = err e

-- A blank line and a comment hold no rule.
unfoldable pub trimmed_line : Text → Result LineError (Option DnatRule)
unfolding is_nil starts_with split_from parse_parts
trimmed_line t =
    if is_nil t || starts_with (lit "#") t
    then ok none
    else some_rule (four_parts (split_from b'>' t))

unfoldable pub parse_line : Text → Result LineError (Option DnatRule)
unfolding trim trimmed_line
parse_line line = trimmed_line (trim line)

-- `parse_line(l).ok().flatten()`
abbrev pub rule_in : Result LineError (Option DnatRule) → Option DnatRule
rule_in (ok r) = r
rule_in (err _) = none

-- `filter_map`
abbrev pub push_rule : Option DnatRule → List DnatRule → List DnatRule
push_rule none rs = rs
push_rule (some r) rs = r ∷ rs

unfoldable pub rules_of : List Text → List DnatRule
rules_of [] = []
rules_of (l ∷ ls) = push_rule (rule_in (parse_line l)) (rules_of ls)

unfoldable pub parse_conf : Text → List DnatRule
parse_conf text = rules_of (lines text)

-- The arm of the match that drops the line.
abbrev pub is_dropped : Text → Option DnatRule → Bool
is_dropped prefix none = false
is_dropped prefix (some rule) = prefix_key rule == prefix

-- The loop over the lines: those kept, and whether one was dropped.
unfoldable pub keep_lines : Text → List Text → List Text × Bool
keep_lines prefix [] = ([], false)
keep_lines prefix (l ∷ ls) =
    let (kept, removed) = keep_lines prefix ls in
    if is_dropped prefix (rule_in (parse_line l)) then (kept, true) else (l ∷ kept, removed)

-- `if !out.is_empty() { out.push('\n') }`
abbrev pub end_line : Text → Text
end_line out = if is_nil out then out else out ++ newline ∷ []

unfoldable pub remove_rule_lines : Text → Text → Text × Bool
remove_rule_lines text prefix =
    let (kept, removed) = keep_lines prefix (lines text) in
    (end_line (join (newline ∷ []) kept), removed)

pub record DnatStateEntry : Type 0 where
  pub local_port : ℕ
  pub interface : Text
  pub remote_ip : Text

pub record DnatState : Type 0 where
  pub entries : List DnatStateEntry

-- `DnatState::find`
unfoldable pub find_entry : DnatState → ℕ → Text → Option DnatStateEntry
unfolding find
find_entry s listen_start iface =
    find (λ e. e.local_port == listen_start && e.interface == iface) s.entries
