-- ===== src/Handlers/Forwards/Overlaps.antt =====
-- What an accepted request for a forward guarantees.
use ipgate.Base.{
  ◌≡◌, inl, inr, arith, nat_eq, true, false, Option, none, List, Text, trim, Option-cases,
  Bool-cases, ok, Result-cases,
}
use ipgate.Proto.Ports.{is_nil}
use ipgate.Proto.Forwards.{AddForwardRequest, validate_ports}
use ipgate.Forward.{Host}
use ipgate.Dnat.Conf.{DnatRule}
use ipgate.Proto.Net.{parse_ipv4}
use ipgate.Handlers.Forwards.{
  iface_ok, literal_ban, validate_forward_input, effective_iface, dnat_clash, dnat_rules_of,
  check_forward_request,
}

pub input_ok :
    (iface : Option Text) (host : Text)
    → validate_forward_input iface host ≡ ok tt
    → (iface_ok iface ≡ true) × (literal_ban (parse_ipv4 (trim host)) ≡ none)
unfolding validate_forward_input
input_ok iface host h = elim (Option-cases (literal_ban (parse_ipv4 (trim host)))) [
  | inl free ↦ (ground arith, free)
  | inr (why, banned) ↦ absurd (ground arith)
]

-- The conditions on a request for a forward: its ports fit, its target is not blank, its interface
-- name passes the white list, a target written as an address is not forbidden, and no rule of dnat
-- listens on its interface and ports.
abbrev pub IsAcceptable : Host → Option (List DnatRule) → AddForwardRequest → Type 0
IsAcceptable host dnat req =
    (validate_ports req.listen req.dest_port ≡ ok tt)
    × (is_nil (trim req.dest_host) ≡ false)
    × (iface_ok req.iface ≡ true)
    × (literal_ban (parse_ipv4 (trim req.dest_host)) ≡ none)
    × (dnat_clash (effective_iface host req.iface) req.listen (dnat_rules_of dnat) ≡ false)

pub accepted :
    (host : Host) (dnat : Option (List DnatRule)) (req : AddForwardRequest)
    → check_forward_request host dnat req ≡ ok tt
    → IsAcceptable host dnat req
unfolding check_forward_request
accepted host dnat req h = elim (Result-cases (validate_ports req.listen req.dest_port)) [
  | inr (e, bad) ↦ absurd (ground arith)
  | inl (_, fit) ↦ elim (Bool-cases (is_nil (trim req.dest_host))) [
    | inl blank ↦ absurd (ground arith)
    | inr written ↦ elim (Result-cases (validate_forward_input req.iface req.dest_host)) [
      | inr (e, bad) ↦ absurd (ground arith)
      | inl (_, safe) ↦
          let (named, free) = input_ok req.iface req.dest_host safe in
          (fit, written, named, free, ground arith)
    ]
  ]
]
