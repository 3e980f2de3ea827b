-- ===== src/Tests/Texts.antt =====
-- The text functions at concrete inputs.
use ipgate.Base.{
  ℕ, ◌≡◌, refl, Text, lit, decimal, trim, Option, some, none, List, [], ◌∷◌, Bool, true, false,
}
use ipgate.Proto.Net.{ipv4, parse_ipv4}
use ipgate.Nft.Ports.{render_ports}

parse_ipv4_plain : parse_ipv4 (lit "10.0.0.2") ≡ some (ipv4 10 0 0 2)
unfolding parse_ipv4 lit ipgate.Base.ℕ_discrete ipgate.Base.all ipgate.Base.is_ascii_digit
    ipgate.Base.length
parse_ipv4_plain = refl

parse_ipv4_zero : parse_ipv4 (lit "10.0.02.2") ≡ none
unfolding parse_ipv4 lit ipgate.Base.ℕ_discrete ipgate.Base.all ipgate.Base.is_ascii_digit
    ipgate.Base.length
parse_ipv4_zero = refl

decimal_port : decimal 65530 ≡ lit "65530"
unfolding decimal lit
decimal_port = refl

render_ports_merged :
    render_ports (
      record { start = 8000; end = 8010 }
      ∷ record { start = 443; end = 443 }
      ∷ record { start = 8005; end = 8020 }
      ∷ [])
    ≡ lit "443, 8000-8020"
unfolding render_ports lit ipgate.Nft.Ports.port_spec decimal ipgate.Base.ℕ_discrete
render_ports_merged = refl

trim_ends : trim (lit "  x y ") ≡ lit "x y"
unfolding trim lit ipgate.Base.ℕ_discrete
trim_ends = refl
