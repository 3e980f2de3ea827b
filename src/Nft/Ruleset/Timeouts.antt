-- ===== src/Nft/Ruleset/Timeouts.antt =====
-- How long the kernel keeps an entry, and which entries the rendered ruleset depends on.
use ipgate.Base.{
  ◌+◌, ◌-◌, ◌*◌, ◌/◌, ◌≡◌, ◌≤◌, ◌<◌, refl, arith, Bool, true, false, not, List, [], ◌∷◌, leb, Text,
  retain, Bool-cases, inl, inr,
}
use ipgate.Proto.Net.{DateTime, second, IpNet}
use ipgate.Proto.Entries.{Entry, is_expired}
use ipgate.Proto.Ports.{RulesetConfig}
use ipgate.Nft.Ruleset.{timeout_secs, live_tokens, render_apply}

-- A timeout is at least one second. It ends at the expiry or before it, except in the last second,
-- where it ends less than a second after it.
pub timeout_secs_lem :
    (t now : DateTime)
    → now < t
    → (1 ≤ timeout_secs t now)
      × (now + timeout_secs t now * second < t + second)
      × (t < now + timeout_secs t now * second + second)
unfolding timeout_secs
timeout_secs_lem t now lt = elim (Bool-cases (leb ((t - now) / second) 1)) [
  | inl small ↦ rw small (omega arith, omega arith, ground arith)
  | inr large ↦ rw large (ground arith, omega arith, omega arith)
]

live_tokens-retain :
    (show_net : IpNet → Text) (four : Bool) (es : List Entry) (now : DateTime)
    → live_tokens show_net four (retain (λ e. not (is_expired e now)) es) now
      ≡ live_tokens show_net four es now
unfolding live_tokens retain
live_tokens-retain show_net four [] now = refl
live_tokens-retain show_net four (e ∷ es) now =
    ground (arith, live_tokens-retain show_net four es now)

-- Expired entries do not reach the kernel: the text is that of the list without them.
pub render_apply-retain :
    (show_net : IpNet → Text) (cfg : RulesetConfig) (es : List Entry) (now : DateTime)
    → render_apply show_net cfg (retain (λ e. not (is_expired e now)) es) now
      ≡ render_apply show_net cfg es now
unfolding render_apply
render_apply-retain show_net cfg es now =
    rw (live_tokens-retain show_net true es now, live_tokens-retain show_net false es now) refl
