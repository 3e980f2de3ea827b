-- ===== src/Agent/Recovery.antt =====
-- The kernel comes back to the allowlist, whatever has happened.
use ipgate.Base.{if◌then◌else◌, ◌≡◌, is_some, not, Bool, List}
use ipgate.Base.{keep_if}
use ipgate.Proto.Net.{DateTime, IpNet}
use ipgate.Proto.Entries.{is_expired}
use ipgate.Proto.Ports.{KernelElement}
use ipgate.Store.Entries.{view}
use ipgate.Reconcile.{World}
use ipgate.Reconcile.Convergence.{IsFaithful, is_refused}
use ipgate.Agent.{Agent, copy}

module _ {K D : Type 0} (agent : Agent K D) (holds : K → IpNet → Bool)
    (faithful : IsFaithful agent.app.backend holds) where
  -- The kernel holds exactly the unexpired targets of the allowlist that was stored before; a target
  -- whose command the kernel refuses in this round stays as it was.
  abbrev pub IsMended : DateTime → List KernelElement → K → World K D → World K D → Type 0
  IsMended now elements k w t =
      (target : IpNet)
      → holds t.kernel target ≡ (
          if is_refused agent.app.backend (copy agent now w).0 now elements k target
          then holds w.kernel target
          else is_some (keep_if (λ e. not (is_expired e now)) (view w.store target)))
