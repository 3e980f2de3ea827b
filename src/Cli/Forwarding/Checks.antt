-- ===== src/Cli/Forwarding/Checks.antt =====
-- What is on the disk after a forward was added from the command line.
use ipgate.Base.{
  ◌≡◌, ◌⊎◌, lit, arith, sym, ap, subst, ◌∙◌, inl, inr, Option, List, [], ◌∷◌, Text, trim,
  rsplit_once, lift, Result, ok, err, Exec, All-append, All-retain, Run-cases, Result-cases,
  Bool-cases, Option-cases, Preserves-bind,
}
use ipgate.Base.Str.Trimming.{trim-trim}
use ipgate.Proto.Net.{ForwardId, DateTime, Ipv4Addr, parse_ipv4}
use ipgate.Proto.Ports.{is_nil}
use ipgate.Proto.Forwards.{AddForwardRequest, validate_ports}
use ipgate.Store.{State}
use ipgate.Store
use ipgate.Store.File
use ipgate.Store.File.{StateFile}
use ipgate.Store.File.Whole.{IsStateFile, IsWritten, save-IsWritten}
use ipgate.Nft.Backend.{NatBackend, ResolvedForward}
use ipgate.Forward.{Host, commit, apply_now, resolve_all}
use ipgate.Reconcile.{World}
use ipgate.Dnat.Adapter.{DnatHost}
use ipgate.Handlers.Forwards.{iface_ok, literal_ban}
use ipgate.Handlers.Closure.{IsFit}
use ipgate.Agent.WellFormed.Rules.{HasFitRules}
use ipgate.Cli.{Machine, parse_port_range, parse_proto, parse_source}
use ipgate.Cli.Offline.{console}
use ipgate.Cli.Forwarding.{
  check_request, add_rule, save_store, load_kernel, add_request, forward_add_cli, dnat_free,
  no_live, arg, some_or,
}

-- A save writes the whole store or nothing, and enabling the forwarding leaves it.
pub record IsStored {D : Type 0} (load : D → Result Text State)
    (save : State → Exec D Text (Unit {0})) (ensure_ip_forward : D → D) : Type 0 where
  pub saved : (s : State) (d : D) → (load (save s d).1 ≡ ok s) ⊎ (load (save s d).1 ≡ load d)
  pub ensured : (d : D) → load (ensure_ip_forward d) ≡ load d

-- The file of the store is such a place.
pub save-IsStored :
    {D T : Type 0} (file : StateFile D T) (ensure_ip_forward : D → D)
    → IsStateFile file
    → ((d : D) → Store.File.load file (ensure_ip_forward d) ≡ Store.File.load file d)
    → IsStored (Store.File.load file) (Store.File.save file) ensure_ip_forward
save-IsStored {D = D} file ensure_ip_forward laws ensured = record {
  saved = λ s d. either s d (Store.File.save file s d) (save-IsWritten file laws s d);
  ensured = ensured;
}
  where
    either :
        (s : State) (d : D) (p : Result Text (Unit {0}) × D)
        → IsWritten file s d p
        → (Store.File.load file p.1 ≡ ok s) ⊎ (Store.File.load file p.1 ≡ Store.File.load file d)
    either s d (ok _, d') h = inl h
    either s d (err _, d') h = inr h

checked-IsFit :
    (req : AddForwardRequest)
    → trim req.dest_host ≡ req.dest_host
    → check_request req ≡ ok tt
    → IsFit req
unfolding check_request
checked-IsFit req bare h = elim (Result-cases (validate_ports req.listen req.dest_port)) [
  | inr (e, bad) ↦ absurd (ground arith)
  | inl (_, good) ↦ elim (Bool-cases (is_nil req.dest_host)) [
    | inl empty ↦ absurd (ground arith)
    | inr written ↦ elim (Bool-cases (iface_ok req.iface)) [
      | inr bad ↦ absurd (ground arith)
      | inl named ↦ elim (Option-cases (literal_ban (parse_ipv4 req.dest_host))) [
        | inr (why, bad) ↦ absurd (ground arith)
        | inl free ↦ record { ports = good; named = named; allowed = rw bare free }
      ]
    ]
  ]
]

added-HasFitRules :
    (id : ForwardId) (req : AddForwardRequest) (now : DateTime) (s : State)
    → IsFit req
    → HasFitRules s
    → HasFitRules (Store.add_forward id req console now s).1
unfolding Store.add_forward
added-HasFitRules id req now s fit h = All-append _ _ _ (All-retain _ _ s.forwards h) (fit, tt)

-- The stored forwards have passed the checks.
unfoldable pub IsFitDisk : {D : Type 0} → (D → Result Text State) → D → Type 0
IsFitDisk load d = (s : State) → load d ≡ ok s → HasFitRules s

module _ {K D : Type 0} (save : State → Exec D Text (Unit {0})) (nat : NatBackend K)
    (ensure_ip_forward : D → D) (host : Host) (dnat : DnatHost D) (load : D → Result Text State)
    (laws : IsStored load save ensure_ip_forward) where
  abbrev IsFitWorld : World K D → Type 0
  IsFitWorld w = HasFitRules w.store × IsFitDisk load w.disk

  same-IsFitDisk : (d d' : D) → load d' ≡ load d → IsFitDisk load d → IsFitDisk load d'
  unfolding IsFitDisk
  same-IsFitDisk d d' same h s l = h s (sym same ∙ l)

  saved-IsFitDisk :
      (s : State) (d : D) → HasFitRules s → IsFitDisk load d → IsFitDisk load (save s d).1
  unfolding IsFitDisk
  saved-IsFitDisk s d fit h t l = elim (laws.saved s d) [
    | inl new ↦ let same : s ≡ t = ground (arith, new, l) in subst HasFitRules same fit
    | inr old ↦ h t (sym old ∙ l)
  ]

  ensured-IsFitDisk : (d : D) → IsFitDisk load d → IsFitDisk load (ensure_ip_forward d)
  ensured-IsFitDisk d h = same-IsFitDisk d (ensure_ip_forward d) (laws.ensured d) h

  commit-IsFitDisk :
      (rs : List ResolvedForward) (m : List (ForwardId × Ipv4Addr)) (w : World K D)
      → IsFitWorld w
      → IsFitDisk load (commit nat ensure_ip_forward save rs m w).1.disk
  unfolding commit is_nil Store.set_resolved
  commit-IsFitDisk [] m w (fit, h) = elim (Run-cases (nat.flush_nat w.kernel)) [
    | inl (_, k, r) ↦ rw r (saved-IsFitDisk (Store.set_resolved m w.store) w.disk fit h)
    | inr (x, k, r) ↦ rw r h
  ]
  commit-IsFitDisk (f ∷ rs) m w (fit, h) = elim (Run-cases (nat.apply_nat (f ∷ rs) w.kernel)) [
    | inl (_, k, r) ↦ rw r (
        saved-IsFitDisk (Store.set_resolved m w.store) (ensure_ip_forward w.disk) fit
          (ensured-IsFitDisk w.disk h))
    | inr (x, k, r) ↦ rw r (ensured-IsFitDisk w.disk h)
  ]

  load_kernel-IsFitDisk :
      (w : World K D)
      → IsFitWorld w
      → IsFitDisk load (load_kernel save nat ensure_ip_forward host w).1.disk
  unfolding apply_now
  load_kernel-IsFitDisk w h =
      commit-IsFitDisk (resolve_all host w.store).0 (resolve_all host w.store).1 w h

  add_rule-IsFitDisk :
      (id : ForwardId) (req : AddForwardRequest) (now : DateTime) (w : World K D)
      → IsFit req
      → IsFitWorld w
      → IsFitDisk load (add_rule save nat ensure_ip_forward host id req now w).1.disk
  unfolding add_rule
  add_rule-IsFitDisk id req now w fit (rules, h) =
      let s = (Store.add_forward id req console now w.store).1 in
      let grown = added-HasFitRules id req now w.store fit rules in
      Preserves-bind (λ w1. IsFitDisk load w1.disk) (save_store save nat ensure_ip_forward host) _
        (record w { store = s }) (saved-IsFitDisk s w.disk grown h)
        (λ _ w2 e h2.
          load_kernel-IsFitDisk w2 (subst HasFitRules (ap (λ p. p.1.store) e) grown, h2))

  add_request-IsFitDisk :
      (req : AddForwardRequest) (id : ForwardId) (now : DateTime) (m : Machine K D)
      → trim req.dest_host ≡ req.dest_host
      → IsFitDisk load m.disk
      → IsFitDisk load (add_request save nat ensure_ip_forward host dnat load req id now m).1.disk
  unfolding add_request IsFitDisk
  add_request-IsFitDisk req id now m bare h =
      Preserves-bind (λ m1. IsFitDisk load m1.disk) (lift (check_request req)) _ m h
        (λ _ m1 good h1.
          Preserves-bind (λ m2. IsFitDisk load m2.disk)
            (lift (dnat_free save nat ensure_ip_forward host dnat load req m1.disk)) _ m1 h1
            (λ _ m2 _ h2. elim (Result-cases (load m2.disk)) [
              | inr (e, bad) ↦ rw bad h2
              | inl (s, read) ↦ rw read (
                  add_rule-IsFitDisk id req now
                    (record { store = s; disk = m2.disk; kernel = m2.kernel; live = no_live })
                    (checked-IsFit req bare (ap (λ p. p.0) good)) (h2 s read, h2))
            ]))

  -- Adding a forward from the command line leaves only checked forwards on the disk, whether the
  -- command fails or not, when the disk held only checked ones.
  pub forward_add_cli-IsFitDisk :
      (listen dest proto : Text) (iface : Option Text) (source note : Text) (id : ForwardId)
      (now : DateTime) (m : Machine K D)
      → IsFitDisk load m.disk
      → IsFitDisk load
          (forward_add_cli save nat ensure_ip_forward host dnat load listen dest proto iface source
            note id now m).1.disk
  unfolding forward_add_cli
  forward_add_cli-IsFitDisk listen dest proto iface source note id now m h =
      let Fit : Machine K D → Type 0 = λ m. IsFitDisk load m.disk in
      Preserves-bind Fit (lift (arg (parse_port_range listen))) _ m h (λ range m1 _ h1.
        Preserves-bind Fit
          (lift (some_or (lit "目标需 host:port 形式，如 10.0.0.9:8443") (rsplit_once b':' dest))) _ m1 h1
          (λ parts m2 _ h2.
            Preserves-bind Fit (lift (arg (parse_port_range parts.1))) _ m2 h2 (λ dest_port m3 _ h3.
              Preserves-bind Fit (lift (arg (parse_proto proto))) _ m3 h3 (λ protocol m4 _ h4.
                Preserves-bind Fit (lift (arg (parse_source source))) _ m4 h4
                  (λ from m5 _ h5. add_request-IsFitDisk _ id now m5 (trim-trim parts.0) h5)))))
