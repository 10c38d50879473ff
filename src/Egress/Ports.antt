-- ===== src/Egress/Ports.antt =====
-- The ports of the proxy (ValidateEgressPorts, api/v1alpha1/hermesagent_egress.go): its two listeners
-- against those that the operator configures in the pod.
use hermes_agent_operator.Prelude.{
  ℕ, ◌+◌, decimal, String, ◌⧺◌, Bool, true, Option, none, some, ◌==◌, ◌≡◌, ◌≢◌, refl, ◌↔◌, ◌∙◌,
  arith, if_some, if◌then◌else◌,
}
use hermes_agent_operator.Api.Hermes.{
  get_api_server, get_webhook, api_server_enabled, api_server_port, webhook_enabled, webhook_port,
}
use hermes_agent_operator.Api.Egress.{egress_enabled, get_tunnel_port}
use hermes_agent_operator.Api.Agent.{HermesAgent, searxng_enabled, camofox_enabled}
use hermes_agent_operator.Kube.Client.{Result, ok, err, errorf}

-- `urlPort` of SearXNGURL, "http://localhost:8080", and of CamofoxURL, "http://localhost:9377".
abbrev pub searxng_port : ℕ
searxng_port = 8080

abbrev pub camofox_port : ℕ
camofox_port = 9377

-- `used[q] = owner` under its guard, before the writes that `rest` stands for: what it leaves at `port`.
pub write_used : Bool → ℕ → String → ℕ → Option String → Option String
write_used enabled q owner port rest =
    if enabled then (if q == port then some owner else rest) else rest

-- `used[port]`: the map after its writes, the last one first.
pub owner_of : HermesAgent → ℕ → Option String
unfolding write_used
owner_of ha port =
    let webhook = get_webhook ha.spec.hermes in
    let api = get_api_server ha.spec.hermes in
    write_used (webhook_enabled webhook) (webhook_port webhook) "the webhook" port (
      write_used (api_server_enabled api) (api_server_port api) "the API server" port (
        write_used (camofox_enabled ha.spec.camofox) camofox_port "the Camofox sidecar" port (
          write_used (searxng_enabled ha.spec.searxng) searxng_port "the SearXNG sidecar" port
            none)))

-- The tunnel port, the port that is taken, and by what.
abbrev clash : ℕ → ℕ → String → Result (Unit {0})
clash tunnel port owner = err (
    errorf (
      "egress tunnelPort "
      ⧺ decimal tunnel
      ⧺ " needs ports "
      ⧺ decimal tunnel
      ⧺ " and "
      ⧺ decimal (tunnel + 1)
      ⧺ ", and "
      ⧺ owner
      ⧺ " listens on "
      ⧺ decimal port))

pub validate_egress_ports : HermesAgent → Result (Unit {0})
unfolding owner_of
validate_egress_ports ha =
    let port = get_tunnel_port ha.spec.egress in
    if egress_enabled ha.spec.egress
    then if_some (owner_of ha port) (clash port port)
        (if_some (owner_of ha (port + 1)) (clash port (port + 1)) (ok tt))
    else ok tt

-- An enabled listener at `q` is not at `port`.
abbrev Avoids : Bool → ℕ → ℕ → Type 0
Avoids enabled q port = enabled ≡ true → q ≢ port

-- An enabled listener at `q` stays clear of the proxy's two.
abbrev pub IsClear : HermesAgent → Bool → ℕ → Type 0
IsClear ha enabled q =
    Avoids enabled q (get_tunnel_port ha.spec.egress)
    × Avoids enabled q (get_tunnel_port ha.spec.egress + 1)

-- The webhook, the API server, Camofox and SearXNG.
abbrev pub Listeners : HermesAgent → (Bool → ℕ → Type 0) → Type 0
Listeners ha P =
    let webhook = get_webhook ha.spec.hermes in
    let api = get_api_server ha.spec.hermes in
    P (webhook_enabled webhook) (webhook_port webhook)
    × (P (api_server_enabled api) (api_server_port api)
        × (P (camofox_enabled ha.spec.camofox) camofox_port
            × P (searxng_enabled ha.spec.searxng) searxng_port))

write_used-none :
    (enabled : Bool) (q : ℕ) (owner : String) (port : ℕ) (rest : Option String)
    → write_used enabled q owner port rest ≡ none
    → Avoids enabled q port × (rest ≡ none)
unfolding write_used
write_used-none enabled q owner port rest h = (λ on same. ground arith, ground arith)

write_used-Avoids :
    (enabled : Bool) (q : ℕ) (owner : String) (port : ℕ) (rest : Option String)
    → Avoids enabled q port
    → write_used enabled q owner port rest ≡ rest
unfolding write_used
write_used-Avoids enabled q owner port rest h = ground (arith, h)

unowned :
    (ha : HermesAgent) (port : ℕ)
    → owner_of ha port ≡ none
    → Listeners ha (λ enabled q. Avoids enabled q port)
unfolding owner_of
unowned ha port h =
    let (webhook, h1) = write_used-none _ _ _ port _ h in
    let (api, h2) = write_used-none _ _ _ port _ h1 in
    let (camofox, h3) = write_used-none _ _ _ port _ h2 in
    let (searxng, h4) = write_used-none _ _ _ port _ h3 in (webhook, (api, (camofox, searxng)))

owner_of-none :
    (ha : HermesAgent) (port : ℕ)
    → Listeners ha (λ enabled q. Avoids enabled q port)
    → owner_of ha port ≡ none
unfolding owner_of
owner_of-none ha port (webhook, (api, (camofox, searxng))) =
    write_used-Avoids _ _ _ port _ webhook
    ∙ write_used-Avoids _ _ _ port _ api
    ∙ write_used-Avoids _ _ _ port _ camofox
    ∙ write_used-Avoids _ _ _ port _ searxng

both_free :
    (f g : String → Result (Unit {0})) (a b : Option String)
    → ((o : String) → f o ≢ ok tt)
    → ((o : String) → g o ≢ ok tt)
    → (if_some a f (if_some b g (ok tt)) ≡ ok tt) ↔ ((a ≡ none) × (b ≡ none))
both_free f g none none ff gg = (λ h. (refl, refl), λ h. refl)
both_free f g none (some y) ff gg = (λ h. absurd (gg y h), λ h. cc)
both_free f g (some x) b ff gg = (λ h. absurd (ff x h), λ h. cc)

-- With egress enabled, the ports are accepted exactly if neither of the proxy's two, the tunnel port
-- and the next, is that of an enabled listener of the pod: the webhook, the API server, the Camofox
-- sidecar and the SearXNG sidecar.
pub validate_egress_ports_iff :
    (ha : HermesAgent)
    → egress_enabled ha.spec.egress ≡ true
    → (validate_egress_ports ha ≡ ok tt) ↔ Listeners ha (IsClear ha)
unfolding validate_egress_ports
validate_egress_ports_iff ha on =
    let port = get_tunnel_port ha.spec.egress in
    let free =
      both_free (clash port port) (clash port (port + 1)) (owner_of ha port)
        (owner_of ha (port + 1)) (λ o h. cc) (λ o h. cc) in
    rw on (
      λ h.
          let (a, b) = free.0 h in
          let (w, (x, (c, s))) = unowned ha port a in
          let (w', (x', (c', s'))) = unowned ha (port + 1) b in
          ((w, w'), ((x, x'), ((c, c'), (s, s')))),
      λ (w, (x, (c, s))). free.1 (
        owner_of-none ha port (w.0, (x.0, (c.0, s.0))),
        owner_of-none ha (port + 1) (w.1, (x.1, (c.1, s.1))),
      ),
    )
