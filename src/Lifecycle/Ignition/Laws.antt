-- ===== src/Lifecycle/Ignition/Laws.antt =====
-- Which channels the guest's requests close.
use ovm_next.Base.{
  Text, codes, ◌==◌, ==_iff, Bool, false, ◌&&◌, ◌||◌, List, [], ◌∷◌, ◌≡◌, refl, ap, ◌∙◌, arith,
}
use ovm_next.Lifecycle.Readiness.{
  Readiness, signal_ssh_ready, signal_podman_ready, signal_vnet_host_ready, signal_vnet_guest_ready,
}
use ovm_next.Lifecycle.Ignition.{
  Request, handle_ready, serve, service_ssh, service_podman, service_guest_network,
}

-- A POST for the service.
abbrev pub announces : Text → Request → Bool
announces service req = req.method == codes "POST" && req.service == service

abbrev pub announced : Text → List Request → Bool
announced service [] = false
announced service (req ∷ reqs) = announces service req || announced service reqs

-- A channel is closed behind the requests if it was closed before or they announce its service.
pub record IsAnnounced (reqs : List Request) (r r' : Readiness) : Type 0 where
  pub ssh : r'.ssh ≡ (r.ssh || announced service_ssh reqs)
  pub podman : r'.podman ≡ (r.podman || announced service_podman reqs)
  pub vnet_guest : r'.vnet_guest ≡ (r.vnet_guest || announced service_guest_network reqs)
  pub vnet_host : r'.vnet_host ≡ r.vnet_host

handle_ready-IsAnnounced :
    (req : Request) (r : Readiness)
    → ((handle_ready req r).0.ssh ≡ (r.ssh || announces service_ssh req))
      × ((handle_ready req r).0.podman ≡ (r.podman || announces service_podman req))
      × ((handle_ready req r).0.vnet_guest ≡ (r.vnet_guest || announces service_guest_network req))
      × ((handle_ready req r).0.vnet_host ≡ r.vnet_host)
unfolding handle_ready signal_ssh_ready signal_podman_ready signal_vnet_host_ready
    signal_vnet_guest_ready
handle_ready-IsAnnounced req r =
    let m = ==_iff req.service service_ssh in
    let n = ==_iff req.service service_podman in
    let o = ==_iff req.service service_guest_network in
    (ground arith, ground arith, ground arith, ground arith)

or_assoc : (a b c : Bool) → ((a || b) || c) ≡ (a || (b || c))
or_assoc a b c = ground arith

IsAnnounced-nil : (r : Readiness) → IsAnnounced [] r r
IsAnnounced-nil r = record {
  ssh = ground arith;
  podman = ground arith;
  vnet_guest = ground arith;
  vnet_host = refl;
}

-- After any requests, a channel is closed exactly if it was closed before or one of the requests was
-- a POST for its service; the host's network channel is left as it was.
pub serve-IsAnnounced : (reqs : List Request) (r : Readiness) → IsAnnounced reqs r (serve reqs r)
unfolding serve
serve-IsAnnounced [] r = IsAnnounced-nil r
serve-IsAnnounced (req ∷ reqs) r =
    let (s, p, g, h) = handle_ready-IsAnnounced req r in
    let later = serve-IsAnnounced reqs (handle_ready req r).0 in
    record {
      ssh = later.ssh ∙ ap (λ b. b || announced service_ssh reqs) s ∙ or_assoc r.ssh _ _;
      podman =
          later.podman ∙ ap (λ b. b || announced service_podman reqs) p ∙ or_assoc r.podman _ _;
      vnet_guest =
          later.vnet_guest
          ∙ ap (λ b. b || announced service_guest_network reqs) g
          ∙ or_assoc r.vnet_guest _ _;
      vnet_host = later.vnet_host ∙ h;
    }
