-- ===== src/Guest/Delivering.antt =====
-- The ignition server of the host at the other end of the guest's connection, and what comes of one
-- announcement.
use ovm_next.Base.{
  ℕ, Text, codes, ◌==◌, Bool, true, false, Option, some, ok, ◌≡◌, All, refl, ap, ◌∙◌, ◌++◌, ◌∷◌, [],
  split,
}
use ovm_next.Base.Action.{>>=-eq}
use ovm_next.FilePath.{clean}
use ovm_next.Build.Spec.{Machine}
use ovm_next.Http.Client.{
  vsock_port, Request, Transport, build_url, do_request, status_of, new_vsock_client, new_request,
}
use ovm_next.Lifecycle.Readiness.{Readiness}
use ovm_next.Lifecycle.Ignition.{handle_ready, service_ssh, service_podman, service_guest_network}
use ovm_next.Lifecycle.Ignition.Server.{Json, serve_request, serve_ready, Served}
use ovm_next.Network.HostPort.{has_char}
use ovm_next.Krun.Create.{ignition_port}
use ovm_next.Guest.Readiness.{ready_request, post_ready}

-- The channels that a service closes where it is ready.
abbrev pub closed_by : Text → Bool → Readiness → Readiness
closed_by service true r = (handle_ready (record { method = codes "POST"; service = service }) r).0
closed_by service false r = r

module _ {W : Type 0} (json : Json) (net : Transport W) (host : W → Machine) where
  -- The virtual machine hands a request for its ignition port to the ignition server, and the answer
  -- back; reading and closing an answer are no concern of the host.
  pub record IsDelivering : Type 0 where
    pub accepts :
        All
          (λ (service : Text).
            net.accepts (codes "POST") (codes "http://vsock/ready/" ++ service) ≡ true)
          (service_ssh ∷ service_podman ∷ service_guest_network ∷ [])
    pub delivers :
        (r : Request) (path : Text) (w : W)
        → r.client.endpoint ≡ vsock_port 2 ignition_port
        → clean path ≡ path
        → (id : ℕ) × (v : W) × (net.exchange r (codes "http://vsock" ++ path) w ≡ (
          v,
          some (record {
            id = id;
            status = (serve_request json r.method path (some r.body) (host w)).status;
          }),
        ))
          × (host v ≡ (serve_request json r.method path (some r.body) (host w)).machine)
    pub closes : (id : ℕ) (w : W) → host (net.close_body id w) ≡ host w

  abbrev ready_path : Text → Text
  ready_path service = codes "/ready/" ++ service

  -- The request for a service is made, and is among the routes of the server.
  pub record IsKnown (service : Text) : Type 0 where
    pub made : net.accepts (codes "POST") (codes "http://vsock" ++ ready_path service) ≡ true
    pub url : build_url (ready_request service) ≡ codes "http://vsock" ++ ready_path service
    pub plain : clean (ready_path service) ≡ ready_path service
    pub route :
        (m : Machine) (body : Option Text)
        → serve_request json (codes "POST") (ready_path service) body m
          ≡ serve_ready json (codes "POST") (some service) m
    pub good :
        (r : Readiness)
        → (handle_ready (record { method = codes "POST"; service = service }) r).1 ≡ 200

  module _ (laws : IsDelivering) where
    pub ssh-IsKnown : IsKnown service_ssh
    unfolding serve_request build_url new_request new_vsock_client handle_ready clean ◌==◌ has_char
        split
    ssh-IsKnown = record {
      made = laws.accepts.0;
      url = refl;
      plain = refl;
      route = λ m body. refl;
      good = λ r. refl;
    }

    pub podman-IsKnown : IsKnown service_podman
    unfolding serve_request build_url new_request new_vsock_client handle_ready clean ◌==◌ has_char
        split
    podman-IsKnown = record {
      made = laws.accepts.1.0;
      url = refl;
      plain = refl;
      route = λ m body. refl;
      good = λ r. refl;
    }

    pub network-IsKnown : IsKnown service_guest_network
    unfolding serve_request build_url new_request new_vsock_client handle_ready clean ◌==◌ has_char
        split
    network-IsKnown = record {
      made = laws.accepts.1.1.0;
      url = refl;
      plain = refl;
      route = λ m body. refl;
      good = λ r. refl;
    }

    -- One request, of which the answer is read as `PostReady` reads it.
    pub delivered :
        (service : Text) (w : W)
        → IsKnown service
        → ((post_ready net service w).1 ≡ ok tt)
          × (host (post_ready net service w).0
              ≡ record (host w) { readiness = closed_by service true (host w).readiness })
    unfolding post_ready status_of do_request new_request new_vsock_client
    delivered service w known =
        let r = ready_request service in
        let (id, v, sent, left) = laws.delivers r (ready_path service) w refl known.plain in
        let read =
          >>=-eq (do_request net r)
            (λ response u. (net.close_body response.id u, ok response.status)) w in
        let status =
          ap (λ (s : Served). s.status) (known.route (host w) (some []))
          ∙ known.good (host w).readiness in
        rw (read, known.url, known.made, sent, status)
          (
            refl,
            laws.closes id v
                ∙ left
                ∙ ap (λ (s : Served). s.machine) (known.route (host w) (some [])),
          )
