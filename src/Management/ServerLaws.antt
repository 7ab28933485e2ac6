-- ===== src/Management/ServerLaws.antt =====
-- Which requests stop the machine, and what the information tells of a machine whose network is up.
use ovm_next.Base.{
  join_host_port, ℕ, ◌<◌, Text, codes, ◌==◌, decimal, if◌then◌else◌, Bool, ◌&&◌, ◌||◌, [], ◌∷◌,
  ◌++◌, Option, none, some, ok, ◌≡◌, refl, ap, sym, ◌∙◌, arith, ==_iff,
}
use ovm_next.Base.Action.{>>=-eq-ok, pure-eq-ok}
use ovm_next.Build.Url.{Url, unix_url}
use ovm_next.Network.HostServices.{split_unspecified}
use ovm_next.Build.Network.{unspecified_address, local_host, host_domain_in_gvp_net}
use ovm_next.Build.Spec.{Machine}
use ovm_next.Network.AddressLaws.{atoi-decimal, url_port-decimal}
use ovm_next.Network.Gvproxy.{
  StackHost, GvproxyConfig, loaded, vnet_checked, vnet_scheme, port_found, init_cfg, ssh_forward,
  ssh_local_forward_listen_port,
}
use ovm_next.Management.Server.{
  ExecRequest, streaming, legacy_streaming, handle_exec, handle_legacy_exec, info, Backend,
  handle_ovm_info, handle_request_vm_stop, serve,
}

-- The requests that ask for the machine's end.
abbrev pub asks_to_stop : Text → Text → Bool
asks_to_stop path method =
    (path == codes "/v2/stop" || path == codes "/stop")
    && (method == codes "GET" || method == codes "POST")

-- The requests that ask for a command, of the kind that `path` is for.
abbrev pub asks_for : Text → Text → Text → Bool
asks_for command path method = path == command && method == codes "POST"

module _ {W : Type 0} (backend : Backend W) where
  -- What a body that is read starts; one that is not starts nothing.
  abbrev pub started_by : {A : Type 0} → (A → W → W) → Option A → W → W
  started_by start none w = w
  started_by start (some a) w = start a w

  streaming_world :
      (o : Option ExecRequest) (w : W)
      → (streaming backend o w).0 ≡ started_by backend.start_exec o w
  streaming_world none w = refl
  streaming_world (some req) w = refl

  legacy_streaming_world :
      (o : Option Text) (w : W)
      → (legacy_streaming backend o w).0 ≡ started_by backend.start_legacy o w
  legacy_streaming_world none w = refl
  legacy_streaming_world (some command) w = refl

  -- A request of the management API stops the machine exactly if it is a GET or POST of one of the two
  -- paths for that, starts a command in the guest exactly if it is a POST of a path for that whose
  -- body is read, and then just that command, and has no other effect.
  pub serve-stops :
      (path method body : Text) (m : Machine) (w : W)
      → (serve backend path method body m w).0 ≡ (
          if asks_to_stop path method
          then backend.stop w
          else if asks_for (codes "/v2/exec") path method
          then started_by backend.start_exec (backend.decode_exec body) w
          else if asks_for (codes "/exec") path method
          then started_by backend.start_legacy (backend.decode_command body) w
          else w)
  unfolding serve handle_request_vm_stop handle_exec handle_legacy_exec
  serve-stops path method body m w = ground (
    arith,
    streaming_world (backend.decode_exec body) w,
    legacy_streaming_world (backend.decode_command body) w,
    ==_iff path (codes "/v2/healthz"),
    ==_iff path (codes "/v2/vmconfig"),
    ==_iff path (codes "/v2/exec"),
    ==_iff path (codes "/v2/stop"),
    ==_iff path (codes "/exec"),
    ==_iff path (codes "/stop"),
    ==_iff path (codes "/info"),
  )

-- What `InitCfg` leaves in a machine, and what it forwards.
module _ {W : Type 0} (host : StackHost W) where
  port_found-ok :
      (x : W × Option ℕ) (w' : W) (port : ℕ)
      → port_found host x ≡ (w', ok port)
      → x ≡ (w', some port)
  port_found-ok (w, none) w' port e = absurd cc
  port_found-ok (w, some n) w' port e = cc

  init_cfg-forwards :
      (m m' : Machine) (config : GvproxyConfig) (w w' : W)
      → init_cfg host m w ≡ (w', ok (config, m'))
      → (port : ℕ) × (v : W) × (host.available_port ssh_local_forward_listen_port v
          ≡ (w', some port))
        × (config.forwards ≡ ssh_forward host m port ∷ [])
        × (m' ≡ record m {
          ssh_info = record m.ssh_info { host_ssh_proxy_listen_addr = (ssh_forward host m port).0 };
        })
  unfolding init_cfg
  init_cfg-forwards m m' config w w' e =
      let (base, v₁, _, e₁) = >>=-eq-ok (loaded host host.load) _ w e in
      let (_, v₂, _, e₂) =
        >>=-eq-ok (vnet_checked host (vnet_scheme host) (host.parse_url m.gvp_vnet_addr)) _ v₁ e₁ in
      let (port, v₃, found, e₃) =
        >>=-eq-ok (λ x. port_found host (host.available_port ssh_local_forward_listen_port x)) _ v₂
          e₂ in
      let (world, both) = pure-eq-ok (_, _) v₃ e₃ in
      (
        port,
        v₂,
        port_found-ok (host.available_port ssh_local_forward_listen_port v₂) w' port
            (found ∙ ap (λ (x : W). (x, ok port)) world),
        sym (ap (λ (x : GvproxyConfig × Machine). x.0.forwards) both),
        sym (ap (λ (x : GvproxyConfig × Machine). x.1) both),
      )

-- The forward leads to the port of the guest that its ssh server listens on.
forward-to :
    {W : Type 0} (host : StackHost W) (m : Machine) (port guest_port : ℕ)
    → m.ssh_info.guest_ssh_server_listen_addr
      ≡ join_host_port unspecified_address (decimal guest_port)
    → ssh_forward host m port
      ≡ (codes "127.0.0.1:" ++ decimal port, codes "192.168.127.2:" ++ decimal guest_port)
unfolding join_host_port
forward-to host m port guest_port listens = rw (listens, split_unspecified guest_port) refl

forwards-to :
    {W : Type 0} (host : StackHost W) (m : Machine) (config : GvproxyConfig) (port guest_port : ℕ)
    → m.ssh_info.guest_ssh_server_listen_addr
      ≡ join_host_port unspecified_address (decimal guest_port)
    → config.forwards ≡ ssh_forward host m port ∷ []
    → config.forwards
      ≡ (codes "127.0.0.1:" ++ decimal port, codes "192.168.127.2:" ++ decimal guest_port) ∷ []
forwards-to host m config port guest_port listens forwards =
    rw (forwards, forward-to host m port guest_port listens) refl

-- An address of the host as a URL
abbrev pub tcp_url : ℕ → Url
tcp_url port = record {
  scheme = codes "tcp";
  host = local_host ++ codes ":" ++ decimal port;
  path = [];
}

-- The answer to a request for information, once both addresses are parsed.
told :
    {W : Type 0} (backend : Backend W) (m : Machine) (sock : Text) (port : ℕ) (url : Url)
    → port < 65536
    → backend.parse_url m.podman_info.host_podman_proxy_addr ≡ some (unix_url sock)
    → backend.parse_url (codes "tcp://" ++ m.ssh_info.host_ssh_proxy_listen_addr) ≡ some url
    → url.host ≡ local_host ++ b':' ∷ decimal port
    → handle_ovm_info backend (codes "GET") m
      ≡ info (record {
        podman_socket_path = sock;
        ssh_port = port;
        ssh_user = codes "root";
        host_endpoint = host_domain_in_gvp_net;
      })
unfolding handle_ovm_info ◌==◌
told backend m sock port url small podman ssh at =
    rw (podman, ssh, url_port-decimal url local_host port at, atoi-decimal port small) refl

-- Once InitCfg of the network stack has succeeded on a machine whose ssh server listens on a port of
-- all its addresses, and where the parser of URLs reads the two addresses as what they were made of:
-- a port of 127.0.0.1 is forwarded to that port of 192.168.127.2 and nothing else is, and a GET of the
-- information tells the path of podman's socket and just the forwarded port, if ports have 16 bits.
pub handle_ovm_info-init_cfg :
    {W : Type 0} (host : StackHost W) (backend : Backend W) (m m' : Machine)
    (config : GvproxyConfig) (sock : Text) (guest_port : ℕ) (w w' : W)
    → m.ssh_info.guest_ssh_server_listen_addr
      ≡ join_host_port unspecified_address (decimal guest_port)
    → init_cfg host m w ≡ (w', ok (config, m'))
    → ((v v' : W) (port : ℕ)
        → host.available_port ssh_local_forward_listen_port v ≡ (v', some port)
        → port < 65536)
    → backend.parse_url m.podman_info.host_podman_proxy_addr ≡ some (unix_url sock)
    → ((port : ℕ)
        → backend.parse_url (codes "tcp://" ++ local_host ++ codes ":" ++ decimal port)
          ≡ some (tcp_url port))
    → (port : ℕ) × (config.forwards
        ≡ (codes "127.0.0.1:" ++ decimal port, codes "192.168.127.2:" ++ decimal guest_port) ∷ [])
      × (handle_ovm_info backend (codes "GET") m'
          ≡ info (record {
            podman_socket_path = sock;
            ssh_port = port;
            ssh_user = codes "root";
            host_endpoint = host_domain_in_gvp_net;
          }))
handle_ovm_info-init_cfg host backend m m' config sock guest_port w w' listens e bits podman tcp =
    let (port, v, found, forwards, made) = init_cfg-forwards host m m' config w w' e in
    (
      port,
      forwards-to host m config port guest_port listens forwards,
      told backend m' sock port (tcp_url port) (bits v w' port found) (rw made podman)
          (rw made (tcp port)) refl,
    )
