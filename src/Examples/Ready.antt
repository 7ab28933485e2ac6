-- ===== src/Examples/Ready.antt =====
-- The readiness of a guest, on the guest and on its host.
use ovm_next.Base.{
  ◌||◌, ℕ, ◌<◌, codes, Bool, true, false, List, [], ◌∷◌, Option, none, some, ok, ◌≡◌, refl, ap,
  arith, ◌==◌, ◌≤◌, Text, strip, zero, suc,
}
use ovm_next.Base.Action.{◌>>=◌}
use ovm_next.Build.Spec.{Machine, new_machine}
use ovm_next.Http.Client.{
  Endpoint, vsock_port, unix_socket, tcp_address, Request, Response, do_request, status_of,
  new_tcp_client, new_request,
}
use ovm_next.Lifecycle.Ignition.Server.{Json, Served, serve_request}
use ovm_next.Network.SshClient.{Wire, dial_with, dial_direct, apply_all, run_with, close}
use ovm_next.Network.SshLaws.{IsWire}
use ovm_next.Guest.Polling.{poll, IsEnding}
use ovm_next.Guest.Readiness.{
  Prober, is_ssh_ready, try_ssh, is_podman_ready, try_podman, is_interface_ready,
  wait_guest_service_ready,
}
use ovm_next.Guest.ReadinessLaws.{IsSession, IsSettled, is_ssh_ready-IsSettled}
use ovm_next.Guest.Delivering.{IsDelivering}
use ovm_next.Guest.Timing.{IsTimed}
use ovm_next.Guest.Announcing.{
  is_found, behind_ssh, behind_podman, wait_guest_service_ready-announces,
}

-- The world is the list of open connections, and how many ticks are left.
abbrev Timed : Type 0
Timed = List ℕ × ℕ

abbrev shortened : List ℕ → List ℕ
shortened [] = []
shortened (c ∷ cs) = cs

abbrev ticking : ℕ → Bool
ticking zero = false
ticking (suc n) = true

abbrev one_less : ℕ → ℕ
one_less zero = zero
one_less (suc n) = n

-- A network that gets as far as a session, in which the command fails to run.
abbrev timed_wire : Wire Timed
timed_wire = record {
  read_file = λ p w. some (codes "key");
  parse_key = λ k. true;
  dial_tcp = λ a d w. ((7 ∷ w.0, w.1), some 7);
  dial_unix = λ a d w. ((8 ∷ w.0, w.1), some 8);
  open_tunnel = λ c h p w. (w, true);
  handshake = λ c a u w. (w, true);
  close_conn = λ c w. (shortened w.0, w.1);
  close_client = λ c w. w;
  new_session = λ c w. (w, some 1);
  close_session = λ s w. w;
  run_command = λ s c w. (w, some false);
  terminate = λ s w. w;
}

abbrev timed_prober : Prober Timed
timed_prober = record {
  net = record {
    accepts = λ method url. true;
    exchange = λ r url w. (w, none);
    read_body = λ id w. (w, none);
    close_body = λ id w. w;
  };
  wire = timed_wire;
  tick = λ w. ((w.0, one_less w.1), ticking w.1);
  write_file = λ p s w. (w, true);
  remove_file = λ p w. w;
  addresses = λ name w. none;
}

abbrev open_connections : Timed → List ℕ
open_connections w = w.0

timed_wire-IsWire : IsWire timed_wire open_connections
timed_wire-IsWire = record {
  tcp = λ a d w w' c e. cc;
  no_tcp = λ a d w w' e. absurd cc;
  unix = λ a d w w' c e. cc;
  no_unix = λ a d w w' e. absurd cc;
  tunnelled = λ c h p w. refl;
  shaken = λ c a u w. refl;
  shut = λ c cs w e. rw e refl;
}

timed_prober-IsSession : IsSession timed_prober open_connections
timed_prober-IsSession = record {
  clients = λ c w. refl;
  starts = λ c w. refl;
  runs = λ s cmd w. refl;
  ends = λ s w. refl;
  signals = λ s w. refl;
  writes = λ p s w. refl;
  removes = λ p w. refl;
  ticks = λ w. refl;
}

one_less-lt : (n : ℕ) → ticking n ≡ true → one_less n < n
one_less-lt zero e = absurd cc
one_less-lt (suc n) e = omega arith

try_ssh-time : (w : Timed) → (try_ssh timed_prober (new_machine []) w).0 ≡ w
unfolding try_ssh dial_with dial_direct apply_all run_with close ◌>>=◌ ◌==◌
try_ssh-time w = refl

timed_prober-IsEnding :
    IsEnding timed_prober.tick (try_ssh timed_prober (new_machine [])) (λ (w : Timed). w.1)
timed_prober-IsEnding = record {
  ticks = λ w e. one_less-lt w.1 e;
  attempts = λ w. let same = ap (λ (v : Timed). v.1) (try_ssh-time w) in omega (arith, same);
}

is_ssh_ready-IsSettled_example :
    IsSettled timed_prober open_connections timed_wire-IsWire timed_prober-IsSession
      (3 ∷ [])
      (is_ssh_ready timed_prober (new_machine []) 5 (3 ∷ [], 4))
is_ssh_ready-IsSettled_example =
    is_ssh_ready-IsSettled timed_prober open_connections timed_wire-IsWire timed_prober-IsSession
      (new_machine []) (λ (w : Timed). w.1) 5 (3 ∷ [], 4) timed_prober-IsEnding
      (λ p s v. omega arith) (omega arith)

abbrev plain_json : Json
plain_json = record {
  marshal = λ m. some [];
  merge_patch = λ current patch. some patch;
  decode = λ text. none;
}

abbrev served_by : Request → Text → Machine → Served
served_by r path m = serve_request plain_json r.method path (some r.body) m

-- A server answers what is asked for by its URL.
abbrev exchanged : Endpoint → Option Text → Request → Machine → Machine × Option Response
exchanged (vsock_port cid port) none r m = (m, none)
exchanged (vsock_port cid port) (some path) r m =
    ((served_by r path m).machine, some (record { id = 0; status = (served_by r path m).status }))
exchanged (tcp_address addr) path r m = (m, some (record { id = 1; status = 200 }))
exchanged (unix_socket socket) path r m = (m, none)

-- The world is the machine on the host, and how many ticks are left.
abbrev World : Type 0
World = Machine × ℕ

abbrev with_ticks : ℕ → Machine × Option Response → World × Option Response
with_ticks n (m, response) = ((m, n), response)

abbrev machine_wire : Wire World
machine_wire = record {
  read_file = λ p w. some (codes "key");
  parse_key = λ k. true;
  dial_tcp = λ a d w. (w, some 7);
  dial_unix = λ a d w. (w, some 8);
  open_tunnel = λ c h p w. (w, true);
  handshake = λ c a u w. (w, true);
  close_conn = λ c w. w;
  close_client = λ c w. w;
  new_session = λ c w. (w, some 1);
  close_session = λ s w. w;
  run_command = λ s c w. (w, some true);
  terminate = λ s w. w;
}

abbrev machine_prober : Prober World
machine_prober = record {
  net = record {
    accepts = λ method url. true;
    exchange = λ r url w.
        with_ticks w.1 (exchanged r.client.endpoint (strip url (codes "http://vsock")) r w.0);
    read_body = λ id w. (w, none);
    close_body = λ id w. w;
  };
  wire = machine_wire;
  tick = λ w. ((w.0, one_less w.1), ticking w.1);
  write_file = λ p s w. (w, true);
  remove_file = λ p w. w;
  addresses = λ name w. none;
}

abbrev on_host : World → Machine
on_host w = w.0

machine_prober-IsDelivering : IsDelivering plain_json machine_prober.net on_host
machine_prober-IsDelivering = record {
  accepts = (refl, (refl, (refl, tt)));
  delivers = λ r path w e plain. ((0, ((served_by r path w.0).machine, w.1), rw e refl, refl));
  closes = λ id w. refl;
}

abbrev ticks_left : World → ℕ
ticks_left w = w.1

one_less-le : (n : ℕ) → one_less n ≤ n
one_less-le zero = omega arith
one_less-le (suc n) = omega arith

-- The ssh server and podman are there; the network has a mode that is not known.
ssh_there : (w : World) → try_ssh machine_prober (new_machine []) w ≡ (w, some tt)
unfolding try_ssh dial_with dial_direct apply_all run_with close ◌>>=◌ ◌==◌
ssh_there w = refl

podman_there : (w : World) → try_podman machine_prober (new_machine []) w ≡ (w, some tt)
unfolding try_podman status_of do_request new_request new_tcp_client ◌>>=◌
podman_there w = refl

with_ticks_left : (n : ℕ) (x : Machine × Option Response) → ticks_left (with_ticks n x).0 ≡ n
with_ticks_left n (m, response) = refl

machine_prober-IsTimed : IsTimed machine_prober (new_machine []) ticks_left
machine_prober-IsTimed = record {
  ssh = record {
    ticks = λ w e. one_less-lt w.1 e;
    attempts = λ w.
        let same = ap (λ (x : World × Option (Unit {0})). x.0.1) (ssh_there w) in
        omega (arith, same);
  };
  podman = record {
    ticks = λ w e. one_less-lt w.1 e;
    attempts = λ w.
        let same = ap (λ (x : World × Option (Unit {0})). x.0.1) (podman_there w) in
        omega (arith, same);
  };
  waits = λ w. one_less-le w.1;
  writes = λ p s w. omega arith;
  removes = λ p w. omega arith;
  exchanges = λ r url w.
      let same =
        with_ticks_left w.1
          (exchanged r.client.endpoint (strip url (codes "http://vsock")) r w.0) in
      omega (arith, same);
  closes = λ id w. omega arith;
}

polled_host :
    (attempt : World → World × Option (Unit {0}))
    → ((w : World) → attempt w ≡ (w, some tt))
    → (fuel : ℕ) (w : World) → on_host (poll machine_prober.tick attempt (suc fuel) w).0 ≡ on_host w
unfolding poll
polled_host attempt there fuel (m, zero) = refl
polled_host attempt there fuel (m, suc n) = rw (there (m, n)) refl

ssh_leaves : (w : World) → on_host (is_ssh_ready machine_prober (new_machine []) 4 w).0 ≡ on_host w
unfolding is_ssh_ready
ssh_leaves w = polled_host (try_ssh machine_prober (new_machine [])) ssh_there 3 w

podman_leaves :
    (w : World) → on_host (is_podman_ready machine_prober (new_machine []) 4 w).0 ≡ on_host w
unfolding is_podman_ready
podman_leaves w = polled_host (try_podman machine_prober (new_machine [])) podman_there 3 w

network_leaves :
    (w : World) → on_host (is_interface_ready machine_prober (new_machine []) 4 w).0 ≡ on_host w
unfolding is_interface_ready new_machine ◌==◌
network_leaves w = refl

ssh_is_found :
    is_found (is_ssh_ready machine_prober (new_machine []) 4 (new_machine [], 3)).1 ≡ true
unfolding is_ssh_ready poll try_ssh dial_with dial_direct apply_all run_with close ◌>>=◌ ◌==◌
ssh_is_found = refl

wait_guest_service_ready-announces_example :
    ((wait_guest_service_ready machine_prober (new_machine []) 4 (new_machine [], 3)).1 ≡ ok tt)
    × (on_host (wait_guest_service_ready machine_prober (new_machine []) 4 (new_machine [], 3)).0
        ≡ record (new_machine []) {
          readiness = record (new_machine []).readiness {
            ssh =
                (new_machine []).readiness.ssh
                || is_found (is_ssh_ready machine_prober (new_machine []) 4 (new_machine [], 3)).1;
            podman =
                (new_machine []).readiness.podman
                || is_found
                    (is_podman_ready machine_prober
                      (new_machine [])
                      4
                      (behind_ssh machine_prober (new_machine []) 4 (new_machine [], 3))).1;
            vnet_guest =
                (new_machine []).readiness.vnet_guest
                || is_found
                    (is_interface_ready machine_prober
                      (new_machine [])
                      4
                      (behind_podman machine_prober (new_machine []) 4 (new_machine [], 3))).1;
          };
        })
wait_guest_service_ready-announces_example =
    wait_guest_service_ready-announces plain_json machine_prober on_host (new_machine []) ticks_left
      4 (new_machine [], 3) machine_prober-IsDelivering machine_prober-IsTimed (omega arith)
      ssh_leaves podman_leaves network_leaves
