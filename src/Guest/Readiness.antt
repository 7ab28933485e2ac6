-- ===== src/Guest/Readiness.antt =====
-- cmd/guest-agent/pkg/service/readiness.go, `PostReady` of cmd/guest-agent/pkg/vsock/vsockutils.go and
-- `WaitGuestServiceReady` of cmd/guest-agent/pkg/machine/common.go: the guest finds out what is ready
-- and tells the host.
use ovm_next.Base.{
  ℕ, eqb, ltb, Text, codes, ◌==◌, if◌then◌else◌, Bool, true, false, [], ◌∷◌, ◌++◌, Option, none,
  some, Result, ok, err, pos, join_host_port,
}
use ovm_next.Base.Action.{Action, ◌>>=◌}
use ovm_next.Define.{gvisor, tsi}
use ovm_next.Build.Network.{local_host}
use ovm_next.Build.Spec.{Machine}
use ovm_next.Http.Client.{
  Client, Request, Transport, HttpError, with_timeout, new_tcp_client, new_vsock_client, get, post,
  status_of,
}
use ovm_next.Krun.Create.{ignition_port}
use ovm_next.Lifecycle.Ignition.{service_ssh, service_podman, service_guest_network}
use ovm_next.Network.HostPort.{split_host_port}
use ovm_next.Network.HostServices.{port_or_empty}
use ovm_next.Network.SshClient.{Wire, SshError, with_private_key, with_user, dial, run_with, close}
use ovm_next.Network.SshClient as Ssh
use ovm_next.Guest.Polling.{Polled, found, ended, exhausted, poll}

-- What the guest asks of its system.
pub record Prober (W : Type 0) : Type 1 where
  pub net : Transport W
  pub wire : Wire W
  pub tick : W → W × Bool
  pub write_file : Text → Text → W → W × Bool
  pub remove_file : Text → W → W
  -- The number of addresses of an interface, or `none` where one of the two calls fails.
  pub addresses : Text → W → Option ℕ

abbrev pub tmp_key : Text
tmp_key = codes "/.sshkey"

abbrev pub builtin_busybox : Text
builtin_busybox = codes "/.bin/busybox"

-- The address in the guest of a service that listens on `addr`
abbrev pub here : Text → Text
here addr = join_host_port local_host (port_or_empty (split_host_port addr))

pub data ReadyError : Type 0 where
  http : HttpError → ReadyError
  status : ℕ → ReadyError
  out_of_fuel : ReadyError

module _ {W : Type 0} (guest : Prober W) (m : Machine) where
  -- The command ran, and the client is closed in any case.
  abbrev pub tried : Ssh.Client → W × Result SshError (Unit {0}) → W × Option (Unit {0})
  tried c (w, ok _) = ((close guest.wire c w).1, some tt)
  tried c (w, err e) = ((close guest.wire c w).1, none)

  abbrev pub dialled : W × Result SshError Ssh.Client → W × Option (Unit {0})
  dialled (w, err e) = (w, none)
  dialled (w, ok c) = tried c (run_with guest.wire c builtin_busybox w)

  -- A round of `IsSSHReady`
  unfoldable pub try_ssh : W → W × Option (Unit {0})
  try_ssh w = dialled (
      dial guest.wire (here m.ssh_info.guest_ssh_server_listen_addr)
        (with_private_key tmp_key ∷ with_user (codes "root") ∷ []) w)

  -- `defer os.Remove(tmpKey)`
  abbrev pub without_key : W × Polled (Unit {0}) → W × Polled (Unit {0})
  without_key (w, x) = (guest.remove_file tmp_key w, x)

  abbrev pub keyed : ℕ → W × Bool → W × Polled (Unit {0})
  keyed fuel (w, false) = (w, ended)
  keyed fuel (w, true) = poll guest.tick try_ssh fuel w

  -- `IsSSHReady`
  unfoldable pub is_ssh_ready : ℕ → W → W × Polled (Unit {0})
  is_ssh_ready fuel w =
      without_key (keyed fuel (guest.write_file tmp_key m.ssh_info.host_ssh_private_key w))

  abbrev pub pinged : W × Result HttpError ℕ → W × Option (Unit {0})
  pinged (w, err e) = (w, none)
  pinged (w, ok code) = (w, if eqb code 200 then some tt else none)

  -- A round of `IsPodmanReady`
  unfoldable pub try_podman : W → W × Option (Unit {0})
  try_podman w = pinged (
      status_of guest.net
        (get (new_tcp_client (here m.podman_info.guest_podman_api_listen_addr) []) (codes "_ping"))
        w)

  -- `IsPodmanReady`
  unfoldable pub is_podman_ready : ℕ → W → W × Polled (Unit {0})
  is_podman_ready = poll guest.tick try_podman

  abbrev pub has_address : Option ℕ → Option (Unit {0})
  has_address none = none
  has_address (some n) = if ltb 0 n then some tt else none

  -- A round of `IsInterfaceReady`
  unfoldable pub try_interface : Text → W → W × Option (Unit {0})
  try_interface name w = (w, has_address (guest.addresses name w))

  -- `IsInterfaceReady`
  unfoldable pub is_interface_ready : ℕ → W → W × Polled (Unit {0})
  is_interface_ready fuel w =
      if m.virtual_network_mode == gvisor
      then poll guest.tick (try_interface (codes "eth0")) fuel w
      else if m.virtual_network_mode == tsi
      then poll guest.tick (try_interface (codes "lo")) fuel w
      else (w, ended)

-- `NewVSockService`
abbrev pub vsock_client : Client
vsock_client = new_vsock_client 2 ignition_port (with_timeout (pos 2000) ∷ [])

abbrev pub ready_request : Text → Request
ready_request service = post vsock_client (codes "/ready/" ++ service)

module _ {W : Type 0} (net : Transport W) where
  abbrev pub accepted : W × Result HttpError ℕ → W × Result ReadyError (Unit {0})
  accepted (w, err e) = (w, err (http e))
  accepted (w, ok code) = (w, if eqb code 200 then ok tt else err (status code))

  -- `PostReady`
  unfoldable pub post_ready : Text → Action ReadyError W (Unit {0})
  post_ready service w = accepted (status_of net (ready_request service) w)

  -- A service is announced if it is ready, and passed over if its context ended.
  abbrev pub announced : Text → W × Polled (Unit {0}) → W × Result ReadyError (Unit {0})
  announced service (w, found _) = post_ready service w
  announced service (w, ended) = (w, ok tt)
  announced service (w, exhausted) = (w, err out_of_fuel)

  -- `WaitGuestServiceReady`, on its three checks
  unfoldable pub announce_all :
      (ssh podman interface : W → W × Polled (Unit {0})) → Action ReadyError W (Unit {0})
  announce_all ssh podman interface = do
    _ ← λ w. announced service_ssh (ssh w)
    _ ← λ w. announced service_podman (podman w)
    λ w. announced service_guest_network (interface w)

-- `WaitGuestServiceReady`
unfoldable pub wait_guest_service_ready :
    {W : Type 0} → Prober W → Machine → ℕ → Action ReadyError W (Unit {0})
wait_guest_service_ready guest m fuel =
    announce_all guest.net (is_ssh_ready guest m fuel) (is_podman_ready guest m fuel)
      (is_interface_ready guest m fuel)
