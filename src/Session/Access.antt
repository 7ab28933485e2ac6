-- ===== src/Session/Access.antt =====
-- pkg/librevm/vm_access.go, `MakeSSHClient` of pkg/service/ssh/ssh.go and `attachConsole` of
-- cmd/revm/attach.go: what is done with a session that runs. The transport of HTTP, the network of ssh,
-- JSON, and the quoting of command lines are parameters.
use ovm_next.Base.{
  ℕ, eqb, Text, codes, ◌==◌, if◌then◌else◌, Bool, List, [], ◌∷◌, ◌++◌, Option, none, some, Result,
  ok, err, pos,
}
use ovm_next.Base.Action.{Action, ◌>>=◌, fail, lift, of_result}
use ovm_next.FilePath.{join, clean}
use ovm_next.Define.{gvisor}
use ovm_next.Config.{get_session_dir}
use ovm_next.Build.Url.{Url}
use ovm_next.Build.Spec.{Machine}
use ovm_next.Lifecycle.Readiness.{new_readiness}
use ovm_next.Http.Client.{HttpError, Transport, Response, new_unix_client, get, do_request}
use ovm_next.Network.Address.{AddrError, parse_unix_addr}
use ovm_next.Network.HostServices.{guest_ssh_addr}
use ovm_next.Network.SshClient.{
  Wire, Client, Setting, with_user, with_private_key, with_tunnel, with_timeout, with_keepalive,
  SshError, dial, run, run_with, close,
}
use ovm_next.Network.SshShell.{Terminal, ShellError, output, shell_with}

pub data AccessError : Type 0 where
  no_name : AccessError
  bad_level : Text → AccessError
  fetch : HttpError → AccessError
  status : ℕ → AccessError
  undecoded : AccessError
  control_addr : AddrError → AccessError
  ssh : SshError → AccessError
  shell_failed : ShellError → AccessError

pub record AccessHost (W : Type 0) : Type 1 where
  pub home : Option Text
  pub net : Transport W
  pub wire : Wire W
  pub terminal : Terminal W
  pub parse_url : Text → Option Url
  -- A machine that is decoded into a new value
  pub decode : Text → Option Machine
  -- `shellescape.QuoteCommand`
  pub quote : List Text → Text
  -- `logrus.ParseLevel`
  pub is_level : Text → Bool

-- `ignitionSockFile`
unfoldable pub ignition_sock_file : Text → Text
ignition_sock_file workspace = clean (join (workspace ∷ codes "socks" ∷ codes "ign.sock" ∷ []))

module _ {W : Type 0} (host : AccessHost W) where
  abbrev pub Access : Type 0 → Type 0
  Access A = Action AccessError W A

  -- A new value gets a runtime of its own, in which nothing is ready.
  abbrev pub attached : Option Machine → Result AccessError Machine
  attached none = err undecoded
  attached (some m) = ok (record m { readiness = new_readiness })

  abbrev pub decoded : Option Text → Result AccessError Machine
  decoded none = err undecoded
  decoded (some body) = attached (host.decode body)

  -- `defer network.CloseResponse(resp)`
  abbrev pub closing : {A : Type 0} → Response → W × A → W × A
  closing response (w, a) = (host.net.close_body response.id w, a)

  abbrev pub body_decoded : W × Option Text → W × Result AccessError Machine
  body_decoded (w, body) = (w, decoded body)

  abbrev pub checked : Response → W → W × Result AccessError Machine
  checked response w =
      if eqb response.status 200
      then body_decoded (host.net.read_body response.id w)
      else (w, err (status response.status))

  -- `AttachWorkspaceDir`
  unfoldable pub attach_workspace_dir : Text → Access Machine
  attach_workspace_dir workspace =
      lift fetch (
        do_request host.net
          (get (new_unix_client (ignition_sock_file workspace) []) (codes "/vmconfig")))
      >>= λ response w. closing response (checked response w)

  -- `Attach`
  unfoldable pub attach : Text → Access Machine
  attach name =
      if name == [] then fail no_name else attach_workspace_dir (get_session_dir host.home name)

  abbrev pub settings_for : Machine → List Setting
  settings_for m =
      with_user (codes "root")
      ∷ with_private_key m.ssh_info.host_ssh_private_key_file
      ∷ with_timeout (pos 2000)
      ∷ with_keepalive (pos 2000)
      ∷ []

  abbrev pub dialled : Machine → List Setting → Access Client
  dialled m settings = lift ssh (dial host.wire (guest_ssh_addr m) settings)

  -- `MakeSSHClient`
  unfoldable pub make_ssh_client : Machine → Access Client
  make_ssh_client m =
      if m.virtual_network_mode == gvisor
      then (do
        addr ← of_result control_addr (parse_unix_addr host.parse_url m.gvp_ctl_addr)
        dialled m (settings_for m ++ with_tunnel addr.path ∷ []))
      else dialled m (settings_for m)

  -- `defer client.Close()`
  abbrev pub with_client : {A : Type 0} → Machine → (Client → Access A) → Access A
  with_client m use_it =
      make_ssh_client m >>= λ c w. (let r = use_it c w in ((close host.wire c r.0).1, r.1))

  abbrev pub line_or_shell : List Text → List Text
  line_or_shell [] = codes "/bin/sh" ∷ []
  line_or_shell (arg ∷ args) = arg ∷ args

  -- `AttachedVM.Run`
  unfoldable pub run_attached : Machine → List Text → Access (Unit {0})
  run_attached m cmdline =
      with_client m (λ c. lift ssh (run host.wire c (host.quote (line_or_shell cmdline))))

  -- `Shell`, of an attached machine and of a session
  unfoldable pub shell : Machine → Access (Unit {0})
  shell m = with_client m (λ c. lift shell_failed (shell_with host.wire host.terminal c))

  -- `Exec`
  unfoldable pub exec : Machine → Text → List Text → Access Text
  exec m name args =
      with_client m (λ c. lift ssh (output host.wire host.terminal c (host.quote (name ∷ args))))

  -- `ExecWith`
  unfoldable pub exec_with : Machine → Text → List Text → Access (Unit {0})
  exec_with m name args =
      with_client m (λ c. lift ssh (run_with host.wire c (host.quote (name ∷ args))))

  -- `attachConsole`, of a level, a session, a command line, and whether there is to be a terminal
  unfoldable pub attach_console : Text → Text → List Text → Bool → Access (Unit {0})
  attach_console level name cmdline pty =
      let named = if level == [] then codes "info" else level in
      if host.is_level named
      then (if name == []
          then fail no_name
          else do m ← attach name; if pty then shell m else run_attached m cmdline)
      else fail (bad_level named)
