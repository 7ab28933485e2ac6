-- ===== src/Management/Server.antt =====
-- The routes and handlers of pkg/service/management/server.go. A handler writes one answer, or opens
-- a stream of events, on which a command is run. JSON is a parameter.
use ovm_next.Base.{ℕ, Text, codes, ◌==◌, if◌then◌else◌, not, ◌&&◌, List, ◌++◌, Option, none, some}
use ovm_next.Build.Network.{host_domain_in_gvp_net}
use ovm_next.Build.Url.{Url}
use ovm_next.Build.Spec.{Machine}
use ovm_next.Network.Address.{atoi, url_port}

-- `Info`
pub record Info : Type 0 where
  pub podman_socket_path : Text
  pub ssh_port : ℕ
  pub ssh_user : Text
  pub host_endpoint : Text

-- `execRequest`; nothing reads its field `Env`.
pub record ExecRequest : Type 0 where
  pub bin : Text
  pub args : List Text
  pub env : List Text

-- A status without content or with an error, or with the status 200 what was asked for, or a stream on
-- which a command runs.
pub data Answer : Type 0 where
  status : ℕ → Answer
  info : Info → Answer
  vm_config : Machine → Answer
  exec_stream : ExecRequest → Answer
  legacy_stream : Text → Answer

-- What the handlers use of other code: `url.Parse`, `json.Decoder`, and `Stop` of the provider.
pub record Backend (W : Type 0) : Type 0 where
  pub parse_url : Text → Option Url
  pub decode_exec : Text → Option ExecRequest
  pub decode_command : Text → Option Text
  pub stop : W → W
  -- `go executeCommand(...)` and `go executeLegacyCommand(...)`, which dial the guest and run the
  -- command there
  pub start_exec : ExecRequest → W → W
  pub start_legacy : Text → W → W

module _ {W : Type 0} (backend : Backend W) where
  abbrev pub ported : Text → Option ℕ → Answer
  ported path none = status 500
  ported path (some port) = info (record {
    podman_socket_path = path;
    ssh_port = port;
    ssh_user = codes "root";
    host_endpoint = host_domain_in_gvp_net;
  })

  abbrev pub ssh_parsed : Text → Option Url → Answer
  ssh_parsed path none = status 500
  ssh_parsed path (some url) = ported path (atoi (url_port url))

  abbrev pub podman_parsed : Machine → Option Url → Answer
  podman_parsed m none = status 500
  podman_parsed m (some url) =
      ssh_parsed url.path
        (backend.parse_url (codes "tcp://" ++ m.ssh_info.host_ssh_proxy_listen_addr))

  -- `handleOVMInfo`
  unfoldable pub handle_ovm_info : Text → Machine → Answer
  handle_ovm_info method m =
      if not (method == codes "GET")
      then status 405
      else podman_parsed m (backend.parse_url m.podman_info.host_podman_proxy_addr)

  -- `handleHealth`
  unfoldable pub handle_health : Text → Answer
  handle_health method = if not (method == codes "GET") then status 405 else status 200

  -- `handleVMConfig`
  unfoldable pub handle_vm_config : Text → Machine → Answer
  handle_vm_config method m = if not (method == codes "GET") then status 405 else vm_config m

  -- `handleRequestVMStop`
  unfoldable pub handle_request_vm_stop : Text → W → W × Answer
  handle_request_vm_stop method w =
      if not (method == codes "GET") && not (method == codes "POST")
      then (w, status 405)
      else (backend.stop w, status 200)

  abbrev pub streaming : Option ExecRequest → W → W × Answer
  streaming none w = (w, status 400)
  streaming (some req) w = (backend.start_exec req w, exec_stream req)

  -- `handleExec`
  unfoldable pub handle_exec : Text → Text → W → W × Answer
  handle_exec method body w =
      if not (method == codes "POST")
      then (w, status 405)
      else streaming (backend.decode_exec body) w

  abbrev pub legacy_streaming : Option Text → W → W × Answer
  legacy_streaming none w = (w, status 400)
  legacy_streaming (some command) w = (backend.start_legacy command w, legacy_stream command)

  -- `handleLegacyExec`
  unfoldable pub handle_legacy_exec : Text → Text → W → W × Answer
  handle_legacy_exec method body w =
      if not (method == codes "POST")
      then (w, status 405)
      else legacy_streaming (backend.decode_command body) w

  -- The routes of `Start`, by the path of a request
  unfoldable pub serve : Text → Text → Text → Machine → W → W × Answer
  serve path method body m w =
      if path == codes "/v2/healthz"
      then (w, handle_health method)
      else if path == codes "/v2/vmconfig"
      then (w, handle_vm_config method m)
      else if path == codes "/v2/exec"
      then handle_exec method body w
      else if path == codes "/v2/stop"
      then handle_request_vm_stop method w
      else if path == codes "/exec"
      then handle_legacy_exec method body w
      else if path == codes "/stop"
      then handle_request_vm_stop method w
      else if path == codes "/info"
      then (w, handle_ovm_info method m)
      else (w, status 404)
