-- ===== src/Examples/Sessions.antt =====
-- Sessions, on the host of Examples/Machines.
use ovm_next.Base.{
  Text, codes, strip, ℕ, Bool, true, false, [], Option, none, some, ok, err, Result, ◌≡◌, refl, suc,
}
use ovm_next.Forward.Rules.{lookup}
use ovm_next.Forward.Parse.RoundTrip.{IsSocketPath, socket_path}
use ovm_next.Forward.Merge.{agent_guest_socket}
use ovm_next.Lifecycle.Events.{no_reporters}
use ovm_next.Build.Spec.{Machine}
use ovm_next.Session.Setup.{
  Session, SessionError, agent_socket, configure_agent_forward, init, starting,
}
use ovm_next.Session.SetupLaws.{IsSettled, init-IsSettled, init-IsServing}
use ovm_next.Session.Running.{
  Phase, Run, Reachable, begin, step, signal, boot, exit, online, start_run, booted,
}
use ovm_next.Session.Order.{IsOrderly, Reachable-IsOrderly}
use ovm_next.Base.{trim_space, ◌==◌}
use ovm_next.Base.Action.{◌>>=◌}
use ovm_next.Config.{default_config}
use ovm_next.Config.Normalize.{
  normalize_config, validate_config, resolve_memory, resolve_cpus, resolve_texts,
}
use ovm_next.Build.Spec.{new_machine}
use ovm_next.Http.Client.{Request, Response}
use ovm_next.Lifecycle.Readiness.{new_readiness}
use ovm_next.Lifecycle.Ignition.Server.{Json, Served, serve_request}
use ovm_next.Network.SshClient.{Wire}
use ovm_next.Network.SshShell.{Terminal}
use ovm_next.Session.Launch.{LaunchHost, LaunchError, new_vm, setup_loggers, set_up_at}
use ovm_next.Session.LaunchLaws.{IsReady, new_vm-IsReady}
use ovm_next.Build.Paths.{get_ign_socket_file}
use ovm_next.Session.Access.{AccessHost, attach}
use ovm_next.Session.AccessLaws.{IsServing, written, attach-serves}
use ovm_next.Config.{get_session_dir, get_log_file_path, get_default_var_disk_path}
use ovm_next.Examples.Configs.{raw_config, host}
use ovm_next.Examples.Disks.{Files, no_files}
use ovm_next.Examples.Machines.{kind_host, small, work}

abbrev creates : Machine → Files → Files × Bool
creates m w = (w, true)

abbrev fresh_session : Session Files
fresh_session = record {
  cfg = small;
  session_dir = work;
  machine = none;
  agent = none;
  cleanup = [];
  dispatcher = no_reporters;
}

abbrev merged_or_fresh : Result SessionError (Session Files) → Session Files
merged_or_fresh (ok vm) = vm
merged_or_fresh (err e) = fresh_session

abbrev agent_upstream : Text
agent_upstream = codes "/u"

abbrev merged_session : Session Files
merged_session = merged_or_fresh (configure_agent_forward agent_upstream fresh_session)

init-IsSettled_example :
    IsSettled kind_host creates merged_session no_files
      (init kind_host creates agent_upstream fresh_session no_files)
unfolding starting
init-IsSettled_example =
    init-IsSettled kind_host creates agent_upstream fresh_session merged_session no_files refl

abbrev started_session : Files × (Session Files × Result SessionError (Unit {0}))
started_session = init kind_host creates agent_upstream fresh_session no_files

abbrev is_started : Result SessionError (Unit {0}) → Bool
is_started (ok x) = true
is_started (err e) = false

started_is_ok :
    (r : Files × (Session Files × Result SessionError (Unit {0})))
    → is_started r.1.1 ≡ true
    → r ≡ (r.0, (r.1.0, ok tt))
started_is_ok (w, (vm, ok x)) h = refl
started_is_ok (w, (vm, err e)) h = cc

started_session_is_ok : is_started started_session.1.1 ≡ true
unfolding starting
started_session_is_ok = refl

agent_socket-IsSocketPath : IsSocketPath (agent_socket work)
unfolding starting
agent_socket-IsSocketPath = socket_path _ refl

started_agent : started_session.1.0.agent ≡ some (codes "/tmp/s/socks/oo-ssh-agent.sock")
unfolding starting
started_agent = refl

init-IsServing_example :
    (m : Machine) × (started_session.1.0.machine ≡ some m)
    × (lookup agent_guest_socket m.unix_socket_forwards
        ≡ some (codes "/tmp/s/socks/oo-ssh-agent.sock"))
init-IsServing_example =
    init-IsServing kind_host creates agent_upstream (codes "/tmp/s/socks/oo-ssh-agent.sock")
      fresh_session started_session.1.0 no_files started_session.0 refl agent_socket-IsSocketPath
      (started_is_ok started_session started_session_is_ok) started_agent

-- A run whose virtual machine starts and exits.
abbrev online_run : Run ℕ
online_run = record (start_run false) { network_ready = true }

abbrev booted_run : Run ℕ
booted_run = record online_run { phase = booted }

abbrev exited_run : Run ℕ
exited_run = record booted_run { phase = Phase.draining (some none); cancelled = true }

exited-Reachable : Reachable 0 exited_run
exited-Reachable =
    step (step (signal (begin false) (online (start_run false))) (boot online_run refl refl))
      (exit booted_run none refl)

Reachable-IsOrderly_example : IsOrderly exited_run
Reachable-IsOrderly_example = Reachable-IsOrderly 0 exited_run exited-Reachable

-- The world counts the calls.
abbrev launch_host : LaunchHost ℕ
launch_host = record {
  limits = host;
  home = some (codes "/h");
  is_level = λ level. true;
  parse_url = λ raw. none;
  encode = λ cfg. [];
  make_dir = λ p mode w. (suc w, true);
  is_long = λ p w. false;
  truncate = λ p w. suc w;
  open_log = λ p w. (suc w, true);
  write_file = λ p s mode w. (suc w, true);
}

abbrev launched : ℕ × Result LaunchError (Session ℕ)
launched = new_vm launch_host (some raw_config) 0

abbrev session_in : Result LaunchError (Session ℕ) → Session ℕ
session_in (ok vm) = vm
session_in (err e) = record {
  cfg = raw_config;
  session_dir = [];
  machine = none;
  agent = none;
  cleanup = [];
  dispatcher = no_reporters;
}

launched_is_ok : launched ≡ (2, ok (session_in launched.1))
unfolding new_vm setup_loggers set_up_at normalize_config default_config validate_config
    resolve_memory resolve_cpus resolve_texts trim_space ◌>>=◌ ◌==◌ get_log_file_path
    get_default_var_disk_path
launched_is_ok = refl

new_vm-IsReady_example : IsReady launch_host raw_config (session_in launched.1)
new_vm-IsReady_example =
    new_vm-IsReady launch_host raw_config 0 2 (session_in launched.1) launched_is_ok

-- A machine that is served as it is; the world is what its server wrote last.
abbrev served_machine : Machine
served_machine = new_machine (codes "s")

abbrev serving_json : Json
serving_json = record {
  marshal = λ m. none;
  merge_patch = λ current patch. none;
  decode = λ text. none;
}

abbrev json_of : Machine → Text
json_of m = codes "{}"

abbrev served : Request → Text → Served
served r path = serve_request serving_json r.method path (some r.body) served_machine

-- A server answers what is asked for by its URL.
abbrev answered_at : Option Text → Request → Text → Text × Option Response
answered_at none r w = (w, none)
answered_at (some path) r w = (
  written json_of (served r path).reply,
  some (record { id = 0; status = (served r path).status }),
)

abbrev no_wire : Wire Text
no_wire = record {
  read_file = λ p w. none;
  parse_key = λ k. false;
  dial_tcp = λ a d w. (w, none);
  dial_unix = λ a d w. (w, none);
  open_tunnel = λ c h p w. (w, false);
  handshake = λ c a u w. (w, false);
  close_conn = λ c w. w;
  close_client = λ c w. w;
  new_session = λ c w. (w, none);
  close_session = λ s w. w;
  run_command = λ s c w. (w, none);
  terminate = λ s w. w;
}

abbrev no_terminal : Terminal Text
no_terminal = record {
  output = λ s cmd w. (w, none);
  is_terminal = false;
  get_size = λ w. none;
  request_pty = λ s h v w. (w, false);
  make_raw = λ w. (w, false);
  restore = λ w. w;
  start_shell = λ s w. (w, false);
  wait = λ s w. (w, none);
}

abbrev access_host : AccessHost Text
access_host = record {
  home = some (codes "/h");
  net = record {
    accepts = λ method url. true;
    exchange = λ r url w. answered_at (strip url (codes "http://unix")) r w;
    read_body = λ id w. (w, some w);
    close_body = λ id w. w;
  };
  wire = no_wire;
  terminal = no_terminal;
  parse_url = λ raw. none;
  decode = λ text. some served_machine;
  quote = λ line. [];
  is_level = λ level. true;
}

access_host-IsServing :
    (sock : Text) → IsServing serving_json json_of access_host sock (λ w. served_machine)
access_host-IsServing sock = record {
  accepts = refl;
  serves = λ r path w e plain. ((0, written json_of (served r path).reply, refl, refl));
  decodes = λ w. ((served_machine, refl, refl));
}

s_is_a_name : (codes "s" == []) ≡ false
unfolding ◌==◌
s_is_a_name = refl

attach-serves_example :
    (attach access_host (codes "s") []).1 ≡ ok (record served_machine { readiness = new_readiness })
attach-serves_example =
    attach-serves serving_json json_of access_host (λ w. served_machine) (codes "s") [] s_is_a_name
      (access_host-IsServing
        (get_ign_socket_file (get_session_dir (some (codes "/h")) (codes "s"))))
