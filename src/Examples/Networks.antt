-- ===== src/Examples/Networks.antt =====
-- Addresses, ssh clients and virtual machines.
use ovm_next.Base.{
  ℕ, pos, codes, true, false, [], ◌∷◌, ◌++◌, none, some, ok, List, Result, ◌≡◌, refl, sym, ap,
  append-nil, arith, ◌⊎◌, ◌+◌, ◌-◌, Bool, Text, Option, Lacks, ◌∙◌,
}
use ovm_next.Define.{gvisor, tsi}
use ovm_next.Config.{Config}
use ovm_next.Lifecycle.Cleanup.{Callback}
use ovm_next.Storage.Disk.{full}
use ovm_next.Build.Spec.{Machine, new_machine}
use ovm_next.Build.Host.{BuildError}
use ovm_next.Build.Assembly.{build_machine, building}
use ovm_next.Build.Properties.{IsBuilt, build_machine-IsBuilt}
use ovm_next.Network.HostServices.{
  start_podman_proxy, tunnel, guest_ip, guest_ssh_addr, tunnel_target, start_podman_proxy-IsBuilt,
  guest_ssh_addr-IsBuilt,
}
use ovm_next.Network.SshClient.{Wire, Client, with_private_key, dial, default_options}
use ovm_next.Network.SshLaws.{IsWire, IsBalanced, dial-IsBalanced}
use ovm_next.Network.SshShell.{Terminal, shell_with}
use ovm_next.Network.SshShellLaws.{Held, IsTerminal, shell_with-held}
use ovm_next.Krun.Signals.{Json, stop, terminate, kill_all, kill_self, sync, power_off, receive}
use ovm_next.Krun.SignalLaws.{IsJson, receive-stop}
use ovm_next.Krun.Calls.{KrunHost}
use ovm_next.Krun.Create.{create, creating, ignition_port}
use ovm_next.Krun.Adds.{Device, port, disk, shared, devices_of, IsKrunHost}
use ovm_next.Krun.Devices.{create-devices}
use ovm_next.Examples.Disks.{Files, disk_host, no_files}
use ovm_next.Examples.Machines.{kind_host, small, work, machine_of, of_is_ok, is_ok}

abbrev routed : Config
routed = record small { network = gvisor }

abbrev routed_outcome : Files × Result BuildError (Machine × List (Callback Files))
routed_outcome = build_machine kind_host routed work no_files

abbrev routed_machine : Machine
routed_machine = (machine_of routed_outcome.1).0

routed_outcome_is_ok : is_ok routed_outcome.1 ≡ true
unfolding building
routed_outcome_is_ok = refl

routed_machine-IsBuilt : IsBuilt kind_host routed (full disk_host work) routed_machine
routed_machine-IsBuilt =
    build_machine-IsBuilt kind_host routed work no_files routed_outcome.0 routed_machine
      (machine_of routed_outcome.1).1 (of_is_ok routed_outcome routed_outcome_is_ok)

start_podman_proxy-IsBuilt_example :
    start_podman_proxy routed_machine
    ≡ ok (
        tunnel routed_machine.gvp_ctl_addr routed_machine.podman_info.host_podman_proxy_addr
          guest_ip 4242)
unfolding building
start_podman_proxy-IsBuilt_example =
    start_podman_proxy-IsBuilt kind_host routed (full disk_host work) routed_machine
      routed_machine-IsBuilt 4242 refl (omega arith)

guest_ssh_addr-IsBuilt_example :
    ((routed.network ≡ gvisor)
      × (tunnel_target (guest_ssh_addr routed_machine) ≡ ok (guest_ip, pos 4242)))
    ⊎ ((routed.network ≡ tsi)
        × (guest_ssh_addr routed_machine ≡ routed_machine.ssh_info.host_ssh_proxy_listen_addr))
unfolding building
guest_ssh_addr-IsBuilt_example =
    guest_ssh_addr-IsBuilt kind_host routed (full disk_host work) routed_machine
      routed_machine-IsBuilt 4242 refl (omega arith)

-- A network whose world is the list of its open connections, with a handshake that fails.
abbrev Conns : Type 0
Conns = List ℕ

abbrev without : Conns → Conns
without [] = []
without (c ∷ cs) = cs

abbrev conn_wire : Wire Conns
conn_wire = record {
  read_file = λ p w. some (codes "key");
  parse_key = λ k. true;
  dial_tcp = λ a d w. (7 ∷ w, some 7);
  dial_unix = λ a d w. (8 ∷ w, some 8);
  open_tunnel = λ c h p w. (w, true);
  handshake = λ c a u w. (w, false);
  close_conn = λ c w. without w;
  close_client = λ c w. w;
  new_session = λ c w. (w, none);
  close_session = λ s w. w;
  run_command = λ s c w. (w, none);
  terminate = λ s w. w;
}

conn_wire-IsWire : IsWire conn_wire (λ w. w)
conn_wire-IsWire = record {
  tcp = λ a d w w' c e. cc;
  no_tcp = λ a d w w' e. absurd cc;
  unix = λ a d w w' c e. cc;
  no_unix = λ a d w w' e. absurd cc;
  tunnelled = λ c h p w. refl;
  shaken = λ c a u w. refl;
  shut = λ c cs w e. rw e refl;
}

dial-IsBalanced_example :
    IsBalanced conn_wire
      (λ w. w)
      {A = Client}
      (λ c. c.conn)
      (3 ∷ [])
      (dial conn_wire (codes "10.0.0.1:22") (with_private_key (codes "/k") ∷ []) (3 ∷ []))
dial-IsBalanced_example =
    dial-IsBalanced conn_wire (λ w. w) conn_wire-IsWire (codes "10.0.0.1:22")
      (with_private_key (codes "/k") ∷ []) (3 ∷ [])

-- A host of libkrun whose world is the list of its devices.
abbrev krun_host : KrunHost (List Device)
krun_host = record {
  linux = true;
  debug = [];
  call = λ c w. (w ++ devices_of c, true);
  nests = λ w. false;
  open_console = λ tty w. (w, true);
  open_log = λ p w. (w, true);
  parse_url = λ raw. some (record { scheme = codes "unix"; host = []; path = codes "/i" });
  is_regular = λ p w. true;
  resolve = λ p w. some p;
  is_directory = λ p w. true;
}

krun_host-IsKrunHost : IsKrunHost krun_host (λ w. w)
krun_host-IsKrunHost = record {
  real_path = λ p. p;
  resolved = λ p real w e. cc;
  added = λ c w w' e. ap (λ r. r.0) (sym e);
  plain = λ c w e. rw e (append-nil w);
  console = λ tty w. refl;
  log = λ p w. refl;
}

abbrev krun_machine : Machine
krun_machine = record (new_machine []) {
  virtual_network_mode = tsi;
  ignition_listen_addr = codes "unix:///i";
  unix_socket_forwards = [];
  tty = true;
  blk_devs = record { uuid = []; fs_type = []; path = codes "/d"; mount_to = [] } ∷ [];
  mounts =
      record {
        read_only = false;
        source = codes "/h";
        tag = codes "t";
        target = codes "/h";
        kind = [];
        opts = [];
        uuid = [];
      }
      ∷ [];
}

create-devices_example :
    (create krun_host krun_machine []).0
    ≡ port ignition_port (codes "/i") ∷ disk (codes "/d") ∷ shared (codes "t") (codes "/h") ∷ []
unfolding creating new_machine krun_host-IsKrunHost
create-devices_example =
    create-devices krun_host (λ w. w) krun_host-IsKrunHost krun_machine (codes "/i") [] []
      (create krun_host krun_machine []).0 refl refl refl

-- The world is what is held; the shell fails to start.
abbrev without_session : Held → Held
without_session w = record w { sessions = without w.sessions }

abbrev held_wire : Wire Held
held_wire = record {
  read_file = λ p w. none;
  parse_key = λ k. true;
  dial_tcp = λ a d w. (w, none);
  dial_unix = λ a d w. (w, none);
  open_tunnel = λ c h p w. (w, true);
  handshake = λ c a u w. (w, true);
  close_conn = λ c w. w;
  close_client = λ c w. w;
  new_session = λ c w. (record w { sessions = 5 ∷ w.sessions }, some 5);
  close_session = λ s w. without_session w;
  run_command = λ s c w. (w, none);
  terminate = λ s w. w;
}

abbrev held_terminal : Terminal Held
held_terminal = record {
  output = λ s cmd w. (w, none);
  is_terminal = true;
  get_size = λ w. none;
  request_pty = λ s h v w. (w, true);
  make_raw = λ w. (record w { raw = true }, true);
  restore = λ w. record w { raw = false };
  start_shell = λ s w. (w, false);
  wait = λ s w. (w, none);
}

held_terminal-IsTerminal : IsTerminal held_wire held_terminal (λ w. w)
held_terminal-IsTerminal = record {
  opens = λ c w w' s e.
      let same : record w { sessions = 5 ∷ w.sessions } ≡ w' =
        ap (λ (r : Held × Option ℕ). r.0) e in
      let five : 5 ≡ s = cc in sym same ∙ ap (λ n. record w { sessions = n ∷ w.sessions }) five;
  no_session = λ c w w' e. absurd cc;
  closes = λ s ss b w e. rw e refl;
  requests = λ s h v w. refl;
  raises = λ w w' e. sym (ap (λ (r : Held × Bool). r.0) e);
  no_raise = λ w w' e. absurd cc;
  restores = λ w. refl;
  starts = λ s w. refl;
  waits = λ s w. refl;
  signals = λ s w. refl;
}

abbrev some_client : Client
some_client = record { conn = 7; opts = default_options; keeps_alive = true; closed = false }

shell_with-held_example :
    (shell_with held_wire held_terminal some_client (record { raw = false; sessions = 3 ∷ [] })).0
    ≡ record { raw = false; sessions = 3 ∷ [] }
shell_with-held_example =
    shell_with-held held_wire held_terminal (λ w. w) held_terminal-IsTerminal some_client (3 ∷ [])
      (record { raw = false; sessions = 3 ∷ [] }) refl

-- A way to write an object with one field: every character is moved behind the line break.
abbrev moved : Text → Text
moved [] = []
moved (c ∷ s) = (11 + c) ∷ moved s

abbrev prepended : ℕ → Option Text → Option Text
prepended c none = none
prepended c (some s) = some (c ∷ s)

abbrev moved_back : Text → Option Text
moved_back [] = none
moved_back (c ∷ []) = some []
moved_back (c ∷ d ∷ s) = prepended (c - 11) (moved_back (d ∷ s))

abbrev moving_json : Json
moving_json = record {
  encode = λ field value. moved value ++ b'}' ∷ [];
  decode = λ field text. moved_back text;
}

moved_back-moved : (s : Text) → moved_back (moved s ++ b'}' ∷ []) ≡ some s
moved_back-moved [] = refl
moved_back-moved (c ∷ []) = ap (λ n. some (n ∷ [])) (omega arith)
moved_back-moved (c ∷ d ∷ s) =
    rw (moved_back-moved (d ∷ s)) (ap (λ n. some (n ∷ d ∷ s)) (omega arith))

moved-Lacks : (s : Text) → Lacks b'\n' (moved s ++ b'}' ∷ [])
moved-Lacks [] = ((λ e. omega (arith, e)), tt)
moved-Lacks (c ∷ s) = ((λ e. omega (arith, e)), moved-Lacks s)

moving_json-IsJson : IsJson moving_json
moving_json-IsJson = record {
  reads = λ field other value same. moved_back-moved value;
  one_line = λ field value. moved-Lacks value;
  braced = λ field value. (moved value, refl);
}

receive-stop_example :
    receive moving_json (stop moving_json true)
    ≡ kill_all terminate ∷ kill_self terminate ∷ sync ∷ power_off ∷ []
receive-stop_example = receive-stop moving_json moving_json-IsJson
