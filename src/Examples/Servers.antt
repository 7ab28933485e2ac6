-- ===== src/Examples/Servers.antt =====
-- Requests to the servers of a machine, and commands that run in it.
use ovm_next.Base.{
  ℕ, zero, suc, ◌<◌, ltb, ◌+◌, Bool, Text, codes, strip, length, decimal, join_host_port, ◌++◌,
  if◌then◌else◌, true, false, List, [], ◌∷◌, Option, none, some, Result, ok, err, ◌≡◌, refl, arith,
  inl,
}
use ovm_next.Base.{◌==◌}
use ovm_next.Base.Action.{◌>>=◌}
use ovm_next.Build.Url.{Url, unix_url}
use ovm_next.Build.Network.{unspecified_address, host_domain_in_gvp_net}
use ovm_next.Build.Spec.{Machine, new_machine}
use ovm_next.Lifecycle.Ignition.Server.{Json, serve_request}
use ovm_next.Lifecycle.Ignition.ServerLaws.{IsGuarded, serve_request-IsGuarded}
use ovm_next.Network.Gvproxy.{StackHost, StackError, GvproxyConfig, init_cfg}
use ovm_next.Management.Server.{info, Backend, serve, handle_ovm_info}
use ovm_next.Management.ServerLaws.{asks_to_stop, asks_for, serve-stops, handle_ovm_info-init_cfg}
use ovm_next.Management.Exec.{
  Stream, stdout, stderr, Exec, start_exec, publish_line, stop_scanning, return_command, report,
  Step, Reachable, Undisturbed, fits, drained, readable,
}
use ovm_next.Management.ExecLaws.{IsFaithful, Reachable-IsFaithful}
use ovm_next.Management.ExecStall.{IsStalled, Undisturbed-IsStalled}

-- A patch that is read as another machine.
abbrev patched_machine : Machine
patched_machine = new_machine (codes "t")

abbrev patching_json : Json
patching_json = record {
  marshal = λ m. some [];
  merge_patch = λ current patch. some patch;
  decode = λ text. some patched_machine;
}

serve_request-IsGuarded_example : IsGuarded (new_machine []) (
    serve_request patching_json
      (codes "PATCH")
      (codes "/vmconfig")
      (some (codes "{}"))
      (new_machine []))
serve_request-IsGuarded_example =
    serve_request-IsGuarded patching_json (codes "PATCH") (codes "/vmconfig") (some (codes "{}"))
      (new_machine [])

abbrev parsed : Text → Option Text → Option Url
parsed text none = some (record { scheme = codes "tcp"; host = []; path = [] })
parsed text (some host) = some (record { scheme = codes "tcp"; host = host; path = [] })

abbrev parsed_unix : Text → Option Text → Option Url
parsed_unix text (some path) = some (unix_url path)
parsed_unix text none = parsed text (strip text (codes "tcp://"))

-- A parser for the two kinds of URL
abbrev parse : Text → Option Url
parse text = parsed_unix text (strip text (codes "unix://"))

-- The world counts what is started and stopped.
abbrev counting : Backend ℕ
counting = record {
  parse_url = parse;
  decode_exec = λ body. some (record { bin = codes "ls"; args = []; env = [] });
  decode_command = λ body. none;
  stop = suc;
  start_exec = λ req w. 10 + w;
  start_legacy = λ command w. 20 + w;
}

serve-stops_example : (serve counting (codes "/v2/exec") (codes "POST") [] (new_machine []) 0).0 ≡ (
    if asks_to_stop (codes "/v2/exec") (codes "POST")
    then 1
    else if asks_for (codes "/v2/exec") (codes "/v2/exec") (codes "POST")
    then 10
    else if asks_for (codes "/exec") (codes "/v2/exec") (codes "POST")
    then 0
    else 0)
serve-stops_example = serve-stops counting (codes "/v2/exec") (codes "POST") [] (new_machine []) 0

-- A host of the network stack, on which the preferred port is free.
abbrev stack_host : StackHost ℕ
stack_host = record {
  linux = true;
  load = some (record {
    listen = [];
    qemu = [];
    vfkit = [];
    services = [];
    gateway_ip = codes "192.168.127.1";
    qemu_protocol = false;
    forwards = [];
  });
  parse_url = parse;
  remove = λ p w. w;
  available_port = λ preferred w. (w, some 6123);
  new_network = λ cfg w. (w, true);
  listen = λ e w. (w, true);
  listen_unixgram = λ e w. (w, true);
  listen_inside = λ e w. (w, true);
}

abbrev networked : Machine
networked = record (new_machine []) {
  gvp_vnet_addr = codes "unix:///n";
  ssh_info = record (new_machine []).ssh_info {
    guest_ssh_server_listen_addr = join_host_port unspecified_address (decimal 22);
  };
  podman_info = record (new_machine []).podman_info { host_podman_proxy_addr = codes "unix:///p" };
}

abbrev set_up : ℕ × Result StackError (GvproxyConfig × Machine)
set_up = init_cfg stack_host networked 0

abbrev outcome_of : Result StackError (GvproxyConfig × Machine) → GvproxyConfig × Machine
outcome_of (ok r) = r
outcome_of (err e) = (
  record {
    listen = [];
    qemu = [];
    vfkit = [];
    services = [];
    gateway_ip = [];
    qemu_protocol = false;
    forwards = [];
  },
  networked,
)

set_up_is_ok : set_up ≡ (0, ok (outcome_of set_up.1))
unfolding init_cfg ◌>>=◌ ◌==◌ new_machine
set_up_is_ok = refl

small_ports :
    (v v' : ℕ) (port : ℕ) → stack_host.available_port 6123 v ≡ (v', some port) → port < 65536
small_ports v v' port e = let same : 6123 ≡ port = cc in omega arith

podman_parsed :
    parse (outcome_of set_up.1).1.podman_info.host_podman_proxy_addr ≡ some (unix_url (codes "/p"))
unfolding init_cfg ◌>>=◌ ◌==◌ new_machine
podman_parsed = refl

handle_ovm_info-init_cfg_example :
    (port : ℕ) × ((outcome_of set_up.1).0.forwards
      ≡ (codes "127.0.0.1:" ++ decimal port, codes "192.168.127.2:" ++ decimal 22) ∷ [])
    × (handle_ovm_info counting (codes "GET") (outcome_of set_up.1).1
        ≡ info (record {
          podman_socket_path = codes "/p";
          ssh_port = port;
          ssh_user = codes "root";
          host_endpoint = host_domain_in_gvp_net;
        }))
unfolding init_cfg ◌>>=◌ ◌==◌ new_machine
handle_ovm_info-init_cfg_example =
    handle_ovm_info-init_cfg stack_host counting networked (outcome_of set_up.1).1
      (outcome_of set_up.1).0 (codes "/p") 22 0 0 refl set_up_is_ok small_ports podman_parsed
      (λ port. refl)

-- A command that writes a line to its standard output and succeeds.
abbrev one_line : Stream → List Text
one_line stdout = codes "x" ∷ []
one_line stderr = []

abbrev all_terminated : Stream → Bool
all_terminated s = true

abbrev scanned_exec : Exec
scanned_exec = publish_line stdout (codes "x") [] (start_exec one_line all_terminated)

nothing_left : (s : Stream) → drained s scanned_exec ≡ true
unfolding readable
nothing_left stdout = refl
nothing_left stderr = refl

abbrev returned_exec : Exec
returned_exec = return_command none false scanned_exec

abbrev closed_exec : Exec
closed_exec = stop_scanning stderr (stop_scanning stdout returned_exec)

nothing_scans : (s : Stream) → closed_exec.scanning s ≡ false
nothing_scans stdout = refl
nothing_scans stderr = refl

finished-Reachable : Reachable one_line all_terminated (report none closed_exec)
finished-Reachable =
    Reachable.step
      (Reachable.step
        (Reachable.step
          (Reachable.step
            (Reachable.step Reachable.begin
              (Step.scan (start_exec one_line all_terminated) stdout (codes "x") [] refl refl refl))
            (Step.exit scanned_exec none refl nothing_left))
          (Step.close returned_exec stdout none refl refl (λ e. refl)))
        (Step.close (stop_scanning stdout returned_exec) stderr none refl refl (λ e. refl)))
      (Step.finish closed_exec none nothing_scans refl refl)

Reachable-IsFaithful_example : IsFaithful one_line all_terminated (report none closed_exec)
Reachable-IsFaithful_example = Reachable-IsFaithful one_line all_terminated finished-Reachable

repeated : ℕ → Text
repeated zero = []
repeated (suc n) = b'x' ∷ repeated n

length-repeated : (n : ℕ) → length (repeated n) ≡ n
unfolding repeated
length-repeated zero = refl
length-repeated (suc n) = let h = length-repeated n in omega (arith, h)

long-fits : (n : ℕ) → ltb n 1048576 ≡ false → fits (repeated n) ≡ false
long-fits n h = rw (length-repeated n) h

-- A line of a mebibyte behind one that fits.
abbrev long_lines : Stream → List Text
long_lines stdout = codes "x" ∷ repeated 1048576 ∷ []
long_lines stderr = []

Undisturbed-IsStalled_example :
    IsStalled stdout (
      publish_line stdout
        (codes "x")
        (repeated 1048576 ∷ [])
        (start_exec long_lines all_terminated))
Undisturbed-IsStalled_example =
    Undisturbed-IsStalled stdout long_lines all_terminated (codes "x" ∷ []) (repeated 1048576) []
      (long-fits 1048576 refl) (inl refl) refl
      (Undisturbed.step Undisturbed.begin (
        Step.scan (start_exec long_lines all_terminated) stdout (codes "x") (repeated 1048576 ∷ [])
          refl refl refl))
