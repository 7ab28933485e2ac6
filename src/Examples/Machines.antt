-- ===== src/Examples/Machines.antt =====
-- Building machines, on a host whose calls succeed.
use ovm_next.Base.{
  Text, codes, Bool, true, false, [], ◌∷◌, Option, some, ok, err, pos, List, Result, ◌≡◌, refl,
}
use ovm_next.Config.{Config, mode_container}
use ovm_next.Lifecycle.Cleanup.{Callback}
use ovm_next.Build.Spec.{Machine, new_machine}
use ovm_next.Build.Host.{BuildHost, BuildError, SystemProxy, Removal, Locking}
use ovm_next.Build.Assembly.{build_machine, building}
use ovm_next.Machine.{ResourceError}
use ovm_next.Build.Properties.{given_back, build_machine-IsFinished}
use ovm_next.Examples.Disks.{Files, disk_host, no_files, disk_path}

abbrev keys : Option (Text × Text)
keys = some (codes "private", codes "public")

abbrev pub kind_host : BuildHost Files
kind_host = record {
  disks = disk_host;
  tag_of = λ target. target;
  linux = true;
  log_level = codes "info";
  home = some (codes "/h");
  executable = some (codes "/b/ovm");
  stdin_is_terminal = true;
  stdout_is_terminal = true;
  stderr_is_terminal = false;
  proxy = λ w. SystemProxy.disabled;
  lstat = λ p w. true;
  read_file = λ p w. some (codes "agent");
  write_file = λ p d mode w. (w, true);
  mkdir_all = λ p mode w. (w, true);
  remove = λ p w. (w, Removal.absent);
  remove_all = λ p w. (w, true);
  symlink = λ target p w. (w, true);
  lock = λ p w. (w, Locking.locked);
  unlock = λ p w. (w, true);
  extract_rootfs = λ p w. (w, true);
  generate_key = λ w. (w, keys);
  available_port = λ w. (w, some 4242);
}

abbrev pub small : Config
small = record {
  run_mode = mode_container;
  session_id = codes "s";
  cpus = pos 2;
  memory_mb = 512;
  work_dir = codes "/";
  env = codes "A=1" ∷ [];
  var_disk = record {
    raw_disk_path = disk_path;
    uuid = [];
    mnt = codes "/var";
    version = codes "v1";
  };
  external_disks = [];
  network = codes "tsi";
  mounts = [];
  forward_unix = codes "/g:/s" ∷ [];
  podman_proxy_api_file = [];
  manage_api_file = [];
  ssh_key_private_file_symbol_links = [];
  ssh_key_public_file_symbol_links = [];
  proxy = true;
  log_level = codes "info";
  log_to = codes "/l";
  report_url = [];
}

abbrev pub work : Text
work = codes "/tmp/s"

abbrev pub machine_of :
    Result BuildError (Machine × List (Callback Files)) → Machine × List (Callback Files)
machine_of (ok r) = r
machine_of (err e) = (new_machine [], [])

abbrev pub is_ok : Result BuildError (Machine × List (Callback Files)) → Bool
is_ok (ok r) = true
is_ok (err e) = false

pub of_is_ok :
    (r : Files × Result BuildError (Machine × List (Callback Files)))
    → is_ok r.1 ≡ true
    → r ≡ (r.0, ok (machine_of r.1))
of_is_ok (w, ok r) h = refl
of_is_ok (w, err e) h = cc

abbrev pub outcome : Files × Result BuildError (Machine × List (Callback Files))
outcome = build_machine kind_host small work no_files

abbrev poor : Config
poor = record small { memory_mb = 100 }

build_machine-IsFinished_example :
    build_machine kind_host poor work no_files
    ≡ (given_back kind_host work work no_files, err (BuildError.resources ResourceError.no_memory))
unfolding building
build_machine-IsFinished_example =
    build_machine-IsFinished kind_host poor work no_files no_files
      (record (new_machine (codes "container")) { workspace_dir = work }) refl refl
