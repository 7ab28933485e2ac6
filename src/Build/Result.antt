-- ===== src/Build/Result.antt =====
-- What a machine that is built has.
use ovm_next.Base.{Text, codes, List, [], ◌∷◌, ok, ◌≡◌, refl, sym, ap, append-nil}
use ovm_next.Base.Ensures.{Ensures, ◌⟫◌, done, failed, unless, of_result-Ensures, lift-Ensures}
use ovm_next.Config.{Config}
use ovm_next.Mount.{Mount}
use ovm_next.Mount.Volume.{with_user_provided_mounts, cmd_line_mount_to_mounts}
use ovm_next.Storage.Disk.{BlkDev}
use ovm_next.Storage.Var.{with_var_disk}
use ovm_next.Storage.External.{with_disks}
use ovm_next.Forward.Rules.{Rules}
use ovm_next.Forward.Parse.{parse_rules}
use ovm_next.Forward.Routes.{Route, build_routes}
use ovm_next.Build.Url.{string_of_url, unix_url}
use ovm_next.Build.Paths.{get_ign_socket_file, get_vm_ctl_socket_file}
use ovm_next.Build.Spec.{Machine, ProxySetting}
use ovm_next.Build.Host.{BuildHost, BuildError, SystemProxy}
use ovm_next.Build.Network.{with_proxy, apply_system_proxy}
use ovm_next.Build.Rootfs.{set_mounts, set_var_disk, set_disks}
use ovm_next.Build.Guest.{final_env}
use ovm_next.Build.Steps.{configure_guest_agent-Ensures, configure_vm_ctl_api-Ensures}
use ovm_next.Build.Assembly.{set_proxy, set_forwards, detect_tty, assemble_guest}

module _ {W : Type 0} (host : BuildHost W) where
  abbrev pub mounts_with : List Text → List Mount → List Mount
  mounts_with = with_user_provided_mounts host.tag_of host.disks.cwd

  pub set_mounts_lem :
      (dirs : List Text) (m : Machine)
      → set_mounts host dirs m ≡ record m { mounts = mounts_with dirs m.mounts }
  unfolding set_mounts with_user_provided_mounts cmd_line_mount_to_mounts
  set_mounts_lem [] m = ap (λ ms. record m { mounts = ms }) (sym (append-nil m.mounts))
  set_mounts_lem (d ∷ ds) m = refl

  with_proxy-Ensures :
      (m : Machine) (p : SystemProxy)
      → Ensures
          (λ m'. (s : ProxySetting) × (m' ≡ record m { proxy_setting = s }))
          (with_proxy host m p)
  with_proxy-Ensures m SystemProxy.unknown = failed
  with_proxy-Ensures m SystemProxy.disabled = done (m.proxy_setting, refl)
  with_proxy-Ensures m (SystemProxy.enabled url) = done (_, refl)

  pub set_proxy-Ensures :
      (cfg : Config) (m : Machine)
      → Ensures
          (λ m'. (s : ProxySetting) × (m' ≡ record m { proxy_setting = s }))
          (set_proxy host cfg m)
  unfolding set_proxy apply_system_proxy
  set_proxy-Ensures cfg m =
      unless cfg.proxy (λ _. record { from = λ w. (with_proxy-Ensures m (host.proxy w)).from w })
        (λ _. done (m.proxy_setting, refl))

  set_var_disk-Ensures :
      (cfg : Config) (m : Machine)
      → Ensures
          (λ m'.
            (devs : List BlkDev) × (w w' : W) × (with_var_disk host.disks cfg.var_disk m.blk_devs w
              ≡ (w', ok devs))
            × (m' ≡ record m { blk_devs = devs }))
          (set_var_disk host cfg.var_disk m)
  unfolding set_var_disk
  set_var_disk-Ensures cfg m =
      lift-Ensures BuildError.disk (with_var_disk host.disks cfg.var_disk m.blk_devs)
      ⟫ λ devs (w, w', e). done (devs, w, w', e, refl)

  set_disks-Ensures :
      (cfg : Config) (m : Machine)
      → Ensures
          (λ m'.
            (devs : List BlkDev) × (w w' : W) × (with_disks host.disks cfg.external_disks m.blk_devs
                w
              ≡ (w', ok devs))
            × (m' ≡ record m { blk_devs = devs }))
          (set_disks host cfg.external_disks m)
  unfolding set_disks
  set_disks-Ensures cfg m =
      lift-Ensures BuildError.disk (with_disks host.disks cfg.external_disks m.blk_devs)
      ⟫ λ devs (w, w', e). done (devs, w, w', e, refl)

  set_forwards-Ensures :
      (specs : List Text) (m : Machine)
      → Ensures
          (λ m'.
            (rules : Rules) × (parse_rules specs ≡ ok rules)
            × ((routes : List Route) × (build_routes rules ≡ ok routes))
            × (m' ≡ record m { unix_socket_forwards = rules }))
          (set_forwards host specs m)
  unfolding set_forwards
  set_forwards-Ensures specs m =
      of_result-Ensures BuildError.forward (parse_rules specs) ⟫ λ rules parsed.
      of_result-Ensures BuildError.route (build_routes rules) ⟫ λ routes built.
      done (rules, parsed, (routes, built), refl)

  -- The second half sets these fields and no other.
  pub record IsCompleted (cfg : Config) (m m' : Machine) : Type 0 where
    pub var_devs : List BlkDev
    pub var_step :
        (w w' : W) × (with_var_disk host.disks cfg.var_disk m.blk_devs w ≡ (w', ok var_devs))
    pub disks : List BlkDev
    pub disks_step :
        (w w' : W) × (with_disks host.disks cfg.external_disks var_devs w ≡ (w', ok disks))
    pub forwards : Rules
    pub parsed : parse_rules cfg.forward_unix ≡ ok forwards
    pub routed : (routes : List Route) × (build_routes forwards ≡ ok routes)
    pub same : m' ≡ record m {
      blk_devs = disks;
      mounts = mounts_with cfg.mounts m.mounts;
      unix_socket_forwards = forwards;
      guest_agent = record {
        workdir = codes "/";
        args = [];
        env = final_env host.log_level cfg.env;
      };
      ignition_listen_addr = string_of_url (unix_url (get_ign_socket_file m.workspace_dir));
      vm_ctl_addr = string_of_url (unix_url (get_vm_ctl_socket_file m.workspace_dir));
      tty = (detect_tty host m).tty;
    }

  pub assemble_guest-IsCompleted :
      (cfg : Config) (m : Machine) → Ensures (IsCompleted cfg m) (assemble_guest host cfg m)
  unfolding assemble_guest detect_tty
  assemble_guest-IsCompleted cfg m = set_var_disk-Ensures cfg m ⟫ λ m₁ (var_devs, v, v', step₁, e₁).
      set_disks-Ensures cfg m₁ ⟫ λ m₂ (devs, w, w', step₂, e₂).
      set_forwards-Ensures cfg.forward_unix (set_mounts host cfg.mounts m₂)
      ⟫ λ m₃ (rules, parsed, routed, e₃). configure_guest_agent-Ensures host cfg.env m₃ ⟫ λ m₄ e₄.
          configure_vm_ctl_api-Ensures host m₄ ⟫ λ m₅ e₅. done (record {
            var_devs = var_devs;
            var_step = (v, v', step₁);
            disks = devs;
            disks_step = (w, w', rw e₁ at step₂);
            forwards = rules;
            parsed = parsed;
            routed = routed;
            same = rw (e₅, e₄, e₃, set_mounts_lem cfg.mounts m₂, e₂, e₁) refl;
          })
