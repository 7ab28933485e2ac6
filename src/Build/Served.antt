-- ===== src/Build/Served.antt =====
-- What the first half of building a machine does to the machine.
use ovm_next.Base.{
  Text, ℕ, codes, ◌++◌, ◌==◌, ==_iff, if◌then◌else◌, [], ◌∷◌, ok, ◌≡◌, refl, sym, subst, ◌∙◌, ◌⊎◌,
  inl, inr, some, to_u8, decimal, join_host_port,
}
use ovm_next.Base.Ensures.{Ensures, ◌⟫◌, weaken}
use ovm_next.Define.{gvisor, tsi}
use ovm_next.Config.{Config}
use ovm_next.Machine.{Resources, with_resources}
use ovm_next.Storage.Disk.{full}
use ovm_next.Build.Url.{string_of_url, unix_url}
use ovm_next.FilePath.{clean, join}
use ovm_next.Build.Paths.{
  get_socket_file, get_ssh_private_key_file, get_podman_socket_file, get_rootfs_dir,
}
use ovm_next.Build.Spec.{Machine, SshInfo, ProxySetting}
use ovm_next.Build.Host.{BuildHost}
use ovm_next.Build.Network.{with_gvisor, with_tsi}
use ovm_next.Build.Rootfs.{home_volume}
use ovm_next.Build.Services.{proxy_envs, listen_ip}
use ovm_next.Build.Steps.{
  set_resources-Ensures, configure_ssh-Ensures, configure_network-Ensures,
  with_built_in_rootfs-Ensures, with_mount_user_home-Ensures, configure_podman-Ensures,
}
use ovm_next.Build.Result.{mounts_with, set_mounts_lem, set_proxy-Ensures}
use ovm_next.Build.Assembly.{assemble_host}

-- A guest listens for SSH on a port of all its addresses, or behind TSI of its loopback, where
-- the host reaches it at the same address.
pub record IsReachable (mode : Text) (s : SshInfo) : Type 0 where
  pub known_mode : (mode ≡ gvisor) ⊎ (mode ≡ tsi)
  pub port : ℕ
  pub listens : s.guest_ssh_server_listen_addr ≡ join_host_port (listen_ip mode) (decimal port)
  pub proxied :
      s.host_ssh_proxy_listen_addr ≡ (if mode == tsi then s.guest_ssh_server_listen_addr else [])

-- A file of the directory of sockets in a workspace
abbrev pub socket_in : Text → Text → Text
socket_in workspace name = clean (join (workspace ∷ codes "socks" ∷ name ∷ []))

-- The private key of a workspace
abbrev pub key_in : Text → Text
key_in workspace = clean (join (workspace ∷ codes "ssh" ∷ codes "key" ∷ []))

module _ {W : Type 0} (host : BuildHost W) where
  -- Behind gvisor the two addresses of the network stack are sockets of the workspace.
  pub record IsConnected (mode workspace ctl net : Text) : Type 0 where
    pub control :
        mode ≡ gvisor → ctl ≡ string_of_url (unix_url (socket_in workspace (codes "gvpctl.sock")))
    pub frames :
        mode ≡ gvisor
        → net
          ≡ (if host.linux then codes "unix://" else codes "unixgram://")
            ++ socket_in workspace (codes "vnet.sock")

  -- A network leaves all of the machine but these fields, and the keys, as they are.
  pub record IsNetworked (mode : Text) (m m' : Machine) : Type 0 where
    info : SshInfo
    ctl : Text
    net : Text
    same : m' ≡ record m {
      virtual_network_mode = mode;
      ssh_info = info;
      gvp_ctl_addr = ctl;
      gvp_vnet_addr = net;
    }
    reachable : m.ssh_info.host_ssh_proxy_listen_addr ≡ [] → IsReachable mode info
    key_file : info.host_ssh_private_key_file ≡ m.ssh_info.host_ssh_private_key_file
    connected : IsConnected mode m.workspace_dir ctl net

  networked :
      (mode : Text) (m m' : Machine) (port : ℕ)
      → (((mode ≡ gvisor) × (m' ≡ with_gvisor host (record m { virtual_network_mode = mode }) port))
          ⊎ ((mode ≡ tsi) × (m' ≡ with_tsi host (record m { virtual_network_mode = mode }) port)))
      → IsNetworked mode m m'
  unfolding ◌==◌ get_socket_file
  networked mode m m' port (inl (g, e)) = record {
    info = (with_gvisor host (record m { virtual_network_mode = mode }) port).ssh_info;
    ctl = (with_gvisor host (record m { virtual_network_mode = mode }) port).gvp_ctl_addr;
    net = (with_gvisor host (record m { virtual_network_mode = mode }) port).gvp_vnet_addr;
    same = e;
    reachable = λ empty. record {
      known_mode = inl g;
      port = port;
      listens = rw g refl;
      proxied = rw g empty;
    };
    key_file = refl;
    connected = record { control = λ _. refl; frames = λ _. refl };
  }
  networked mode m m' port (inr (t, e)) = record {
    info = (with_tsi host (record m { virtual_network_mode = mode }) port).ssh_info;
    ctl = m.gvp_ctl_addr;
    net = m.gvp_vnet_addr;
    same = e;
    reachable =
        λ _. record { known_mode = inr t; port = port; listens = rw t refl; proxied = rw t refl };
    key_file = refl;
    connected = record {
      control = λ g. absurd (apart (sym t ∙ g));
      frames = λ g. absurd (apart (sym t ∙ g));
    };
  }
    where
      apart : tsi ≡ gvisor → ⊥
      apart e = let h = (==_iff tsi gvisor).1 e in cc

  -- The first half sets these fields and no other.
  pub record IsServed (cfg : Config) (m m' : Machine) : Type 0 where
    pub resources : Resources
    pub checked : with_resources cfg.memory_mb (to_u8 cfg.cpus) ≡ ok resources
    pub info : SshInfo
    pub reachable : IsReachable cfg.network info
    pub key_file : info.host_ssh_private_key_file ≡ get_ssh_private_key_file m.workspace_dir
    pub ctl : Text
    pub net : Text
    pub connected : IsConnected cfg.network m.workspace_dir ctl net
    pub proxy : ProxySetting
    pub home : Text
    pub found : host.home ≡ some home
    pub port : ℕ
    pub same : m' ≡ record m {
      log_file = cfg.log_to;
      memory_in_mb = resources.memory_in_mb;
      cpus = resources.cpus;
      ssh_info = info;
      virtual_network_mode = cfg.network;
      gvp_ctl_addr = ctl;
      gvp_vnet_addr = net;
      proxy_setting = proxy;
      root_fs = full host.disks (get_rootfs_dir m.workspace_dir);
      mounts = mounts_with host (home_volume host home ∷ []) m.mounts;
      podman_info = record {
        host_podman_proxy_addr = string_of_url (unix_url (get_podman_socket_file m.workspace_dir));
        guest_podman_api_listen_addr = join_host_port (listen_ip cfg.network) (decimal port);
        guest_podman_run_with_envs = proxy_envs proxy;
      };
    }

  pub assemble_host-IsServed :
      (cfg : Config) (m : Machine) → Ensures (IsServed cfg m) (assemble_host host cfg m)
  unfolding assemble_host
  assemble_host-IsServed cfg m =
      configure_ssh-Ensures host (record m { log_file = cfg.log_to }) ⟫ λ m₁ (keys, e₁).
      set_resources-Ensures host cfg.memory_mb (to_u8 cfg.cpus) m₁ ⟫ λ m₂ (r, checked, e₂).
      configure_network-Ensures host cfg.network m₂ ⟫ λ m₃ (port, chosen).
      set_proxy-Ensures host cfg m₃ ⟫ λ m₄ (proxy, e₄).
      with_built_in_rootfs-Ensures host m₄ ⟫ λ m₅ e₅.
      with_mount_user_home-Ensures host m₅ ⟫ λ m₆ (home, found, e₆).
      weaken
        (λ m₇ (podman_port, e₇).
          let n = networked cfg.network m₂ m₃ port chosen in
          record {
            resources = r;
            checked = checked;
            info = n.info;
            reachable = n.reachable (rw (e₂, e₁) refl);
            key_file = n.key_file ∙ rw (e₂, e₁) refl;
            ctl = n.ctl;
            net = n.net;
            connected =
                subst (λ ws. IsConnected cfg.network ws n.ctl n.net) (rw (e₂, e₁) refl) n.connected;
            proxy = proxy;
            home = home;
            found = found;
            port = podman_port;
            same =
                (let e₃ = n.same in
                  rw
                    (
                      e₇,
                      e₆,
                      set_mounts_lem host (home_volume host home ∷ []) m₅,
                      e₅,
                      e₄,
                      e₃,
                      e₂,
                      e₁,
                    )
                    refl);
          })
        (configure_podman-Ensures host m₆)
