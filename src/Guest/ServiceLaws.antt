-- ===== src/Guest/ServiceLaws.antt =====
-- What preparing the agent's services leaves alone, and which programs they are.
use ovm_next.Base.{ℕ, Text, List, [], ◌∷◌, ok, ◌≡◌, sym, ◌∙◌}
use ovm_next.Base.Action.{>>=-eq-ok, lift, lift-eq-ok}
use mathlib.Core.Path.{ap₂}
use ovm_next.FilePath.{dir}
use ovm_next.Build.Spec.{Machine}
use ovm_next.Guest.System.{System}
use ovm_next.Guest.Keeping.{Keeps, keep_all, keep_bind, keep_try, keep_lift, keep_pure, IsKept}
use ovm_next.Guest.Network.{configure_network, virtual_network_type}
use ovm_next.Guest.NetworkLaws.{configure_network-Keeps}
use ovm_next.Guest.ForwarderLaws.{start_forwarders_keeps}
use ovm_next.Guest.Services.{
  no_key_dir, no_host_key, no_keys_dir, no_authorized_keys, no_script_dir, no_script, Supervised,
  DropbearConfig, dropbear_config, dropbear_service, podman_service, generate_host_key,
  write_authorized_keys, start_guest_ssh_server, generate_compat_scripts,
  start_guest_podman_service,
}
use ovm_next.Guest.Boot.{BootError, docker_engine_mode, forward}

module _ {W : Type 0} (sys : System W) (script : Text) where
  module _ (Q : W → Type 0) (kept : IsKept Q sys) where
    start_guest_podman_service-Keeps :
        (m : Machine) → Keeps Q (start_guest_podman_service sys script m)
    unfolding start_guest_podman_service generate_compat_scripts
    start_guest_podman_service-Keeps m =
        keep_bind Q _ _
          (keep_bind Q _ _ (keep_try Q no_script_dir _ (kept.make_dir _ 0o755))
            λ _. keep_try Q no_script _ (kept.write_file _ script 0o755))
          λ _. keep_pure Q (podman_service sys.log_level m)

    generate_host_key-Keeps : (cfg : DropbearConfig) → Keeps Q (generate_host_key sys script cfg)
    unfolding generate_host_key
    generate_host_key-Keeps cfg =
        keep_bind Q _ _ (keep_try Q no_key_dir _ (kept.make_dir (dir cfg.private_key_path) 0o755))
          λ _. keep_try Q no_host_key _ (kept.run_dropbear _)

    write_authorized_keys-Keeps :
        (cfg : DropbearConfig) (key : Text) → Keeps Q (write_authorized_keys sys script cfg key)
    unfolding write_authorized_keys
    write_authorized_keys-Keeps cfg key =
        keep_bind Q _ _
          (keep_try Q no_keys_dir _ (kept.make_dir (dir cfg.authorized_keys_file) 0o755))
          λ _. keep_try Q no_authorized_keys _ (kept.write_file cfg.authorized_keys_file key 0o600)

    start_guest_ssh_server-Keeps : (m : Machine) → Keeps Q (start_guest_ssh_server sys script m)
    unfolding start_guest_ssh_server
    start_guest_ssh_server-Keeps m =
        let cfg = dropbear_config sys script m in
        keep_bind Q _ _ (generate_host_key-Keeps cfg) λ _.
          keep_bind Q _ _ (write_authorized_keys-Keeps cfg m.ssh_info.host_ssh_public_key)
            λ _. keep_pure Q (dropbear_service cfg)

    pub docker_engine_mode-Keeps :
        (fuel : ℕ) (m : Machine) → Keeps Q (docker_engine_mode sys script fuel m)
    unfolding docker_engine_mode
    docker_engine_mode-Keeps fuel m =
        keep_bind Q _ _
          (keep_lift Q BootError.network _
            (configure_network-Keeps sys Q kept (virtual_network_type m.virtual_network_mode) fuel))
          λ _.
            keep_bind Q _ _ (keep_lift Q BootError.podman _ (start_guest_podman_service-Keeps m))
              λ engine.
                keep_bind Q _ _ (keep_lift Q BootError.ssh _ (start_guest_ssh_server-Keeps m))
                  λ server. keep_pure Q (engine ∷ server ∷ [])

    pub forward-Keeps : (m : Machine) → Keeps Q (forward sys m)
    forward-Keeps m =
        keep_all Q (forward sys m) (start_forwarders_keeps sys Q kept m.unix_socket_forwards)

  -- The programs that are run are those of the machine.
  podman_program :
      (m : Machine) (w w' : W) (s : Supervised)
      → start_guest_podman_service sys script m w ≡ (w', ok s)
      → s ≡ podman_service sys.log_level m
  unfolding start_guest_podman_service
  podman_program m w w' s e =
      let (_, v, _, last) = >>=-eq-ok (generate_compat_scripts sys script) _ w e in cc

  ssh_program :
      (m : Machine) (w w' : W) (s : Supervised)
      → start_guest_ssh_server sys script m w ≡ (w', ok s)
      → s ≡ dropbear_service (dropbear_config sys script m)
  unfolding start_guest_ssh_server
  ssh_program m w w' s e =
      let (_, v, _, e₁) =
        >>=-eq-ok (generate_host_key sys script (dropbear_config sys script m)) _ w e in
      let (_, u, _, e₂) =
        >>=-eq-ok
          (write_authorized_keys sys script (dropbear_config sys script m)
            m.ssh_info.host_ssh_public_key)
          _ v e₁ in
      cc

  pub docker_engine_mode-programs :
      (fuel : ℕ) (m : Machine) (w w' : W) (services : List Supervised)
      → docker_engine_mode sys script fuel m w ≡ (w', ok services)
      → services
        ≡ podman_service sys.log_level m ∷ dropbear_service (dropbear_config sys script m) ∷ []
  unfolding docker_engine_mode
  docker_engine_mode-programs fuel m w w' services e =
      let (_, v, _, e₁) =
        >>=-eq-ok
          (lift BootError.network
            (configure_network sys (virtual_network_type m.virtual_network_mode) fuel))
          _ w e in
      let (engine, u, first, e₂) =
        >>=-eq-ok (lift BootError.podman (start_guest_podman_service sys script m)) _ v e₁ in
      let (server, t, second, e₃) =
        >>=-eq-ok (lift BootError.ssh (start_guest_ssh_server sys script m)) _ u e₂ in
      let is_engine =
        podman_program m v u engine
          (lift-eq-ok BootError.podman (start_guest_podman_service sys script m) v first) in
      let is_server =
        ssh_program m u t server
          (lift-eq-ok BootError.ssh (start_guest_ssh_server sys script m) u second) in
      let both : engine ∷ server ∷ [] ≡ services = cc in
      sym both ∙ ap₂ (λ (x y : Supervised). x ∷ y ∷ []) is_engine is_server
