-- ===== src/Commands/Generated.antt =====
-- A session that starts from the file that `init` generated.
use ovm_next.Base.{Text, codes, ◌==◌, trim_space, ℕ, false, [], Option, some, ◌≡◌, refl}
use ovm_next.Config.Overwrite.{overwrite_cfg_from, prefer_text}
use ovm_next.Commands.{
  StartFlags, InitFlags, session_config, generated_config, start_config, default_ovm_session_id,
}

-- Whatever the flags of `docker`, a session over a generated file has the generated session name,
-- external disks and log level, and its own run mode; it has the generated var disk, if the path of
-- that disk is not blank.
pub session_config-generated_config :
    (home : Option Text) (fresh : ℕ → Text) (flags : StartFlags) (cwd : Text) (init : InitFlags)
    → (trim_space (generated_config cwd init).var_disk.raw_disk_path == []) ≡ false
    → (let cfg = session_config home fresh flags (some (generated_config cwd init)) in
        (cfg.session_id ≡ default_ovm_session_id)
        × (cfg.external_disks ≡ (generated_config cwd init).external_disks)
        × (cfg.log_level ≡ codes "info")
        × (cfg.run_mode ≡ (start_config home fresh flags).run_mode)
        × (cfg.var_disk ≡ (generated_config cwd init).var_disk))
unfolding session_config overwrite_cfg_from generated_config prefer_text trim_space ◌==◌
session_config-generated_config home fresh flags cwd init h = (refl, refl, refl, refl, rw h refl)
