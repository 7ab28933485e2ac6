-- ===== src/Config/Overwrite/Laws.antt =====
-- What overwriting a configuration keeps.
use ovm_next.Base.{
  Text, ◌==◌, trim_space, is_positive, ltb, Bool, true, false, [], is_empty, if◌then◌else◌, ◌≡◌,
  refl, arith,
}
use ovm_next.Config.{Config}
use ovm_next.Config.Overwrite.{prefer_text, overwrite_cfg_from}

prefer_text_idem : (v f : Text) → prefer_text v (prefer_text v f) ≡ prefer_text v f
unfolding prefer_text
prefer_text_idem v f = ground arith

take_idem {ℓ} :
    {A : Type ℓ} (b : Bool) (x y : A)
    → (if b then x else (if b then x else y)) ≡ (if b then x else y)
take_idem true x y = refl
take_idem false x y = refl

drop_idem {ℓ} :
    {A : Type ℓ} (b : Bool) (x y : A)
    → (if b then (if b then x else y) else y) ≡ (if b then x else y)
drop_idem true x y = refl
drop_idem false x y = refl

-- Overwriting a configuration twice from the same file is overwriting it once.
pub overwrite_cfg_from_idem :
    (c other : Config)
    → overwrite_cfg_from (overwrite_cfg_from c other) other ≡ overwrite_cfg_from c other
unfolding overwrite_cfg_from
overwrite_cfg_from_idem c other = λ i. record c {
  session_id = prefer_text_idem other.session_id c.session_id i;
  cpus = take_idem (is_positive other.cpus) other.cpus c.cpus i;
  memory_mb = take_idem (ltb 0 other.memory_mb) other.memory_mb c.memory_mb i;
  var_disk = drop_idem (trim_space other.var_disk.raw_disk_path == []) c.var_disk other.var_disk i;
  external_disks =
      drop_idem (is_empty other.external_disks) c.external_disks other.external_disks i;
  mounts = drop_idem (is_empty other.mounts) c.mounts other.mounts i;
  forward_unix = drop_idem (is_empty other.forward_unix) c.forward_unix other.forward_unix i;
  podman_proxy_api_file = prefer_text_idem other.podman_proxy_api_file c.podman_proxy_api_file i;
  manage_api_file = prefer_text_idem other.manage_api_file c.manage_api_file i;
  ssh_key_private_file_symbol_links =
      prefer_text_idem other.ssh_key_private_file_symbol_links c.ssh_key_private_file_symbol_links
        i;
  ssh_key_public_file_symbol_links =
      prefer_text_idem other.ssh_key_public_file_symbol_links c.ssh_key_public_file_symbol_links i;
  log_level = prefer_text_idem other.log_level c.log_level i;
  log_to = prefer_text_idem other.log_to c.log_to i;
}
