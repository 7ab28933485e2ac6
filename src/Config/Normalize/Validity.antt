-- ===== src/Config/Normalize/Validity.antt =====
-- What `validateConfig` ensures.
use ovm_next.Base.{
  ==_iff, ℕ, ◌≤◌, ℤ, pos, is_positive, exceeds, true, false, [], none, ok, ◌≡◌, ◌≢◌, ◌⊎◌, inl, inr,
  refl, arith, Option-cases, lt→ltb,
}
use ovm_next.Define.{gvisor, tsi, var_disk_mount_point, var_data_disk_uuid}
use ovm_next.Config.{Config, mode_container}
use ovm_next.Config.Normalize.{validate_config, checked}

-- The bounds that the rest of the program relies on.
pub record IsValid (cfg : Config) : Type 0 where
  pub session : cfg.session_id ≢ []
  pub mode : cfg.run_mode ≡ mode_container
  pub memory : 512 ≤ cfg.memory_mb
  pub cpus : (n : ℕ) × (cfg.cpus ≡ pos n) × (1 ≤ n) × (n ≤ 255)
  pub network : (cfg.network ≡ gvisor) ⊎ (cfg.network ≡ tsi)
  pub disk_path : cfg.var_disk.raw_disk_path ≢ []
  pub disk_mnt : cfg.var_disk.mnt ≡ var_disk_mount_point
  pub disk_uuid : cfg.var_disk.uuid ≡ var_data_disk_uuid

cpus_in_range :
    (c : ℤ)
    → is_positive c ≡ true
    → exceeds 255 c ≡ false
    → (n : ℕ) × (c ≡ pos n) × (1 ≤ n) × (n ≤ 255)
cpus_in_range (pos n) h k = (n, refl, ground arith, ground arith)
cpus_in_range (ℤ.negsuc n) h k = cc

validate_config-IsValid : (cfg : Config) → validate_config cfg ≡ none → IsValid cfg
unfolding validate_config
validate_config-IsValid cfg e = record {
  session = ground (arith, ==_iff cfg.session_id []);
  mode = ground (arith, ==_iff cfg.run_mode mode_container);
  memory = ground arith;
  cpus = cpus_in_range cfg.cpus (ground arith) (ground arith);
  network = ground (arith, ==_iff cfg.network gvisor, ==_iff cfg.network tsi);
  disk_path = ground (arith, ==_iff cfg.var_disk.raw_disk_path []);
  disk_mnt = ground (arith, ==_iff cfg.var_disk.mnt var_disk_mount_point);
  disk_uuid = ground (arith, ==_iff cfg.var_disk.uuid var_data_disk_uuid);
}

pub IsValid-positive : (cfg : Config) → IsValid cfg → is_positive cfg.cpus ≡ true
IsValid-positive cfg v = let (n, e, low, high) = v.cpus in rw e (lt→ltb 0 n low)

IsValid-exceeds : (cfg : Config) → IsValid cfg → exceeds 255 cfg.cpus ≡ false
IsValid-exceeds cfg v = let (n, e, low, high) = v.cpus in rw e (ground arith)

pub IsValid-validate_config : (cfg : Config) → IsValid cfg → validate_config cfg ≡ none
unfolding validate_config
IsValid-validate_config cfg v =
    let v1 = v.session in
    let v2 = v.mode in
    let v3 = v.memory in
    let v4 = v.network in
    let v5 = v.disk_path in
    let v6 = v.disk_mnt in
    let v7 = v.disk_uuid in
    ground (
      arith,
      ==_iff cfg.session_id [],
      ==_iff cfg.run_mode mode_container,
      ==_iff cfg.network gvisor,
      ==_iff cfg.network tsi,
      ==_iff cfg.var_disk.raw_disk_path [],
      ==_iff cfg.var_disk.mnt var_disk_mount_point,
      ==_iff cfg.var_disk.uuid var_data_disk_uuid,
      IsValid-positive cfg v,
      IsValid-exceeds cfg v,
    )

pub checked-eq-ok :
    (cfg cfg' : Config) → checked cfg (validate_config cfg) ≡ ok cfg' → (cfg' ≡ cfg) × IsValid cfg
checked-eq-ok cfg cfg' e = elim (Option-cases (validate_config cfg)) [
  | inl valid ↦ (ground arith, validate_config-IsValid cfg valid)
  | inr (x, bad) ↦ absurd (ground arith)
]
