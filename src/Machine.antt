-- ===== src/Machine.antt =====
-- The size of the machine: `withResources` of pkg/librevm/machine.go, which gets
-- `uint8(cfg.CPUs)`, and `setResources` of pkg/libkrun/vm.go.
use ovm_next.Base.{
  ℕ, ◌≤◌, ◌<◌, ◌%◌, pos, to_u8, ltb, eqb, if◌then◌else◌, Result, ok, err, ◌≡◌, arith, ◌∙◌, ap,
}
use ovm_next.Config.{Config}
use ovm_next.Config.Normalize.{HostLimits, normalize_config}
use ovm_next.Config.Normalize.Laws.{normalize_config-IsValid}

pub data ResourceError : Type 0 where
  no_cpu no_memory : ResourceError

-- The fields `MemoryInMB` and `Cpus` of the machine.
pub record Resources : Type 0 where
  pub memory_in_mb : ℕ
  pub cpus : ℕ

-- `withResources`
unfoldable pub with_resources : ℕ → ℕ → Result ResourceError Resources
with_resources memory_in_mb cpus =
    if eqb cpus 0
    then err ResourceError.no_cpu
    else if ltb memory_in_mb 512
    then err ResourceError.no_memory
    else ok (record { memory_in_mb = memory_in_mb; cpus = cpus })

-- The arguments of `krun_set_vm_config`: a `uint8_t` and a `uint32_t`.
unfoldable pub krun_resources : Resources → ℕ × ℕ
krun_resources r = (r.cpus % 256, r.memory_in_mb % 4294967296)

resources_in_range :
    (memory n : ℕ)
    → 512 ≤ memory
    → 1 ≤ n
    → n ≤ 255
    → with_resources memory (to_u8 (pos n)) ≡ ok (record { memory_in_mb = memory; cpus = n })
unfolding with_resources
resources_in_range memory n h k l = let same : n % 256 ≡ n = omega arith in rw same (ground arith)

-- A normalised configuration with memory below 2^32 MiB passes the check of its resources, and the
-- virtual machine gets just as many CPUs and just as much memory.
pub with_resources-normalize_config :
    (host : HostLimits) (cfg cfg' : Config)
    → normalize_config host cfg ≡ ok cfg'
    → cfg'.memory_mb < 4294967296
    → (r : Resources) × (with_resources cfg'.memory_mb (to_u8 cfg'.cpus) ≡ ok r)
      × (cfg'.cpus ≡ pos (krun_resources r).0)
      × ((krun_resources r).1 ≡ cfg'.memory_mb)
unfolding krun_resources
with_resources-normalize_config host cfg cfg' e small =
    let (valid, _) = normalize_config-IsValid host cfg cfg' e in
    let (n, same, low, high) = valid.cpus in
    let enough = valid.memory in
    (
      record { memory_in_mb = cfg'.memory_mb; cpus = n },
      ap (λ c. with_resources cfg'.memory_mb (to_u8 c)) same
          ∙ resources_in_range cfg'.memory_mb n enough low high,
      same ∙ ap pos (omega arith),
      omega arith,
    )
