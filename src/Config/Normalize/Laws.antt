-- ===== src/Config/Normalize/Laws.antt =====
-- What a normalised configuration satisfies.
use ovm_next.Base.{ok, >>=-eq-ok, ◌≡◌, ap, refl, sym, ◌∙◌, arith}
use ovm_next.Config.{Config}
use ovm_next.Config.Normalize.{
  HostLimits, validate_config, resolve_cpus, resolve_memory, resolve_texts, normalize_config,
  checked,
}
use ovm_next.Config.Normalize.Validity.{
  IsValid, IsValid-positive, IsValid-validate_config, checked-eq-ok,
}
use ovm_next.Config.Normalize.Resolving.{
  IsResolved, resolve-IsResolved, resolve_memory_given, resolve_texts_idem,
}

-- A configuration that normalises is within all bounds that validateConfig names; a CPU count that is
-- not positive is the host's, a memory of 0 is the host's total in MiB, an empty network, log level
-- or working directory takes its default, and nothing else changes.
pub normalize_config-IsValid :
    (host : HostLimits) (cfg cfg' : Config)
    → normalize_config host cfg ≡ ok cfg'
    → IsValid cfg' × IsResolved host cfg cfg'
unfolding normalize_config
normalize_config-IsValid host cfg cfg' e =
    let (sized, s, c) =
      >>=-eq-ok (resolve_memory host (resolve_cpus host cfg))
        (λ sized. checked (resolve_texts sized) (validate_config (resolve_texts sized))) e in
    let (same, valid) = checked-eq-ok (resolve_texts sized) cfg' c in
    rw same (valid, resolve-IsResolved host cfg sized s)

resolve_cpus_of_IsValid :
    (host : HostLimits) (cfg : Config) → IsValid cfg → resolve_cpus host cfg ≡ cfg
unfolding resolve_cpus
resolve_cpus_of_IsValid host cfg v = rw (IsValid-positive cfg v) refl

-- A valid configuration whose texts are filled is left as it is.
normalize_config_of_IsValid :
    (host : HostLimits) (cfg : Config)
    → IsValid cfg
    → resolve_texts cfg ≡ cfg
    → normalize_config host cfg ≡ ok cfg
unfolding normalize_config
normalize_config_of_IsValid host cfg v filled =
    let large = v.memory in
    rw
      (
        resolve_cpus_of_IsValid host cfg v,
        resolve_memory_given host cfg (ground arith),
        filled,
        IsValid-validate_config cfg v,
      )
      refl

-- Normalising a second time, on any host, changes nothing.
pub normalize_config_idem :
    (host host' : HostLimits) (cfg cfg' : Config)
    → normalize_config host cfg ≡ ok cfg'
    → normalize_config host' cfg' ≡ ok cfg'
unfolding resolve_texts
normalize_config_idem host host' cfg cfg' e =
    let (valid, resolved) = normalize_config-IsValid host cfg cfg' e in
    normalize_config_of_IsValid host' cfg' valid
      (ap resolve_texts resolved.rest ∙ resolve_texts_idem _ ∙ sym resolved.rest)
