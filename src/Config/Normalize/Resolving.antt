-- ===== src/Config/Normalize/Resolving.antt =====
-- What the defaults of `NormalizeConfig` make of a configuration.
use ovm_next.Base.{
  Text, codes, ◌==◌, ==_iff, ℕ, ◌/◌, pos, is_positive, true, false, [], if◌then◌else◌, none, some,
  Result, ok, err, ◌≡◌, ◌≢◌, inl, inr, ap, refl, sym, subst, eqb, ◌∙◌, arith, Option-cases,
  Bool-cases,
}
use ovm_next.Define.{gvisor}
use ovm_next.Config.{Config}
use ovm_next.Config.Normalize.{
  ConfigError, HostLimits, resolve_cpus, resolve_memory, resolve_texts, or_default,
}

-- How a normalised configuration stands to the one it was made from.
pub record IsResolved (host : HostLimits) (cfg cfg' : Config) : Type 0 where
  pub cpus : cfg'.cpus ≡ (if is_positive cfg.cpus then cfg.cpus else pos host.num_cpu)
  pub memory_kept : cfg.memory_mb ≢ 0 → cfg'.memory_mb ≡ cfg.memory_mb
  pub memory_total :
      cfg.memory_mb ≡ 0
      → (total : ℕ) × (host.total_memory ≡ some total) × (cfg'.memory_mb ≡ total / 1024 / 1024)
  -- Three texts have a default, and nothing else changes.
  pub rest : cfg' ≡ record cfg {
    cpus = cfg'.cpus;
    memory_mb = cfg'.memory_mb;
    network = if cfg.network == [] then gvisor else cfg.network;
    log_level = if cfg.log_level == [] then codes "info" else cfg.log_level;
    work_dir = if cfg.work_dir == [] then codes "/" else cfg.work_dir;
  }

resolve_cpus-cpus :
    (host : HostLimits) (cfg : Config)
    → (resolve_cpus host cfg).cpus ≡ (if is_positive cfg.cpus then cfg.cpus else pos host.num_cpu)
unfolding resolve_cpus
resolve_cpus-cpus host cfg = elim (Bool-cases (is_positive cfg.cpus)) [
  | inl h ↦ rw h refl
  | inr h ↦ rw h refl
]

resolve_cpus-rest :
    (host : HostLimits) (cfg : Config)
    → resolve_cpus host cfg ≡ record cfg { cpus = (resolve_cpus host cfg).cpus }
unfolding resolve_cpus
resolve_cpus-rest host cfg = elim (Bool-cases (is_positive cfg.cpus)) [
  | inl h ↦ rw h refl
  | inr h ↦ rw h refl
]

pub record IsSized (host : HostLimits) (cfg cfg' : Config) : Type 0 where
  pub kept : cfg.memory_mb ≢ 0 → cfg'.memory_mb ≡ cfg.memory_mb
  pub total :
      cfg.memory_mb ≡ 0
      → (total : ℕ) × (host.total_memory ≡ some total) × (cfg'.memory_mb ≡ total / 1024 / 1024)
  pub rest : cfg' ≡ record cfg { memory_mb = cfg'.memory_mb }

ok-injective : {a b : Config} {m : Result ConfigError Config} → m ≡ ok a → m ≡ ok b → a ≡ b
ok-injective p q = cc

err-ok-absurd :
    {x : ConfigError} {a : Config} {m : Result ConfigError Config} → m ≡ err x → m ≡ ok a → ⊥
err-ok-absurd p q = cc

module _ (host : HostLimits) (cfg : Config) where
  pub resolve_memory_given : eqb cfg.memory_mb 0 ≡ false → resolve_memory host cfg ≡ ok cfg
  unfolding resolve_memory
  resolve_memory_given h = rw h refl

  resolve_memory_unknown :
      eqb cfg.memory_mb 0 ≡ true
      → host.total_memory ≡ none
      → resolve_memory host cfg ≡ err ConfigError.detect_memory
  unfolding resolve_memory
  resolve_memory_unknown h k = rw (h, k) refl

  resolve_memory_known :
      (total : ℕ)
      → eqb cfg.memory_mb 0 ≡ true
      → host.total_memory ≡ some total
      → resolve_memory host cfg ≡ ok (record cfg { memory_mb = total / 1024 / 1024 })
  unfolding resolve_memory
  resolve_memory_known total h k = rw (h, k) refl

  resolve_memory-IsSized :
      (cfg' : Config) → resolve_memory host cfg ≡ ok cfg' → IsSized host cfg cfg'
  resolve_memory-IsSized cfg' e = elim (Bool-cases (eqb cfg.memory_mb 0)) [
    | inr given ↦
        subst (IsSized host cfg) (ok-injective (resolve_memory_given given) e)
          record { kept = λ _. refl; total = λ zero_given. absurd (ground arith); rest = refl }
    | inl unset ↦ elim (Option-cases host.total_memory) [
      | inl unknown ↦ absurd (err-ok-absurd (resolve_memory_unknown unset unknown) e)
      | inr (total, known) ↦
          subst (IsSized host cfg) (ok-injective (resolve_memory_known total unset known) e)
            record {
              kept = λ given. absurd (ground arith);
              total = λ _. (total, known, refl);
              rest = refl;
            }
    ]
  ]

  resolve_cpus-memory : (resolve_cpus host cfg).memory_mb ≡ cfg.memory_mb
  resolve_cpus-memory = ap Config.memory_mb (resolve_cpus-rest host cfg)

sized-rest :
    (cfg r sized : Config)
    → r ≡ record cfg { cpus = r.cpus }
    → sized ≡ record r { memory_mb = sized.memory_mb }
    → sized ≡ record cfg { cpus = sized.cpus; memory_mb = sized.memory_mb }
sized-rest cfg r sized p q =
    q
    ∙ (λ i. record (p i) { memory_mb = sized.memory_mb })
    ∙ (λ i. record cfg { cpus = (sym q i).cpus; memory_mb = sized.memory_mb })

pub resolve-IsResolved :
    (host : HostLimits) (cfg sized : Config)
    → resolve_memory host (resolve_cpus host cfg) ≡ ok sized
    → IsResolved host cfg (resolve_texts sized)
unfolding resolve_texts
resolve-IsResolved host cfg sized e =
    let z = resolve_memory-IsSized host (resolve_cpus host cfg) sized e in
    let same = resolve_cpus-memory host cfg in
    record {
      cpus = ap Config.cpus z.rest ∙ resolve_cpus-cpus host cfg;
      memory_kept = λ given. z.kept (λ unset. given (sym same ∙ unset)) ∙ same;
      memory_total = λ unset. z.total (same ∙ unset);
      rest =
          ap resolve_texts
            (sized-rest cfg (resolve_cpus host cfg) sized (resolve_cpus-rest host cfg) z.rest);
    }

or_default_filled : (value fallback : Text) → value ≢ [] → or_default value fallback ≡ value
or_default_filled value fallback h = ground (arith, ==_iff value [])

or_default_idem :
    (value fallback : Text)
    → or_default (or_default value fallback) fallback ≡ or_default value fallback
or_default_idem value fallback = ground (arith, ==_iff value [], or_default_filled value fallback)

pub resolve_texts_idem : (cfg : Config) → resolve_texts (resolve_texts cfg) ≡ resolve_texts cfg
unfolding resolve_texts
resolve_texts_idem cfg = λ i. record cfg {
  network = or_default_idem cfg.network gvisor i;
  log_level = or_default_idem cfg.log_level (codes "info") i;
  work_dir = or_default_idem cfg.work_dir (codes "/") i;
}
