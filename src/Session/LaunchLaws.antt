-- ===== src/Session/LaunchLaws.antt =====
-- What a new session is.
use ovm_next.Base.{[], none, some, ok, ◌≡◌, refl, subst}
use ovm_next.Base.Action.{>>=-eq-ok, of_result, of_result-eq-ok, pure-eq-ok}
use ovm_next.Config.{Config, get_session_dir}
use ovm_next.Config.Normalize.{normalize_config}
use ovm_next.Config.Normalize.Validity.{IsValid}
use ovm_next.Config.Normalize.Resolving.{IsResolved}
use ovm_next.Config.Normalize.Laws.{normalize_config-IsValid}
use ovm_next.Session.Setup.{Session}
use ovm_next.Session.Launch.{LaunchHost, LaunchError, setup_loggers, session_of, new_vm}

module _ {W : Type 0} (host : LaunchHost W) where
  -- A session that is not started.
  pub record IsReady (given : Config) (vm : Session W) : Type 0 where
    pub valid : IsValid vm.cfg
    pub resolved : IsResolved host.limits given vm.cfg
    pub dir : vm.session_dir ≡ get_session_dir host.home vm.cfg.session_id
    pub no_machine : vm.machine ≡ none
    pub no_agent : vm.agent ≡ none
    pub no_cleanup : vm.cleanup ≡ []

  -- A session that New returns has a configuration within the bounds, with the defaults of
  -- NormalizeConfig and else as it was given, the directory of its own id, no machine, no agent and
  -- nothing to clean up.
  pub new_vm-IsReady :
      (given : Config) (w w' : W) (vm : Session W)
      → new_vm host (some given) w ≡ (w', ok vm)
      → IsReady given vm
  unfolding new_vm
  new_vm-IsReady given w w' vm e =
      let (_, v, _, e₁) =
        >>=-eq-ok (setup_loggers host given.log_level given.log_to given.session_id) _ w e in
      let (cfg, u, normal, e₂) =
        >>=-eq-ok (of_result LaunchError.config (normalize_config host.limits given)) _ v e₁ in
      let fits =
        (of_result-eq-ok LaunchError.config (normalize_config host.limits given) v normal).1 in
      let (valid, resolved) = normalize_config-IsValid host.limits given cfg fits in
      let same = (pure-eq-ok (session_of host cfg) u e₂).1 in
      subst (IsReady given) same (record {
        valid = valid;
        resolved = resolved;
        dir = refl;
        no_machine = refl;
        no_agent = refl;
        no_cleanup = refl;
      })
