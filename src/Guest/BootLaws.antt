-- ===== src/Guest/BootLaws.antt =====
-- What stands when the agent's services are run.
use ovm_next.Base.{
  ℕ, Text, codes, ◌==◌, if◌then◌else◌, Bool, true, false, List, [], ◌∷◌, Option, none, some, Result,
  ok, err, ◌≡◌, ◌∙◌,
}
use ovm_next.Base.Action.{>>=-eq, continue}
use ovm_next.Mount.{Mount}
use ovm_next.Mount.Guest.{Action as MountAction, pseudo_mnts}
use ovm_next.Mount.Guest.Laws.{or_else, first_source}
use ovm_next.Mount.Guest.Devices.{first_device}
use ovm_next.Http.Client.{
  Request, Response, HttpError, get, answered, body_of, do_request, do_and_read,
}
use ovm_next.Build.Spec.{Machine}
use ovm_next.Guest.System.{System}
use ovm_next.Guest.Polling.{Polled, found, ended, exhausted}
use ovm_next.Guest.Readiness.{vsock_client}
use ovm_next.Guest.Keeping.{Keeps, keep_all, keep_bind, keep_try, keep_pure, retry_keeps, IsKept}
use ovm_next.Guest.Boot.{
  Binaries, guest_hidden_bin_dir, extract_all, init_bin_dir, decoded, fetch_config, fetched,
  get_config, get_vm_config,
}

-- The tag of the first share for the target
abbrev pub first_share : Text → List Mount → Option Text
first_share t [] = none
first_share t (m ∷ ms) = if m.target == t then some m.tag else first_share t ms

-- What the start of the agent mounts at a place where nothing is mounted.
abbrev pub expected : Text → Machine → Option Text
expected t m =
    or_else (first_source MountAction.pseudo_fs_action t pseudo_mnts)
      (or_else (first_device t m.blk_devs) (first_share t m.mounts))

module _ {W : Type 0} (sys : System W) (carried : Text → W → Option Text) where
  -- The calls of the agent that are not mounts leave the table of mounts alone, and a tmpfs is mounted
  -- at one target only.
  pub record IsCarrying : Type 0 where
    pub kept : (t : Text) (x : Option Text) → IsKept (λ w. carried t w ≡ x) sys
    pub exchanges :
        (t : Text) (r : Request) (url : Text) (w : W)
        → carried t (sys.net.exchange r url w).0 ≡ carried t w
    pub reads : (t : Text) (id : ℕ) (w : W) → carried t (sys.net.read_body id w).0 ≡ carried t w
    pub closes : (t : Text) (id : ℕ) (w : W) → carried t (sys.net.close_body id w) ≡ carried t w
    pub tmpfs :
        (p t : Text) (w : W) → (p == t) ≡ false → carried t (sys.mount_tmpfs p w).0 ≡ carried t w

  module _ (laws : IsCarrying) (t : Text) (x : Option Text) where
    abbrev Q : W → Type 0
    Q w = carried t w ≡ x

    extract_all-Keeps : (binaries : Binaries) → Keeps Q (extract_all sys binaries)
    unfolding extract_all
    extract_all-Keeps [] = keep_pure Q tt
    extract_all-Keeps ((name, bytes) ∷ binaries) =
        keep_bind Q _ _ (keep_try Q _ _ ((laws.kept t x).write_file _ bytes 0o755))
          λ _. extract_all-Keeps binaries

    pub init_bin_dir-Keeps :
        (binaries : Binaries)
        → (guest_hidden_bin_dir == t) ≡ false
        → Keeps Q (init_bin_dir sys binaries)
    unfolding init_bin_dir
    init_bin_dir-Keeps binaries other =
        keep_bind Q _ _ (keep_try Q _ _ ((laws.kept t x).make_dir guest_hidden_bin_dir 0o755)) λ _.
          keep_bind Q _ _ (keep_try Q _ _ (λ w q. laws.tmpfs guest_hidden_bin_dir t w other ∙ q))
            λ _. extract_all-Keeps binaries

    body_world :
        (response : Response) (r : W × Option Text) → Q r.0 → Q (body_of sys.net response r).0
    body_world response (w, none) q = laws.closes t response.id w ∙ q
    body_world response (w, some body) q = laws.closes t response.id w ∙ q

    continue_world :
        (r : W × Result HttpError Response)
        → Q r.0
        → Q
            (continue r
              (λ response v. body_of sys.net response (sys.net.read_body response.id v))).0
    continue_world (w, err e) q = q
    continue_world (w, ok response) q =
        body_world response (sys.net.read_body response.id w) (laws.reads t response.id w ∙ q)

    answered_world : (r : W × Option Response) → Q r.0 → Q (answered sys.net r).0
    answered_world (w, none) q = q
    answered_world (w, some response) q = q

    request_world : (r : Request) (w : W) → Q w → Q (do_request sys.net r w).0
    unfolding do_request
    request_world r w q = go (sys.net.accepts _ _) _ (laws.exchanges t r _ w ∙ q)
      where
        go :
            (b : Bool) (y : W × Option Response)
            → Q y.0
            → Q (if b then answered sys.net y else (w, err HttpError.bad_request)).0
        go true y k = answered_world y k
        go false y k = q

    decoded_world : (r : W × Result HttpError (Text × ℕ)) → Q r.0 → Q (decoded sys r).0
    decoded_world (w, err e) q = q
    decoded_world (w, ok b) q = q

    fetch_world : (w : W) → Q w → Q (fetch_config sys w).0
    unfolding fetch_config do_and_read
    fetch_world w q =
        let r = get vsock_client (codes "/vmconfig") in
        decoded_world (do_and_read sys.net r w) (
          rw
            (>>=-eq (do_request sys.net r)
              (λ response v. body_of sys.net response (sys.net.read_body response.id v)) w)
            (continue_world (do_request sys.net r w) (request_world r w q)))

    fetched_world : (r : W × Polled Machine) → Q r.0 → Q (fetched sys r).0
    fetched_world (w, found m) q = q
    fetched_world (w, ended) q = q
    fetched_world (w, exhausted) q = q

    pub get_vm_config-Keeps : (fuel : ℕ) → Keeps Q (get_vm_config sys fuel)
    unfolding get_vm_config get_config
    get_vm_config-Keeps fuel =
        keep_bind Q _ _
          (keep_all Q _ (λ w q.
            fetched_world _ (
              retry_keeps Q sys.tick (fetch_config sys) (laws.kept t x).tick fetch_world fuel w q)))
          λ m.
            keep_bind Q _ _ (keep_try Q _ _ ((laws.kept t x).write_file _ _ 0o644))
              λ _. keep_pure Q m
