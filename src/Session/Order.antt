-- ===== src/Session/Order.antt =====
-- What holds at every point of a session.
use ovm_next.Base.{Bool, true, false, if◌then◌else◌, Option, none, some, ◌≡◌, ◌≢◌, refl, sym, ap}
use ovm_next.Session.Running.{
  Service, ignition, network, management, podman, same_service, Status, Phase, selecting, booted,
  draining, finished, Run, start_status, start_run, update, return_service, Step, serve,
  start_podman, give_up_podman, boot, stop, exit, finish, Signal, online, cancel, Reachable, begin,
  step, signal, first_error, cancels,
}

update-returned :
    (s t : Service) (f : Service → Status)
    → (f t ≡ Status.returned)
    → update s Status.returned f t ≡ Status.returned
update-returned s t f e = go (same_service s t)
  where
    go : (b : Bool) → (if b then Status.returned else f t) ≡ Status.returned
    go true = refl
    go false = e

update-other :
    (s t : Service) (f : Service → Status) (x : Status)
    → x ≢ Status.returned
    → update s Status.returned f t ≡ x
    → f t ≡ x
update-other s t f x other = go (same_service s t)
  where
    go : (b : Bool) → (if b then Status.returned else f t) ≡ x → f t ≡ x
    go true e = absurd (other (sym e))
    go false e = e

module _ {E : Type 0} where
  -- The virtual machine was started, before the result of the session is known.
  abbrev pub was_booted : Phase E → Bool
  was_booted selecting = false
  was_booted booted = true
  was_booted (draining none) = false
  was_booted (draining (some e)) = true
  was_booted (finished e) = false

  -- The way out is taken.
  abbrev pub is_over : Phase E → Bool
  is_over selecting = false
  is_over booted = false
  is_over (draining e) = true
  is_over (finished e) = true

  abbrev pub has_finished : Phase E → Bool
  has_finished selecting = false
  has_finished booted = false
  has_finished (draining e) = false
  has_finished (finished e) = true

  pub record IsOrderly (r : Run E) : Type 0 where
    -- The virtual machine and the proxy of podman start only when the network is there.
    pub booted_online : was_booted r.phase ≡ true → r.network_ready ≡ true
    pub podman_online : r.status podman ≡ Status.running → r.network_ready ≡ true
    -- No other service waits.
    pub others : (s : Service) → r.status s ≡ Status.waiting → s ≡ podman
    -- The way out is taken, and an error kept, only with the context cancelled.
    pub over_cancelled : is_over r.phase ≡ true → r.cancelled ≡ true
    pub error_cancelled : (e : E) → r.group_error ≡ some e → r.cancelled ≡ true
    -- No service outlives the session.
    pub all_returned : has_finished r.phase ≡ true → (s : Service) → r.status s ≡ Status.returned

  begin-IsOrderly : (b : Bool) → IsOrderly (start_run b)
  begin-IsOrderly b = record {
    booted_online = λ h. cc;
    podman_online = λ h. cc;
    others = waits;
    over_cancelled = λ h. cc;
    error_cancelled = λ e h. cc;
    all_returned = λ h. cc;
  }
    where
      waits : (s : Service) → start_status s ≡ Status.waiting → s ≡ podman
      waits ignition h = cc
      waits network h = cc
      waits management h = cc
      waits podman h = refl

  cancels_lem :
      (old new : Option E) (c : Bool) (e : E)
      → ((e' : E) → old ≡ some e' → c ≡ true)
      → first_error old new ≡ some e
      → cancels new c ≡ true
  cancels_lem old (some x) c e keeps h = refl
  cancels_lem none none c e keeps h = cc
  cancels_lem (some x) none c e keeps h = keeps x refl

  cancels-true : (new : Option E) (c : Bool) → c ≡ true → cancels new c ≡ true
  cancels-true (some x) c h = refl
  cancels-true none c h = h

  return-IsOrderly :
      (s : Service) (error : Option E) (r : Run E)
      → IsOrderly r
      → IsOrderly (return_service s error r)
  unfolding return_service
  return-IsOrderly s error r o = record {
    booted_online = o.booted_online;
    podman_online =
        λ h. o.podman_online (update-other s podman r.status Status.running (λ e. cc) h);
    others = λ t h. o.others t (update-other s t r.status Status.waiting (λ e. cc) h);
    over_cancelled = λ h. cancels-true error r.cancelled (o.over_cancelled h);
    error_cancelled = λ e h. cancels_lem r.group_error error r.cancelled e o.error_cancelled h;
    all_returned = λ h t. update-returned s t r.status (o.all_returned h t);
  }

  pub Step-IsOrderly : (done : E) (x y : Run E) → Step done x y → IsOrderly x → IsOrderly y
  Step-IsOrderly done x y (serve r s error running) o = return-IsOrderly s error r o
  Step-IsOrderly done x y (start_podman r waits ready) o = record {
    booted_online = o.booted_online;
    podman_online = λ h. ready;
    others = started;
    over_cancelled = o.over_cancelled;
    error_cancelled = o.error_cancelled;
    all_returned = λ h t. absurd (let all = o.all_returned h podman in cc);
  }
    where
      started :
          (s : Service) → update podman Status.running r.status s ≡ Status.waiting → s ≡ podman
      started ignition h = o.others ignition h
      started network h = o.others network h
      started management h = o.others management h
      started podman h = refl
  Step-IsOrderly done x y (give_up_podman r waits over) o = return-IsOrderly podman (some done) r o
  Step-IsOrderly done x y (boot r at ready) o = record {
    booted_online = λ h. ready;
    podman_online = o.podman_online;
    others = o.others;
    over_cancelled = λ h. cc;
    error_cancelled = o.error_cancelled;
    all_returned = λ h. cc;
  }
  Step-IsOrderly done x y (stop r at over) o = record {
    booted_online = λ h. cc;
    podman_online = o.podman_online;
    others = o.others;
    over_cancelled = λ h. over;
    error_cancelled = o.error_cancelled;
    all_returned = λ h. cc;
  }
  Step-IsOrderly done x y (exit r error at) o = record {
    booted_online = λ h. o.booted_online (ap was_booted at);
    podman_online = o.podman_online;
    others = o.others;
    over_cancelled = λ h. refl;
    error_cancelled = λ e h. refl;
    all_returned = λ h. cc;
  }
  Step-IsOrderly done x y (finish r vm_error at all) o = record {
    booted_online = λ h. cc;
    podman_online = o.podman_online;
    others = o.others;
    over_cancelled = λ h. o.over_cancelled (ap is_over at);
    error_cancelled = o.error_cancelled;
    all_returned = λ h. all;
  }

  Signal-IsOrderly : (x y : Run E) → Signal x y → IsOrderly x → IsOrderly y
  Signal-IsOrderly x y (online r) o = record {
    booted_online = λ h. refl;
    podman_online = λ h. refl;
    others = o.others;
    over_cancelled = o.over_cancelled;
    error_cancelled = o.error_cancelled;
    all_returned = o.all_returned;
  }
  Signal-IsOrderly x y (cancel r) o = record {
    booted_online = o.booted_online;
    podman_online = o.podman_online;
    others = o.others;
    over_cancelled = λ h. refl;
    error_cancelled = λ e h. refl;
    all_returned = o.all_returned;
  }

  -- At every point of a session, in every order of its goroutines: the virtual machine and the
  -- proxy of podman start only once the network is there, no other service waits, an error in the
  -- group and the way out imply that the context is cancelled, and all services have returned
  -- when the session returns.
  pub Reachable-IsOrderly : (done : E) (r : Run E) → Reachable done r → IsOrderly r
  Reachable-IsOrderly done r (begin cancelled) = begin-IsOrderly cancelled
  Reachable-IsOrderly done r (step {r = x} before s) =
      Step-IsOrderly done x r s (Reachable-IsOrderly done x before)
  Reachable-IsOrderly done r (signal {r = x} before s) =
      Signal-IsOrderly x r s (Reachable-IsOrderly done x before)
