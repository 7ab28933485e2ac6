-- ===== src/Session/Running.antt =====
-- `RunDocker` of pkg/librevm/vm.go behind `init`: the services of the host in their error group, the
-- proxy of podman that waits for the network, the virtual machine, and the way out. The goroutines
-- interleave freely; a channel that is closed and a context that is cancelled stay so.
use ovm_next.Base.{Bool, true, false, if◌then◌else◌, Option, none, some, ◌≡◌}

-- The goroutines of the error group.
pub data Service : Type 0 where
  ignition network management podman : Service

abbrev pub same_service : Service → Service → Bool
same_service ignition ignition = true
same_service network network = true
same_service management management = true
same_service podman podman = true
same_service _ _ = false

-- A goroutine of the group: the proxy of podman waits in `select` first.
pub data Status : Type 0 where
  waiting running returned : Status

abbrev pub start_status : Service → Status
start_status ignition = Status.running
start_status network = Status.running
start_status management = Status.running
start_status podman = Status.waiting

abbrev pub update : Service → Status → (Service → Status) → Service → Status
update s x f t = if same_service s t then x else f t

module _ (E : Type 0) where
  -- `RunDocker` itself: in its last `select`; in `StartVirtualMachine`; waiting for the group, with
  -- the result of the virtual machine if it ran; returned, with an error or none.
  pub data Phase : Type 0 where
    selecting : Phase
    booted : Phase
    draining : Option (Option E) → Phase
    finished : Option E → Phase

  pub record Run : Type 0 where
    pub status : Service → Status
    -- The first error of the group.
    pub group_error : Option E
    pub cancelled : Bool
    pub network_ready : Bool
    pub phase : Phase

module _ {E : Type 0} where
  -- The group is started, in a context that may be cancelled already.
  abbrev pub start_run : Bool → Run E
  start_run cancelled = record {
    status = start_status;
    group_error = none;
    cancelled = cancelled;
    network_ready = false;
    phase = selecting;
  }

  -- `errgroup`: the first error is kept.
  abbrev pub first_error : Option E → Option E → Option E
  first_error (some e) new = some e
  first_error none new = new

  -- ... and cancels the context.
  abbrev pub cancels : Option E → Bool → Bool
  cancels (some e) cancelled = true
  cancels none cancelled = cancelled

  -- A goroutine of the group returns.
  unfoldable pub return_service : Service → Option E → Run E → Run E
  return_service s error r = record r {
    status = update s Status.returned r.status;
    group_error = first_error r.group_error error;
    cancelled = cancels error r.cancelled;
  }

  -- What `RunDocker` returns when the group has returned.
  abbrev pub result : Option (Option E) → Option E → Option E
  result (some vm_error) group_error = vm_error
  result none group_error = group_error

  -- The steps of `RunDocker` and its goroutines; `done` is the error of an ended context.
  pub data Step (done : E) : Run E → Run E → Type 0 where
    -- A service returns by itself.
    serve :
        (r : Run E) (s : Service) (error : Option E)
        → r.status s ≡ Status.running
        → Step done r (return_service s error r)
    -- `case <-vm.machine.Readiness.VNetHostReady: return vm.svc.StartPodmanProxy(ctx)`
    start_podman :
        (r : Run E)
        → r.status podman ≡ Status.waiting
        → r.network_ready ≡ true
        → Step done r (record r { status = update podman Status.running r.status })
    -- `case <-ctx.Done(): return ctx.Err()`
    give_up_podman :
        (r : Run E)
        → r.status podman ≡ Status.waiting
        → r.cancelled ≡ true
        → Step done r (return_service podman (some done) r)
    -- `case <-vm.machine.Readiness.VNetHostReady`: the virtual machine starts.
    boot :
        (r : Run E)
        → r.phase ≡ selecting
        → r.network_ready ≡ true
        → Step done r (record r { phase = booted })
    -- `case <-ctx.Done()`
    stop :
        (r : Run E)
        → r.phase ≡ selecting
        → r.cancelled ≡ true
        → Step done r (record r { phase = draining none })
    -- The virtual machine exits, and `vm.Cancel()`.
    exit :
        (r : Run E) (error : Option E)
        → r.phase ≡ booted
        → Step done r (record r { phase = draining (some error); cancelled = true })
    -- `<-svcErrCh`
    finish :
        (r : Run E) (vm_error : Option (Option E))
        → r.phase ≡ draining vm_error
        → ((s : Service) → r.status s ≡ Status.returned)
        → Step done r (record r { phase = finished (result vm_error r.group_error) })

  -- What others do: the network comes up, and the context is cancelled.
  pub data Signal : Run E → Run E → Type 0 where
    online : (r : Run E) → Signal r (record r { network_ready = true })
    cancel : (r : Run E) → Signal r (record r { cancelled = true })

  pub data Reachable (done : E) : Run E → Type 0 where
    begin : (cancelled : Bool) → Reachable done (start_run cancelled)
    step : {r r' : Run E} → Reachable done r → Step done r r' → Reachable done r'
    signal : {r r' : Run E} → Reachable done r → Signal r r' → Reachable done r'
