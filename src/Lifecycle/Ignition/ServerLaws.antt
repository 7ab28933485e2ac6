-- ===== src/Lifecycle/Ignition/ServerLaws.antt =====
-- What a request to the ignition server changes.
use ovm_next.Base.{
  ℕ, Text, codes, ◌==◌, if◌then◌else◌, Bool, true, false, Option, none, some, ◌≡◌, ◌≢◌, refl, ap,
  strip, arith,
}
use ovm_next.Build.Spec.{Machine}
use ovm_next.Lifecycle.Readiness.{
  Readiness, signal_ssh_ready, signal_podman_ready, signal_vnet_guest_ready,
}
use ovm_next.Lifecycle.Ignition.{handle_ready}
use ovm_next.Lifecycle.Ignition.Server.{
  Json, Served, Reply, replies, unmarshal_json, unmarshalled, merged, marshalled, patched,
  handle_vm_config, service_in, serve_ready, serve_request,
}

-- Closed channels stay closed.
pub record IsLater (r r' : Readiness) : Type 0 where
  pub ssh : r.ssh ≡ true → r'.ssh ≡ true
  pub podman : r.podman ≡ true → r'.podman ≡ true
  pub vnet_host : r.vnet_host ≡ true → r'.vnet_host ≡ true
  pub vnet_guest : r.vnet_guest ≡ true → r'.vnet_guest ≡ true

-- An error changes nothing, and a change of the specification leaves the runtime alone.
pub record IsGuarded (m : Machine) (s : Served) : Type 0 where
  pub unchanged : s.status ≢ 200 → s.machine ≡ m
  pub later : IsLater m.readiness s.machine.readiness

same-IsLater : (r : Readiness) → IsLater r r
same-IsLater r = record { ssh = λ h. h; podman = λ h. h; vnet_host = λ h. h; vnet_guest = λ h. h }

replies-IsGuarded :
    (m : Machine) (status : ℕ) (reply : Reply) → IsGuarded m (replies m status reply)
replies-IsGuarded m status reply = record {
  unchanged = λ _. refl;
  later = same-IsLater m.readiness;
}

handle_ready-IsLater :
    (method service : Text) (r : Readiness)
    → IsLater r (handle_ready (record { method = method; service = service }) r).0
unfolding handle_ready signal_ssh_ready signal_podman_ready signal_vnet_guest_ready
handle_ready-IsLater method service r = record {
  ssh = λ h. ground arith;
  podman = λ h. ground arith;
  vnet_host = λ h. ground arith;
  vnet_guest = λ h. ground arith;
}

handle_ready_refused :
    (method service : Text) (r : Readiness)
    → (handle_ready (record { method = method; service = service }) r).1 ≢ 200
    → (handle_ready (record { method = method; service = service }) r).0 ≡ r
unfolding handle_ready signal_ssh_ready signal_podman_ready signal_vnet_guest_ready
handle_ready_refused method service r h = ground arith

module _ (json : Json) where
  unmarshalled-IsGuarded :
      (m : Machine) (spec : Option Machine)
      → IsGuarded m (unmarshalled json (unmarshal_json spec m))
  unfolding unmarshal_json
  unmarshalled-IsGuarded m none = replies-IsGuarded m 500 Reply.message
  unmarshalled-IsGuarded m (some spec) = record {
    unchanged = λ refused. absurd (refused refl);
    later = same-IsLater m.readiness;
  }

  merged-IsGuarded : (m : Machine) (text : Option Text) → IsGuarded m (merged json m text)
  merged-IsGuarded m none = replies-IsGuarded m 400 Reply.message
  merged-IsGuarded m (some text) = unmarshalled-IsGuarded m (json.decode text)

  marshalled-IsGuarded :
      (m : Machine) (body : Text) (current : Option Text)
      → IsGuarded m (marshalled json m body current)
  marshalled-IsGuarded m body none = replies-IsGuarded m 500 Reply.message
  marshalled-IsGuarded m body (some current) = merged-IsGuarded m (json.merge_patch current body)

  patched-IsGuarded : (m : Machine) (body : Option Text) → IsGuarded m (patched json m body)
  patched-IsGuarded m none = replies-IsGuarded m 400 Reply.message
  patched-IsGuarded m (some body) = marshalled-IsGuarded m body (json.marshal m)

  serve_ready-IsGuarded :
      (method : Text) (service : Option Text) (m : Machine)
      → IsGuarded m (serve_ready json method service m)
  serve_ready-IsGuarded method none m = replies-IsGuarded m 404 Reply.nothing
  serve_ready-IsGuarded method (some service) m = record {
    unchanged = λ refused.
        ap (λ (r : Readiness). record m { readiness = r })
          (handle_ready_refused method service m.readiness refused);
    later = handle_ready-IsLater method service m.readiness;
  }

  either :
      (m : Machine) (b : Bool) (x y : Served)
      → IsGuarded m x
      → IsGuarded m y
      → IsGuarded m (if b then x else y)
  either m true x y h k = h
  either m false x y h k = k

  -- Whatever the method, path and body of a request to the ignition server, one that is not answered
  -- with the status 200 leaves the machine as it was, and no request opens a readiness channel again.
  pub serve_request-IsGuarded :
      (method path : Text) (body : Option Text) (m : Machine)
      → IsGuarded m (serve_request json method path body m)
  unfolding serve_request handle_vm_config
  serve_request-IsGuarded method path body m =
      either m (path == codes "/healthz") _ _ (replies-IsGuarded m _ Reply.nothing) (
        either m (path == codes "/vmconfig") _ _
          (either m (method == codes "GET") _ _ (replies-IsGuarded m 200 (Reply.config m)) (
            either m (method == codes "PATCH") _ _ (patched-IsGuarded m body)
              (replies-IsGuarded m 405 Reply.nothing)))
          (serve_ready-IsGuarded method (service_in json (strip path (codes "/ready/"))) m))
