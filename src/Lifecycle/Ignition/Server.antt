-- ===== src/Lifecycle/Ignition/Server.antt =====
-- The routes of the ignition server and its request for the configuration: `Start` and
-- `handleVMConfig` of pkg/service/ignition/server.go. JSON, and the library that merges patches, are
-- parameters. The lock makes each request one step.
use ovm_next.Base.{
  ℕ, Text, codes, ◌==◌, if◌then◌else◌, Bool, true, false, [], ◌∷◌, Option, none, some, strip,
}
use ovm_next.Network.HostPort.{has_char}
use ovm_next.Build.Spec.{Machine}
use ovm_next.Lifecycle.Ignition.{handle_health, handle_ready}

-- What is written behind a status.
pub data Reply : Type 0 where
  nothing message : Reply
  config : Machine → Reply

pub record Json : Type 0 where
  pub marshal : Machine → Option Text
  -- `jsonpatch.MergePatch`
  pub merge_patch : Text → Text → Option Text
  -- `json.Unmarshal` into a new specification; the readiness of the result is not looked at.
  pub decode : Text → Option Machine

-- `UnmarshalJSON` of pkg/define/struct.go, once a specification is decoded: the runtime stays.
unfoldable pub unmarshal_json : Option Machine → Machine → Machine × Bool
unmarshal_json none m = (m, false)
unmarshal_json (some spec) m = (record spec { readiness = m.readiness }, true)

pub record Served : Type 0 where
  pub machine : Machine
  pub status : ℕ
  pub reply : Reply

abbrev pub replies : Machine → ℕ → Reply → Served
replies m status reply = record { machine = m; status = status; reply = reply }

module _ (json : Json) where
  abbrev pub unmarshalled : Machine × Bool → Served
  unmarshalled (m, true) = replies m 200 Reply.nothing
  unmarshalled (m, false) = replies m 500 Reply.message

  abbrev pub merged : Machine → Option Text → Served
  merged m none = replies m 400 Reply.message
  merged m (some text) = unmarshalled (unmarshal_json (json.decode text) m)

  abbrev pub marshalled : Machine → Text → Option Text → Served
  marshalled m body none = replies m 500 Reply.message
  marshalled m body (some current) = merged m (json.merge_patch current body)

  abbrev pub patched : Machine → Option Text → Served
  patched m none = replies m 400 Reply.message
  patched m (some body) = marshalled m body (json.marshal m)

  -- `handleVMConfig`; the body is `none` where it cannot be read.
  unfoldable pub handle_vm_config : Text → Option Text → Machine → Served
  handle_vm_config method body m =
      if method == codes "GET"
      then replies m 200 (Reply.config m)
      else if method == codes "PATCH"
      then patched m body
      else replies m 405 Reply.nothing

  -- The segment of the path that `{service}` stands for.
  abbrev pub service_in : Option Text → Option Text
  service_in none = none
  service_in (some []) = none
  service_in (some (c ∷ s)) = if has_char b'/' (c ∷ s) then none else some (c ∷ s)

  abbrev pub serve_ready : Text → Option Text → Machine → Served
  serve_ready method none m = replies m 404 Reply.nothing
  serve_ready method (some service) m =
      let (r, status) = handle_ready (record { method = method; service = service }) m.readiness in
      replies (record m { readiness = r }) status Reply.nothing

  -- The routes of `Start`, by the path of a request
  unfoldable pub serve_request : Text → Text → Option Text → Machine → Served
  serve_request method path body m =
      if path == codes "/healthz"
      then replies m (handle_health method) Reply.nothing
      else if path == codes "/vmconfig"
      then handle_vm_config method body m
      else serve_ready method (service_in (strip path (codes "/ready/"))) m
