-- ===== src/Session/AccessLaws.antt =====
-- A session is attached to as its own ignition server describes it.
use ovm_next.Base.{ℕ, Text, codes, ◌==◌, true, false, [], ◌++◌, some, ok, ◌≡◌, refl, ap, split}
use ovm_next.Base.Action.{>>=-eq, lift}
use ovm_next.FilePath.{clean}
use ovm_next.Config.{get_session_dir}
use ovm_next.Build.Paths.{get_socket_file, get_ign_socket_file}
use ovm_next.Build.Spec.{Machine}
use ovm_next.Lifecycle.Readiness.{new_readiness}
use ovm_next.Lifecycle.Ignition.Server.{
  Json, Served, Reply, serve_request, handle_vm_config, replies,
}
use ovm_next.Http.Client.{
  unix_socket, Request, build_url, new_unix_client, new_request, get, do_request,
}
use ovm_next.Session.Access.{
  AccessHost, fetch, ignition_sock_file, attach_workspace_dir, attach, checked, closing,
}

-- The text of an answer.
abbrev pub written : (Machine → Text) → Reply → Text
written encode Reply.nothing = codes "null"
written encode Reply.message = codes "\"\""
written encode (Reply.config m) = encode m

module _ {W : Type 0} (json : Json) (encode : Machine → Text) (access : AccessHost W) (sock : Text)
    (host : W → Machine) where
  -- The ignition server of a machine listens on the socket, and its answers are read as they were
  -- written; the runtime of a machine is not written.
  pub record IsServing : Type 0 where
    pub accepts : access.net.accepts (codes "GET") (codes "http://unix/vmconfig") ≡ true
    pub serves :
        (r : Request) (path : Text) (w : W)
        → r.client.endpoint ≡ unix_socket sock
        → clean path ≡ path
        → (id : ℕ) × (v : W) × (access.net.exchange r (codes "http://unix" ++ path) w ≡ (
          v,
          some (record {
            id = id;
            status = (serve_request json r.method path (some r.body) (host w)).status;
          }),
        ))
          × ((access.net.read_body id v).1
              ≡ some
                  (written encode (serve_request json r.method path (some r.body) (host w)).reply))
    pub decodes :
        (w : W)
        → (spec : Machine) × (access.decode (encode (host w)) ≡ some spec)
          × (record spec { readiness = (host w).readiness } ≡ host w)

  config-served :
      (m : Machine)
      → serve_request json (codes "GET") (codes "/vmconfig") (some []) m
        ≡ replies m 200 (Reply.config m)
  unfolding serve_request handle_vm_config ◌==◌ split
  config-served m = refl

url-vmconfig :
    (sock : Text)
    → build_url (get (new_unix_client sock []) (codes "/vmconfig")) ≡ codes "http://unix/vmconfig"
unfolding build_url new_unix_client new_request clean ◌==◌ split
url-vmconfig sock = refl

clean-vmconfig : clean (codes "/vmconfig") ≡ codes "/vmconfig"
unfolding clean ◌==◌ split
clean-vmconfig = refl

-- Where its ignition server listens on the socket that a built machine has for it in the directory of
-- its session, and JSON is read as it was written: attaching to the session by its name gives the
-- machine as it is configured at that moment, with a readiness of its own in which nothing is ready
-- yet.
pub attach-serves :
    {W : Type 0} (json : Json) (encode : Machine → Text) (access : AccessHost W)
    (host : W → Machine) (name : Text) (w : W)
    → (name == []) ≡ false
    → IsServing json encode access (get_ign_socket_file (get_session_dir access.home name)) host
    → (attach access name w).1 ≡ ok (record (host w) { readiness = new_readiness })
unfolding attach attach_workspace_dir do_request new_request new_unix_client ignition_sock_file
    get_socket_file
attach-serves json encode access host name w named laws =
    let sock = ignition_sock_file (get_session_dir access.home name) in
    let r = get (new_unix_client sock []) (codes "/vmconfig") in
    let (id, v, sent, read) = laws.serves r (codes "/vmconfig") w refl clean-vmconfig in
    let served = config-served json encode access sock host (host w) in
    let (spec, decodes, same) = laws.decodes w in
    let step =
      >>=-eq (lift fetch (do_request access.net r))
        (λ response u. closing access response (checked access response u)) w in
    rw
      (
        named,
        step,
        url-vmconfig sock,
        laws.accepts,
        sent,
        ap (λ (s : Served). s.status) served,
        read,
        ap (λ (s : Served). s.reply) served,
        decodes,
      )
      (ap (λ (m : Machine). ok (record m { readiness = new_readiness })) same)
