-- ===== src/Examples/Guests.antt =====
-- The agent in its guest.
use ovm_next.Base.{
  ℕ, suc, ◌≤◌, Text, codes, Bool, true, false, List, [], ◌∷◌, Option, none, some, Result, ok, err,
  ◌≡◌, ◌≢◌, refl, sym, ◌∙◌, ◌==◌, ==_iff, ==_refl, ◌||◌, not, if◌then◌else◌, Bool-cases, inl, inr,
}
use ovm_next.Define.{tsi}
use ovm_next.Mount.Guest.{Guest}
use ovm_next.Guest.Boot.{BootError, run}
use ovm_next.Guest.Services.{Supervised}
use ovm_next.Build.Spec.{Machine, new_machine}
use ovm_next.Forward.Hosts.{ForwardRule}
use ovm_next.Http.Client.{Transport}
use ovm_next.Guest.System.{System, Removal}
use ovm_next.Guest.Network.{dhclient4}
use ovm_next.Guest.NetworkLaws.{IsCounted, dhclient4-le}
use ovm_next.Guest.Forwarders.{start_each}
use ovm_next.Guest.ForwarderLaws.{IsListening, IsServable, start_each-listens}
use ovm_next.Examples.Mounts.{Table, some_guest, data_device, var_device}

-- A transport whose servers all answer with the status 200 and nothing.
abbrev answering : {W : Type 0} → Transport W
answering = record {
  accepts = λ method url. true;
  exchange = λ r url w. (w, some (record { id = 0; status = 200 }));
  read_body = λ id w. (w, some []);
  close_body = λ id w. w;
}

abbrev guest_machine : Machine
guest_machine = record (new_machine []) {
  virtual_network_mode = tsi;
  blk_devs = data_device ∷ var_device ∷ [];
  mounts =
      record {
        read_only = false;
        source = codes "/h";
        tag = codes "t";
        target = codes "/h";
        kind = codes "virtiofs";
        opts = [];
        uuid = [];
      }
      ∷ [];
}

-- A system on a kernel: what mounting a tmpfs, listening and asking for a lease do to its world is given.
abbrev system_on :
    {W : Type 0}
    → Guest W
    → (Text → W → W × Bool)
    → (Text → W → W)
    → (W → W × Option Text)
    → System W
system_on kernel tmpfs listen lease = record {
  tick = λ w. (w, true);
  net = answering;
  kernel = kernel;
  make_dir = λ p mode w. (w, true);
  write_file = λ p s mode w. (w, true);
  remove = λ p w. (w, Removal.removed);
  mount_tmpfs = tmpfs;
  encode = λ m. [];
  decode = λ s. some guest_machine;
  run_dropbear = λ args w. (w, true);
  find_link = λ name w. true;
  set_link_up = λ name w. (w, true);
  find_interface = λ name w. true;
  open_dhcp = λ name w. (w, true);
  request_lease = lease;
  close_dhcp = λ w. w;
  conversation = λ lease_text. some lease_text;
  configure_interface = λ name conf w. (w, true);
  listen = λ p w. (listen p w, true);
  log_level_variable = [];
  is_log_level = λ level. true;
  log_level = codes "info";
}

abbrev some_system : System Table
some_system =
    system_on some_guest (λ p w. ((codes "tmpfs", p) ∷ w, true)) (λ p w. w) (λ w. (w, none))

abbrev member : Text → List Text → Bool
member t [] = false
member t (s ∷ ss) = s == t || member t ss

member_behind : (t s : Text) (w : List Text) → member t w ≡ true → member t (s ∷ w) ≡ true
member_behind t s w h = elim (Bool-cases (s == t)) [ inl e ↦ rw e refl | inr e ↦ rw e h ]

member_head : (t s : Text) (w : List Text) → s ≡ t → member t (s ∷ w) ≡ true
member_head t s w e = rw (e, ==_refl t) refl

abbrev without : Text → List Text → List Text
without p [] = []
without p (s ∷ w) = if s == p then without p w else s ∷ without p w

not_member-without : (p : Text) (w : List Text) → member p (without p w) ≡ false
not_member-without p [] = refl
not_member-without p (s ∷ w) = elim (Bool-cases (s == p)) [
  | inl e ↦ rw e (not_member-without p w)
  | inr e ↦ rw (e, e) (not_member-without p w)
]

member-without :
    (p q : Text) (w : List Text) → p ≢ q → member q w ≡ true → member q (without p w) ≡ true
member-without p q [] apart h = h
member-without p q (s ∷ w) apart h = elim (Bool-cases (s == p)) [
  | inl e ↦ elim (Bool-cases (s == q)) [
    | inl f ↦ absurd (apart (sym ((==_iff s p).0 e) ∙ (==_iff s q).0 f))
    | inr f ↦ rw e (member-without p q w apart (rw f at h))
  ]
  | inr e ↦ elim (Bool-cases (s == q)) [
    | inl f ↦ rw (e, f) refl
    | inr f ↦ rw (e, f) (member-without p q w apart (rw f at h))
  ]
]

-- A kernel on which everything is mounted.
abbrev still_kernel : {W : Type 0} → Guest W
still_kernel = record {
  is_mounted = λ t w. true;
  mkdir_all = λ p w. (w, true);
  run_mount = λ args w. (w, true);
}

-- A system, whose world is the list of paths that are listened on, on which only a path that is not there can be listened on.
abbrev socket_system : System (List Text)
socket_system = record (system_on still_kernel (λ p w. (w, true)) (λ p w. w) (λ w. (w, none))) {
  remove = λ p w. (without p w, Removal.removed);
  listen = λ p w. (p ∷ w, not (member p w));
}

abbrev is_free : Text → List Text → Bool
is_free p w = not (member p w)

abbrev takes_any : Text → List Text → Bool
takes_any p w = true

socket_system-IsListening : IsListening socket_system member is_free takes_any
socket_system-IsListening = record {
  removes = λ p q w apart h. member-without p q w apart h;
  makes = λ p q mode w h. h;
  keeps = λ p q w apart h. member_behind q p w h;
  listens = λ p w e. member_head p p w refl;
  frees = λ p w h. rw (not_member-without p w) refl;
  stays_free = λ p mode w h. h;
  binds = λ p w h k. h;
}

abbrev rule_for : Text → ForwardRule
rule_for path = record { guest_path = path; host_path = codes "/s"; vsock_port = 25884 }

-- It has no path on the host.
abbrev bad_rule : ForwardRule
bad_rule = record { guest_path = codes "/ab"; host_path = []; vsock_port = 25885 }

rule_for-IsServable : (w : List Text) → IsServable socket_system takes_any (rule_for (codes "/a")) w
rule_for-IsServable w = record {
  guest = λ e. cc;
  host = λ e. cc;
  removable = λ e. cc;
  placeable = refl;
  takes_socket = refl;
}

-- The socket of an earlier run is in the way of the rule, and the rules around it fail.
start_each-listens_example :
    member (codes "/a") (
      start_each socket_system (bad_rule ∷ rule_for (codes "/a") ∷ bad_rule ∷ []) (codes "/a" ∷ []))
    ≡ true
start_each-listens_example =
    start_each-listens socket_system member is_free takes_any socket_system-IsListening
      (bad_rule ∷ []) (bad_rule ∷ []) (rule_for (codes "/a")) (codes "/a" ∷ []) ((λ e. cc), tt)
      (rule_for-IsServable _)

-- The world counts the requests for a lease, none of which is answered.
abbrev counting_system : System ℕ
counting_system = system_on still_kernel (λ p w. (w, true)) (λ p w. w) (λ w. (suc w, none))

counting_system-IsCounted : IsCounted counting_system (λ w. w)
counting_system-IsCounted = record {
  waits = λ w. refl;
  opens = λ name w. refl;
  sends = λ w. refl;
  shuts = λ w. refl;
}

dhclient4-le_example : (dhclient4 counting_system (codes "eth0") 3 5).0 ≤ 8
dhclient4-le_example =
    dhclient4-le counting_system (λ w. w) counting_system-IsCounted (codes "eth0") 3 5

-- The agent starts in a guest with two devices and a share.
abbrev started : Table × Result BootError (Machine × List Supervised)
started = run some_system ((codes "busybox", []) ∷ []) (codes "#!/bin/sh") 1 []

abbrev outcome_of : Result BootError (Machine × List Supervised) → Machine × List Supervised
outcome_of (ok r) = r
outcome_of (err e) = (new_machine [], [])

abbrev is_ok : Result BootError (Machine × List Supervised) → Bool
is_ok (ok r) = true
is_ok (err e) = false
