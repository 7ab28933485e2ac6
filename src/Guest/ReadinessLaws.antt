-- ===== src/Guest/ReadinessLaws.antt =====
-- The check of the ssh server returns, and closes what it opened.
use ovm_next.Base.{
  ℕ, ◌<◌, ◌≤◌, Text, ◌==◌, if◌then◌else◌, Bool, true, false, List, [], ◌∷◌, Option, none, some,
  Result, ok, err, ◌≡◌, refl, ap, sym, ◌∙◌, codes, arith,
}
use ovm_next.Base.Ensures.{Ensures, Holds, returns, fails, behind, done, failed, unless}
use ovm_next.Build.Spec.{Machine}
use ovm_next.Network.SshClient.{
  Wire, SshError, Options, dial, dial_with, dial_direct, dial_tunnel, apply_all, default_options,
  with_private_key, with_user, run_with, run_in, ran, close, key_at, kept, client_of, no_key,
  handshake_failed,
}
use ovm_next.Network.SshClient as Ssh
use ovm_next.Network.SshLaws.{IsWire, IsBalanced, dial-IsBalanced}
use ovm_next.Guest.Polling.{Polled, found, ended, IsEnding, Settles, finds, ends, poll-Settles}
use ovm_next.Guest.Readiness.{
  Prober, here, tmp_key, builtin_busybox, tried, dialled, try_ssh, without_key, keyed, is_ssh_ready,
}

le_lt : {a b c : ℕ} → a ≤ b → b < c → a < c
le_lt h k = omega arith

module _ {W : Type 0} (guest : Prober W) (opened : W → List ℕ) where
  -- The documented behaviour of sessions and files: neither opens or closes a connection.
  pub record IsSession : Type 0 where
    pub clients : (c : ℕ) (w : W) → opened (guest.wire.close_client c w) ≡ opened w
    pub starts : (c : ℕ) (w : W) → opened (guest.wire.new_session c w).0 ≡ opened w
    pub runs : (s : ℕ) (cmd : Text) (w : W) → opened (guest.wire.run_command s cmd w).0 ≡ opened w
    pub ends : (s : ℕ) (w : W) → opened (guest.wire.close_session s w) ≡ opened w
    pub signals : (s : ℕ) (w : W) → opened (guest.wire.terminate s w) ≡ opened w
    pub writes : (p s : Text) (w : W) → opened (guest.write_file p s w).0 ≡ opened w
    pub removes : (p : Text) (w : W) → opened (guest.remove_file p w) ≡ opened w
    pub ticks : (w : W) → opened (guest.tick w).0 ≡ opened w

  -- A client that was dialled is not closed.
  dial-open :
      (o : Options) (addr : Text)
      → Ensures (λ (c : Ssh.Client). c.closed ≡ false) (dial_with guest.wire o addr)
  unfolding dial_with
  dial-open o addr =
      unless (o.private_key_path == []) (λ _. failed)
        λ _.
          behind (λ w. key_at guest.wire (guest.wire.read_file o.private_key_path w) w)
            λ _.
              behind
                (if o.tunnel_socket == []
                  then dial_direct guest.wire addr o.dial_timeout
                  else dial_tunnel guest.wire o.tunnel_socket addr o.dial_timeout)
                λ conn.
                  behind
                    (λ w.
                      kept guest.wire conn handshake_failed
                        (guest.wire.handshake conn addr o.user w))
                    λ live. done refl

  module _ (wired : IsWire guest.wire opened) (laws : IsSession) where
    ran_keeps : (s : ℕ) (x : W × Option Bool) → opened (ran guest.wire s x).0 ≡ opened x.0
    ran_keeps s (w, some true) = laws.ends s w
    ran_keeps s (w, some false) = laws.ends s w
    ran_keeps s (w, none) = laws.ends s (guest.wire.terminate s w) ∙ laws.signals s w

    run_in_keeps : (cmd : Text) (x : W × Option ℕ) → opened (run_in guest.wire cmd x).0 ≡ opened x.0
    run_in_keeps cmd (w, none) = refl
    run_in_keeps cmd (w, some s) = ran_keeps s (guest.wire.run_command s cmd w) ∙ laws.runs s cmd w

    run_with_keeps :
        (c : Ssh.Client) (cmd : Text) (w : W)
        → c.closed ≡ false
        → opened (run_with guest.wire c cmd w).0 ≡ opened w
    unfolding run_with
    run_with_keeps c cmd w h =
        rw h (run_in_keeps cmd (guest.wire.new_session c.conn w) ∙ laws.starts c.conn w)

    tried-closes :
        (m : Machine) (c : Ssh.Client) (before : List ℕ) (x : W × Result SshError (Unit {0}))
        → c.closed ≡ false
        → opened x.0 ≡ c.conn ∷ before
        → opened (tried guest m c x).0 ≡ before
    unfolding close
    tried-closes m c before (w, ok _) h e =
        rw h
          (wired.shut c.conn before (guest.wire.close_client c.conn w) (laws.clients c.conn w ∙ e))
    tried-closes m c before (w, err x) h e =
        rw h
          (wired.shut c.conn before (guest.wire.close_client c.conn w) (laws.clients c.conn w ∙ e))

    dialled-closes :
        (m : Machine) (before : List ℕ) (x : W × Result SshError Ssh.Client)
        → IsBalanced guest.wire opened {A = Ssh.Client} (λ c. c.conn) before x
        → Holds (λ (c : Ssh.Client). c.closed ≡ false) x
        → opened (dialled guest m x).0 ≡ before
    dialled-closes m before x b fails = b
    dialled-closes m before x b (returns {w} {a = c} h) =
        tried-closes m c before (run_with guest.wire c builtin_busybox w) h
          (run_with_keeps c builtin_busybox w h ∙ b)

    try_ssh-closes : (m : Machine) (w : W) → opened (try_ssh guest m w).0 ≡ opened w
    unfolding try_ssh
    try_ssh-closes m w =
        let settings = with_private_key tmp_key ∷ with_user (codes "root") ∷ [] in
        let addr = here m.ssh_info.guest_ssh_server_listen_addr in
        dialled-closes m (opened w) _ (dial-IsBalanced guest.wire opened wired addr settings w)
          ((dial-open (apply_all settings default_options) addr).from w)

    -- The check returned, with the connections that were open before.
    pub data IsSettled (before : List ℕ) : W × Polled (Unit {0}) → Type 0 where
      ready : {w : W} → opened w ≡ before → IsSettled before (w, found tt)
      passed : {w : W} → opened w ≡ before → IsSettled before (w, ended)

    without_key-IsSettled :
        (m : Machine) (before : List ℕ) (x : W × Polled (Unit {0}))
        → Settles guest.tick (try_ssh guest m) (λ w _. opened w ≡ before) (λ w. opened w ≡ before) x
        → IsSettled before (without_key guest m x)
    without_key-IsSettled m before x (finds {w} {a = tt} h) = ready (laws.removes tmp_key w ∙ h)
    without_key-IsSettled m before x (ends {w} h) = passed (laws.removes tmp_key w ∙ h)

    -- On a network that behaves as documented, and in a context that ends: with a unit of fuel for
    -- each tick that is left the check of the ssh server returns, and leaves just the connections open
    -- that were open before.
    pub is_ssh_ready-IsSettled :
        (m : Machine) (left : W → ℕ) (fuel : ℕ) (w : W)
        → IsEnding guest.tick (try_ssh guest m) left
        → ((p s : Text) (v : W) → left (guest.write_file p s v).0 ≤ left v)
        → left w < fuel
        → IsSettled (opened w) (is_ssh_ready guest m fuel w)
    unfolding is_ssh_ready
    is_ssh_ready-IsSettled m left fuel w ending writes enough =
        without_key-IsSettled m (opened w) _ (
          go (guest.write_file tmp_key m.ssh_info.host_ssh_private_key w)
            (laws.writes tmp_key m.ssh_info.host_ssh_private_key w)
            (writes tmp_key m.ssh_info.host_ssh_private_key w))
      where
        go :
            (x : W × Bool)
            → opened x.0 ≡ opened w
            → left x.0 ≤ left w
            → Settles guest.tick
                (try_ssh guest m)
                (λ v _. opened v ≡ opened w)
                (λ v. opened v ≡ opened w)
                (keyed guest m fuel x)
        go (v, false) e l = ends e
        go (v, true) e l =
            poll-Settles guest.tick (try_ssh guest m) left ending (λ u _. opened u ≡ opened w)
              (λ u. opened u ≡ opened w) (λ u h. laws.ticks u ∙ h)
              (λ u u' a h e'.
                sym (ap (λ (x : W × Option (Unit {0})). opened x.0) e') ∙ try_ssh-closes m u ∙ h)
              (λ u h. try_ssh-closes m u ∙ h) fuel v (le_lt l enough) e
