-- ===== src/Network/SshClient.antt =====
-- pkg/ssh/ssh.go: the options of a client, `Dial`, and what a closed client does. The network, the
-- keys and the protocol are calls on a world.
use ovm_next.Base.{
  ℕ, Text, codes, ◌==◌, if◌then◌else◌, Bool, true, false, List, [], ◌∷◌, Option, none, some, Result,
  ok, err, ℤ, is_positive, pos,
}
use ovm_next.Base.Action.{Action, ◌>>=◌, pure, fail, of_result}
use ovm_next.Network.HostPort.{AddressError}
use ovm_next.Network.HostServices.{tunnel_target}

-- `options`; durations are in milliseconds.
pub record Options : Type 0 where
  pub user : Text
  pub private_key_path : Text
  pub tunnel_socket : Text
  pub dial_timeout : ℤ
  pub keepalive : ℤ

-- `Option`: what each of `WithUser`, `WithPrivateKey`, `WithTunnel`, `WithTimeout`,
-- `WithKeepalive` sets
pub data Setting : Type 0 where
  with_user with_private_key with_tunnel : Text → Setting
  with_timeout with_keepalive : ℤ → Setting

abbrev pub apply_setting : Setting → Options → Options
apply_setting (with_user user) o = record o { user = user }
apply_setting (with_private_key path) o = record o { private_key_path = path }
apply_setting (with_tunnel socket) o = record o { tunnel_socket = socket }
apply_setting (with_timeout d) o = record o { dial_timeout = d }
apply_setting (with_keepalive d) o = record o { keepalive = d }

abbrev pub default_options : Options
default_options = record {
  user = codes "root";
  private_key_path = [];
  tunnel_socket = [];
  dial_timeout = pos 5000;
  keepalive = pos 5000;
}

-- The loop over the options in `Dial`
unfoldable pub apply_all : List Setting → Options → Options
apply_all [] o = o
apply_all (s ∷ ss) o = apply_all ss (apply_setting s o)

pub data SshError : Type 0 where
  no_key unreadable_key bad_key dial_failed tunnel_failed handshake_failed : SshError
  bad_address : AddressError → SshError
  client_closed no_session ended run_failed : SshError

-- Connections and sessions are known by numbers.
pub record Wire (W : Type 0) : Type 1 where
  pub read_file : Text → W → Option Text
  -- `ssh.ParsePrivateKey`
  pub parse_key : Text → Bool
  pub dial_tcp : Text → ℤ → W → W × Option ℕ
  pub dial_unix : Text → ℤ → W → W × Option ℕ
  -- `transport.Tunnel` on a connection
  pub open_tunnel : ℕ → Text → ℤ → W → W × Bool
  -- `ssh.NewClientConn` as a user
  pub handshake : ℕ → Text → Text → W → W × Bool
  pub close_conn : ℕ → W → W
  pub close_client : ℕ → W → W
  pub new_session : ℕ → W → W × Option ℕ
  pub close_session : ℕ → W → W
  -- The result of a command, or `none` if the context ends first.
  pub run_command : ℕ → Text → W → W × Option Bool
  -- `session.Signal(ssh.SIGTERM)`
  pub terminate : ℕ → W → W

-- `Client`: its connection, its options, whether its keepalive loop is started, and whether the
-- channel `closed` is closed.
pub record Client : Type 0 where
  pub conn : ℕ
  pub opts : Options
  pub keeps_alive : Bool
  pub closed : Bool

module _ {W : Type 0} (wire : Wire W) where
  abbrev pub Ssh : Type 0 → Type 0
  Ssh A = Action SshError W A

  abbrev pub connected : SshError → W × Option ℕ → W × Result SshError ℕ
  connected e (w, some conn) = (w, ok conn)
  connected e (w, none) = (w, err e)

  -- A connection that is closed again if what follows on it fails.
  abbrev pub kept : ℕ → SshError → W × Bool → W × Result SshError ℕ
  kept conn e (w, true) = (w, ok conn)
  kept conn e (w, false) = (wire.close_conn conn w, err e)

  -- `dialDirect`
  unfoldable pub dial_direct : Text → ℤ → Ssh ℕ
  dial_direct addr timeout w = connected dial_failed (wire.dial_tcp addr timeout w)

  -- `dialTunnel`
  unfoldable pub dial_tunnel : Text → Text → ℤ → Ssh ℕ
  dial_tunnel socket addr timeout = do
    target ← of_result bad_address (tunnel_target addr)
    conn ← λ w. connected dial_failed (wire.dial_unix socket timeout w)
    λ w. kept conn tunnel_failed (wire.open_tunnel conn target.0 target.1 w)

  abbrev pub key_at : Option Text → W → W × Result SshError (Unit {0})
  key_at none w = (w, err unreadable_key)
  key_at (some data_of) w = (w, if wire.parse_key data_of then ok tt else err bad_key)

  abbrev pub client_of : Options → ℕ → Client
  client_of o conn = record {
    conn = conn;
    opts = o;
    keeps_alive = is_positive o.keepalive;
    closed = false;
  }

  -- `Dial` behind its loop over the options
  unfoldable pub dial_with : Options → Text → Ssh Client
  dial_with o addr = if o.private_key_path == [] then fail no_key else do
    _ ← λ w. key_at (wire.read_file o.private_key_path w) w
    conn ←
        if o.tunnel_socket == []
        then dial_direct addr o.dial_timeout
        else dial_tunnel o.tunnel_socket addr o.dial_timeout
    live ← λ w. kept conn handshake_failed (wire.handshake conn addr o.user w)
    pure (client_of o live)

  -- `Dial`
  abbrev pub dial : Text → List Setting → Ssh Client
  dial addr settings = dial_with (apply_all settings default_options) addr

  abbrev pub ran : ℕ → W × Option Bool → W × Result SshError (Unit {0})
  ran session (w, some true) = (wire.close_session session w, ok tt)
  ran session (w, some false) = (wire.close_session session w, err run_failed)
  ran session (w, none) = (wire.close_session session (wire.terminate session w), err ended)

  abbrev pub run_in : Text → W × Option ℕ → W × Result SshError (Unit {0})
  run_in cmd (w, none) = (w, err no_session)
  run_in cmd (w, some session) = ran session (wire.run_command session cmd w)

  -- `RunWith`
  unfoldable pub run_with : Client → Text → Ssh (Unit {0})
  run_with c cmd w =
      if c.closed then (w, err client_closed) else run_in cmd (wire.new_session c.conn w)

  -- `Run`
  unfoldable pub run : Client → Text → Ssh (Unit {0})
  run c cmd w = if c.closed then (w, err client_closed) else run_with c cmd w

  -- `Close`, which `sync.Once` lets do its work once
  unfoldable pub close : Client → W → Client × W
  close c w =
      if c.closed
      then (c, w)
      else (record c { closed = true }, wire.close_conn c.conn (wire.close_client c.conn w))
