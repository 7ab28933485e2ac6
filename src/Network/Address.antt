-- ===== src/Network/Address.antt =====
-- `ParseUnixAddr`, `ParseTcpAddr` and `GetAvailablePort` of pkg/network/port.go. Parsing a URL is a
-- parameter, and so are the sockets.
use ovm_next.Base.{
  ℕ, ltb, Text, codes, ◌==◌, contains, all_digits, value, decimal, if◌then◌else◌, Bool, not, ◌&&◌,
  [], ◌++◌, Option, none, some, Result, ok, err, ◌>>=◌, eqb,
}
use ovm_next.Build.Url.{Url}
use ovm_next.Network.HostPort.{split_host_port, cut_last}

-- `Addr`
pub record Addr : Type 0 where
  pub scheme : Text
  pub host : Text
  pub port : ℕ
  pub path : Text

pub data AddrError : Type 0 where
  scheme_missing unparsed missing_scheme missing_path missing_host bad_host_port bad_port :
      AddrError

abbrev read_number : Option ℕ → Option ℕ
read_number none = none
read_number (some n) = if ltb n 9223372036854775808 then some n else none

-- `strconv.Atoi` on a text without a sign
unfoldable pub atoi : Text → Option ℕ
atoi s = if s == [] then none else read_number (value 0 s)

abbrev number_or_error : Option ℕ → Result AddrError ℕ
number_or_error none = err bad_port
number_or_error (some n) = ok n

abbrev split_or_error : {E : Type 0} → Result E (Text × Text) → Result AddrError (Text × Text)
split_or_error (err e) = err bad_host_port
split_or_error (ok x) = ok x

abbrev parsed_or_error : Option Url → Result AddrError Url
parsed_or_error none = err unparsed
parsed_or_error (some url) = ok url

abbrev port_behind : Option (Text × Text) → Text
port_behind none = []
port_behind (some (host, port)) = if all_digits port then port else []

-- `URL.Port`
unfoldable pub url_port : Url → Text
url_port url = port_behind (cut_last b':' url.host)

module _ (parse_url : Text → Option Url) where
  abbrev pub unix_addr : Url → Result AddrError Addr
  unix_addr url =
      if url.scheme == []
      then err missing_scheme
      else if url.path == []
      then err missing_path
      else ok (record { scheme = url.scheme; host = []; port = 0; path = url.path })

  -- `ParseUnixAddr`
  unfoldable pub parse_unix_addr : Text → Result AddrError Addr
  parse_unix_addr raw =
      if not (contains raw (codes "unix://")) && not (contains raw (codes "unixgram://"))
      then err scheme_missing
      else parsed_or_error (parse_url raw) >>= unix_addr

  abbrev pub tcp_addr : Url → Result AddrError Addr
  tcp_addr url =
      if url.scheme == []
      then err missing_scheme
      else if url.host == []
      then err missing_host
      else (do
        host_port ← split_or_error (split_host_port url.host)
        port ← number_or_error (atoi host_port.1)
        ok (record { scheme = url.scheme; host = host_port.0; port = port; path = [] }))

  -- `ParseTcpAddr`; a port with a sign, which `strconv.Atoi` would take, is none that `url.Parse` takes.
  unfoldable pub parse_tcp_addr : Text → Result AddrError Addr
  parse_tcp_addr raw =
      if not (contains raw (codes "tcp://"))
      then err scheme_missing
      else parsed_or_error (parse_url raw) >>= tcp_addr

-- The TCP sockets of the host: `net.ResolveTCPAddr`, a listener with the port that it got, and its end.
pub record TcpHost (W : Type 0) : Type 0 where
  pub resolves : Text → Bool
  pub listen_tcp : Text → W → W × Option (ℕ × ℕ)
  pub close_listener : ℕ → W → W

module _ {W : Type 0} (tcp : TcpHost W) where
  abbrev pub port_taken : W × Option (ℕ × ℕ) → W × Option ℕ
  port_taken (w, none) = (w, none)
  port_taken (w, some (id, port)) = (tcp.close_listener id w, some port)

  -- A port that the system chooses
  unfoldable pub ephemeral_port : W → W × Option ℕ
  ephemeral_port w =
      if tcp.resolves (codes "127.0.0.1:0")
      then port_taken (tcp.listen_tcp (codes "127.0.0.1:0") w)
      else (w, none)

  abbrev pub preferred_or_any : ℕ → W × Option (ℕ × ℕ) → W × Option ℕ
  preferred_or_any preferred (w, none) = ephemeral_port w
  preferred_or_any preferred (w, some (id, port)) = (tcp.close_listener id w, some preferred)

  -- `GetAvailablePort`
  unfoldable pub get_available_port : ℕ → W → W × Option ℕ
  get_available_port preferred w =
      let addr = codes "127.0.0.1:" ++ decimal preferred in
      if eqb preferred 0
      then ephemeral_port w
      else if tcp.resolves addr
      then preferred_or_any preferred (tcp.listen_tcp addr w)
      else (w, none)
