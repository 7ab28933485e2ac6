-- ===== src/Http/Client.antt =====
-- pkg/network/httpclient.go: the options of a client, the builder of a request, and the ways to send
-- it. A response is known by a number; durations are in milliseconds.
use ovm_next.Base.{
  ℕ, leb, eqb, ◌-◌, ◌+◌, Text, codes, ◌==◌, if◌then◌else◌, Bool, true, false, not, ◌&&◌, List, [],
  ◌∷◌, ◌++◌, Option, none, some, Result, ok, err, ℤ, pos,
}
use ovm_next.Base.Action.{Action, ◌>>=◌}
use ovm_next.FilePath.{clean}

-- `clientConfig`
pub record ClientConfig : Type 0 where
  pub timeout : ℤ
  pub idle_conn_timeout : ℤ
  pub disable_keep_alives : Bool
  pub max_idle_conns_per_host : ℤ

-- `ClientOption`: what each of `WithTimeout`, `WithIdleConnTimeout`, `WithKeepAlive` and
-- `WithMaxIdleConns` sets
pub data ClientOption : Type 0 where
  with_timeout with_idle_conn_timeout with_max_idle_conns : ℤ → ClientOption
  with_keep_alive : Bool → ClientOption

abbrev pub apply_option : ClientOption → ClientConfig → ClientConfig
apply_option (with_timeout d) cfg = record cfg { timeout = d }
apply_option (with_idle_conn_timeout d) cfg = record cfg { idle_conn_timeout = d }
apply_option (with_keep_alive enabled) cfg = record cfg { disable_keep_alives = not enabled }
apply_option (with_max_idle_conns n) cfg = record cfg { max_idle_conns_per_host = n }

-- `defaultConfig`
abbrev pub default_client_config : ClientConfig
default_client_config = record {
  timeout = pos 2000;
  idle_conn_timeout = pos 1000;
  disable_keep_alives = false;
  max_idle_conns_per_host = pos 0;
}

-- `applyOptions`
unfoldable pub apply_options : List ClientOption → ClientConfig → ClientConfig
apply_options [] cfg = cfg
apply_options (opt ∷ opts) cfg = apply_options opts (apply_option opt cfg)

-- What the dial functions of the three kinds of client connect to.
pub data Endpoint : Type 0 where
  unix_socket tcp_address : Text → Endpoint
  vsock_port : ℕ → ℕ → Endpoint

-- `Client`, with the fields of its transport
pub record Client : Type 0 where
  pub base_url : Text
  pub endpoint : Endpoint
  pub config : ClientConfig

-- `newClient`
abbrev pub new_client : Text → Endpoint → List ClientOption → Client
new_client base_url endpoint opts = record {
  base_url = base_url;
  endpoint = endpoint;
  config = apply_options opts default_client_config;
}

-- `NewUnixClient`
unfoldable pub new_unix_client : Text → List ClientOption → Client
new_unix_client path opts = new_client (codes "http://unix") (unix_socket path) opts

-- `NewTCPClient`
unfoldable pub new_tcp_client : Text → List ClientOption → Client
new_tcp_client addr opts = new_client (codes "http://" ++ addr) (tcp_address addr) opts

-- `NewVSockClient`
unfoldable pub new_vsock_client : ℕ → ℕ → List ClientOption → Client
new_vsock_client cid port opts = new_client (codes "http://vsock") (vsock_port cid port) opts

-- `http.Header` and `url.Values`, of which only `Set` is called: a key has one value.
abbrev pub Fields : Type 0
Fields = List (Text × Text)

unfoldable pub set_field : Text → Text → Fields → Fields
set_field k v [] = (k, v) ∷ []
set_field k v ((j, x) ∷ fields) = if j == k then (k, v) ∷ fields else (j, x) ∷ set_field k v fields

-- `textproto.CanonicalMIMEHeaderKey` on letters and dashes
unfoldable pub canonical_from : Bool → Text → Text
canonical_from upper [] = []
canonical_from upper (c ∷ s) =
    (if upper && leb b'a' c && leb c b'z'
      then c - 32
      else if not upper && leb b'A' c && leb c b'Z'
      then c + 32
      else c)
    ∷ canonical_from (eqb c b'-') s

-- `Request`
pub record Request : Type 0 where
  pub client : Client
  pub method : Text
  pub path : Text
  pub headers : Fields
  pub query : Fields
  pub body : Text

-- `NewRequest`
unfoldable pub new_request : Client → Text → Text → Request
new_request client method path = record {
  client = client;
  method = method;
  path = path;
  headers = [];
  query = [];
  body = [];
}

-- `Get`
abbrev pub get : Client → Text → Request
get client path = new_request client (codes "GET") path

-- `Post`
abbrev pub post : Client → Text → Request
post client path = new_request client (codes "POST") path

-- `Put`
abbrev pub put : Client → Text → Request
put client path = new_request client (codes "PUT") path

-- `Delete`
abbrev pub delete : Client → Text → Request
delete client path = new_request client (codes "DELETE") path

-- `Head`
abbrev pub head : Client → Text → Request
head client path = new_request client (codes "HEAD") path

-- `Header`
unfoldable pub with_header : Text → Text → Request → Request
with_header key value r = record r { headers = set_field (canonical_from true key) value r.headers }

-- `Query`
unfoldable pub with_query : Text → Text → Request → Request
with_query key value r = record r { query = set_field key value r.query }

-- `Body`
abbrev pub with_body : Text → Request → Request
with_body body r = record r { body = body }

-- `JSON`
unfoldable pub with_json : Request → Request
unfolding with_header
with_json r =
    with_header (codes "Accept") (codes "application/json")
      (with_header (codes "Content-Type") (codes "application/json") r)

-- `buildURL`; both of its branches are the same.
unfoldable pub build_url : Request → Text
build_url r = r.client.base_url ++ clean (b'/' ∷ r.path)

pub data HttpError : Type 0 where
  bad_request request_failed unreadable : HttpError
  bad_status : ℕ → HttpError

-- `http.Response`
pub record Response : Type 0 where
  pub id : ℕ
  pub status : ℕ

-- The transports of `net/http`: whether a request can be made of a method and a URL, the exchange on
-- a new connection, and the body of a response.
pub record Transport (W : Type 0) : Type 1 where
  pub accepts : Text → Text → Bool
  pub exchange : Request → Text → W → W × Option Response
  pub read_body : ℕ → W → W × Option Text
  -- `CloseResponse`
  pub close_body : ℕ → W → W

module _ {W : Type 0} (net : Transport W) where
  abbrev pub answered : W × Option Response → W × Result HttpError Response
  answered (w, none) = (w, err request_failed)
  answered (w, some response) = (w, ok response)

  -- `Do`
  unfoldable pub do_request : Request → Action HttpError W Response
  do_request r w =
      if net.accepts r.method (build_url r)
      then answered (net.exchange r (build_url r) w)
      else (w, err bad_request)

  -- The body, and the status; the response is closed in any case.
  abbrev pub body_of : Response → W × Option Text → W × Result HttpError (Text × ℕ)
  body_of response (w, none) = (net.close_body response.id w, err unreadable)
  body_of response (w, some body) = (net.close_body response.id w, ok (body, response.status))

  -- `DoAndRead`
  unfoldable pub do_and_read : Request → Action HttpError W (Text × ℕ)
  do_and_read r = do_request r >>= λ response w. body_of response (net.read_body response.id w)

  -- The status of a response that is closed unread, as `PostReady` and the pollers do it.
  unfoldable pub status_of : Request → Action HttpError W ℕ
  status_of r = do_request r >>= λ response w. (net.close_body response.id w, ok response.status)
