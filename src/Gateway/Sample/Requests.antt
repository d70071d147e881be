-- ===== src/Gateway/Sample/Requests.antt =====
-- A configuration, requests and handlers of the gateway.
use vyse.Prelude.{false, [], codes, text_eq, if◌then◌else◌, Result, ok}
use vyse.Prelude.Int.{pos}
use vyse.Float.Milli.{Milli, milli}
use vyse.Gateway.{Bytes, HttpRequest}
use vyse.Gateway.Config.{Config}
use vyse.Gateway.Client as Client
use vyse.Gateway.Infer.{InferHandler, new_infer_handler}

abbrev pub secret : Bytes
secret = codes "0123456789abcdef0123456789abcdef"

abbrev pub api_key : Bytes
api_key = codes "key-0123456789abcdef0123456789abcdef"

abbrev pub config : Config Milli
config = record {
  server = record {
    public_port = pos 8080;
    admin_port = pos 8081;
    read_timeout = pos 10000000000;
    write_timeout = pos 30000000000;
    shutdown_timeout = pos 15000000000;
    trusted_proxies = [];
  };
  auth = record {
    jwt_secret = secret;
    jwt_expiry_minutes = pos 480;
    admin_username = codes "admin";
    admin_password = codes "hunter2";
    api_key_header = codes "X-Vyse-Key";
    api_key = api_key;
  };
  engine = record {
    address = codes "localhost:50051";
    dial_timeout = pos 5000000000;
    request_timeout = pos 30000000000;
    max_retries = pos 3;
    use_tls = false;
    tls_cert_file = [];
    tls_key_file = [];
  };
  limits = record {
    requests_per_second = milli.lit 10 0;
    burst = pos 20;
    max_prompt_bytes = pos 16;
    session_header_name = codes "X-Vyse-Session";
  };
  logging = record { level = codes "info"; format = codes "json" };
}

-- A request with one header.
abbrev pub with_header : Bytes → Bytes → Bytes → HttpRequest
with_header name value body = record {
  get_header = λ n. if text_eq n name then value else [];
  client_ip = codes "10.0.0.1";
  body = body;
}

abbrev pub session_header : Bytes
session_header = codes "X-Vyse-Session"

-- A request of a session, one of the same address without a session, and one that takes on that.
abbrev pub named : HttpRequest
named = with_header session_header (codes " alice@host ") (codes "probe")

abbrev pub anonymous : HttpRequest
anonymous = with_header (codes "Accept") (codes "text/plain") (codes "probe")

abbrev pub posing : HttpRequest
posing = with_header session_header (codes "anon:10.0.0.1") (codes "probe")

abbrev pub engine : Client.InferRequest → Result Bytes (Client.InferResponse Milli)
engine req = ok (record {
  response = codes "hello";
  tier = pos 1;
  hybrid_score = milli.lit 10 2;
  duration_mins = milli.lit 0 0;
  request_id = [];
})

abbrev pub handler : InferHandler Milli Bytes
handler = new_infer_handler engine config
