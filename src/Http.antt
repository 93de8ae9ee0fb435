-- ===== src/Http.antt =====
-- The handler of internal/server/server.go. The encoder of encoding/json and what `http.ServeMux`
-- answers where no pattern matches are parameters.
pub mod Hardened
pub mod Program
use feeds_server.Base.{ℕ, ◌≡◌, String, ◌==◌, Bool, ◌||◌, ◌&&◌, List, [], ◌∷◌, if◌then◌else◌}
use feeds_server.Base.Dict.{Dict, insert}

-- The four constants.
abbrev pub product_name : String
product_name = "GoreeCloud Feeds Server"

abbrev pub api_version : String
api_version = "v1"

abbrev pub protocol_version : String
protocol_version = "0.1.0-dev"

abbrev pub lifecycle : String
lifecycle = "development"

pub record CapabilityResponse : Type 0 where
  pub product : String
  pub api_version : String
  pub protocol_version : String
  pub lifecycle : String
  pub capabilities : List String

pub record HealthResponse : Type 0 where
  pub status : String

-- The values that are encoded.
pub data Payload : Type 0 where
  capability : CapabilityResponse → Payload
  health : HealthResponse → Payload

pub record HttpRequest : Type 0 where
  pub method : String
  pub path : String

pub record HttpResponse : Type 0 where
  pub status : ℕ
  pub header : Dict String
  pub body : String

pub record WebLibrary : Type 0 where
  pub encode : Payload → String
  pub unmatched : HttpRequest → HttpResponse

abbrev pub capabilities : Payload
capabilities = capability (record {
  product = product_name;
  api_version = api_version;
  protocol_version = protocol_version;
  lifecycle = lifecycle;
  capabilities = [];
})

abbrev pub alive : Payload
alive = health (record { status = "ok" })

-- A pattern `GET path` also matches HEAD.
abbrev pub is_get : HttpRequest → Bool
is_get r = r.method == "GET" || r.method == "HEAD"

module _ (web : WebLibrary) where
  -- `writeJSON`
  unfoldable pub write_json : ℕ → Payload → HttpResponse
  unfolding insert
  write_json status value = record {
    status = status;
    header = insert "X-Content-Type-Options" "nosniff" (
        insert "Cache-Control" "no-store"
          (insert "Content-Type" "application/json; charset=utf-8" []));
    body = web.encode value;
  }

  -- `NewHandler`
  unfoldable pub new_handler : HttpRequest → HttpResponse
  unfolding write_json
  new_handler r =
      if is_get r && r.path == "/api/v1/capabilities"
      then write_json 200 capabilities
      else if is_get r && r.path == "/health/live"
      then write_json 200 alive
      else if is_get r && r.path == "/health/ready"
      then write_json 200 alive
      else web.unmatched r
