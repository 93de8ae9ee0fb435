-- ===== src/Retrieval/Exchange.antt =====
-- The data of `Fetch` in internal/retrieval/client.go: requests, results and responses, and the
-- world that answers the calls of the context, the clock, the semaphore, `http.Client.Do` and
-- `sleep`.
use feeds_server.Base.{ℕ, String, Bool, false, Option, List, []}
use feeds_server.Base.Dict.{Dict}
use feeds_server.Base.Int.{ℤ, pos, negsuc}
use feeds_server.Base.Url.{Url}
use feeds_server.Feed.Model.{Time}
use feeds_server.Retrieval.Error.{Error}
use feeds_server.Retrieval.Policy.{Result}
use feeds_server.Retrieval.Redirect.{Request}

pub record FetchRequest : Type 0 where
  pub url : String
  pub etag : String
  pub last_modified : String

-- The body is a list of bytes.
pub record FetchResult : Type 0 where
  pub url : String
  pub status_code : ℕ
  pub etag : String
  pub last_modified : String
  pub content_type : String
  pub body : List ℕ
  pub not_modified : Bool
  pub fetched_at : Time
  pub duration : ℤ
  pub attempts : ℕ

abbrev pub no_result : FetchResult
no_result = record {
  url = "";
  status_code = 0;
  etag = "";
  last_modified = "";
  content_type = "";
  body = [];
  not_modified = false;
  fetched_at = 0;
  duration = pos 0;
  attempts = 0;
}

-- A response body: the bytes that can be read, and the error that ends them, if one does.
pub record Body : Type 0 where
  pub bytes : List ℕ
  pub failure : Option Error

-- What the program reads of an `*http.Response`; `url` is that of `resp.Request`.
pub record Response : Type 0 where
  pub url : Url
  pub status_code : ℕ
  pub header : Dict String
  pub content_length : ℤ
  pub body : Body

-- The environment of a fetch, with a state `W` that each call may change.
pub record World (W : Type 0) : Type 0 where
  -- `ctx.Err()` and `time.Now()`
  pub ctx_err : W → Option Error
  pub now : W → Time
  -- The `select` on the semaphore and `ctx.Done()`, and the deferred receive.
  pub acquire : W → Option Error × W
  pub release : W → W
  -- `http.NewRequestWithContext`, with the URL that it parses, and `httpClient.Do`.
  pub new_request : String → Result Url
  pub send : Request → W → Result Response × W
  pub sleep : ℤ → W → Option Error × W

-- An `int64` that is not negative, as a number.
abbrev pub size : ℤ → ℕ
size (pos n) = n
size (negsuc n) = 0
