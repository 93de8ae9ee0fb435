-- ===== src/Retrieval/Config/Settings.antt =====
-- The settings of the `http.Client` that `NewClient` of internal/retrieval/client.go makes.
use feeds_server.Base.{ℕ, ◌*◌, ◌≡◌, refl, arith, Bool, true, false}
use feeds_server.Base.Int.{ℤ, pos}
use feeds_server.Retrieval.Config.{Client}
use feeds_server.Retrieval.Config.Bounds.{IsPositive, IsBounded}

-- The fields of `net.Dialer`, `http.Transport` and `http.Client` that are set to values; the times
-- are in nanoseconds, and 0 would be no limit.
pub record HttpSettings : Type 0 where
  pub dial_timeout : ℤ
  pub keep_alive : ℤ
  pub has_proxy : Bool
  pub force_attempt_http2 : Bool
  pub max_idle_conns : ℕ
  pub max_idle_conns_per_host : ℕ
  pub idle_conn_timeout : ℤ
  pub tls_handshake_timeout : ℤ
  pub response_header_timeout : ℤ
  pub expect_continue_timeout : ℤ
  pub min_tls_version : ℕ
  pub timeout : ℤ

abbrev seconds : ℕ → ℤ
seconds n = pos (n * 1_000_000_000)

unfoldable pub http_settings : Client → HttpSettings
http_settings c = record {
  dial_timeout = c.connect_timeout;
  keep_alive = seconds 30;
  has_proxy = false;
  force_attempt_http2 = true;
  max_idle_conns = 64;
  max_idle_conns_per_host = 8;
  idle_conn_timeout = seconds 90;
  tls_handshake_timeout = seconds 10;
  response_header_timeout = c.response_header_timeout;
  expect_continue_timeout = seconds 1;
  min_tls_version = 0x0303;
  timeout = c.request_timeout;
}

-- No phase of a request of a bounded client goes without a time limit, and none through a proxy.
http_settings-limited :
    (c : Client)
    → IsBounded c
    → IsPositive (http_settings c).dial_timeout
      × IsPositive (http_settings c).tls_handshake_timeout
      × IsPositive (http_settings c).response_header_timeout
      × IsPositive (http_settings c).timeout
      × ((http_settings c).has_proxy ≡ false)
unfolding http_settings
http_settings-limited c b = (
  b.connect_timeout,
  (10_000_000_000, refl, omega arith),
  b.header_timeout,
  b.request_timeout,
  refl,
)
