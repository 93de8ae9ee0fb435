-- ===== src/Tests/Http.antt =====
-- internal/server/server.go on three requests.
use feeds_server.Base.{◌≡◌, refl, []}
use feeds_server.Http.{WebLibrary, alive, write_json, new_handler}

abbrev sample_web : WebLibrary
sample_web = record {
  encode = λ v. "{}";
  unmatched = λ r. record { status = 404; header = []; body = "" };
}

live_test :
    new_handler sample_web (record { method = "GET"; path = "/health/live" })
    ≡ write_json sample_web 200 alive
unfolding new_handler
live_test = refl

head_test :
    new_handler sample_web (record { method = "HEAD"; path = "/health/ready" })
    ≡ write_json sample_web 200 alive
unfolding new_handler
head_test = refl

post_test :
    (new_handler sample_web (record { method = "POST"; path = "/health/ready" })).status ≡ 404
unfolding new_handler
post_test = refl
