-- ===== src/Http/Hardened.antt =====
-- What every response of the handler's own has in its header.
use feeds_server.Base.{◌≡◌, ◌⊎◌, inl, inr, refl, ◌==◌, ◌&&◌, Bool-cases, some}
use feeds_server.Base.Dict.{lookup, insert}
use feeds_server.Http.{
  Payload, HttpRequest, HttpResponse, WebLibrary, capabilities, alive, is_get, write_json,
  new_handler,
}

-- A response that is not cached and whose type is not guessed.
pub record IsHardened (r : HttpResponse) : Type 0 where
  pub status : r.status ≡ 200
  pub kind : lookup "Content-Type" r.header ≡ some "application/json; charset=utf-8"
  pub cache : lookup "Cache-Control" r.header ≡ some "no-store"
  pub sniff : lookup "X-Content-Type-Options" r.header ≡ some "nosniff"

write_json-IsHardened : (web : WebLibrary) (value : Payload) → IsHardened (write_json web 200 value)
unfolding write_json insert lookup
write_json-IsHardened web value = record { status = refl; kind = refl; cache = refl; sniff = refl }

-- Every request that a pattern does not leave to the library gets a response that is hardened.
pub new_handler-cases :
    (web : WebLibrary) (r : HttpRequest)
    → (new_handler web r ≡ web.unmatched r) ⊎ IsHardened (new_handler web r)
unfolding new_handler
new_handler-cases web r = elim (Bool-cases (is_get r && r.path == "/api/v1/capabilities")) [
  | inl first ↦ rw (new_handler, first) (inr (write_json-IsHardened web capabilities))
  | inr a ↦ elim (Bool-cases (is_get r && r.path == "/health/live")) [
    | inl second ↦ rw (new_handler, a, second) (inr (write_json-IsHardened web alive))
    | inr b ↦ elim (Bool-cases (is_get r && r.path == "/health/ready")) [
      | inl third ↦ rw (new_handler, a, b, third) (inr (write_json-IsHardened web alive))
      | inr c ↦ rw (new_handler, a, b, c) (inl refl)
    ]
  ]
]
