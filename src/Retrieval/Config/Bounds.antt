-- ===== src/Retrieval/Config/Bounds.antt =====
-- What every client that `NewClient` returns satisfies.
use feeds_server.Base.{ℕ, ◌<◌, ◌≤◌, ◌≡◌, inl, inr, refl, arith, false, Bool-cases, eqb, subst}
use feeds_server.Base.Int.{ℤ, pos, negsuc, is_negative, ltz}
use feeds_server.Retrieval.Policy.{ok}
use feeds_server.Retrieval.Config.{
  Config, Client, new_client, has_negative, with_defaults, default_base_backoff,
  default_max_backoff, default_max_body_bytes, default_max_concurrent, default_max_attempts,
  default_request_timeout, default_connect_timeout, default_response_header_timeout, or_default,
  client_of,
}

-- A positive integer.
abbrev pub IsPositive : ℤ → Type 0
IsPositive z = (n : ℕ) × (z ≡ pos n) × (0 < n)

pub record IsBounded (c : Client) : Type 0 where
  pub body : IsPositive c.max_body_bytes
  pub slots : IsPositive c.concurrent
  pub attempts : IsPositive c.max_attempts
  pub base : ℕ
  pub limit : ℕ
  pub base_backoff : c.base_backoff ≡ pos base
  pub max_backoff : c.max_backoff ≡ pos limit
  pub base_positive : 0 < base
  pub ordered : base ≤ limit
  pub request_timeout : IsPositive c.request_timeout
  pub connect_timeout : IsPositive c.connect_timeout
  pub header_timeout : IsPositive c.response_header_timeout

or_default-IsPositive :
    (z d : ℤ) → is_negative z ≡ false → IsPositive d → IsPositive (or_default z d)
or_default-IsPositive (negsuc z) d h p = absurd (cc)
or_default-IsPositive (pos z) d h p = elim (Bool-cases (eqb z 0)) [
  | inl empty ↦ rw empty p
  | inr there ↦ (z, rw there, ground arith)
]

-- What the guards of `new_client` establish of the configuration.
record IsSound (cfg : Config) (c : Client) : Type 0 where
  made : client_of (with_defaults cfg) ≡ c
  ordered : ltz (with_defaults cfg).max_backoff (with_defaults cfg).base_backoff ≡ false
  request : is_negative cfg.request_timeout ≡ false
  connect : is_negative cfg.connect_timeout ≡ false
  header : is_negative cfg.response_header_timeout ≡ false
  body : is_negative cfg.max_body_bytes ≡ false
  slots : is_negative cfg.max_concurrent ≡ false
  attempts : is_negative cfg.max_attempts ≡ false
  base : is_negative cfg.base_backoff ≡ false
  limit : is_negative cfg.max_backoff ≡ false

new_client-guards :
    (cfg : Config) (c : Client)
    → new_client cfg ≡ ok c
    → (has_negative cfg ≡ false)
      × (ltz (with_defaults cfg).max_backoff (with_defaults cfg).base_backoff ≡ false)
      × (client_of (with_defaults cfg) ≡ c)
unfolding new_client
new_client-guards cfg c h = ground arith

new_client-IsSound : (cfg : Config) (c : Client) → new_client cfg ≡ ok c → IsSound cfg c
unfolding has_negative
new_client-IsSound cfg c h =
    let (fine, ordered, made) = new_client-guards cfg c h in
    record {
      made = made;
      ordered = ordered;
      request = ground arith;
      connect = ground arith;
      header = ground arith;
      body = ground arith;
      slots = ground arith;
      attempts = ground arith;
      base = ground arith;
      limit = ground arith;
    }

-- Of two numbers where the second is not below the first.
ordered_parts :
    (base limit : ℤ)
    → IsPositive base
    → IsPositive limit
    → ltz limit base ≡ false
    → (b l : ℕ) × (base ≡ pos b) × (limit ≡ pos l) × (0 < b) × (b ≤ l)
ordered_parts base limit (b, eb, hb) (l, el, hl) h = (
  b,
  l,
  eb,
  el,
  hb,
  not_lt b l (subst (λ z. ltz z (pos b) ≡ false) el (subst (λ z. ltz limit z ≡ false) eb h)),
)
  where
    not_lt : (b l : ℕ) → ltz (pos l) (pos b) ≡ false → b ≤ l
    not_lt b l h = ground arith

-- A client that is made has a positive body limit, number of slots, number of attempts and
-- timeouts, a positive base backoff, and a maximum backoff that is not below it.
pub new_client-IsBounded : (cfg : Config) (c : Client) → new_client cfg ≡ ok c → IsBounded c
unfolding with_defaults
new_client-IsBounded cfg c h =
    let s = new_client-IsSound cfg c h in
    let positive : (n : ℕ) → 0 < n → IsPositive (pos n) = λ n k. (n, refl, k) in
    let base =
      or_default-IsPositive cfg.base_backoff default_base_backoff s.base
        (positive _ (omega arith)) in
    let limit =
      or_default-IsPositive cfg.max_backoff default_max_backoff s.limit
        (positive _ (omega arith)) in
    let (b, l, base_eq, limit_eq, b_pos, le) = ordered_parts _ _ base limit s.ordered in
    subst IsBounded s.made (record {
      body =
          or_default-IsPositive cfg.max_body_bytes default_max_body_bytes s.body
            (positive _ (omega arith));
      slots =
          or_default-IsPositive cfg.max_concurrent default_max_concurrent s.slots
            (positive _ (omega arith));
      attempts =
          or_default-IsPositive cfg.max_attempts default_max_attempts s.attempts
            (positive _ (omega arith));
      base = b;
      limit = l;
      base_backoff = base_eq;
      max_backoff = limit_eq;
      base_positive = b_pos;
      ordered = le;
      request_timeout =
          or_default-IsPositive cfg.request_timeout default_request_timeout s.request
            (positive _ (omega arith));
      connect_timeout =
          or_default-IsPositive cfg.connect_timeout default_connect_timeout s.connect
            (positive _ (omega arith));
      header_timeout =
          or_default-IsPositive cfg.response_header_timeout default_response_header_timeout s.header
            (positive _ (omega arith));
    })
