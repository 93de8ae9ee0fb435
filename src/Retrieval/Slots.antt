-- ===== src/Retrieval/Slots.antt =====
-- The semaphore of a client, over the calls of `Fetch` that run at the same time
-- (internal/retrieval/client.go).
pub mod Progress
use feeds_server.Base.{
  ℕ, zero, suc, ◌+◌, ◌-◌, ◌≤◌, ◌<◌, ◌≡◌, ◌≢◌, refl, arith, Option, none, some, List, [], ◌∷◌, ◌++◌,
}
use feeds_server.Base.Seq.{get_elem?}
use feeds_server.Retrieval.Config.{Client}
use feeds_server.Retrieval.Exchange.{size}

-- Where a call of `Fetch` stands: at its `select`, behind it with a slot, or at its end.
pub data Phase : Type 0 where
  waiting working returned : Phase

-- The elements in the channel, and the calls in the order in which they came.
pub record Calls : Type 0 where
  pub held : ℕ
  pub fetches : List Phase

-- A client that `NewClient` has just made.
abbrev pub no_calls : Calls
no_calls = record { held = 0; fetches = [] }

abbrev pub set_phase : ℕ → Phase → List Phase → List Phase
set_phase i q [] = []
set_phase zero q (p ∷ ps) = q ∷ ps
set_phase (suc i) q (p ∷ ps) = p ∷ set_phase i q ps

pub data Event : Type 0 where
  call : Event
  take cancel finish : ℕ → Event

-- What can happen next: a send waits until the channel has room, and a receive until it has an
-- element.
pub data Step (c : Client) : Event → Calls → Calls → Type 0 where
  called : (s : Calls) → Step c call s (record s { fetches = s.fetches ++ waiting ∷ [] })
  -- `case c.semaphore <- struct{}{}`
  acquired :
      (s : Calls) (i : ℕ)
      → get_elem? s.fetches i ≡ some waiting
      → s.held < size c.concurrent
      → Step c (take i) s (record { held = s.held + 1; fetches = set_phase i working s.fetches })
  -- `case <-ctx.Done()`
  canceled :
      (s : Calls) (i : ℕ)
      → get_elem? s.fetches i ≡ some waiting
      → Step c (cancel i) s (record s { fetches = set_phase i returned s.fetches })
  -- `defer func() { <-c.semaphore }()`, on every way to the end.
  released :
      (s : Calls) (i : ℕ)
      → get_elem? s.fetches i ≡ some working
      → 0 < s.held
      → Step c (finish i) s (record { held = s.held - 1; fetches = set_phase i returned s.fetches })

-- What a new client can come to.
pub data Reach (c : Client) : Calls → Type 0 where
  start : Reach c no_calls
  step : (s t : Calls) (e : Event) → Reach c s → Step c e s t → Reach c t

abbrev pub weight : Phase → ℕ
weight waiting = 0
weight working = 1
weight returned = 0

-- How many steps a call has left.
abbrev pub remaining : Phase → ℕ
remaining waiting = 2
remaining working = 1
remaining returned = 0

abbrev pub total : (Phase → ℕ) → List Phase → ℕ
total f [] = 0
total f (p ∷ ps) = f p + total f ps

-- How many calls are behind their `select`.
abbrev pub count_working : List Phase → ℕ
count_working ps = total weight ps

-- Steps in which no new call comes and none is canceled.
pub data Serves : Event → Type 0 where
  takes : (i : ℕ) → Serves (take i)
  finishes : (i : ℕ) → Serves (finish i)

-- A number of such steps.
pub data Served (c : Client) : ℕ → Calls → Calls → Type 0 where
  rest : (s : Calls) → Served c 0 s s
  next :
      (s t r : Calls) (e : Event) (n : ℕ)
      → Serves e
      → Step c e s t
      → Served c n t r
      → Served c (suc n) s r
