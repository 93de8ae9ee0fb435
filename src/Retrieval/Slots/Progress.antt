-- ===== src/Retrieval/Slots/Progress.antt =====
-- The semaphore under any interleaving: how many calls work, which can go on, and for how long.
use feeds_server.Base.{
  ℕ, zero, suc, ◌+◌, ◌≤◌, ◌<◌, ◌≡◌, ◌⊎◌, inl, inr, refl, sym, ap, arith, true, false, ltb,
  Bool-cases, some, some-injective, List, [], ◌∷◌, ◌++◌,
}
use feeds_server.Base.Seq.{get_elem?}
use feeds_server.Retrieval.Config.{Client}
use feeds_server.Retrieval.Config.Bounds.{IsBounded}
use feeds_server.Retrieval.Exchange.{size}
use feeds_server.Retrieval.Slots.{
  Phase, waiting, working, returned, Calls, set_phase, Event, take, finish, Step, called, acquired,
  canceled, released, Reach, start, step, weight, count_working, remaining, total, Serves, takes,
  finishes, Served, rest, next,
}

total-set_phase :
    (f : Phase → ℕ) (ps : List Phase) (i : ℕ) (p q : Phase)
    → get_elem? ps i ≡ some p
    → total f (set_phase i q ps) + f p ≡ total f ps + f q
total-set_phase f [] i p q h = absurd (cc h)
total-set_phase f (r ∷ ps) zero p q h = rw (some-injective h) (omega arith)
total-set_phase f (r ∷ ps) (suc i) p q h = omega (arith, total-set_phase f ps i p q h)

count_working-append : (ps : List Phase) → count_working (ps ++ waiting ∷ []) ≡ count_working ps
count_working-append [] = refl
count_working-append (p ∷ ps) = omega (arith, count_working-append ps)

ltb-true : (a b : ℕ) → ltb a b ≡ true → a < b
ltb-true a b h = ground arith

ltb-false : (a b : ℕ) → ltb a b ≡ false → b ≤ a
ltb-false a b h = ground arith

-- A call that works, where there is one.
find_working : (ps : List Phase) → 0 < count_working ps → (i : ℕ) × (get_elem? ps i ≡ some working)
find_working [] h = absurd (omega (arith, h))
find_working (working ∷ ps) h = (0, refl)
find_working (waiting ∷ ps) h = let (i, e) = find_working ps (omega (arith, h)) in (suc i, e)
find_working (returned ∷ ps) h = let (i, e) = find_working ps (omega (arith, h)) in (suc i, e)

-- The channel has one element for each call that works, and no more than it can hold.
pub record IsCounted (c : Client) (s : Calls) : Type 0 where
  pub counted : s.held ≡ count_working s.fetches
  pub bounded : s.held ≤ size c.concurrent

Step-IsCounted :
    (c : Client) (e : Event) (s t : Calls) → Step c e s t → IsCounted c s → IsCounted c t
Step-IsCounted c _ _ _ (called s) h = record {
  counted = omega (arith, h.counted, count_working-append s.fetches);
  bounded = h.bounded;
}
Step-IsCounted c _ _ _ (acquired s i at room) h = record {
  counted = omega (arith, h.counted, total-set_phase weight s.fetches i waiting working at);
  bounded = omega (arith, room);
}
Step-IsCounted c _ _ _ (canceled s i at) h = record {
  counted = omega (arith, h.counted, total-set_phase weight s.fetches i waiting returned at);
  bounded = h.bounded;
}
Step-IsCounted c _ _ _ (released s i at some_held) h = record {
  counted = omega (arith, h.counted, total-set_phase weight s.fetches i working returned at);
  bounded = omega (arith, h.bounded);
}

-- However the calls of a client interleave, the channel has one element for each call that is
-- behind its `select` and has not returned, and there are never more of those than the configured
-- number of concurrent fetches.
pub Reach-IsCounted : (c : Client) (s : Calls) → Reach c s → IsCounted c s
Reach-IsCounted c _ start = record { counted = refl; bounded = omega arith }
Reach-IsCounted c _ (step s t e r k) = Step-IsCounted c e s t k (Reach-IsCounted c s r)

-- A client within its bounds does not deadlock: however its calls have interleaved, while one of
-- them waits at its `select`, that one can take a slot, or another one works and its deferred
-- receive goes through.
pub Reach-moves :
    (c : Client) (s : Calls) (i : ℕ)
    → IsBounded c
    → Reach c s
    → get_elem? s.fetches i ≡ some waiting
    → ((t : Calls) × Step c (take i) s t) ⊎ ((j : ℕ) × ((t : Calls) × Step c (finish j) s t))
Reach-moves c s i b r at =
    let h = Reach-IsCounted c s r in
    elim (Bool-cases (ltb s.held (size c.concurrent))) [
      | inl room ↦ inl (_, acquired s i at (ground arith))
      | inr full ↦
          let (n, is_n, positive) = b.slots in
          let some_held : 0 < s.held =
            omega (
              arith,
              positive,
              ap size is_n,
              h.bounded,
              ltb-false s.held (size c.concurrent) full,
            ) in
          let (j, works) = find_working s.fetches (omega (arith, h.counted, some_held)) in
          inr (j, (_, released s j works some_held))
    ]

-- A call that waits, where none works and a step is left.
find_waiting :
    (ps : List Phase)
    → count_working ps ≡ 0
    → 0 < total remaining ps
    → (i : ℕ) × (get_elem? ps i ≡ some waiting)
find_waiting [] h left = absurd (omega (arith, left))
find_waiting (waiting ∷ ps) h left = (0, refl)
find_waiting (working ∷ ps) h left = absurd (omega (arith, h))
find_waiting (returned ∷ ps) h left =
    let (i, e) = find_waiting ps (omega (arith, h)) (omega (arith, left)) in (suc i, e)

-- A step towards the end, where one is left.
Reach-Serves :
    (c : Client) (s : Calls)
    → IsBounded c
    → Reach c s
    → 0 < total remaining s.fetches
    → (e : Event) × (t : Calls) × Serves e × Step c e s t
Reach-Serves c s b r left = elim (Bool-cases (ltb 0 (count_working s.fetches))) [
  | inl some_work ↦
      let (j, works) = find_working s.fetches (ground arith) in
      let h = Reach-IsCounted c s r in
      (
        finish j,
        _,
        finishes j,
        released s j works (omega (arith, h.counted, ltb-true 0 _ some_work)),
      )
  | inr none_work ↦
      let (i, at) =
        find_waiting s.fetches (omega (arith, ltb-false 0 (count_working s.fetches) none_work))
          left in
      elim (Reach-moves c s i b r at) [
        | inl (t, k) ↦ (take i, t, takes i, k)
        | inr (j, (t, k)) ↦ (finish j, t, finishes j, k)
      ]
]

Step-remaining :
    (c : Client) (e : Event) (s t : Calls)
    → Serves e
    → Step c e s t
    → total remaining t.fetches + 1 ≡ total remaining s.fetches
Step-remaining c _ _ _ (takes _) (acquired s i at room) =
    omega (arith, total-set_phase remaining s.fetches i waiting working at)
Step-remaining c _ _ _ (finishes _) (released s i at some_held) =
    omega (arith, total-set_phase remaining s.fetches i working returned at)

all_returned :
    (ps : List Phase) (i : ℕ) (p : Phase)
    → total remaining ps ≡ 0
    → get_elem? ps i ≡ some p
    → p ≡ returned
all_returned [] i p h at = absurd (cc at)
all_returned (waiting ∷ ps) i p h at = absurd (omega (arith, h))
all_returned (working ∷ ps) i p h at = absurd (omega (arith, h))
all_returned (returned ∷ ps) zero p h at = sym (some-injective at)
all_returned (returned ∷ ps) (suc i) p h at = all_returned ps i p (omega (arith, h)) at

none_working : (ps : List Phase) → total remaining ps ≡ 0 → count_working ps ≡ 0
none_working [] h = refl
none_working (waiting ∷ ps) h = absurd (omega (arith, h))
none_working (working ∷ ps) h = absurd (omega (arith, h))
none_working (returned ∷ ps) h = omega (arith, none_working ps (omega (arith, h)))

-- Every call has returned, and the channel is empty.
pub record IsIdle (s : Calls) : Type 0 where
  pub calls : (i : ℕ) (p : Phase) → get_elem? s.fetches i ≡ some p → p ≡ returned
  pub channel : s.held ≡ 0

drain :
    (c : Client) (n : ℕ) (s : Calls)
    → IsBounded c
    → Reach c s
    → total remaining s.fetches ≡ n
    → (t : Calls) × Served c n s t × IsIdle t
drain c zero s b r h = (
  s,
  rest s,
  record {
    calls = λ i p at. all_returned s.fetches i p h at;
    channel = omega (arith, (Reach-IsCounted c s r).counted, none_working s.fetches h);
  },
)
drain c (suc n) s b r h =
    let (e, t, serves, k) = Reach-Serves c s b r (omega (arith, h)) in
    let (u, run, idle) =
      drain c n t b (step s t e r k) (omega (arith, h, Step-remaining c e s t serves k)) in
    (u, next s t u e n serves k run, idle)

-- A client within its bounds can serve all its calls: however they have interleaved, there are
-- steps, two for each call that waits at its `select` and one for each that works, in which no call
-- comes and none is canceled, and behind which every call has returned and the channel is empty.
pub Reach-drains :
    (c : Client) (s : Calls)
    → IsBounded c
    → Reach c s
    → (t : Calls) × Served c (total remaining s.fetches) s t × IsIdle t
Reach-drains c s b r = drain c (total remaining s.fetches) s b r refl
