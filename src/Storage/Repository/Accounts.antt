-- ===== src/Storage/Repository/Accounts.antt =====
-- Users and article states: what a write leaves, on success and on an error.
use feeds_server.Base.{
  ◌≡◌, ◌≢◌, ◌⊎◌, refl, sym, ap, ◌∙◌, arith, ◌==◌, eq_iff, false, ◌||◌, Bool-cases, inl, inr, Option,
  none, some, Option-cases, some-injective, List,
}
use feeds_server.Base.Text.{is_blank}
use feeds_server.Feed.Model.{Time, Float64}
use feeds_server.Storage.Attempt.{done}
use feeds_server.Storage.Store.{Store, ensure_store}
use feeds_server.Storage.Repository.Table.{put, get-put, column-put, put-other, text_key}
use feeds_server.Storage.Repository.Rows.{StateKey, Tables, state_key}
use feeds_server.Storage.Repository.Writes.{
  UserReference, StoredArticleState, or_else, refuse_if, state_error,
}
use feeds_server.Storage.Repository.Server.{Postgres, put_state, get_state, stored_time}
use feeds_server.Storage.Repository.Operations.{
  user_guard, state_guard, user_row, state_row, upsert_user_reference, upsert_article_state,
  article_state_for_user,
}
use feeds_server.Storage.Repository.Bindings.{
  Extends, Extends-trans, subject_column, upsert_user_reference-Extends,
}
use feeds_server.Storage.Repository.History.{Operation, perform_all, perform_all-Extends}

other_key : (k j : StateKey) → (j.user_id ≢ k.user_id) ⊎ (j.article_id ≢ k.article_id) → k ≢ j
other_key k j (inl users) hit = users (ap (λ x. x.user_id) (sym hit))
other_key k j (inr articles) hit = articles (ap (λ x. x.article_id) (sym hit))

module _ {F P : Type 0} ⦃pg : Postgres F⦄ (s : Option (Store P)) where
  upsert_user_reference-binds :
      (now : Time) (user : UserReference) (t t' : Tables F)
      → upsert_user_reference s now user t ≡ (none, t')
      → subject_column t' user.id ≡ some user.identity_subject
  unfolding upsert_user_reference
  upsert_user_reference-binds now user t t' h =
      let row = user_row (pg.timestamptz now) user (t.users user.id) in
      elim (Option-cases (user_guard s user t)) [
        | inr (e, refused) ↦ absurd (cc (rw (upsert_user_reference, refused) at h))
        | inl sent ↦ elim (Bool-cases (row.identity_subject == user.identity_subject)) [
          | inr other ↦ absurd (cc (rw (upsert_user_reference, sent, refuse_if, other) at h))
          | inl mine ↦ rw (← ap (λ r. r.1) (rw (upsert_user_reference, sent) at h)) (
              column-put (λ r. r.identity_subject) user.id row t.users
              ∙ ap some ((eq_iff row.identity_subject user.identity_subject).0 mine))
        ]
      ]

  -- Two successful writes of one user name the same identity subject, whatever other writes run
  -- between them.
  pub upsert_user_reference-agree :
      ⦃f : Float64 F⦄ (now later : Time) (u v : UserReference) (t t₁ t₂ : Tables F)
      (os : List (Time × Operation F))
      → upsert_user_reference s now u t ≡ (none, t₁)
      → upsert_user_reference s later v (perform_all s os t₁) ≡ (none, t₂)
      → u.id ≡ v.id
      → u.identity_subject ≡ v.identity_subject
  upsert_user_reference-agree now later u v t t₁ t₂ os h₁ h₂ same =
      let t' = perform_all s os t₁ in
      let first = upsert_user_reference-binds now u t t₁ h₁ in
      let second = upsert_user_reference-binds later v t' t₂ h₂ in
      let kept : Extends t' t₂ = rw h₂ at (upsert_user_reference-Extends s later v t') in
      let all = Extends-trans t₁ t' t₂ (perform_all-Extends s os t₁) kept in
      some-injective
        (sym (all.users u.id u.identity_subject first) ∙ (ap (subject_column t₂) same ∙ second))

module _ {F P : Type 0} ⦃f : Float64 F⦄ ⦃pg : Postgres F⦄ (s : Option (Store P)) where
  sent_state :
      (w : StoredArticleState F) (t : Tables F)
      → or_else (ensure_store s) (or_else (state_error w) (pg.refuses (put_state w) t)) ≡ none
      → (ensure_store s ≡ none)
        × ((is_blank w.state.user_id || is_blank w.state.article_id) ≡ false)
  unfolding state_error
  sent_state w t h = (ground arith, ground arith)

  -- Where `UpsertArticleState` succeeds and the server answers the query, `ArticleStateForUser`
  -- gives the state as it was written, with its times as the server stores them; the states of
  -- every other pair of user and article are as they were.
  pub article_state_for_user-upsert_article_state :
      (w : StoredArticleState F) (t t' : Tables F)
      → upsert_article_state s w t ≡ (none, t')
      → pg.refuses
          (get_state (record { user_id = w.state.user_id; article_id = w.state.article_id }))
          t'
        ≡ none
      → (article_state_for_user s w.state.user_id w.state.article_id t'
          ≡ done (record w {
            state = record w.state { updated_at = pg.timestamptz w.state.updated_at };
            last_read_at = stored_time pg.timestamptz w.last_read_at;
          }))
        × ((k : StateKey)
            → (k.user_id ≢ w.state.user_id) ⊎ (k.article_id ≢ w.state.article_id)
            → t'.states k ≡ t.states k)
  unfolding upsert_article_state article_state_for_user
  article_state_for_user-upsert_article_state w t t' h answers =
      let u = w.state.user_id in
      let a = w.state.article_id in
      let k : StateKey = record { user_id = u; article_id = a } in
      let row = state_row w in
      elim (Option-cases (state_guard s w t)) [
        | inr (e, refused) ↦ absurd (cc (rw (upsert_article_state, refused) at h))
        | inl sent ↦
            let same : record t { states = put k row t.states } ≡ t' =
              ap (λ r. r.1) (rw (upsert_article_state, sent) at h) in
            let there : t'.states k ≡ some row =
              ap (λ x. x.states k) (sym same) ∙ get-put k row t.states in
            let (opened, named) = sent_state w t sent in
            (
              rw (article_state_for_user, opened, named, answers, there) refl,
              λ j differs.
                  ap (λ x. x.states j) (sym same)
                  ∙ put-other k j row t.states (λ hit. other_key k j differs hit),
            )
      ]
