-- ===== src/Service/Engine/Stored.antt =====
-- engine/src/grpc/service.rs: what each step of the running service keeps of a predicate on the
-- sessions that are stored, and on those that wait to be saved.
use vyse.Prelude.{
  ℕ, ◌≡◌, ◌≢◌, refl, ◌∙◌, ap, sym, ◌⊎◌, inl, inr, Option, none, some, List, ◌∷◌, ◌++◌, Text, Result,
  ok, err, arith, All, All-append, All-before, All-after, Result-cases, Bool-cases, text_eq,
  text_eq_iff, ltb,
}
use vyse.Float.{Float}
use vyse.Store.Session.{Session}
use vyse.Store.Redis as Sessions
use vyse.Store.Redis.{session_key}
use vyse.Store.Redis.RoundTrip.{set-ok}
use vyse.Store.Redis.Keys.{session_key_injective}
use vyse.Service.{Env, Task, submit_tier3_event, save_session, insert_log}
use vyse.Service.Infer.Races.{run_task}
use vyse.Service.Admin.{delete_session}
use vyse.Service.Engine.{RedisCells, Engine}
use vyse.Service.Engine.Spawned.{IsSaved}

module _ {F E R : Type 0} ⦃f : Float F⦄ (env : Env F E R) (P : Text → Session F → Type 0) where
  module _ (cells : RedisCells E R env.redis) where
    -- The session that is stored for a hash satisfies the predicate.
    abbrev pub IsStored : R → Type 0
    IsStored r =
        (hash raw : Text) (s : Session F)
        → cells.cell r (session_key hash) ≡ some raw
        → env.json.from_str raw ≡ ok s
        → P hash s

    abbrev pub Holds : Engine F R → Type 0
    Holds e = IsStored e.server × All (IsSaved P) e.pending

    -- What is loaded is what is stored.
    pub get-IsStored :
        (r : R) (hash : Text) (s : Session F)
        → IsStored r
        → Sessions.get env.redis env.json env.internal r hash ≡ ok (some s)
        → P hash s
    get-IsStored r hash s stored read = elim (Result-cases (env.redis.get r (session_key hash))) [
      | inr (e, failed) ↦ absurd (unfold Sessions.get in ground arith)
      | inl (none, e) ↦ absurd (unfold Sessions.get in ground arith)
      | inl (some raw, e) ↦ elim (Result-cases (env.json.from_str raw)) [
        | inr (m, bad) ↦ absurd (unfold Sessions.get in ground arith)
        | inl (s', parsed) ↦
            let same : s' ≡ s = unfold Sessions.get in ground arith in
            stored hash raw s (sym (cells.get-cell r (session_key hash) (some raw) e))
              (parsed ∙ ap ok same)
      ]
    ]

    -- A change of Redis that loses values and adds none.
    abbrev pub Loses : R → R → Type 0
    Loses r r' = (k : Text) → (cells.cell r' k ≡ none) ⊎ (cells.cell r' k ≡ cells.cell r k)

    pub Loses-IsStored : (r r' : R) → Loses r r' → IsStored r → IsStored r'
    Loses-IsStored r r' loses stored hash raw s held read = elim (loses (session_key hash)) [
      | inl gone ↦ absurd (ground arith)
      | inr same ↦ stored hash raw s (sym same ∙ held) read
    ]

    del-Loses :
        (out : Result E (ℕ × R)) (r : R) (hash : Text)
        → env.redis.del r (session_key hash) ≡ out
        → Loses r (delete_session env.redis none r hash).1
    unfolding delete_session Sessions.delete
    del-Loses (ok (n, r')) r hash done k = elim (Bool-cases (ltb 0 n)) [
      | inl some_key ↦
          rw (delete_session, Sessions.delete, done, some_key)
            (cells.del_loses r r' (session_key hash) k n done)
      | inr no_key ↦
          rw (delete_session, Sessions.delete, done, no_key)
            (cells.del_loses r r' (session_key hash) k n done)
    ]
    del-Loses (err e) r hash failed k = rw (delete_session, Sessions.delete, failed) (inr refl)

    pub delete_session-Loses :
        (pool_error : Option Text) (r : R) (hash : Text)
        → Loses r (delete_session env.redis pool_error r hash).1
    unfolding delete_session
    delete_session-Loses (some e) r hash k = inr refl
    delete_session-Loses none r hash k = del-Loses _ r hash refl k

    module _
        (back : (s s' : Session F) (raw : Text)
          → env.json.to_string s ≡ ok raw
          → env.json.from_str raw ≡ ok s'
          → s' ≡ s) where
      set-IsStored :
          (r r' : R) (s : Session F) (ttl : ℕ)
          → Sessions.set env.redis env.json env.internal r s ttl ≡ ok r'
          → P s.session_id_hash s
          → IsStored r
          → IsStored r'
      set-IsStored r r' s ttl done fine stored hash raw s' held read =
          let (raw', written, put) = set-ok env.redis env.json env.internal r r' s ttl done in
          elim (Bool-cases (text_eq s.session_id_hash hash)) [
            | inl same ↦
                let key : s.session_id_hash ≡ hash =
                  ground (arith, text_eq_iff s.session_id_hash hash) in
                let kept = cells.set_ex_self r r' (session_key s.session_id_hash) raw' ttl put in
                let raw_same : raw' ≡ raw = ground (arith, rw key at kept) in
                let is : s' ≡ s = back s s' raw (written ∙ ap ok raw_same) read in
                rw (is, ← key) fine
            | inr other ↦
                let ne : session_key s.session_id_hash ≢ session_key hash = λ k.
                  ground (arith, text_eq_iff s.session_id_hash hash, session_key_injective _ _ k) in
                stored hash raw s'
                  (sym (cells.set_ex_ne r r' _ (session_key hash) raw' ttl ne put) ∙ held) read
          ]

      run_task-IsStored :
          (r r' : R) (task : Task F)
          → run_task env r task ≡ ok r'
          → IsSaved P task
          → IsStored r
          → IsStored r'
      unfolding run_task
      run_task-IsStored r r' (submit_tier3_event a b c d) done fine stored =
          let same : r ≡ r' = ground arith in rw (← same) stored
      run_task-IsStored r r' (save_session s ttl) done fine stored =
          set-IsStored r r' s ttl done fine stored
      run_task-IsStored r r' (insert_log q) done fine stored =
          let same : r ≡ r' = ground arith in rw (← same) stored

      pub finished-Holds :
          (before after : List (Task F)) (task : Task F) (r r' : R)
          → run_task env r task ≡ ok r'
          → Holds (record { server = r; pending = before ++ task ∷ after })
          → Holds (record { server = r'; pending = before ++ after })
      finished-Holds before after task r r' done (stored, saved) =
          let (this, rest) = All-after (IsSaved P) before (task ∷ after) saved in
          (
            run_task-IsStored r r' task done this stored,
            All-append (IsSaved P) before after (All-before (IsSaved P) before (task ∷ after) saved)
                rest,
          )

    pub dropped-Holds :
        (before after : List (Task F)) (task : Task F) (r : R)
        → Holds (record { server = r; pending = before ++ task ∷ after })
        → Holds (record { server = r; pending = before ++ after })
    dropped-Holds before after task r (stored, saved) =
        let (this, rest) = All-after (IsSaved P) before (task ∷ after) saved in
        (
          stored,
          All-append (IsSaved P) before after (All-before (IsSaved P) before (task ∷ after) saved)
              rest,
        )
