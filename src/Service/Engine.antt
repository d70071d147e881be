-- ===== src/Service/Engine.antt =====
-- engine/src/grpc/service.rs: the service while it runs, as a step relation. A request reads Redis as
-- it is and adds its spawned tasks to those that still run. Any of those may end next, in any order,
-- and its error is dropped. An admin deletes sessions, and Redis lets keys expire.
pub mod Spawned
pub mod Stored
pub mod Invariant
pub mod Counting
use vyse.Prelude.{ℕ, ◌≡◌, ◌≢◌, ◌⊎◌, Option, none, some, List, [], ◌∷◌, ◌++◌, Text, ok, err}
use vyse.Float.{Float}
use vyse.Store.Redis.{Redis}
use vyse.Service.{InferenceRequest, Env, Inputs, Task}
use vyse.Service.Infer.{infer}
use vyse.Service.Infer.Races.{run_task}
use vyse.Service.Admin.{delete_session}

-- What Redis documents of the values of its keys: a read returns the value, `SETEX` changes the
-- value of its key only, and `DEL` removes no key but its own.
pub record RedisCells (E R : Type 0) (redis : Redis E R) : Type 0 where
  pub cell : R → Text → Option Text
  pub get-cell : (r : R) (k : Text) (o : Option Text) → redis.get r k ≡ ok o → o ≡ cell r k
  pub set_ex_self :
      (r r' : R) (k v : Text) (ttl : ℕ) → redis.set_ex r k v ttl ≡ ok r' → cell r' k ≡ some v
  pub set_ex_ne :
      (r r' : R) (k j v : Text) (ttl : ℕ)
      → k ≢ j
      → redis.set_ex r k v ttl ≡ ok r'
      → cell r' j ≡ cell r j
  pub del_loses :
      (r r' : R) (k j : Text) (n : ℕ)
      → redis.del r k ≡ ok (n, r')
      → (cell r' j ≡ none) ⊎ (cell r' j ≡ cell r j)

-- The state of Redis, and the tasks that were spawned and have not ended.
pub record Engine (F R : Type 0) : Type 0 where
  pub server : R
  pub pending : List (Task F)

module _ {F E R : Type 0} ⦃f : Float F⦄ (env : Env F E R) (cells : RedisCells E R env.redis) where
  pub data Step : Engine F R → Engine F R → Type 0 where
    request :
        (e : Engine F R) (t : Inputs) (req : InferenceRequest)
        → Step e (record e { pending = e.pending ++ (infer env e.server t req).1 })
    finished :
        (before after : List (Task F)) (task : Task F) (r r' : R)
        → run_task env r task ≡ ok r'
        → Step
            (record { server = r; pending = before ++ task ∷ after })
            (record { server = r'; pending = before ++ after })
    dropped :
        (before after : List (Task F)) (task : Task F) (r : R) (error : E)
        → run_task env r task ≡ err error
        → Step
            (record { server = r; pending = before ++ task ∷ after })
            (record { server = r; pending = before ++ after })
    deleted :
        (e : Engine F R) (pool_error : Option Text) (hash : Text)
        → Step e (record e { server = (delete_session env.redis pool_error e.server hash).1 })
    expired :
        (e : Engine F R) (r : R)
        → ((k : Text) → (cells.cell r k ≡ none) ⊎ (cells.cell r k ≡ cells.cell e.server k))
        → Step e (record e { server = r })

  -- The states that a service reaches which starts on an empty Redis.
  pub data Reach : Engine F R → Type 0 where
    started :
        (r : R) → ((k : Text) → cells.cell r k ≡ none) → Reach (record { server = r; pending = [] })
    next : {e e' : Engine F R} → Reach e → Step e e' → Reach e'
