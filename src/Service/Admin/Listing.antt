-- ===== src/Service/Admin/Listing.antt =====
-- engine/src/grpc/service.rs, `list_sessions`: the loop sends the selected sessions, in order, up to
-- the limit.
use vyse.Prelude.{
  ℕ, zero, suc, ◌-◌, ◌≤◌, ◌≡◌, refl, ◌⊎◌, inl, inr, Bool, true, ◌&&◌, none, some, List, [], ◌∷◌,
  Text, take, arith, All, Bool-cases, Option-cases, Result-cases, leb→le, leb,
}
use vyse.Prelude.Int.{ℤ, pos, ltb_ℤ, leb_ℤ, eq_ℤ_iff}
use vyse.Float.{Float}
use vyse.Clock.{DateTime}
use vyse.Store.Session.{Session}
use vyse.Store.Redis as Sessions
use vyse.Store.Redis.{Redis, Json}
use vyse.Service.{can_trace}
use vyse.Service.Admin.{SessionState, session_to_proto, is_selected, selected, stream_sessions}

take-nil {ℓ} : {A : Type ℓ} (n : ℕ) → ◌≡◌ {A = List A} [] (take n [])
take-nil zero = refl
take-nil (suc n) = refl

module _ {F E R : Type 0} ⦃f : Float F⦄ (redis : Redis E R) (json : Json F) (internal : Text → E)
    (r : R) (now : ℕ → DateTime) (filter : ℤ) where
  -- The sessions of the hashes that exist, can be read and pass the filter.
  pub selection : List Text → List (Session F)
  selection [] = []
  selection (hash ∷ hashes) = elim (selected filter (Sessions.get redis json internal r hash)) [
    | none ↦ selection hashes
    | some session ↦ session ∷ selection hashes
  ]

  -- The messages for some sessions, of which the first is the `n`-th.
  abbrev pub protos : ℕ → List (Session F) → List (SessionState F)
  protos n [] = []
  protos n (s ∷ sessions) = session_to_proto (now n) s ∷ protos (suc n) sessions

  abbrev stream : (ℕ → Bool) → ℤ → ℕ → List Text → List (SessionState F)
  stream connected limit sent hashes =
      stream_sessions redis json internal connected r now filter limit sent hashes

  -- Without a limit, and with a client that stays, every selected session is sent, in order, where
  -- the hashes can be printed.
  pub stream_sessions-unlimited :
      (sent : ℕ) (hashes : List Text)
      → All (λ hash. can_trace hash ≡ true) hashes
      → stream (λ _. true) (pos 0) sent hashes ≡ protos sent (selection hashes)
  unfolding stream_sessions selection
  stream_sessions-unlimited sent [] ps = refl
  stream_sessions-unlimited sent (hash ∷ hashes) (p, ps) = ground (
    arith,
    stream_sessions-unlimited sent hashes ps,
    stream_sessions-unlimited (suc sent) hashes ps,
    Option-cases (selected filter (Sessions.get redis json internal r hash)),
  )

  -- With a positive limit, and a client that stays, the first selected sessions are sent, as many as
  -- the limit has left, where the hashes can be printed.
  pub stream_sessions-limited :
      (limit sent : ℕ) (hashes : List Text)
      → All (λ hash. can_trace hash ≡ true) hashes
      → 1 ≤ limit
      → sent ≤ limit
      → stream (λ _. true) (pos limit) sent hashes
        ≡ take (limit - sent) (protos sent (selection hashes))
  unfolding stream_sessions selection
  stream_sessions-limited limit sent [] ps h k = take-nil (limit - sent)
  stream_sessions-limited limit sent (hash ∷ hashes) (p, ps) h k =
      elim (Bool-cases (leb limit sent)) [
        | inl full ↦
            let none_left : limit - sent ≡ 0 = omega (arith, leb→le limit sent full) in
            rw none_left (ground arith)
        | inr more ↦
            let left : limit - sent ≡ suc (limit - suc sent) = ground arith in
            rw left (
              ground (
                arith,
                stream_sessions-limited limit sent hashes ps h k,
                stream_sessions-limited limit (suc sent) hashes ps h,
                Option-cases (selected filter (Sessions.get redis json internal r hash)),
              ))
      ]

  is_selected-tier :
      (s : Session F) → is_selected filter s ≡ true → (filter ≡ pos 0) ⊎ (s.tier ≡ filter)
  is_selected-tier s h = ground (arith, eq_ℤ_iff filter (pos 0), eq_ℤ_iff s.tier filter)

  -- Whatever the client does, each session that is sent has the tier that was asked for.
  pub stream_sessions-tier :
      (connected : ℕ → Bool) (limit : ℤ) (sent : ℕ) (hashes : List Text)
      → All (λ s. (filter ≡ pos 0) ⊎ (s.tier ≡ filter)) (stream connected limit sent hashes)
  unfolding stream_sessions session_to_proto
  stream_sessions-tier connected limit sent [] = tt
  stream_sessions-tier connected limit sent (hash ∷ hashes) =
      elim (Bool-cases (ltb_ℤ (pos 0) limit && leb_ℤ limit (pos sent))) [
        | inl full ↦ rw full tt
        | inr more ↦ rw more (elim (Bool-cases (can_trace hash)) [
          | inr panic ↦ rw panic tt
          | inl traced ↦ rw traced (elim (Result-cases (Sessions.get redis json internal r hash)) [
            | inr (e, c) ↦ rw c (stream_sessions-tier connected limit sent hashes)
            | inl (none, c) ↦ rw c (stream_sessions-tier connected limit sent hashes)
            | inl (some s, c) ↦ rw c (elim (Bool-cases (is_selected filter s)) [
              | inr no_match ↦ rw no_match (stream_sessions-tier connected limit sent hashes)
              | inl chosen ↦ rw chosen (elim (Bool-cases (connected sent)) [
                | inr gone ↦ rw gone tt
                | inl there ↦ rw there (
                  is_selected-tier s chosen,
                  stream_sessions-tier connected limit (suc sent) hashes,
                )
              ])
            ])
          ])
        ])
      ]
