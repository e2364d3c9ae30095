-- ===== src/Server/Authentication/Opening.antt =====
-- The end of `login`, from the client's callback on, and what a successful login means.
use sepm_group.Prelude.{
  ◌≡◌, ap, ◌∙◌, ◌⊎◌, inl, inr, true, Bool-cases, List, [], ◌∷◌, ◌++◌, Text, codes, same, same_iff,
  arith,
}
use sepm_group.Prelude.Effects.{Result, ok, ◌>>=◌, bind_cases}
use sepm_group.Sdc.{User, Exception}
use sepm_group.Database.{Soci}
use sepm_group.Logging.{Severity}
use sepm_group.Server.{World, IceServerI, Client, IsLawful, SessionImpl, session_impl, on_ice}
use sepm_group.Server.Authentication.{open_session}

module _ (S : Soci) (I : IceServerI) where
  abbrev Out : Type 0
  Out = Result Exception I.Proxy × World S I

  -- What the client behind the callback answers to "42".
  abbrev pub answer : Client I → I.State → Result Exception Text × I.State
  answer callback_id = (I.callback_for_id callback_id >>= λ c. I.echo c (codes "42"))

  module _ (user : User) (id : Text) (callback_id : Client I) where
    abbrev session : SessionImpl
    session = session_impl user

    expose_stage : World S I → Out
    expose_stage = on_ice (I.expose_object session) >>= λ proxy. on_ice (I.checked_cast proxy)

    abbrev Opens : I.State → Out → Type 0
    Opens s out = (p : I.Proxy) → out.0 ≡ ok p → I.exposed out.1.ice ≡ I.exposed s ++ (session ∷ [])

    expose_stage-Opens : IsLawful I → (w : World S I) → Opens w.ice (expose_stage w)
    unfolding expose_stage
    expose_stage-Opens L w =
        bind_cases (Opens w.ice) (on_ice (I.expose_object session)) _ w
          (λ p e q _. L.exposed-checked_cast _ p ∙ L.exposed-expose_object w.ice session p e)
          (λ e _ q h. cc)

    -- It may be that the session was exposed.
    abbrev pub MayExpose : I.State → I.State → Type 0
    MayExpose s t = (I.exposed t ≡ I.exposed s) ⊎ (I.exposed t ≡ I.exposed s ++ (session ∷ []))

    expose_stage-MayExpose : IsLawful I → (w : World S I) → MayExpose w.ice (expose_stage w).1.ice
    unfolding expose_stage
    expose_stage-MayExpose L w =
        bind_cases (λ out. MayExpose w.ice out.1.ice) (on_ice (I.expose_object session)) _ w
          (λ p e. inr (L.exposed-checked_cast _ p ∙ L.exposed-expose_object w.ice session p e))
          (λ e h. L.exposed-expose_object_failed w.ice session e h)

    abbrev Opened : World S I → Out → Type 0
    Opened w out =
        (p : I.Proxy)
        → out.0 ≡ ok p
        → (I.exposed out.1.ice ≡ I.exposed w.ice ++ (session ∷ []))
          × ((answer callback_id w.ice).0 ≡ ok (codes "42"))

    module _ (L : IsLawful I) (w : World S I) where
      called : World S I
      called = record w { ice = (I.callback_for_id callback_id w.ice).1 }

      echoed : I.Callback → World S I
      echoed c = record called { ice = (I.echo c (codes "42") called.ice).1 }

      exposed-echoed : (c : I.Callback) → I.exposed (echoed c).ice ≡ I.exposed w.ice
      unfolding echoed called
      exposed-echoed c =
          L.exposed-echo _ c (codes "42") ∙ L.exposed-callback_for_id w.ice callback_id

      answer-eq :
          (c : I.Callback) (r : Text)
          → (I.callback_for_id callback_id w.ice).0 ≡ ok c
          → (I.echo c (codes "42") called.ice).0 ≡ ok r
          → same r (codes "42") ≡ true
          → (answer callback_id w.ice).0 ≡ ok (codes "42")
      unfolding called
      answer-eq c r f g e = rw f (g ∙ ap ok ((same_iff r (codes "42")).0 e))

      -- A session that was opened is exposed, and the client has answered "42".
      pub open_session-Opens : Opened w (open_session S I user id callback_id w)
      unfolding open_session called echoed expose_stage
      open_session-Opens =
          bind_cases (Opened w) (on_ice (I.callback_for_id callback_id)) _ w
            (λ c f.
              bind_cases (Opened w) (on_ice (I.echo c (codes "42"))) _ called
                (λ r g. elim (Bool-cases (same r (codes "42"))) [
                  | inr no_echo ↦ rw no_echo (λ p h. cc)
                  | inl echoes ↦ rw echoes (λ p h. (
                    expose_stage-Opens L _ p h
                        ∙ ap (λ (xs : List SessionImpl). xs ++ (session ∷ [])) (exposed-echoed c),
                    answer-eq c r f g echoes,
                  ))
                ])
                (λ e g p h. cc))
            (λ e f p h. cc)

      logged : I.Callback → World S I
      logged c = record (echoed c) {
        log = (echoed c).log ++ ((Severity.lvl_info, codes "Logging in " ++ id) ∷ []);
      }

      -- However it ends: a session is exposed only when the client has answered "42".
      abbrev pub Answered : Out → Type 0
      Answered out =
          (I.exposed out.1.ice ≡ I.exposed w.ice)
          ⊎ ((I.exposed out.1.ice ≡ I.exposed w.ice ++ (session ∷ []))
              × ((answer callback_id w.ice).0 ≡ ok (codes "42")))

      pub open_session-Answered : Answered (open_session S I user id callback_id w)
      unfolding open_session called echoed logged expose_stage
      open_session-Answered =
          bind_cases Answered (on_ice (I.callback_for_id callback_id)) _ w
            (λ c f.
              bind_cases Answered (on_ice (I.echo c (codes "42"))) _ called
                (λ r g. elim (Bool-cases (same r (codes "42"))) [
                  | inr no_echo ↦ rw no_echo (inl (exposed-echoed c))
                  | inl echoes ↦ rw echoes (elim (expose_stage-MayExpose L (logged c)) [
                    | inl x ↦ inl (x ∙ exposed-echoed c)
                    | inr x ↦ inr (
                      x ∙ ap (λ (xs : List SessionImpl). xs ++ (session ∷ [])) (exposed-echoed c),
                      answer-eq c r f g echoes,
                    )
                  ])
                ])
                (λ e g. inl (exposed-echoed c)))
            (λ e f. inl (L.exposed-callback_for_id w.ice callback_id))

    abbrev KeepsDb : World S I → Out → Type 0
    KeepsDb w out = out.1.db ≡ w.db

    pub db-open_session : (w : World S I) → KeepsDb w (open_session S I user id callback_id w)
    unfolding open_session
    db-open_session w = ground arith
