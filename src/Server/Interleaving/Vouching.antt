-- ===== src/Server/Interleaving/Vouching.antt =====
-- Whose sessions the server exposes while its threads run calls at once.
use sepm_group.Prelude.{
  ℕ, ◌≡◌, refl, sym, ap, ◌∙◌, ◌⊎◌, inl, inr, false, Option, some, List, [], ◌∷◌, ◌++◌, filter, Text,
  codes, same,
}
use sepm_group.Prelude.Effects.{ok, Result-cases}
use sepm_group.Sdc.{User}
use sepm_group.Database.{Soci, IsLawful, Row, has_id}
use sepm_group.Server.{
  World, IceServerI, Client, SessionImpl, session_impl, account_name, is_initialized, throw_if, get,
}
use sepm_group.Server
use sepm_group.Server.Authentication.{column, key_differs, echo}
use sepm_group.Server.Authentication.Success.{key_differs-false}
use sepm_group.Server.System.Exposure.{handle-ice}
use sepm_group.Server.Steps.{throw_if-same, throw_if-ok, get-same, get-ok, column-some, same-not}
use sepm_group.Server.Interleaving.{ret, System, Reach, HasEnded}
use sepm_group.Server.Interleaving.Calls.{
  ServerProgram, Call, echoes, registers, logs_in, requests, program, register_program,
  open_program, login_program,
}
use sepm_group.Server.Interleaving.Growth
use sepm_group.Server.Interleaving.Growth.{Passed}

module _ (S : Soci) (I : IceServerI) where
  abbrev exposed : World S I → List SessionImpl
  exposed w = I.exposed w.ice

  -- In the worlds that may come.
  module _ (Seen : World S I → Type 0) where
    -- Why the call may expose the session: it is a login with this user, this password and this
    -- client. Each of the facts held in some world on the way, for other threads may have
    -- changed the world between the steps of the login.
    pub record Vouched (c : Call S I) (x : SessionImpl) : Type 0 where
      pub user : User
      pub password : Text
      pub client : Client I
      pub called : c ≡ logs_in user password client
      pub key : Text
      pub row : Row
      pub callback : I.Callback
      pub at_select : World S I
      pub at_callback : World S I
      pub at_echo : World S I
      pub seen_select : Seen at_select
      pub seen_callback : Seen at_callback
      pub seen_echo : Seen at_echo
      pub selected :
          (before : List Row) × (after : List Row) × (filter
              (has_id (account_name user.id))
              (S.rows at_select.db)
            ≡ before ++ (row ∷ after))
      pub right_password : row.pw ≡ some password
      pub stored_key : row.pubkey ≡ some key
      pub same_key : (user.public_key ≡ []) ⊎ (user.public_key ≡ key)
      pub opened : x ≡ session_impl (record { id = account_name user.id; public_key = key })
      pub obtained : (I.callback_for_id client at_callback.ice).0 ≡ ok callback
      pub answered : (I.echo callback (codes "42") at_echo.ice).0 ≡ ok (codes "42")

    abbrev Careful : {A : Type 0} → Call S I → ServerProgram S I A → Type 0
    Careful c = Growth.IsCareful exposed Seen (Vouched c) (λ _. Unit {0})

    module _ (L : IsLawful S) (J : Server.IsLawful I) where
      exposes :
          (c : Call S I) (x : SessionImpl) (w : World S I)
          → Vouched c x
          → Growth.Adds exposed Seen (Vouched c) w (record w { ice = (I.expose_object x w.ice).1 })
      exposes c x w v = elim (Result-cases (I.expose_object x w.ice).0) [
        | inl (p, e) ↦ inr (x, v, J.exposed-expose_object w.ice x p e)
        | inr (e, f) ↦ elim (J.exposed-expose_object_failed w.ice x e f) [
          | inl unchanged ↦ inl unchanged
          | inr grown ↦ inr (x, v, grown)
        ]
      ]

      Opens : Call S I → User → Client I → Type 0
      Opens c user client =
          (callback : I.Callback) (at_callback : World S I) (at_echo : World S I)
          → Seen at_callback
          → Seen at_echo
          → (I.callback_for_id client at_callback.ice).0 ≡ ok callback
          → (I.echo callback (codes "42") at_echo.ice).0 ≡ ok (codes "42")
          → Vouched c (session_impl user)

      open_program-IsCareful :
          (c : Call S I) (user : User) (id : Text) (client : Client I)
          → Opens c user client
          → Careful c (open_program S I user id client)
      unfolding open_program Opens
      open_program-IsCareful c user id client vouch = λ w1 seen1. (
        inl (J.exposed-callback_for_id w1.ice client),
        λ callback f. λ w2 seen2. (
          inl (J.exposed-echo w2.ice callback (codes "42")),
          λ answer g. λ w3 seen3. (
            inl (ap exposed (throw_if-same S I _ _ _ w3)),
            λ _ h.
                let echoed =
                  g ∙ ap ok (same-not answer (codes "42") (throw_if-ok S I _ _ _ w3 h)) in
                let v = vouch callback w1 w2 seen1 seen2 f echoed in
                λ w4 seen4. (
                  inl refl,
                  λ _ _. λ w5 seen5. (
                    exposes c (session_impl user) w5 v,
                    λ proxy _. λ w6 seen6. (inl (J.exposed-checked_cast w6.ice proxy), λ _ _. tt),
                  ),
                ),
          ),
        ),
      )

      login_vouches :
          (u : User) (pw : Text) (client : Client I) (w : World S I) (o : Option Row) (key : Text)
          → Seen w
          → (S.select_user (account_name u.id) w.db).0 ≡ ok o
          → column (λ r. r.pw) o ≡ some pw
          → column (λ r. r.pubkey) o ≡ some key
          → key_differs u.public_key key ≡ false
          → Opens (logs_in u pw client) (record { id = account_name u.id; public_key = key }) client
      unfolding Opens
      login_vouches u pw client w o key seen e right stored same callback at_callback at_echo sc se
            f g =
          let (row, found, right_password) = column-some (λ r. r.pw) o right in
          record {
            user = u;
            password = pw;
            client = client;
            called = refl;
            key = key;
            row = row;
            callback = callback;
            at_select = w;
            at_callback = at_callback;
            at_echo = at_echo;
            seen_select = seen;
            seen_callback = sc;
            seen_echo = se;
            selected = L.select-some w.db _ row (e ∙ ap ok found);
            right_password = right_password;
            stored_key = sym (ap (column (λ r. r.pubkey)) found) ∙ stored;
            same_key = key_differs-false u.public_key key same;
            opened = refl;
            obtained = f;
            answered = g;
          }

      login_program-IsCareful :
          (u : User) (pw : Text) (client : Client I)
          → Careful (logs_in u pw client) (login_program S I u pw client)
      unfolding login_program
      login_program-IsCareful u pw client = λ w1 seen1. (
        inl refl,
        λ _ _. λ w2 seen2. (
          inl refl,
          λ o e. λ w3 seen3. (
            inl (ap exposed (throw_if-same S I _ _ _ w3)),
            λ _ _. λ w4 seen4. (
              inl (ap exposed (get-same S I _ w4)),
              λ stored_pw f. λ w5 seen5. (
                inl (ap exposed (throw_if-same S I _ _ _ w5)),
                λ _ g. λ w6 seen6. (
                  inl (ap exposed (get-same S I _ w6)),
                  λ pubkey h. λ w7 seen7. (
                    inl (ap exposed (throw_if-same S I _ _ _ w7)),
                    λ _ k.
                        let equal = same-not pw stored_pw (throw_if-ok S I _ _ _ w5 g) in
                        let right = get-ok S I _ w4 f ∙ ap some (sym equal) in
                        open_program-IsCareful _ _ u.id client (
                          login_vouches u pw client w2 o pubkey seen2 e right (get-ok S I _ w6 h)
                            (throw_if-ok S I _ _ _ w7 k)),
                  ),
                ),
              ),
            ),
          ),
        ),
      )

      pub program-IsCareful : (c : Call S I) → Careful c (program S I c)
      unfolding program echo register_program
      program-IsCareful (echoes t) = λ w seen. (inl refl, λ _ _. tt)
      program-IsCareful (registers u pw) = λ w1 seen1. (
        inl refl,
        λ _ _. λ w2 seen2. (
          inl refl,
          λ selected _. λ w3 seen3. (
            inl (ap exposed (throw_if-same S I _ _ _ w3)),
            λ _ _. λ w4 seen4. (inl refl, λ _ _. λ w5 seen5. (inl refl, λ _ _. tt)),
          ),
        ),
      )
      program-IsCareful (logs_in u pw client) =
          Growth.IsCareful-bind exposed Seen (Vouched (logs_in u pw client)) (λ _. Unit {0})
            (λ _. Unit {0}) (login_program S I u pw client) (λ _. ret tt)
            (login_program-IsCareful u pw client) (λ _ _. tt)
      program-IsCareful (requests x q) =
          λ w seen. (inl (ap I.exposed (handle-ice S I x q w)), λ _ _. tt)

  module _ (s : System (World S I)) where
    abbrev pub ServerRun : System (World S I) → Type 1
    ServerRun = Reach (Call S I) (program S I) s

    -- The sessions that the run has entered, in their order: each by a step of a thread whose last
    -- begun call vouches for it, by what held in worlds through which the run has come.
    abbrev pub Entered : {t : System (World S I)} → ServerRun t → List SessionImpl → Type 0
    Entered r xs =
        Growth.Entered (Call S I) (program S I) s
          (Vouched (λ w. Passed (Call S I) (program S I) s w r)) r xs

    -- From threads without a call, on a database and a server object that keep their laws, whatever
    -- calls the threads begin and however their steps mix: the exposed sessions are those from the
    -- beginning and then, in the order of the steps, sessions each of which was exposed by a step of
    -- a thread whose last begun call is a login that vouches for it. The session has the name of the
    -- user of that login and the key of a row that the SELECT may have returned in a world of the run;
    -- the password of the login is that of the row, and the key of its user does not differ; and a
    -- callback that was made for the client of the login in a world of the run answered "42" in a
    -- world of the run.
    pub interleaved-Vouched :
        {t : System (World S I)}
        → IsLawful S
        → Server.IsLawful I
        → ((i : ℕ) → HasEnded (s.threads i))
        → (r : ServerRun t)
        → (xs : List SessionImpl) × (I.exposed t.world.ice ≡ I.exposed s.world.ice ++ xs)
          × Entered r xs
    interleaved-Vouched L J idle r =
        let (xs, e, entered) =
          (Growth.Reach-Grows (Call S I) (program S I) s
            (Vouched (λ w. Passed (Call S I) (program S I) s w r)) exposed
            (λ w. Passed (Call S I) (program S I) s w r) idle
            (program-IsCareful (λ w. Passed (Call S I) (program S I) s w r) L J) r (λ w p. p)).0 in
        (xs, e, entered)
