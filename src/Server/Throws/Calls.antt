-- ===== src/Server/Throws/Calls.antt =====
-- What the calls of the server throw.
use mathlib.Core.List.{Memᴰ}
use sepm_group.Prelude.{
  ◌≡◌, subst, refl, sym, ap, ◌∙◌, ◌⊎◌, inl, inr, Bool-cases, Option, none, some, List, [], ◌∷◌,
  Text, codes, same, arith,
}
use sepm_group.Prelude.Effects.{Result, ok, err, bind_cases}
use sepm_group.Sdc.{
  User, Exception, SdcException, same_type, sdc, ice_exception, authentication, user_handling,
}
use sepm_group.Database.{Soci, IsLawful}
use sepm_group.Database.Accounts.{Account, find}
use sepm_group.Database.Laws.{Represents}
use sepm_group.Server.{World, IceServerI, Client, session_impl, account_name, on_ice}
use sepm_group.Server.Authentication.{echo, key_differs, open_session, login, register_user}
use sepm_group.Server.Authentication.Login.{credentials, Decides, DatabaseFails, login-Decides}
use sepm_group.Server.Authentication.Register.{register_found, register_user-Refines}
use sepm_group.Server.Session.{Self, delete_user}
use sepm_group.Server.Session.Delete.{delete_user-Handled}
use sepm_group.Server.Session.Requests.{Request, Response, handle, deletes_user}
use sepm_group.Server.System.{HasAccounts}
use sepm_group.Server.Interleaving.Calls.{
  Call, echoes, registers, logs_in, requests, answered, whole,
}
use sepm_group.Server.Throws.{
  session_throws, Declared, OnlyIce, only_ice, ThrowsOnlyIce, ThrownByClient, Explained, declared,
  by_database, by_ice, by_client,
}

err_injective :
    {A : Type 0} {e x : Exception} → ◌≡◌ {A = Result Exception A} (err e) (err x) → e ≡ x
err_injective h = ground (arith, h)

by_type : (d : SdcException) (what : Text) (x : Exception) → sdc d what ≡ x → Declared (d ∷ []) x
by_type d what x h = (d, d, what, Memᴰ.head refl, same_type, sym h)

module _ (S : Soci) (I : IceServerI) where
  module _ (L : IsLawful S) (T : ThrowsOnlyIce I) where
    -- A session request throws only what its `throws` clause declares.
    pub handle-Declared :
        (q : Request) (s : Self S I) (x : Exception)
        → (handle S I q s).0 ≡ err x
        → Declared (session_throws q) x
    unfolding handle
    handle-Declared (deletes_user u) s x h =
        bind_cases
          (λ out. (x : Exception) → out.0 ≡ err x → Declared (session_throws (deletes_user u)) x)
          (delete_user S I u) _ s (λ _ _ x h. absurd (ground (arith, h)))
          (λ e f x h.
            let (what, thrown_so) = delete_user-Handled S I L u [] s e f in
            by_type user_handling what x (sym thrown_so ∙ err_injective h))
          x h
    handle-Declared _ s x h = absurd (ground (arith, h))

    abbrev Opening : Client I → I.State → Exception → Type 0
    Opening client s x =
        Declared (authentication ∷ []) x
        ⊎ (((what : Text) × (x ≡ ice_exception what)) ⊎ ThrownByClient S I client s x)

    module _ (user : User) (id : Text) (client : Client I) (v : World S I) where
      abbrev OpeningThrows : Result Exception I.Proxy × World S I → Type 0
      OpeningThrows out = (x : Exception) → out.0 ≡ err x → Opening client v.ice x

      ice_throws :
          {A B : Type 0} (r : Result Exception A) (e x : Exception)
          → OnlyIce r
          → r ≡ err e
          → ◌≡◌ {A = Result Exception B} (err e) (err x)
          → Opening client v.ice x
      ice_throws r e x t f h =
          let (what, thrown_by_ice) = only_ice r e t f in
          inr (inl (what, sym (err_injective h) ∙ thrown_by_ice))

      open_session-Opening : OpeningThrows (open_session S I user id client v)
      unfolding open_session
      open_session-Opening =
          bind_cases OpeningThrows (on_ice (I.callback_for_id client)) _ v
            (λ c f.
              bind_cases OpeningThrows (on_ice (I.echo c (codes "42"))) _ _
                (λ r g. elim (Bool-cases (same r (codes "42"))) [
                  | inr no_echo ↦
                      rw no_echo (λ x h. inl (by_type authentication _ x (err_injective h)))
                  | inl heard ↦ rw heard (
                      bind_cases OpeningThrows (on_ice (I.expose_object (session_impl user))) _ _
                        (λ p _ x h. inr (inl (only_ice _ x (T.checked_cast-throws p _) h)))
                        (λ e k x h. ice_throws _ e x (T.expose_object-throws _ _) k h))
                ])
                (λ e g x h. inr (inr (c, f, g ∙ ap err (err_injective h)))))
            (λ e f x h. ice_throws _ e x (T.callback_for_id-throws client v.ice) f h)

    refused-Declared :
        (u : User) (pw : Text) (found : Option Account) (e : Exception)
        → credentials u pw found ≡ err e
        → Declared (authentication ∷ []) e
    refused-Declared u pw none e h = by_type authentication _ e (err_injective h)
    refused-Declared u pw (some a) e h = elim (Bool-cases (same pw a.password)) [
      | inr f ↦ by_type authentication (codes "invalid password") e (ground (arith, f, h))
      | inl f ↦ elim (Bool-cases (key_differs u.public_key a.public_key)) [
        | inl g ↦
            by_type authentication (codes "public key can't change") e (ground (arith, f, g, h))
        | inr g ↦ absurd (ground (arith, f, g, h))
      ]
    ]

    module _ (u : User) (pw : Text) (client : Client I) (us : List Account) (w : World S I) where
      opened-Explained :
          (x : Exception) → Opening client w.ice x → Explained S I (logs_in u pw client) w x
      opened-Explained x (inl d) = declared d
      opened-Explained x (inr (inl (what, h))) = by_ice what h
      opened-Explained x (inr (inr h)) = by_client u pw client refl h

      decided-Explained :
          (out : Result Exception I.Proxy × World S I) (c : Result Exception User) (x : Exception)
          → credentials u pw (find (account_name u.id) us) ≡ c
          → Decides S I out c w us u.id client
          → out.0 ≡ err x
          → Explained S I (logs_in u pw client) w x
      decided-Explained out (err e) x r (refused, _) h =
          declared (refused-Declared u pw _ x (r ∙ ap err (err_injective (sym refused ∙ h))))
      decided-Explained out (ok user) x r (v, (_, ice, _), e) h =
          let thrown_there = ap (λ (o : Result Exception I.Proxy × World S I). o.0) (sym e) ∙ h in
          opened-Explained x (
            subst (λ (s : I.State). Opening client s x) ice
              (open_session-Opening user u.id client v x thrown_there))

      login-Explained :
          (x : Exception)
          → Represents S w.db us
          → (login S I u pw client w).0 ≡ err x
          → Explained S I (logs_in u pw client) w x
      login-Explained x rep h = elim (login-Decides S I L u pw client us w rep) [
        | inl d ↦ decided-Explained _ _ x refl d h
        | inr (what, e, _) ↦ by_database what (err_injective (sym h ∙ e))
      ]

    registered-Explained :
        (u : User) (pw : Text) (w : World S I) (us : List Account) (found : Option Account)
        (x : Exception)
        → err x ≡ (register_found u pw us found).0
        → Explained S I (registers u pw) w x
    registered-Explained u pw w us none x h = absurd (ground (arith, h))
    registered-Explained u pw w us (some a) x h =
        declared (by_type authentication _ x (sym (err_injective h)))

    register_user-Explained :
        (u : User) (pw : Text) (w : World S I) (us : List Account) (x : Exception)
        → Represents S w.db us
        → (register_user S I u pw w).0 ≡ err x
        → Explained S I (registers u pw) w x
    register_user-Explained u pw w us x rep h = elim (register_user-Refines S I L u pw w us rep) [
      | inl (e, _) ↦ registered-Explained u pw w us _ x (sym h ∙ e)
      | inr (what, e, _) ↦ by_database what (err_injective (sym h ∙ e))
    ]

    answered-err :
        (r : Result Exception Response) (x : Exception) → answered S I r ≡ err x → r ≡ err x
    answered-err (ok a) x h = absurd (ground (arith, h))
    answered-err (err e) x h = ap err (err_injective h)

    -- What a call throws, from a table that is a list of accounts, on a database that keeps its laws
    -- and a server object that throws nothing but errors of Ice: an exception that the `throws` clause
    -- of the operation declares, or an error of the database or of Ice, or, when a login calls the
    -- client's own `echo`, the exception that the client threw from it.
    pub whole-Explained :
        (c : Call S I) (w : World S I) (x : Exception)
        → HasAccounts S I w
        → (whole S I c w).0 ≡ err x
        → Explained S I c w x
    unfolding echo
    whole-Explained (echoes s) w x rep h = absurd (ground (arith, h))
    whole-Explained (registers u pw) w x (us, rep) h = register_user-Explained u pw w us x rep h
    whole-Explained (logs_in u pw client) w x (us, rep) h =
        bind_cases
          (λ out. (x : Exception) → out.0 ≡ err x → Explained S I (logs_in u pw client) w x)
          (login S I u pw client) _ w (λ _ _ x h. absurd (ground (arith, h)))
          (λ e f x h. login-Explained u pw client us w x rep (f ∙ ap err (err_injective h))) x h
    whole-Explained (requests x q) w e rep h =
        declared (handle-Declared q (record { this = x; world = w }) e (answered-err _ e h))

  module _ (L : IsLawful S) (u : User) (pw : Text) (client : Client I) where
    open_session-thrown :
        (user : User) (v : World S I) (callback : I.Callback) (x : Exception)
        → (I.callback_for_id client v.ice).0 ≡ ok callback
        → (I.echo callback (codes "42") (I.callback_for_id client v.ice).1).0 ≡ err x
        → (open_session S I user u.id client v).0 ≡ err x
    unfolding open_session
    open_session-thrown user v callback x f g = rw f (rw g refl)

    -- What a recognised user's callback throws from `echo`, `login` throws as well, whether or not it
    -- is declared, unless the database fails first.
    pub login-thrown :
        (w : World S I) (us : List Account) (user : User) (callback : I.Callback) (x : Exception)
        → Represents S w.db us
        → credentials u pw (find (account_name u.id) us) ≡ ok user
        → (I.callback_for_id client w.ice).0 ≡ ok callback
        → (I.echo callback (codes "42") (I.callback_for_id client w.ice).1).0 ≡ err x
        → ((login S I u pw client w).0 ≡ err x) ⊎ DatabaseFails S I (login S I u pw client w) w us
    login-thrown w us user callback x rep r f g = elim (login-Decides S I L u pw client us w rep) [
      | inr fails ↦ inr fails
      | inl d ↦
          let (v, (_, ice, _), e) =
            subst (λ c. Decides S I (login S I u pw client w) c w us u.id client) r d in
          inl (
            ap (λ (o : Result Exception I.Proxy × World S I). o.0) e
            ∙ open_session-thrown user v callback x (rw ice f) (rw ice g))
    ]
