-- ===== src/Server/Interleaving/Defined.antt =====
-- No call of the server reads a column that is NULL, while its threads run calls at once.
use sepm_group.Prelude.{ℕ, ◌≡◌, ◌≢◌, refl, sym, subst, Text, codes, arith}
use sepm_group.Prelude.Effects.{err}
use sepm_group.Sdc.{User, Exception, undefined}
use sepm_group.Database.{Soci, IsLawful}
use sepm_group.Database.Complete.{create-IsComplete, select-IsComplete, insert-IsComplete}
use sepm_group.Server.{World, IceServerI, Client, account_name, session_impl}
use sepm_group.Server.Authentication.{echo}
use sepm_group.Server.Steps.{throw_if-same, throw_if-ok, get-same}
use sepm_group.Server.Throws.{ThrowsOnlyIce, session_throws}
use sepm_group.Server.Throws.Calls.{handle-Declared}
use sepm_group.Server.Interleaving.{ret, raise, System, Reach}
use sepm_group.Server.Interleaving.Calls.{
  ServerProgram, Call, echoes, registers, logs_in, requests, program, register_program,
  open_program, login_program,
}
use sepm_group.Server.Interleaving.Safety
use sepm_group.Server.Interleaving.Columns.{
  Fine, soci-Fine, ice-Fine, columns, Inv, throw_if-Fine, get-Fine, found, handled-db,
  answered-Fine,
}

module _ (S : Soci) (I : IceServerI) (L : IsLawful S) where
  module _ (T : ThrowsOnlyIce I)
      (client_Fine : (c : I.Callback) (t : Text) (s : I.State) (e : Exception)
        → (I.echo c t s).0 ≡ err e
        → Fine e) where
    abbrev Safe : {A : Type 0} → ServerProgram S I A → Type 0
    Safe = Safety.IsSafe (Inv S I L) Fine

    open_program-Safe :
        (user : User) (id : Text) (client : Client I) → Safe (open_program S I user id client)
    unfolding open_program
    open_program-Safe user id client = λ w1 h1. (
      h1,
      λ c _. λ w2 h2. (
        h2,
        λ answer _. λ w3 h3. (
          subst (Inv S I L) (sym (throw_if-same S I _ _ _ w3)) h3,
          λ _ _. λ w4 h4. (
            h4,
            λ _ _. λ w5 h5. (
              h5,
              λ proxy _.
                  λ w6 h6. (h6, λ _ _. tt, λ e. ice-Fine _ e (T.checked_cast-throws proxy w6.ice)),
              λ e. ice-Fine _ e (T.expose_object-throws (session_impl user) w5.ice),
            ),
            λ e f u. ground (arith, f),
          ),
          throw_if-Fine S I L _ _ _ w3,
        ),
        λ e. client_Fine c (codes "42") w2.ice e,
      ),
      λ e. ice-Fine _ e (T.callback_for_id-throws client w1.ice),
    )

    login_program-Safe :
        (u : User) (pw : Text) (client : Client I) → Safe (login_program S I u pw client)
    unfolding login_program
    login_program-Safe u pw client = λ w1 h1. (
      create-IsComplete S L w1.db h1,
      λ _ _. λ w2 h2. (
        select-IsComplete S L w2.db (account_name u.id) h2,
        λ o e. λ w3 h3. (
          subst (Inv S I L) (sym (throw_if-same S I _ _ _ w3)) h3,
          λ _ known.
              let ((_, pw_there), (_, key_there)) =
                columns o (found S I L w2.db _ o h2 e) (throw_if-ok S I _ _ _ w3 known) in
              λ w4 h4. (
                subst (Inv S I L) (sym (get-same S I _ w4)) h4,
                λ stored_pw _. λ w5 h5. (
                  subst (Inv S I L) (sym (throw_if-same S I _ _ _ w5)) h5,
                  λ _ _. λ w6 h6. (
                    subst (Inv S I L) (sym (get-same S I _ w6)) h6,
                    λ pubkey _. λ w7 h7. (
                      subst (Inv S I L) (sym (throw_if-same S I _ _ _ w7)) h7,
                      λ _ _. open_program-Safe _ u.id client,
                      throw_if-Fine S I L _ _ _ w7,
                    ),
                    λ x. get-Fine S I L _ w6 x key_there,
                  ),
                  throw_if-Fine S I L _ _ _ w5,
                ),
                λ x. get-Fine S I L _ w4 x pw_there,
              ),
          throw_if-Fine S I L _ _ _ w3,
        ),
        λ x. soci-Fine _ x (L.select-throws w2.db (account_name u.id)),
      ),
      λ x. soci-Fine _ x (L.create-throws w1.db),
    )

    register_program-Safe : (u : User) (pw : Text) → Safe (register_program S I u pw)
    unfolding register_program
    register_program-Safe u pw = λ w1 h1. (
      create-IsComplete S L w1.db h1,
      λ _ _. λ w2 h2. (
        select-IsComplete S L w2.db (account_name u.id) h2,
        λ o _. λ w3 h3. (
          subst (Inv S I L) (sym (throw_if-same S I _ _ _ w3)) h3,
          λ _ _. λ w4 h4. (
            insert-IsComplete S L w4.db _ pw u.public_key h4,
            λ _ _. λ w5 h5. (h5, λ _ _. tt, λ x f v. ground (arith, f)),
            λ x. soci-Fine _ x (L.insert-throws w4.db (account_name u.id) pw u.public_key),
          ),
          throw_if-Fine S I L _ _ _ w3,
        ),
        λ x. soci-Fine _ x (L.select-throws w2.db (account_name u.id)),
      ),
      λ x. soci-Fine _ x (L.create-throws w1.db),
    )

    program-Safe : (c : Call S I) → Safe (program S I c)
    unfolding program echo
    program-Safe (echoes t) = λ w h. (h, λ _ _. tt, λ x f v. ground (arith, f))
    program-Safe (registers u pw) = register_program-Safe u pw
    program-Safe (logs_in u pw client) =
        Safety.IsSafe-bind (Inv S I L) Fine (login_program S I u pw client) (λ _. ret tt)
          (login_program-Safe u pw client) (λ _. tt)
    program-Safe (requests x q) = λ w h. (
      handled-db S I L q (record { this = x; world = w }) h,
      λ _ _. tt,
      λ e.
          answered-Fine S I L (session_throws q) _ e
            (handle-Declared S I L T q (record { this = x; world = w })),
    )

    -- On a database that keeps its laws and whose rows have no NULL, with a server object that
    -- throws nothing but errors of Ice and clients that have no undefined behaviour, whatever calls the
    -- threads begin and however their steps mix: no row has a NULL column, and no call has read an
    -- empty optional, or ended otherwise by undefined behaviour.
    pub interleaved-Fine :
        (s : System (World S I)) {t : System (World S I)}
        → ((i : ℕ) → s.threads i ≡ ret tt)
        → Inv S I L s.world
        → Reach (Call S I) (program S I) s t
        → Inv S I L t.world × ((i : ℕ) → t.threads i ≢ raise undefined)
    interleaved-Fine s {t} idle complete r =
        let (kept, safe) =
          Safety.Reach-IsSafe (Inv S I L) Fine (Call S I) (program S I) s idle program-Safe complete
            r in
        (kept, λ i e. subst Safe e (safe i) refl)
