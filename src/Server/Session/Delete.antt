-- ===== src/Server/Session/Delete.antt =====
-- `deleteUser`: a session deletes the account of its own ID, and no other.
use sepm_group.Prelude.{
  ◌≡◌, refl, ap, ◌⊎◌, inl, inr, true, Bool-cases, List, ◌++◌, Text, codes, same, same_iff,
  if◌then◌else◌, arith,
}
use sepm_group.Prelude.Effects.{Result, ok, err, ◌>>◌, bind_cases}
use sepm_group.SdcHelper.{is_valid_id}
use sepm_group.SdcHelper.Ids.{is_valid_id-get_name_from_id}
use sepm_group.Sdc.{User, Exception, sdc, soci_error, user_handling}
use sepm_group.Database.{Soci, IsLawful, OnlySoci}
use sepm_group.Database.Accounts.{Account, remove}
use sepm_group.Database.Laws.{Represents, delete-Represents}
use sepm_group.Server.{IceServerI, account_name}
use sepm_group.Server.Session.{Self, delete_user, on_users, says, unknown_id}

abbrev pub not_permitted : Exception
not_permitted = sdc user_handling (codes "deleting other users is not permitted")

-- The contract of a session whose user has the ID `me`.
abbrev pub delete_spec : Text → User → List Account → Result Exception (Unit {0}) × List Account
delete_spec me u us =
    if same u.id me then (ok tt, remove (account_name u.id) us) else (err not_permitted, us)

module _ (S : Soci) (I : IceServerI) where
  -- The call does what the specification says, or it reports the failure of the statement as an unknown
  -- ID, with the accounts as they were. The session itself stays as it is.
  abbrev pub Deletes :
      Result Exception (Unit {0}) × Self S I → Self S I → User → List Account → Type 0
  Deletes out s u us =
      (((out.0 ≡ (delete_spec s.this.user.id u us).0)
          × Represents S out.1.world.db (delete_spec s.this.user.id u us).1)
        ⊎ ((out.0 ≡ err (sdc user_handling (codes "unknown ID"))) × Represents S out.1.world.db us))
      × (out.1.this ≡ s.this)

  unknown_id-ok : (r : Result Exception (Unit {0})) → unknown_id r ≡ ok tt → r ≡ ok tt
  unknown_id-ok (ok tt) h = refl
  unknown_id-ok (err (soci_error m)) h = absurd (ground arith)
  unknown_id-ok (err x) h = absurd (ground arith)

  unknown_id-err :
      (r : Result Exception (Unit {0})) (e : Exception)
      → OnlySoci r
      → unknown_id r ≡ err e
      → (x : Exception) × (r ≡ err x) × (e ≡ sdc user_handling (codes "unknown ID"))
  unknown_id-err (ok tt) e t h = absurd (ground arith)
  unknown_id-err (err x) e (m, t) h = (x, refl, ground (arith, t))

  module _ (L : IsLawful S) (u : User) (us : List Account) (s : Self S I) where
    own_account :
        Represents S s.world.db us
        → let out =
            (on_users S I (S.delete_user (account_name u.id))
                >> says S I (s.this.user.id ++ (codes " deleted account of " ++ u.id)))
              s in
          (((out.0 ≡ ok tt) × Represents S out.1.world.db (remove (account_name u.id) us))
            ⊎ ((out.0 ≡ err (sdc user_handling (codes "unknown ID")))
                × Represents S out.1.world.db us))
          × (out.1.this ≡ s.this)
    own_account rep =
        bind_cases P (on_users S I (S.delete_user (account_name u.id))) _ s
          (λ _ p. (inl (refl, delete-Represents S L us s.world.db _ (unknown_id-ok _ p) rep), refl))
          (λ e p.
            let (x, q, r) = unknown_id-err _ e (L.delete-throws s.world.db _) p in
            (inr (ap err r, delete-Represents S L us s.world.db _ q rep), refl))
      where
        P : Result Exception (Unit {0}) × Self S I → Type 0
        P out =
            (((out.0 ≡ ok tt) × Represents S out.1.world.db (remove (account_name u.id) us))
              ⊎ ((out.0 ≡ err (sdc user_handling (codes "unknown ID")))
                  × Represents S out.1.world.db us))
            × (out.1.this ≡ s.this)

    -- A session deletes the account of its own ID and refuses every other ID; a failed statement is
    -- reported as an unknown ID, and then no account has changed.
    pub delete_user-Deletes : Represents S s.world.db us → Deletes (delete_user S I u s) s u us
    unfolding delete_user
    delete_user-Deletes rep = elim (Bool-cases (same u.id s.this.user.id)) [
      | inr other ↦ rw other (inl (refl, rep), refl)
      | inl own ↦ rw own (own_account rep)
    ]

    abbrev Handled : Result Exception (Unit {0}) × Self S I → Type 0
    Handled out = (x : Exception) → out.0 ≡ err x → (what : Text) × (x ≡ sdc user_handling what)

    own_account-Handled : Handled (
        (on_users S I (S.delete_user (account_name u.id))
            >> says S I (s.this.user.id ++ (codes " deleted account of " ++ u.id)))
          s)
    own_account-Handled =
        bind_cases Handled (on_users S I (S.delete_user (account_name u.id))) _ s
          (λ _ _ x h. absurd (ground (arith, h)))
          (λ e f x h.
            let (_, _, unknown) = unknown_id-err _ e (L.delete-throws s.world.db _) f in
            (codes "unknown ID", ground (arith, unknown, h)))

    -- Whatever `deleteUser` throws is a UserHandlingException.
    pub delete_user-Handled : Handled (delete_user S I u s)
    unfolding delete_user
    delete_user-Handled = elim (Bool-cases (same u.id s.this.user.id)) [
      | inr other ↦
          rw other (λ x h. (codes "deleting other users is not permitted", ground (arith, h)))
      | inl own ↦ rw own own_account-Handled
    ]

  -- A session made by a login has the bare name for its ID, so it refuses to delete its own account by
  -- the full ID `name@server` with which the user registered and logged in.
  pub delete_user_full_id :
      (u : User) (s : Self S I)
      → is_valid_id u.id ≡ true
      → s.this.user.id ≡ account_name u.id
      → delete_user S I u s ≡ (err not_permitted, s)
  unfolding delete_user account_name
  delete_user_full_id u s v e = elim (Bool-cases (same u.id s.this.user.id)) [
    | inr other ↦ rw other
    | inl own ↦
        absurd (
          ground
            (arith, (same_iff u.id s.this.user.id).0 own, e, is_valid_id-get_name_from_id u.id))
  ]
