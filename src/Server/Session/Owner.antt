-- ===== src/Server/Session/Owner.antt =====
-- `deleteUser` of the own account over a database that does not fail.
use sepm_group.Prelude.{◌≡◌, refl, true, ◌++◌, codes, same}
use sepm_group.Prelude.Effects.{ok, ◌>>◌}
use sepm_group.Sdc.{User}
use sepm_group.Database.{Soci, IsReliable}
use sepm_group.Server.{IceServerI, account_name}
use sepm_group.Server.Session.{Self, delete_user, on_users, says}

module _ (S : Soci) (I : IceServerI) (R : IsReliable S) (u : User) (s : Self S I) where
  deleted :
      S.has_users s.world.db ≡ true
      → ((on_users S I (S.delete_user (account_name u.id))
            >> says S I (s.this.user.id ++ (codes " deleted account of " ++ u.id)))
          s).0
        ≡ ok tt
  deleted has = let (_, e) = R.delete s.world.db (account_name u.id) has in rw e refl

  pub delete_user-own :
      S.has_users s.world.db ≡ true
      → same u.id s.this.user.id ≡ true
      → (delete_user S I u s).0 ≡ ok tt
  unfolding delete_user
  delete_user-own has own = rw own (deleted has)
