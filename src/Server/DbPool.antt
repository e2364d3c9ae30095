-- ===== src/Server/DbPool.antt =====
-- common/DBPool.h and common/DBPool.cpp. The connection pool of SOCI belongs to the run time.
use sepm_group.Prelude.{
  ℕ, zero, suc, ◌≡◌, sym, ap, ◌∙◌, List, [], ◌∷◌, ◌++◌, Text, codes, append-nil, append_assoc,
  arith,
}
use sepm_group.Prelude.Effects.{Eff, ok, bind_cases, ◌>>◌, pure}
use sepm_group.Sdc.{Exception}
use sepm_group.Server.Runtime.{Runtime, IsRuntime}

-- The member `pool_size`; the pool itself is in the run time.
pub record DbPool : Type 0 where
  pub pool_size : ℕ

abbrev pub connection : Text → Text
connection db_name = codes "sqlite3://dbname=" ++ db_name

module _ (R : Runtime) where
  -- `for(size_t i = …; i < pool_size; ++i)`, with `left` turns to go.
  unfoldable pub open_sessions : ℕ → ℕ → Text → Eff R.State Exception (Unit {0})
  open_sessions zero i db_name = pure tt
  open_sessions (suc left) i db_name = do
    R.open_session i (connection db_name)
    open_sessions left (suc i) db_name

  -- The constructor.
  unfoldable pub db_pool : Text → ℕ → Eff R.State Exception DbPool
  db_pool db_name size = do open_sessions size 0 db_name; pure (record { pool_size = size })

  unfoldable pub test_pool : Eff R.State Exception DbPool
  test_pool = db_pool (codes ":memory:") 1

  unfoldable pub prod_pool : Eff R.State Exception DbPool
  prod_pool = db_pool (codes "mydb") 10

  -- The sessions `i`, `i + 1`, … of a pool, each with its connection.
  abbrev pub connections : ℕ → ℕ → Text → List (ℕ × Text)
  connections zero i db_name = []
  connections (suc left) i db_name = (i, connection db_name) ∷ connections left (suc i) db_name

  module _ (L : IsRuntime R) where
    open_sessions-opened :
        (left i : ℕ) (db_name : Text) (s : R.State)
        → (open_sessions left i db_name s).0 ≡ ok tt
        → R.opened (open_sessions left i db_name s).1 ≡ R.opened s ++ connections left i db_name
    unfolding open_sessions
    open_sessions-opened zero i db_name s h = sym (append-nil (R.opened s))
    open_sessions-opened (suc left) i db_name s h =
        bind_cases
          (λ out. out.0 ≡ ok tt → R.opened out.1 ≡ R.opened s ++ connections (suc left) i db_name)
          (R.open_session i (connection db_name)) (λ _. open_sessions left (suc i) db_name) s
          (λ _ e h.
            open_sessions-opened left (suc i) db_name (R.open_session i (connection db_name) s).1 h
            ∙ ap (λ t. t ++ connections left (suc i) db_name)
                (L.opened-open_session i (connection db_name) s e)
            ∙ append_assoc (R.opened s) ((i, connection db_name) ∷ [])
                (connections left (suc i) db_name))
          (λ x _ h. absurd (ground (arith, h))) h

    -- A pool that was made has every session open, in order and on the one database.
    pub db_pool-opened :
        (db_name : Text) (size : ℕ) (s : R.State) (p : DbPool)
        → (db_pool db_name size s).0 ≡ ok p
        → (p.pool_size ≡ size)
          × (R.opened (db_pool db_name size s).1 ≡ R.opened s ++ connections size 0 db_name)
    unfolding db_pool
    db_pool-opened db_name size s p =
        bind_cases
          (λ out.
            out.0 ≡ ok p
            → (p.pool_size ≡ size) × (R.opened out.1 ≡ R.opened s ++ connections size 0 db_name))
          (open_sessions size 0 db_name) _ s
          (λ _ e h. (ground (arith, h), open_sessions-opened size 0 db_name s e))
          (λ x _ h. absurd (ground (arith, h)))
