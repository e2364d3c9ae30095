-- ===== src/Tests/Schedule.antt =====
-- Runs of the server's threads by a list that says whose turn it is.
use sepm_group.Prelude.{ℕ, List, [], ◌∷◌}
use sepm_group.Database.{Soci}
use sepm_group.Server.{World, IceServerI}
use sepm_group.Server.Interleaving.{next, update, System, moves, Reach, later}
use sepm_group.Server.Interleaving.Calls.{Call, program}

module _ {S : Soci} {I : IceServerI} where
  abbrev pub begin : ℕ → Call S I → System (World S I) → System (World S I)
  begin i c s = record s { threads = update i (program S I c) s }

  abbrev pub step : ℕ → System (World S I) → System (World S I)
  step i s = record {
    world = (next (s.threads i) s.world).1;
    threads = update i (next (s.threads i) s.world).0 s;
  }

  -- The steps of the threads, in the order of the list.
  abbrev pub steps : List ℕ → System (World S I) → System (World S I)
  steps [] s = s
  steps (i ∷ is) s = steps is (step i s)

  pub steps-Reach :
      (is : List ℕ) (start s : System (World S I))
      → Reach (Call S I) (program S I) start s
      → Reach (Call S I) (program S I) start (steps is s)
  steps-Reach [] start s r = r
  steps-Reach (i ∷ is) start s r = steps-Reach is start (step i s) (later r (moves i))
