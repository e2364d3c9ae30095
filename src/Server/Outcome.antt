-- ===== src/Server/Outcome.antt =====
-- How a call of the server relates to its contract on accounts.
use sepm_group.Prelude.{◌≡◌, ap, ◌⊎◌, inr, List, Text}
use sepm_group.Prelude.Effects.{Result, err}
use sepm_group.Sdc.{Exception, soci_error}
use sepm_group.Database.{Soci, OnlySoci}
use sepm_group.Database.Accounts.{Account}
use sepm_group.Database.Laws.{Represents, thrown}
use sepm_group.Server.{World, IceServerI}

-- A call does what the specification says, or an error of the database ends it with the accounts as
-- they were.
abbrev pub Refines :
    {S : Soci} {I : IceServerI} {A : Type 0}
    → Result Exception A × World S I
    → Result Exception A × List Account
    → List Account
    → Type 0
Refines {S} out spec us =
    ((out.0 ≡ spec.0) × Represents S out.1.db spec.1)
    ⊎ ((message : Text) × (out.0 ≡ err (soci_error message)) × Represents S out.1.db us)

-- An error of the database is passed on.
pub passed_on :
    (S : Soci) (I : IceServerI) {A B : Type 0} (spec : Result Exception B × List Account)
    (us : List Account) (w : World S I) (r : Result Exception A) (e : Exception)
    → OnlySoci r
    → r ≡ err e
    → Represents S w.db us
    → Refines (err e, w) spec us
passed_on S I spec us w r e t h rep =
    let (message, q) = thrown r e t h in inr (message, ap err q, rep)
