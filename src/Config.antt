-- ===== src/Config.antt =====
-- common/config.h and common/config.cpp. The environment is what `getenv` gives of a variable.
use sepm_group.Prelude.{
  ◌≡◌, ◌≢◌, refl, ap, sym, ◌∙◌, true, false, Option, none, some, Text, codes, same, same_iff,
  Bool-cases, inl, inr, [], ◌∷◌,
}
use sepm_group.Prelude.Effects.{Eff, Result, ok}
use sepm_group.Sdc.{Exception}

abbrev pub db_user : Text
db_user = codes "grp_4"

abbrev pub db_pass : Text
db_pass = codes "18fef7c7-f606-4d19-87a8-d6697d28efd7"

-- `Config::_hostname` before its first use.
abbrev pub initial : Text
initial = []

-- `host_env ? host_env : "localhost"`
abbrev pub host_or_default : Option Text → Text
host_or_default (some host_env) = host_env
host_or_default none = codes "localhost"

-- `Config::hostname()`, on the static member.
unfoldable pub hostname : (Text → Option Text) → Eff Text Exception Text
hostname getenv _hostname = elim (same _hostname []) [
  | true ↦ (
    ok (host_or_default (getenv (codes "SEPM_HOSTNAME"))),
    host_or_default (getenv (codes "SEPM_HOSTNAME")),
  )
  | false ↦ (ok _hostname, _hostname)
]

-- `Config::hostname(string h)`
unfoldable pub set_hostname : Text → Eff Text Exception (Unit {0})
set_hostname h _hostname = (ok tt, h)

host_or_default-filled :
    (host_env : Option Text) → host_env ≢ some [] → same (host_or_default host_env) [] ≡ false
unfolding same
host_or_default-filled none h = refl
host_or_default-filled (some []) h = absurd (h refl)
host_or_default-filled (some (c ∷ t)) h = refl

hostname-keeps :
    (getenv : Text → Option Text) (h : Text) → same h [] ≡ false → hostname getenv h ≡ (ok h, h)
unfolding hostname
hostname-keeps getenv h e = rw (hostname, e) refl

hostname-fills :
    (getenv : Text → Option Text) (h : Text)
    → same h [] ≡ true
    → hostname getenv h ≡ (
      ok (host_or_default (getenv (codes "SEPM_HOSTNAME"))),
      host_or_default (getenv (codes "SEPM_HOSTNAME")),
    )
unfolding hostname
hostname-fills getenv h e = rw (hostname, e) refl

again :
    (getenv' : Text → Option Text) (r : Result Exception Text × Text) (v : Text)
    → r ≡ (ok v, v)
    → same v [] ≡ false
    → hostname getenv' r.1 ≡ r
again getenv' r v e filled =
    ap (λ (o : Result Exception Text × Text). hostname getenv' o.1) e
    ∙ hostname-keeps getenv' v filled
    ∙ sym e

-- Unless the variable SEPM_HOSTNAME is set to the empty text, a second call of `hostname` gives what
-- the first one gave and changes nothing, whatever the environment has become.
pub hostname-hostname :
    (getenv getenv' : Text → Option Text) (h : Text)
    → getenv (codes "SEPM_HOSTNAME") ≢ some []
    → hostname getenv' (hostname getenv h).1 ≡ hostname getenv h
hostname-hostname getenv getenv' h filled = elim (Bool-cases (same h [])) [
  | inl e ↦
      again getenv' (hostname getenv h) _ (hostname-fills getenv h e)
        (host_or_default-filled (getenv (codes "SEPM_HOSTNAME")) filled)
  | inr e ↦ again getenv' (hostname getenv h) h (hostname-keeps getenv h e) e
]

-- A host name that was set is the one that is given, unless it is empty.
pub hostname-set_hostname :
    (getenv : Text → Option Text) (h old : Text)
    → h ≢ []
    → hostname getenv (set_hostname h old).1 ≡ (ok h, h)
unfolding set_hostname
hostname-set_hostname getenv h old filled = elim (Bool-cases (same h [])) [
  | inl e ↦ absurd (filled ((same_iff h []).0 e))
  | inr e ↦ hostname-keeps getenv h e
]
