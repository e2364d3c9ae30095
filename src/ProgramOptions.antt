-- ===== src/ProgramOptions.antt =====
-- What the two main functions are given: boost::program_options, which is not part of the repository,
-- and the setting of the process.
use sepm_group.Prelude.{◌≡◌, refl, ap, arith, ℕ, Option, List, Text}
use sepm_group.Logging.{Surroundings}
use sepm_group.Prelude.Effects.{Eff, Result, ok, err}
use sepm_group.Sdc.{Exception, option_error}

-- The names of an option and its description.
abbrev pub Options : Type 0
Options = List (Text × Text)

pub record ProgramOptions : Type 1 where
  pub VariablesMap : Type 0
  -- `parse_command_line`, `store` and `notify`, or what the exception says
  pub parse : Options → List Text → Result Text VariablesMap
  pub count : Text → VariablesMap → ℕ
  -- The text of a description.
  pub description : Options → Text

-- The clock, the environment, `__FILE__`, the main thread, and the one that gets a signal.
pub record Setting : Type 0 where
  pub surroundings : Surroundings
  pub getenv : Text → Option Text
  pub file : Text
  pub main_thread : ℕ
  pub signal_thread : ℕ

module _ (O : ProgramOptions) {S : Type 0} where
  abbrev parsed : Result Text O.VariablesMap → S → Result Exception O.VariablesMap × S
  parsed (ok vm) s = (ok vm, s)
  parsed (err what) s = (err (option_error what), s)

  abbrev pub parse_args : Options → List Text → Eff S Exception O.VariablesMap
  parse_args desc args = parsed (O.parse desc args)

  parsed_ok :
      (r : Result Text O.VariablesMap) (s : S) (vm : O.VariablesMap)
      → (parsed r s).0 ≡ ok vm
      → (r ≡ ok vm) × ((parsed r s).1 ≡ s)
  parsed_ok (ok _) s vm e = (ground (arith, e), refl)
  parsed_ok (err _) s vm e = absurd (ground (arith, e))

  -- Options that could be read, and nothing else.
  pub parse_args_ok :
      (desc : Options) (args : List Text) (s : S) (vm : O.VariablesMap)
      → (parse_args desc args s).0 ≡ ok vm
      → (O.parse desc args ≡ ok vm) × ((parse_args desc args s).1 ≡ s)
  parse_args_ok desc args s vm e = parsed_ok (O.parse desc args) s vm e

  parsed_err :
      (r : Result Text O.VariablesMap) (s : S) (e : Exception)
      → (parsed r s).0 ≡ err e
      → (what : Text) × (e ≡ option_error what)
  parsed_err (ok _) s e h = absurd (ground (arith, h))
  parsed_err (err what) s e h = (what, ground (arith, h))

  pub parse_args_err :
      (desc : Options) (args : List Text) (s : S) (e : Exception)
      → (parse_args desc args s).0 ≡ err e
      → (what : Text) × (e ≡ option_error what)
  parse_args_err desc args s e h = parsed_err (O.parse desc args) s e h

  pub parse_args_read :
      (desc : Options) (args : List Text) (s : S) (vm : O.VariablesMap)
      → O.parse desc args ≡ ok vm
      → parse_args desc args s ≡ (ok vm, s)
  parse_args_read desc args s vm e = ap (λ r. parsed r s) e
