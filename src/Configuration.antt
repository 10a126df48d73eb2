-- ===== src/Configuration.antt =====
-- xdp-natd/src/configuration: the structures, the environment, and get_configuration over the library
-- that reads and merges the sources.
use Prim.Native.String.{String}
use text.Mathlib.Text.{◌==◌}
use xdp_natd.Base.{
  ℕ, ◌≡◌, refl, Result, ok, err, ◌>>=◌, or_err, Option, none, some, List, [], ◌∷◌, if◌then◌else◌,
}
use xdp_natd.Texts.Lower.{to_lowercase}

pub record ApplicationConfiguration : Type 0 where
  pub host : String
  pub port : ℕ
  pub prefix : String
  pub logger_name : String
  pub default_env_filter : String

pub record DataPlaneConfiguration : Type 0 where
  pub network : String
  pub mode : String
  pub pnic : Option String

pub record Configuration : Type 0 where
  pub control_plane : ApplicationConfiguration
  pub data_plane : DataPlaneConfiguration

pub data Environment : Type 0 where
  local production : Environment

abbrev pub as_str : Environment → String
as_str local = "local"
as_str production = "production"

-- `Environment::try_from`; an error has the name that is not supported.
pub try_from : String → Result Environment String
try_from value =
    let name = to_lowercase value in
    if name == "local" then ok local else if name == "production" then ok production else err name

pub data ConfigError : Type 0 where
  not_built not_deserialized : ConfigError
  -- A panic: APP_ENV has a name that is not supported.
  not_an_environment : String → ConfigError

-- The library config: its sources, the configuration that it builds of them, a later one before an
-- earlier one, and what it makes of that. `app_env` is the variable APP_ENV.
pub record Sources (F C : Type 0) : Type 0 where
  pub app_env : Option String
  pub file : String → F
  pub environment : String → String → F
  pub build : List F → Option C
  pub try_deserialize : C → Option Configuration

abbrev app_environment : Option String → String
app_environment none = "local"
app_environment (some name) = name

abbrev unsupported : Result Environment String → Result Environment ConfigError
unsupported (ok e) = ok e
unsupported (err name) = err (not_an_environment name)

pub get_configuration : {F C : Type 0} → Sources F C → Result Configuration ConfigError
unfolding try_from
get_configuration sources = do
  environment ← unsupported (try_from (app_environment sources.app_env))
  config ← or_err not_built (
      sources.build (
        sources.file "base"
        ∷ sources.file (as_str environment)
        ∷ sources.environment "app" "__"
        ∷ []))
  or_err not_deserialized (sources.try_deserialize config)

-- Every environment is found by its name, however that is capitalised.
try_from-as_str :
    (e : Environment) (value : String) → to_lowercase value ≡ as_str e → try_from value ≡ ok e
unfolding try_from
try_from-as_str local value same = rw same refl
try_from-as_str production value same = rw same refl

production_name : try_from "Production" ≡ ok production
unfolding try_from
production_name = refl
