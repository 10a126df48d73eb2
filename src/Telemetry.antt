-- ===== src/Telemetry.antt =====
-- The daemon's logging: xdp-natd/src/telemetry.rs. The crates of tracing are a parameter: what the
-- environment gives for a filter, and whether the process takes the two loggers. A filter is its
-- text; the layers of a subscriber that are always the same are not written out.
use Prim.Native.String.{String}
use xdp_natd.Base.{Bool, Option, none, some, ◌&&◌}
use xdp_natd.Configuration.{Configuration}

pub record Subscriber : Type 0 where
  pub env_filter : String
  pub name : String

pub record Tracing : Type 0 where
  -- `EnvFilter::try_from_default_env`.
  pub default_env : Option String
  -- `LogTracer::init` and `set_global_default`; `true` for `Ok`.
  pub tracer_init : Bool
  pub set_global_default : Subscriber → Bool

abbrev pub unwrap_or : {A : Type 0} → Option A → A → A
unwrap_or none a = a
unwrap_or (some b) a = b

module _ (tracing : Tracing) where
  pub get_subscriber : String → String → Subscriber
  get_subscriber name env_filter = record {
    env_filter = unwrap_or tracing.default_env env_filter;
    name = name;
  }

  -- `false` is a panic: the process ends.
  pub init_subscriber : Subscriber → Bool
  init_subscriber subscriber = tracing.tracer_init && tracing.set_global_default subscriber

  unfoldable pub init_logging : Configuration → Bool
  unfolding get_subscriber init_subscriber
  init_logging configuration = init_subscriber (
      get_subscriber configuration.control_plane.logger_name
        configuration.control_plane.default_env_filter)
