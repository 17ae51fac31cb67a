-- ===== src/Config/RoundTrip.antt =====
-- The JSON form of a configuration (`toJson` and `fromJson` of src/config.cpp).
use priority_http_server.Prelude.{ℕ, ◌^◌, ◌<◌, ◌≡◌, refl, ap, Bool, List, some, arith}
use native.Mathlib.Nat.{mod-eq_of_lt}
use priority_http_server.Prelude.Int.{ℤ, size_mod}
use priority_http_server.Prelude.Text.{Text, codes, text_eq}
use priority_http_server.Logger.{LogLevel, log_level_to_str}
use priority_http_server.Logger.Levels.{string_to_log_level-log_level_to_str}
use priority_http_server.Json.{Json, lookup}
use priority_http_server.Config.{
  Config, default_config, at_least_one_thread, safe_set, config_entries, to_json, level_or,
  seconds_or, read_fields, from_json,
}

-- The fields of a configuration are values of their C++ types.
pub record Fits (c : Config) : Type 0 where
  pub port_fits : c.port < 2 ^ 16
  pub threads_fit : c.threads < size_mod
  pub io_threads_fit : c.io_threads < 2 ^ 32
  pub static_max_file_size_fits : c.static_max_file_size_mb < size_mod
  pub sample_rate_fits : c.sample_rate < 2 ^ 32
  pub body_limit_fits : c.body_limit_mb < size_mod
  pub max_queue_size_fits : c.max_queue_size < size_mod
  pub max_connections_fits : c.max_connections < size_mod
  pub max_keepalive_requests_fits : c.max_keepalive_requests < size_mod

pub default_config-Fits : (n : ℕ) → n < size_mod → Fits (default_config n)
unfolding default_config
default_config-Fits n h = record {
  port_fits = omega arith;
  threads_fit = h;
  io_threads_fit = omega arith;
  static_max_file_size_fits = omega arith;
  sample_rate_fits = omega arith;
  body_limit_fits = omega arith;
  max_queue_size_fits = omega arith;
  max_connections_fits = omega arith;
  max_keepalive_requests_fits = omega arith;
}

module _ (json : Json) where
  abbrev Entries : Type 0
  Entries = List (Text × json.Value)

  -- What `fromJson` makes of each kind of entry that `toJson` writes.
  unsigned_field :
      (key : Text) (bits n field : ℕ) (es : Entries)
      → lookup key es ≡ some (json.unsigned n)
      → n < 2 ^ bits
      → safe_set (json.member key (json.object es)) (json.get_unsigned bits) field ≡ n
  unfolding safe_set
  unsigned_field key bits n field es e h =
      rw (json.member-object, e, safe_set, json.get_unsigned-unsigned bits n) (mod-eq_of_lt h)

  string_field :
      (key s field : Text) (es : Entries)
      → lookup key es ≡ some (json.string s)
      → safe_set (json.member key (json.object es)) json.get_string field ≡ s
  unfolding safe_set
  string_field key s field es e = rw (json.member-object, e, safe_set, json.get_string-string s)

  boolean_field :
      (key : Text) (b field : Bool) (es : Entries)
      → lookup key es ≡ some (json.boolean b)
      → safe_set (json.member key (json.object es)) json.get_bool field ≡ b
  unfolding safe_set
  boolean_field key b field es e = rw (json.member-object, e, safe_set, json.get_bool-boolean b)

  seconds_field :
      (key : Text) (z field : ℤ) (es : Entries)
      → lookup key es ≡ some (json.integer z)
      → seconds_or json (json.member key (json.object es)) field ≡ z
  unfolding seconds_or safe_set
  seconds_field key z field es e =
      rw (json.member-object, e, seconds_or, json.is_number-integer z)
        (rw (safe_set, json.get_integer-integer z))

  level_field :
      (key : Text) (l field : LogLevel) (es : Entries)
      → lookup key es ≡ some (json.string (log_level_to_str l))
      → level_or json (json.member key (json.object es)) field ≡ l
  unfolding level_or safe_set
  level_field key l field es e =
      rw (json.member-object, e, level_or, json.is_string-string (log_level_to_str l))
        (rw (safe_set, json.get_string-string (log_level_to_str l))
          (string_to_log_level-log_level_to_str l))

  read_fields-to_json : (c d : Config) → Fits c → read_fields json (to_json json c) d ≡ c
  unfolding read_fields to_json config_entries lookup text_eq
  read_fields-to_json c d f = λ i. record {
    port =
        unsigned_field (codes "port") 16 c.port d.port (config_entries json c) refl f.port_fits i;
    bind_address =
        string_field (codes "bind_address") c.bind_address d.bind_address (config_entries json c)
          refl i;
    threads =
        unsigned_field (codes "threads") 64 c.threads d.threads (config_entries json c) refl
          f.threads_fit i;
    io_threads =
        unsigned_field (codes "io_threads") 32 c.io_threads d.io_threads (config_entries json c)
          refl f.io_threads_fit i;
    static_root =
        string_field (codes "static_root") c.static_root d.static_root (config_entries json c) refl
          i;
    static_max_file_size_mb =
        unsigned_field (codes "static_max_file_size_mb") 64 c.static_max_file_size_mb
          d.static_max_file_size_mb (config_entries json c) refl f.static_max_file_size_fits i;
    log_level =
        level_field (codes "log_level") c.log_level d.log_level (config_entries json c) refl i;
    sample_rate =
        unsigned_field (codes "sample_rate") 32 c.sample_rate d.sample_rate (config_entries json c)
          refl f.sample_rate_fits i;
    log_file_path =
        string_field (codes "log_file_path") c.log_file_path d.log_file_path (config_entries json c)
          refl i;
    body_limit_mb =
        unsigned_field (codes "body_limit_mb") 64 c.body_limit_mb d.body_limit_mb
          (config_entries json c) refl f.body_limit_fits i;
    max_queue_size =
        unsigned_field (codes "max_queue_size") 64 c.max_queue_size d.max_queue_size
          (config_entries json c) refl f.max_queue_size_fits i;
    max_connections =
        unsigned_field (codes "max_connections") 64 c.max_connections d.max_connections
          (config_entries json c) refl f.max_connections_fits i;
    server_name =
        string_field (codes "server_name") c.server_name d.server_name (config_entries json c) refl
          i;
    cors_allow_origin =
        string_field (codes "cors_allow_origin") c.cors_allow_origin d.cors_allow_origin
          (config_entries json c) refl i;
    enable_keepalive =
        boolean_field (codes "enable_keepalive") c.enable_keepalive d.enable_keepalive
          (config_entries json c) refl i;
    keepalive_timeout_sec =
        seconds_field (codes "keepalive_timeout_sec") c.keepalive_timeout_sec
          d.keepalive_timeout_sec (config_entries json c) refl i;
    max_keepalive_requests =
        unsigned_field (codes "max_keepalive_requests") 64 c.max_keepalive_requests
          d.max_keepalive_requests (config_entries json c) refl f.max_keepalive_requests_fits i;
    drain_timeout_sec =
        seconds_field (codes "drain_timeout_sec") c.drain_timeout_sec d.drain_timeout_sec
          (config_entries json c) refl i;
  }

  -- `fromJson` reads back every configuration that `toJson` writes, if its numbers are in the range
  -- of their types, save that no threads become one.
  pub from_json-to_json :
      (hardware_concurrency : ℕ) (c : Config)
      → Fits c
      → from_json json hardware_concurrency (to_json json c) ≡ at_least_one_thread c
  unfolding from_json
  from_json-to_json hardware_concurrency c f =
      ap at_least_one_thread (read_fields-to_json c (default_config hardware_concurrency) f)
