-- ===== src/Config/Arguments/Print.antt =====
-- A configuration as a command line that `Config::fromArgs` (src/config.cpp) reads.
use priority_http_server.Prelude.{
  ℕ, ◌%◌, ◌^◌, ◌<◌, ◌≡◌, refl, ap, ◌∙◌, Bool, true, false, List, [], ◌∷◌, some, if◌then◌else◌,
  arith,
}
use native.Mathlib.Nat.{mod-eq_of_lt}
use priority_http_server.Prelude.Int.{pos, size_mod}
use priority_http_server.Prelude.Text.{Text, codes, text_eq}
use priority_http_server.Numbers.{stoi, decimal, decimal_int}
use priority_http_server.Numbers.Digits.{stoi-decimal_int, stoul-decimal}
use priority_http_server.Logger.{LogLevel, log_level_to_str}
use priority_http_server.Logger.Levels.{string_to_log_level-log_level_to_str}
use priority_http_server.Config.{Config, at_least_one_thread}
use priority_http_server.Config.RoundTrip.{Fits}
use priority_http_server.Config.Arguments.{
  Flag, port_flag, bind_address_flag, threads_flag, io_threads_flag, log_level_flag,
  static_root_flag, body_limit_flag, max_queue_size_flag, max_connections_flag, server_name_flag,
  sample_rate_flag, enable_keepalive_flag, keepalive_timeout_flag, max_keepalive_requests_flag,
  drain_timeout_flag, static_max_file_size_flag, cors_allow_origin_flag, log_file_flag, set_flag,
  flag_of, either, set_number, seconds, unsigned_short, read_arguments, from_args,
}

abbrev pub truth : Bool → Text
truth b = if b then codes "true" else codes "false"

-- A configuration as a command line, its two times being `keepalive` and `drain` seconds.
abbrev pub arguments : Config → ℕ → ℕ → List Text
arguments c keepalive drain =
    codes "--port"
    ∷ decimal c.port
    ∷ codes "--bind-address"
    ∷ c.bind_address
    ∷ codes "--threads"
    ∷ decimal c.threads
    ∷ codes "--io-threads"
    ∷ decimal c.io_threads
    ∷ codes "--log-level"
    ∷ log_level_to_str c.log_level
    ∷ codes "--static-root"
    ∷ c.static_root
    ∷ codes "--body-limit"
    ∷ decimal c.body_limit_mb
    ∷ codes "--max-queue-size"
    ∷ decimal c.max_queue_size
    ∷ codes "--max-connections"
    ∷ decimal c.max_connections
    ∷ codes "--server-name"
    ∷ c.server_name
    ∷ codes "--sample-rate"
    ∷ decimal c.sample_rate
    ∷ codes "--enable-keepalive"
    ∷ truth c.enable_keepalive
    ∷ codes "--keepalive-timeout"
    ∷ decimal keepalive
    ∷ codes "--max-keepalive-requests"
    ∷ decimal c.max_keepalive_requests
    ∷ codes "--drain-timeout"
    ∷ decimal drain
    ∷ codes "--static-max-file-size"
    ∷ decimal c.static_max_file_size_mb
    ∷ codes "--cors-allow-origin"
    ∷ c.cors_allow_origin
    ∷ codes "--log-file"
    ∷ c.log_file_path
    ∷ []

-- The flag `arg` with its value makes the second configuration of the first.
data Sets (arg value : Text) (c d : Config) : Type 0 where
  sets :
      (flag : Flag) → flag_of arg ≡ some flag → set_flag flag value c ≡ some d → Sets arg value c d

-- The arguments of the index lead from the first configuration to the second, flag by flag.
infixr 30 ◌⨟◌
data Reads : List Text → Config → Config → Type 0 where
  done : {c : Config} → Reads [] c c
  ◌⨟◌ :
      {arg value : Text} {args : List Text} {c d e : Config}
      → Sets arg value c d
      → Reads args d e
      → Reads (arg ∷ value ∷ args) c e

Reads-read_arguments :
    (args : List Text) (c e : Config) → Reads args c e → read_arguments args c ≡ some e
unfolding read_arguments
Reads-read_arguments args c e done = refl
Reads-read_arguments args c e (sets flag known set ⨟ more) =
    rw (read_arguments, known, set) (Reads-read_arguments _ _ _ more)

set_number-decimal :
    (n : ℕ) (set : ℕ → Config) → n < size_mod → set_number (decimal n) set ≡ some (set n)
unfolding set_number
set_number-decimal n set h = rw (set_number, stoul-decimal n h) refl

stoi-decimal : (n : ℕ) → n < 2 ^ 16 → stoi (decimal n) ≡ some (pos n)
unfolding decimal_int
stoi-decimal n h = stoi-decimal_int (pos n) (omega arith) (omega arith)

port_flag-Sets :
    (n : ℕ) {c : Config} → n < 2 ^ 16 → Sets (codes "--port") (decimal n) c (record c { port = n })
unfolding set_flag unsigned_short flag_of text_eq either
port_flag-Sets n h = sets port_flag refl (rw (set_flag, stoi-decimal n h, mod-eq_of_lt h) refl)

io_threads_flag-Sets :
    (n : ℕ) {c : Config}
    → n < 2 ^ 32
    → Sets (codes "--io-threads") (decimal n) c (record c { io_threads = n })
unfolding set_flag flag_of text_eq either
io_threads_flag-Sets n {c = c} h = sets io_threads_flag refl (
    set_number-decimal n (λ m. record c { io_threads = m % 2 ^ 32 }) (omega arith)
    ∙ ap (λ m. some (record c { io_threads = m })) (mod-eq_of_lt h))

sample_rate_flag-Sets :
    (n : ℕ) {c : Config}
    → n < 2 ^ 32
    → Sets (codes "--sample-rate") (decimal n) c (record c { sample_rate = n })
unfolding set_flag flag_of text_eq either
sample_rate_flag-Sets n {c = c} h = sets sample_rate_flag refl (
    set_number-decimal n (λ m. record c { sample_rate = m % 2 ^ 32 }) (omega arith)
    ∙ ap (λ m. some (record c { sample_rate = m })) (mod-eq_of_lt h))

seconds-small : (n : ℕ) → n < 2 ^ 63 → seconds n ≡ pos n
unfolding seconds
seconds-small n h = ground arith

keepalive_timeout_flag-Sets :
    (n : ℕ) {c : Config}
    → n < 2 ^ 63
    → Sets (codes "--keepalive-timeout") (decimal n) c (record c { keepalive_timeout_sec = pos n })
unfolding set_flag flag_of text_eq either
keepalive_timeout_flag-Sets n {c = c} h = sets keepalive_timeout_flag refl (
    set_number-decimal n (λ m. record c { keepalive_timeout_sec = seconds m }) (omega arith)
    ∙ ap (λ m. some (record c { keepalive_timeout_sec = m })) (seconds-small n h))

drain_timeout_flag-Sets :
    (n : ℕ) {c : Config}
    → n < 2 ^ 63
    → Sets (codes "--drain-timeout") (decimal n) c (record c { drain_timeout_sec = pos n })
unfolding set_flag flag_of text_eq either
drain_timeout_flag-Sets n {c = c} h = sets drain_timeout_flag refl (
    set_number-decimal n (λ m. record c { drain_timeout_sec = seconds m }) (omega arith)
    ∙ ap (λ m. some (record c { drain_timeout_sec = m })) (seconds-small n h))

log_level_flag-Sets :
    (l : LogLevel) {c : Config}
    → Sets (codes "--log-level") (log_level_to_str l) c (record c { log_level = l })
unfolding set_flag flag_of text_eq either
log_level_flag-Sets l {c = c} =
    sets log_level_flag refl
      (ap (λ m. some (record c { log_level = m })) (string_to_log_level-log_level_to_str l))

enable_keepalive_flag-Sets :
    (b : Bool) {c : Config}
    → Sets (codes "--enable-keepalive") (truth b) c (record c { enable_keepalive = b })
unfolding set_flag either text_eq flag_of
enable_keepalive_flag-Sets true = sets enable_keepalive_flag refl refl
enable_keepalive_flag-Sets false = sets enable_keepalive_flag refl refl

-- The flags that take a number of 64 bits and those that take a text are set by definition.
read_arguments-arguments :
    (c d : Config) (keepalive drain : ℕ)
    → Fits c
    → keepalive < 2 ^ 63
    → drain < 2 ^ 63
    → read_arguments (arguments c keepalive drain) d
      ≡ some (record c { keepalive_timeout_sec = pos keepalive; drain_timeout_sec = pos drain })
unfolding flag_of either text_eq set_flag
read_arguments-arguments c d keepalive drain f hk hd = Reads-read_arguments _ _ _ (
    port_flag-Sets c.port f.port_fits
    ⨟ sets bind_address_flag refl refl
    ⨟ sets threads_flag refl (set_number-decimal c.threads _ f.threads_fit)
    ⨟ io_threads_flag-Sets c.io_threads f.io_threads_fit
    ⨟ log_level_flag-Sets c.log_level
    ⨟ sets static_root_flag refl refl
    ⨟ sets body_limit_flag refl (set_number-decimal c.body_limit_mb _ f.body_limit_fits)
    ⨟ sets max_queue_size_flag refl (set_number-decimal c.max_queue_size _ f.max_queue_size_fits)
    ⨟ sets max_connections_flag refl (set_number-decimal c.max_connections _ f.max_connections_fits)
    ⨟ sets server_name_flag refl refl
    ⨟ sample_rate_flag-Sets c.sample_rate f.sample_rate_fits
    ⨟ enable_keepalive_flag-Sets c.enable_keepalive
    ⨟ keepalive_timeout_flag-Sets keepalive hk
    ⨟ sets max_keepalive_requests_flag refl
        (set_number-decimal c.max_keepalive_requests _ f.max_keepalive_requests_fits)
    ⨟ drain_timeout_flag-Sets drain hd
    ⨟ sets static_max_file_size_flag refl
        (set_number-decimal c.static_max_file_size_mb _ f.static_max_file_size_fits)
    ⨟ sets cors_allow_origin_flag refl refl
    ⨟ sets log_file_flag refl refl
    ⨟ done)

-- Every configuration can be given on the command line: `fromArgs` makes it of the flags with its
-- values, whatever configuration it starts from, if the numbers are in the range of their types and
-- the two times are not negative, save that no threads become one.
pub from_args-arguments :
    (c d : Config) (keepalive drain : ℕ)
    → Fits c
    → keepalive < 2 ^ 63
    → drain < 2 ^ 63
    → from_args d (arguments c keepalive drain)
      ≡ some (
          at_least_one_thread
            (record c { keepalive_timeout_sec = pos keepalive; drain_timeout_sec = pos drain }))
unfolding from_args
from_args-arguments c d keepalive drain f hk hd =
    rw (from_args, read_arguments-arguments c d keepalive drain f hk hd) refl
