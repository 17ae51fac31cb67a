-- ===== src/Config/Arguments.antt =====
-- `hasNext`, `Config::fromArgs` and `hasHelpFLag` (src/config.cpp). The list of arguments is `argv`
-- without the name of the program. None stands for an exception of std::stoi or std::stoul.
pub mod Print
pub mod Threads
use priority_http_server.Prelude.{
  ℕ, ◌-◌, ◌%◌, ◌^◌, Bool, true, false, ◌||◌, List, [], ◌∷◌, Option, none, some, ltb, if◌then◌else◌,
}
use priority_http_server.Prelude.Int.{ℤ, pos, negsuc, size_mod}
use priority_http_server.Prelude.Text.{Text, codes, text_eq}
use priority_http_server.Numbers.{stoi, stoul}
use priority_http_server.Logger.{string_to_log_level}
use priority_http_server.Config.{Config, at_least_one_thread}

-- The branches of the loop.
pub data Flag : Type 0 where
  port_flag bind_address_flag threads_flag io_threads_flag log_level_flag static_root_flag : Flag
  body_limit_flag max_queue_size_flag max_connections_flag server_name_flag : Flag
  sample_rate_flag enable_keepalive_flag keepalive_timeout_flag : Flag
  max_keepalive_requests_flag drain_timeout_flag static_max_file_size_flag : Flag
  cors_allow_origin_flag log_file_flag : Flag

unfoldable pub either : Text → Text → Text → Bool
either arg short long = text_eq arg short || text_eq arg long

unfoldable pub flag_of : Text → Option Flag
unfolding either
flag_of arg =
    if either arg (codes "-p") (codes "--port")
    then some port_flag
    else if either arg (codes "-b") (codes "--bind-address")
    then some bind_address_flag
    else if either arg (codes "-t") (codes "--threads")
    then some threads_flag
    else if either arg (codes "-i") (codes "--io-threads")
    then some io_threads_flag
    else if either arg (codes "-l") (codes "--log-level")
    then some log_level_flag
    else if either arg (codes "-s") (codes "--static-root")
    then some static_root_flag
    else if text_eq arg (codes "--body-limit")
    then some body_limit_flag
    else if text_eq arg (codes "--max-queue-size")
    then some max_queue_size_flag
    else if text_eq arg (codes "--max-connections")
    then some max_connections_flag
    else if text_eq arg (codes "--server-name")
    then some server_name_flag
    else if text_eq arg (codes "--sample-rate")
    then some sample_rate_flag
    else if text_eq arg (codes "--enable-keepalive")
    then some enable_keepalive_flag
    else if text_eq arg (codes "--keepalive-timeout")
    then some keepalive_timeout_flag
    else if text_eq arg (codes "--max-keepalive-requests")
    then some max_keepalive_requests_flag
    else if text_eq arg (codes "--drain-timeout")
    then some drain_timeout_flag
    else if text_eq arg (codes "--static-max-file-size")
    then some static_max_file_size_flag
    else if text_eq arg (codes "--cors-allow-origin")
    then some cors_allow_origin_flag
    else if text_eq arg (codes "--log-file")
    then some log_file_flag
    else none

-- `static_cast<unsigned short>` of an int
unfoldable pub unsigned_short : ℤ → ℕ
unsigned_short (pos n) = n % 2 ^ 16
unsigned_short (negsuc n) = 2 ^ 16 - 1 - n % 2 ^ 16

-- `std::chrono::seconds` of an unsigned long: its count is a signed 64-bit number.
unfoldable pub seconds : ℕ → ℤ
seconds n = if ltb n (2 ^ 63) then pos n else negsuc (size_mod - 1 - n)

-- A field set to a number that `std::stoul` reads.
unfoldable pub set_number : Text → (ℕ → Config) → Option Config
set_number value set = elim (stoul value) [ none ↦ none | some n ↦ some (set n) ]

unfoldable pub set_flag : Flag → Text → Config → Option Config
unfolding unsigned_short set_number seconds
set_flag port_flag value c = elim (stoi value) [
  | none ↦ none
  | some z ↦ some (record c { port = unsigned_short z })
]
set_flag bind_address_flag value c = some (record c { bind_address = value })
set_flag threads_flag value c = set_number value (λ n. record c { threads = n })
set_flag io_threads_flag value c = set_number value (λ n. record c { io_threads = n % 2 ^ 32 })
set_flag log_level_flag value c = some (record c { log_level = string_to_log_level value })
set_flag static_root_flag value c = some (record c { static_root = value })
set_flag body_limit_flag value c = set_number value (λ n. record c { body_limit_mb = n })
set_flag max_queue_size_flag value c = set_number value (λ n. record c { max_queue_size = n })
set_flag max_connections_flag value c = set_number value (λ n. record c { max_connections = n })
set_flag server_name_flag value c = some (record c { server_name = value })
set_flag sample_rate_flag value c = set_number value (λ n. record c { sample_rate = n % 2 ^ 32 })
set_flag enable_keepalive_flag value c =
    some (record c { enable_keepalive = either value (codes "true") (codes "1") })
set_flag keepalive_timeout_flag value c =
    set_number value (λ n. record c { keepalive_timeout_sec = seconds n })
set_flag max_keepalive_requests_flag value c =
    set_number value (λ n. record c { max_keepalive_requests = n })
set_flag drain_timeout_flag value c =
    set_number value (λ n. record c { drain_timeout_sec = seconds n })
set_flag static_max_file_size_flag value c =
    set_number value (λ n. record c { static_max_file_size_mb = n })
set_flag cors_allow_origin_flag value c = some (record c { cors_allow_origin = value })
set_flag log_file_flag value c = some (record c { log_file_path = value })

-- The loop over the arguments. A flag that is the last argument has no value and is ignored.
unfoldable pub read_arguments : List Text → Config → Option Config
read_arguments [] c = some c
read_arguments (arg ∷ []) c = some c
read_arguments (arg ∷ value ∷ args) c = elim (flag_of arg) [
  | none ↦ read_arguments (value ∷ args) c
  | some flag ↦ elim (set_flag flag value c) [ none ↦ none | some d ↦ read_arguments args d ]
]

unfoldable pub from_args : Config → List Text → Option Config
from_args c args = elim (read_arguments args c) [
  | none ↦ none
  | some d ↦ some (at_least_one_thread d)
]

unfoldable pub has_help_flag : List Text → Bool
unfolding either
has_help_flag [] = false
has_help_flag (arg ∷ args) =
    if either arg (codes "-h") (codes "--help") then true else has_help_flag args
