-- ===== src/Config/Arguments/Threads.antt =====
-- What does not depend on the values of the flags.
use priority_http_server.Prelude.{
  ℕ, ◌≡◌, ◌≢◌, refl, List, [], ◌∷◌, none, some, Option-cases, inl, inr, arith,
}
use priority_http_server.Prelude.Text.{Text}
use priority_http_server.Numbers.{stoi, stoul}
use priority_http_server.Config.{Config, at_least_one_thread}
use priority_http_server.Config.Arguments.{
  Flag, port_flag, bind_address_flag, threads_flag, io_threads_flag, log_level_flag,
  static_root_flag, body_limit_flag, max_queue_size_flag, max_connections_flag, server_name_flag,
  sample_rate_flag, enable_keepalive_flag, keepalive_timeout_flag, max_keepalive_requests_flag,
  drain_timeout_flag, static_max_file_size_flag, cors_allow_origin_flag, log_file_flag, set_flag,
  set_number, flag_of, read_arguments, from_args,
}

pub at_least_one_thread_positive : (c : Config) → (at_least_one_thread c).threads ≢ 0
unfolding at_least_one_thread
at_least_one_thread_positive c = ground arith

-- No command line that is accepted leaves the pool without threads, whatever configuration it
-- changes.
pub from_args_threads :
    (c d : Config) (args : List Text) → from_args c args ≡ some d → d.threads ≢ 0
unfolding from_args
from_args_threads c d args h = elim (Option-cases (read_arguments args c)) [
  | inl e ↦ ground (arith, e, h)
  | inr (r, e) ↦ ground (arith, e, h, at_least_one_thread_positive r)
]

-- Whether a value is refused depends on the flag and the value only.
set_number_total :
    (value : Text) (f g : ℕ → Config) → set_number value f ≡ none → set_number value g ≡ none
unfolding set_number
set_number_total value f g h = elim (Option-cases (stoul value)) [
  | inl e ↦ rw (set_number, e) refl
  | inr (n, e) ↦ ground (arith, e, h)
]

set_flag_total :
    (flag : Flag) (value : Text) (c d : Config)
    → set_flag flag value c ≡ none
    → set_flag flag value d ≡ none
unfolding set_flag
set_flag_total port_flag value c d h = elim (Option-cases (stoi value)) [
  | inl e ↦ rw (set_flag, e) refl
  | inr (z, e) ↦ ground (arith, e, h)
]
set_flag_total threads_flag value c d h = set_number_total value _ _ h
set_flag_total io_threads_flag value c d h = set_number_total value _ _ h
set_flag_total body_limit_flag value c d h = set_number_total value _ _ h
set_flag_total max_queue_size_flag value c d h = set_number_total value _ _ h
set_flag_total max_connections_flag value c d h = set_number_total value _ _ h
set_flag_total sample_rate_flag value c d h = set_number_total value _ _ h
set_flag_total keepalive_timeout_flag value c d h = set_number_total value _ _ h
set_flag_total max_keepalive_requests_flag value c d h = set_number_total value _ _ h
set_flag_total drain_timeout_flag value c d h = set_number_total value _ _ h
set_flag_total static_max_file_size_flag value c d h = set_number_total value _ _ h
set_flag_total bind_address_flag value c d h = cc
set_flag_total log_level_flag value c d h = cc
set_flag_total static_root_flag value c d h = cc
set_flag_total server_name_flag value c d h = cc
set_flag_total enable_keepalive_flag value c d h = cc
set_flag_total cors_allow_origin_flag value c d h = cc
set_flag_total log_file_flag value c d h = cc

read_arguments_total :
    (args : List Text) (c d : Config) → read_arguments args c ≡ none → read_arguments args d ≡ none
unfolding read_arguments
read_arguments_total [] c d h = cc
read_arguments_total (arg ∷ []) c d h = cc
read_arguments_total (arg ∷ value ∷ args) c d h = elim (Option-cases (flag_of arg)) [
  | inl e ↦ rw (read_arguments, e) (read_arguments_total (value ∷ args) c d (ground (arith, e, h)))
  | inr (flag, e) ↦ elim (Option-cases (set_flag flag value d)) [
    | inl u ↦ rw (read_arguments, e, u) refl
    | inr (d', u) ↦ elim (Option-cases (set_flag flag value c)) [
      | inl v ↦ ground (arith, set_flag_total flag value c d v, u)
      | inr (c', v) ↦
          rw (read_arguments, e, u) (read_arguments_total args c' d' (ground (arith, e, v, h)))
    ]
  ]
]

-- Whether a command line is refused does not depend on the configuration that it changes.
pub from_args_total :
    (c d : Config) (args : List Text) → from_args c args ≡ none → from_args d args ≡ none
unfolding from_args
from_args_total c d args h = elim (Option-cases (read_arguments args c)) [
  | inl e ↦ rw (from_args, read_arguments_total args c d e) refl
  | inr (r, e) ↦ ground (arith, e, h)
]
