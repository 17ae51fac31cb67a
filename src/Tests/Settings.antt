-- ===== src/Tests/Settings.antt =====
-- Configurations, command lines and files on small inputs.
use priority_http_server.Prelude.{if◌then◌else◌, ◌≡◌, refl, true, List, [], ◌∷◌, none, some, arith}
use priority_http_server.Prelude.Int.{pos}
use priority_http_server.Prelude.Text.{Text, codes, text_eq}
use priority_http_server.Numbers.{stoul, signed_magnitude, skip_spaces}
use priority_http_server.Config.{default_config, at_least_one_thread, to_json, from_json}
use priority_http_server.Config.RoundTrip.{from_json-to_json, default_config-Fits}
use priority_http_server.Config.Arguments.{from_args, read_arguments, flag_of, set_flag}
use priority_http_server.Config.Arguments.Print.{arguments, from_args-arguments}
use priority_http_server.Config.File.{Rights, Files, load_config, config_path}
use priority_http_server.Config.File.Load.{base_config, load_config_lem, load_config_again}
use priority_http_server.Tests.Values.{values}

from_json-to_json_example :
    from_json values 8 (to_json values (default_config 4)) ≡ at_least_one_thread (default_config 4)
from_json-to_json_example =
    from_json-to_json values 8 (default_config 4) (default_config-Fits 4 (omega arith))

from_args-arguments_example :
    from_args (default_config 2) (arguments (default_config 4) 30 5)
    ≡ some (
        at_least_one_thread
          (record (default_config 4) { keepalive_timeout_sec = pos 30; drain_timeout_sec = pos 5 }))
from_args-arguments_example =
    from_args-arguments (default_config 4) (default_config 2) 30 5
      (default_config-Fits 4 (omega arith)) (omega arith) (omega arith)

-- A command line that asks for no threads gets one; one whose number is none is refused.
abbrev no_threads : List Text
no_threads = codes "--threads" ∷ codes "0" ∷ codes "--port" ∷ []

abbrev bad_number : List Text
bad_number = codes "-c" ∷ codes "x.json" ∷ codes "-t" ∷ codes "many" ∷ []

one_thread_read :
    from_args (default_config 2) no_threads ≡ some (record (default_config 2) { threads = 1 })
unfolding from_args read_arguments flag_of text_eq set_flag stoul signed_magnitude skip_spaces
    at_least_one_thread
one_thread_read = refl

bad_number_refused : from_args (default_config 2) bad_number ≡ none
unfolding from_args read_arguments flag_of text_eq set_flag stoul signed_magnitude skip_spaces
    at_least_one_thread
bad_number_refused = refl

-- A file that does not parse stands at the default path.
abbrev all_rights : Rights
all_rights = record {
  findable = λ p. true;
  readable = λ p. true;
  writable = λ p. true;
  renamable = λ p. true;
}

abbrev broken_file : Files values
broken_file p = some none

load_config_lem_example : (load_config values all_rights 4 no_threads broken_file).config ≡ (
    if all_rights.findable (config_path no_threads)
    then from_args (base_config values all_rights 4 (config_path no_threads) broken_file) no_threads
    else none)
load_config_lem_example = load_config_lem values all_rights 4 no_threads broken_file

load_config_again_example :
    (load_config values all_rights 4 []
      (load_config values all_rights 4 no_threads broken_file).files).config
    ≡ (load_config values all_rights 4 [] broken_file).config
unfolding config_path text_eq
load_config_again_example =
    load_config_again values all_rights 4 no_threads [] broken_file (omega arith) (omega arith) refl
