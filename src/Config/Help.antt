-- ===== src/Config/Help.antt =====
-- `printHelp` (src/config.cpp) and the words by which it names the options.
use priority_http_server.Prelude.{
  ◌≡◌, refl, inl, inr, Bool-cases, Bool, true, false, ◌||◌, List, [], ◌∷◌, ◌++◌, Option, none, some,
  arith, ◌==◌, if◌then◌else◌,
}
use priority_http_server.Prelude.Text.{Text, codes, text_eq}
use priority_http_server.Config.Arguments.{flag_of, either, has_help_flag}
use priority_http_server.Config.File.{config_path}

-- The lines of the text.
abbrev pub help_lines : List Text
help_lines =
    codes "Usage: prserver [OPTIONS]"
    ∷ codes ""
    ∷ codes "Options:"
    ∷ codes "  -c, --config <file>         Path to config file (default: config.json)"
    ∷ codes "  -p, --port <port>           Port to listen on (default: 8080)"
    ∷ codes "  -b, --bind-address <addr>   IP address to bind to (default: 0.0.0.0)"
    ∷ codes "  -t, --threads <num>         Number of worker threads (default: CPU cores)"
    ∷ codes "  -i, --io-threads <num>      Number of I/O threads (default: 4)"
    ∷ codes "  -s, --static-root <dir>     Static files root directory (default: static)"
    ∷ codes "  -l, --log-level <level>     Log level (DEBUG, INFO, WARNING, ERROR) (default: INFO)"
    ∷ codes "      --log-file <path>       Log file path (empty = console) (default: empty)"
    ∷ codes "      --body-limit <mb>       Max POST body size in MB (default: 10)"
    ∷ codes "      --max-queue-size <num>  Max task queue size (default: 1000)"
    ∷ codes "      --max-connections <num> Max simultaneous connections (default: 10000)"
    ∷ codes "      --server-name <name>    Server header value (default: PriorityHttpServer/2.0)"
    ∷ codes "      --sample-rate <num>     Log every N-th priority request (default: 100)"
    ∷ codes
        "      --enable-keepalive <bool>  Enable Keep-Alive globally (true/false) (default: true)"
    ∷ codes "      --keepalive-timeout <sec>  Keep-Alive timeout in seconds (default: 30)"
    ∷ codes
        "      --max-keepalive-requests <num> Max requests per Keep-Alive connection (default: 500)"
    ∷ codes
        "      --drain-timeout <sec>   Timeout for draining connections on shutdown (default: 5)"
    ∷ codes "      --static-max-file-size <mb> Max static file size in MB (default: 10)"
    ∷ codes "      --cors-allow-origin <origin> CORS header value (default: *)"
    ∷ codes "  -h, --help                  Show this help message and exit"
    ∷ []

-- `printHelp`: each line ends with a line feed.
unfoldable pub print_help : List Text → Text
print_help [] = []
print_help (line ∷ lines) = line ++ 10 ∷ print_help lines

-- The word that is being read is kept in reverse order.
abbrev reversed_onto : Text → Text → Text
reversed_onto [] w = w
reversed_onto (c ∷ cs) w = reversed_onto cs (c ∷ w)

abbrev end_word : Text → List Text → List Text
end_word [] ws = ws
end_word (c ∷ cs) ws = reversed_onto (c ∷ cs) [] ∷ ws

-- The words between spaces and commas.
abbrev split_words : Text → Text → List Text
split_words w [] = end_word w []
split_words w (c ∷ cs) =
    let rest = split_words [] cs in
    let more = split_words (c ∷ w) cs in
    if (c == b' ') || (c == b',') then end_word w rest else more

abbrev options_of : List Text → List Text
options_of [] = []
options_of ([] ∷ ws) = options_of ws
options_of ((c ∷ w) ∷ ws) = let rest = options_of ws in if c == b'-' then (c ∷ w) ∷ rest else rest

-- The options that a text names: the words that begin with a dash.
abbrev pub named_options : List Text → List Text
named_options [] = []
named_options (line ∷ lines) = options_of (split_words [] line) ++ named_options lines

-- `arg` is one of the words.
unfoldable pub names : Text → List Text → Bool
names arg [] = false
names arg (w ∷ ws) = text_eq arg w || names arg ws

abbrev is_some {ℓ} : {A : Type ℓ} → Option A → Bool
is_some none = false
is_some (some a) = true

-- An option that the program acts on: `loadConfig` takes the next argument for its path, `hasHelpFLag`
-- finds it, or `fromArgs` knows it.
abbrev pub is_option : Text → Bool
is_option arg =
    text_eq (config_path (arg ∷ codes "x" ∷ [])) (codes "x")
    || (has_help_flag (arg ∷ []) || is_some (flag_of arg))

takes_path :
    (arg : Text)
    → text_eq (config_path (arg ∷ codes "x" ∷ [])) (codes "x")
      ≡ either arg (codes "-c") (codes "--config")
unfolding config_path text_eq
takes_path arg = elim (Bool-cases (either arg (codes "-c") (codes "--config"))) [
  | inl e ↦ rw (config_path, e) refl
  | inr e ↦ rw (config_path, e) refl
]

-- A text is an option that the program acts on exactly when it is one of the words of the help that
-- begin with a dash: every option is documented, and every documented option is there.
pub is_option-eq-names : (arg : Text) → is_option arg ≡ names arg (named_options help_lines)
unfolding names flag_of either has_help_flag
is_option-eq-names arg = ground (arith, takes_path arg)
