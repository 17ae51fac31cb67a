-- ===== src/Server/Lifecycle/Beginning.antt =====
-- How `setup` of a server (src/server.cpp) ends.
use priority_http_server.Prelude.{
  Bool, true, false, List, ◌++◌, none, some, ◌≡◌, Option-cases, inl, inr,
}
use priority_http_server.Prelude.Text.{Text}
use priority_http_server.Config.{Config}
use priority_http_server.StaticFiles.{FileSystem, StaticFileHandler, static_file_handler}
use priority_http_server.Server.Lifecycle.{
  LifeEffect, setup, setup_start, setup_rest, make_static_handler,
}

-- How `setup` can end: by whether the root of the static files has a canonical path.
pub data SetupDone (files : FileSystem) (c : Config) : List LifeEffect × Bool → Type 0 where
  fails : files.weakly_canonical c.static_root ≡ none → SetupDone files c (setup_start c, true)
  done :
      (root : List Text) (handler : StaticFileHandler)
      → files.weakly_canonical c.static_root ≡ some root
      → SetupDone files c (setup_start c ++ setup_rest handler, false)

pub setup-SetupDone : (files : FileSystem) (c : Config) → SetupDone files c (setup files c)
unfolding setup make_static_handler static_file_handler
setup-SetupDone files c = elim (Option-cases (files.weakly_canonical c.static_root)) [
  | inl e ↦ rw (setup, make_static_handler, static_file_handler, e) (fails e)
  | inr (root, e) ↦ rw (setup, make_static_handler, static_file_handler, e) (done root _ e)
]
