-- ===== src/Tests/Answers.antt =====
-- Requests and their answers on small inputs.
use priority_http_server.Prelude.{if◌then◌else◌, ◌≡◌, refl, [], ◌∷◌, ◌++◌, none, some, length}
use priority_http_server.Prelude.Int.{pos, negsuc}
use priority_http_server.Prelude.Text.{codes, text_eq, starts_with}
use priority_http_server.Numbers.{decimal}
use priority_http_server.Heap.{HeapAlgorithms}
use priority_http_server.Heap.Sorted.{sorted_heaps}
use priority_http_server.TaskQueue.{PrioritizedTask, compare_tasks, task_queue}
use priority_http_server.TaskQueue.Order.{compare_tasks_asymmetric, compare_tasks_weak_order}
use priority_http_server.ThreadPool.{ThreadPool}
use priority_http_server.Json.{Json}
use priority_http_server.Http.{Request, content_length, make_response}
use priority_http_server.HttpTask.{HttpTask}
use priority_http_server.Router.{
  RouterTable, route_handler, add_route, find_handler, find, assign, make_key, find_prefix_handler,
  prefix_loop, prefix_round,
}
use priority_http_server.RequestProcessor.{sends, process}
use priority_http_server.StaticFiles.{
  FileSystem, StaticFileHandler, handle_static, locate, serve, is_inside, drop,
}
use priority_http_server.StaticFiles.Serving.{Served, handle_static_inside}
use priority_http_server.StaticFiles.Head.{head_loses_length}
use priority_http_server.Tests.Beast.{beast, Response, post_verb, head_verb}
use priority_http_server.Tests.Values.{values, numbers}

abbrev pub request_heaps : HeapAlgorithms (PrioritizedTask (HttpTask beast)) compare_tasks
request_heaps = sorted_heaps compare_tasks compare_tasks_asymmetric compare_tasks_weak_order

abbrev pub Handler : Type 0
Handler = Request beast → Response → Response

abbrev pub posted : Request beast
posted = record {
  method = post_verb;
  target = codes "/compute";
  find = λ f. none;
  body = codes "[3,-1]";
}

abbrev pub no_routes : RouterTable Handler
no_routes = []

-- JSON in which every text is the array of 3 and -1.
abbrev pub two_numbers : Json
two_numbers = record values { parse = λ s. some (numbers (pos 3 ∷ negsuc 0 ∷ [])) }

abbrev free_pool : ThreadPool (HttpTask beast)
free_pool = record { queue = task_queue 1; workers = [] }

-- A file system with one file of five bytes at `s/a.txt`.
abbrev files : FileSystem
files = record {
  join = λ root rest. root ++ codes "/" ++ rest;
  weakly_canonical = λ path. some (codes "srv" ∷ path ∷ []);
  is_file = λ path. text_eq path (codes "s/a.txt");
  is_regular_file = λ path. text_eq path (codes "s/a.txt");
  file_size = λ path. some 5;
  read = λ path. some (codes "hello");
  extension = λ path. codes ".txt";
}

abbrev handler : StaticFileHandler
handler = record { root_path = codes "s"; max_file_size = 10; root_canonical = codes "srv" ∷ [] }

abbrev asked : Request beast
asked = record { method = head_verb; target = codes "/static/a.txt"; find = λ f. none; body = [] }

abbrev static_routes : RouterTable Handler
static_routes = add_route beast head_verb (codes "/static/") (handle_static beast files handler) []

handle_static_inside_example :
    (served : Served files handler (codes "/static/a.txt")) × (beast.body_of
        (handle_static beast files handler asked beast.fresh)
      ≡ (if beast.verb_eq head_verb beast.head then [] else served.content))
unfolding handle_static locate serve is_inside drop text_eq starts_with make_response
handle_static_inside_example = handle_static_inside beast files handler asked beast.fresh refl

head_loses_length_example :
    (served : Served files handler (codes "/static/a.txt")) × (sent : Response) × (beast.field_of
        content_length
        (handle_static beast files handler asked beast.fresh)
      ≡ some (decimal (length served.content)))
    × ((process beast request_heaps 7 static_routes asked (pos 0) 4 free_pool).1
        ≡ sends sent (some asked) ∷ [])
    × (beast.field_of content_length sent ≡ some (decimal 0))
unfolding handle_static locate serve is_inside drop text_eq starts_with make_response route_handler
    find_handler find add_route assign make_key find_prefix_handler prefix_loop prefix_round
head_loses_length_example =
    head_loses_length beast request_heaps files handler 7 static_routes asked (pos 0) 4 free_pool
      refl refl refl
