-- ===== src/Docs/Tests.antt =====
-- Documents and routes of docs/docs.go and docs/handlers.go, and their theorem at a concrete input.
use api_toolkit.Prelude.{
  ◌≡◌, refl, false, ◌||◌, [], none, some, if◌then◌else◌, codes, strip_prefix, ◌==◌, list_eq,
}
use api_toolkit.Docs.{
  Files, new, new_with_config, default_docs_paths, generate_minimal_openapi, load_openapi_file,
  first_file, get_openapi,
}
use api_toolkit.Docs.Balanced.{outside, broken, scan, generate_minimal_openapi-Balanced}
use api_toolkit.Docs.Templates.{unlines}
use api_toolkit.Docs.Serving.{
  register_routes, register_custom_routes, answer, serve_openapi, openapi_handler,
}

-- The second candidate is listed but cannot be read; the fourth can.
abbrev some_files : Files
some_files = record {
  exists = λ path. path == codes "./swagger/doc.json" || path == codes "./docs/openapi.json";
  read = λ path. if path == codes "docs/openapi.json" then some (codes "{}") else none;
}

abbrev no_files : Files
no_files = record { exists = λ path. false; read = λ path. none }

found_fourth : load_openapi_file some_files new.config ≡ codes "{}"
unfolding load_openapi_file first_file new new_with_config default_docs_paths strip_prefix
found_fourth = refl

-- Without any file and provider the specification is found all the same.
never_missing : (answer no_files new openapi_handler).code ≡ 200
unfolding answer serve_openapi get_openapi load_openapi_file first_file new new_with_config
never_missing = refl

custom_routes : register_custom_routes default_docs_paths ≡ register_routes
unfolding register_custom_routes register_routes default_docs_paths
custom_routes = refl

-- A quote in the title ends its string too early.
quoted_title :
    scan (outside []) (generate_minimal_openapi (record (new.config) { title = codes "a\"{" }))
    ≡ broken
unfolding generate_minimal_openapi unlines new new_with_config
quoted_title = refl

generate_minimal_openapi-Balanced_example :
    scan (outside []) (generate_minimal_openapi new.config) ≡ outside []
unfolding new new_with_config
generate_minimal_openapi-Balanced_example =
    generate_minimal_openapi-Balanced new.config refl refl refl
