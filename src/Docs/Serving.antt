-- ===== src/Docs/Serving.antt =====
-- The endpoints of docs/docs.go and docs/handlers.go.
use api_toolkit.Prelude.{
  ℕ, List, [], ◌∷◌, ◌++◌, Option, none, some, if◌then◌else◌, Text, codes, String, insert, ◌==◌,
  list_eq, string_eq,
}
use api_toolkit.Specs
use api_toolkit.Docs.{
  Manager, DocsInfo, DocsPaths, Files, get_html, get_openapi, get_version, get_info,
}

-- What an endpoint answers; the last three bodies are encoded to JSON.
pub data Body : Type 0 where
  bytes : Text → Body
  error : String → Body
  version : Text → Body
  info : DocsInfo → Body

pub record Answer : Type 0 where
  pub code : ℕ
  pub content_type : String
  pub body : Body

abbrev pub write_json : ℕ → Body → Answer
write_json code body = record { code = code; content_type = "application/json"; body = body }

-- `WriteErr`.
abbrev pub write_err : ℕ → String → Answer
write_err code msg = write_json code (error msg)

abbrev pub html_answer : Option Text → Answer
html_answer none = write_json 500 (error "Failed to generate documentation")
html_answer (some html) = record {
  code = 200;
  content_type = "text/html; charset=utf-8";
  body = bytes html;
}

abbrev pub openapi_answer : Option Text → Answer
openapi_answer none = write_json 404 (error "OpenAPI specification not found")
openapi_answer (some openapi) = write_json 200 (bytes openapi)

abbrev pub version_answer : Option Text → Answer
version_answer none = write_json 500 (error "Failed to get version")
version_answer (some v) = write_json 200 (version v)

unfoldable pub serve_html : Manager → Answer
serve_html m = html_answer (get_html m)

unfoldable pub serve_openapi : Files → Manager → Answer
serve_openapi files m = openapi_answer (get_openapi files m)

unfoldable pub serve_version : Manager → Answer
serve_version m = version_answer (get_version m)

unfoldable pub serve_info : Manager → Answer
serve_info m = write_json 200 (info (get_info m))

pub data Endpoint : Type 0 where
  html_handler openapi_handler version_handler info_handler : Endpoint

unfoldable pub answer : Files → Manager → Endpoint → Answer
unfolding serve_html serve_openapi serve_version serve_info
answer files m html_handler = serve_html m
answer files m openapi_handler = serve_openapi files m
answer files m version_handler = serve_version m
answer files m info_handler = serve_info m

abbrev pub Routes : Type 0
Routes = List (Text × Endpoint)

unfoldable pub register_routes : Routes
register_routes =
    (codes Specs.docs, html_handler)
    ∷ (codes Specs.docs_openapi, openapi_handler)
    ∷ (codes Specs.docs_version, version_handler)
    ∷ (codes Specs.docs_info, info_handler)
    ∷ []

-- A path that is empty is not registered.
abbrev pub route : Text → Endpoint → Routes
route path h = if path == [] then [] else (path, h) ∷ []

unfoldable pub register_custom_routes : DocsPaths → Routes
register_custom_routes paths =
    route paths.html html_handler
    ++ route paths.openapi openapi_handler
    ++ route paths.version version_handler
    ++ route paths.info info_handler

-- The headers that the middleware sets before the next handler.
unfoldable pub info_headers : Manager → List (String × Text) → List (String × Text)
info_headers m headers =
    let info = get_info m in
    let headers' = insert "X-API-Version" info.version (insert "X-API-Title" info.title headers) in
    if info.description == []
    then headers'
    else insert "X-API-Description" info.description headers'
