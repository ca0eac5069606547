-- ===== src/Docs.antt =====
-- docs/docs.go and docs/handlers.go, with the types of ports/ports.go: the manager of the documentation
-- and its endpoints.
pub mod Templates
pub mod Balanced
pub mod Serving
mod Tests
use api_toolkit.Prelude.{
  ℕ, ◌≡◌, refl, Bool, true, false, not, ◌&&◌, List, [], ◌∷◌, ◌++◌, Option, none, some,
  if◌then◌else◌, Text, codes, strip_prefix, String, insert, ◌==◌, list_eq, string_eq,
}
use api_toolkit.Docs.Templates.{
  html_1, html_2, html_3, html_4, html_5, openapi_1, openapi_2, openapi_3, openapi_4,
}

pub record DocsPaths : Type 0 where
  pub html : Text
  pub openapi : Text
  pub version : Text
  pub info : Text

pub record DocsConfig : Type 0 where
  pub title : Text
  pub description : Text
  pub version : Text
  pub contact : Text
  pub license : Text
  pub paths : DocsPaths
  pub enable_html : Bool
  pub enable_json : Bool
  pub enable_yaml : Bool

pub record DocsInfo : Type 0 where
  pub title : Text
  pub description : Text
  pub version : Text
  pub contact : Text
  pub license : Text

-- A provider of the application; `none` is an error.
pub record DocsProvider : Type 0 where
  pub html : Option Text
  pub openapi : Option Text
  pub version : Option Text
  pub info : DocsInfo

pub record Manager : Type 0 where
  pub config : DocsConfig
  pub provider : Option DocsProvider

unfoldable pub default_docs_paths : DocsPaths
default_docs_paths = record {
  html = codes "/docs";
  openapi = codes "/docs/openapi.json";
  version = codes "/docs/version";
  info = codes "/docs/info";
}

unfoldable pub new_with_config : DocsConfig → Manager
new_with_config config = record { config = config; provider = none }

unfoldable pub new : Manager
unfolding new_with_config default_docs_paths
new = new_with_config (record {
  title = codes "API Documentation";
  description = codes "REST API Documentation";
  version = codes "1.0.0";
  contact = [];
  license = [];
  paths = default_docs_paths;
  enable_html = true;
  enable_json = true;
  enable_yaml = false;
})

unfoldable pub register_provider : Option DocsProvider → Manager → Manager
register_provider provider m = record m { provider = provider }

unfoldable pub generate_default_html : DocsConfig → Text
generate_default_html c =
    html_1
    ++ (c.title
        ++ (html_2
            ++ (c.title ++ (html_3 ++ (c.description ++ (html_4 ++ (c.version ++ html_5)))))))

unfoldable pub generate_minimal_openapi : DocsConfig → Text
generate_minimal_openapi c =
    openapi_1
    ++ (c.title ++ (openapi_2 ++ (c.description ++ (openapi_3 ++ (c.version ++ openapi_4)))))

-- The files of the working directory: `os.Stat` and `os.ReadFile` without an error.
pub record Files : Type 0 where
  pub exists : Text → Bool
  pub read : Text → Option Text

abbrev pub candidates : List Text
candidates =
    codes "./swagger/swagger.json"
    ∷ codes "./swagger/doc.json"
    ∷ codes "./swagger/openapi.json"
    ∷ codes "./docs/openapi.json"
    ∷ codes "./api-docs.json"
    ∷ []

-- `filepath.Clean` of a candidate.
abbrev pub clean : Text → Text
clean path = without (strip_prefix (codes "./") path)
  where
    without : Option Text → Text
    without none = path
    without (some rest) = rest

abbrev pub or_else : Option Text → Option Text → Option Text
or_else none rest = rest
or_else (some content) rest = some content

unfoldable pub first_file : Files → List Text → Option Text
first_file files [] = none
first_file files (path ∷ paths) =
    let rest = first_file files paths in
    if files.exists path then or_else (files.read (clean path)) rest else rest

abbrev pub content_or : Text → Option Text → Text
content_or default none = default
content_or default (some content) = content

unfoldable pub load_openapi_file : Files → DocsConfig → Text
unfolding first_file generate_minimal_openapi
load_openapi_file files c = content_or (generate_minimal_openapi c) (first_file files candidates)

abbrev pub provided {ℓ} : {A : Type ℓ} → (DocsProvider → A) → A → Option DocsProvider → A
provided f a none = a
provided f a (some p) = f p

unfoldable pub get_html : Manager → Option Text
unfolding generate_default_html
get_html m = provided (λ p. p.html) (some (generate_default_html m.config)) m.provider

unfoldable pub get_openapi : Files → Manager → Option Text
unfolding load_openapi_file
get_openapi files m = provided (λ p. p.openapi) (some (load_openapi_file files m.config)) m.provider

unfoldable pub get_version : Manager → Option Text
get_version m = provided (λ p. p.version) (some m.config.version) m.provider

unfoldable pub get_info : Manager → DocsInfo
get_info m =
    provided (λ p. p.info)
      (record {
        title = m.config.title;
        description = m.config.description;
        version = m.config.version;
        contact = m.config.contact;
        license = m.config.license;
      })
      m.provider
