-- ===== src/Http/Cors.antt =====
-- middleware/cors/cors.go, with CORSOptions of ports/ports.go: the options given to the handler of
-- go-chi/cors. That package is an argument: for a request, the headers that it sets, and whether it
-- answers the request itself.
use api_toolkit.Prelude.{Bool, false, String, List, [], ◌∷◌}
use api_toolkit.Prelude.Int.{ℤ, pos}
use api_toolkit.Http.{Request, Headers}

pub record CorsOptions : Type 0 where
  pub allowed_origins : List String
  pub allowed_methods : List String
  pub allowed_headers : List String
  pub allow_credentials : Bool
  pub max_age : ℤ

abbrev pub default_options : CorsOptions
default_options = record {
  allowed_origins = "*" ∷ [];
  allowed_methods = "GET" ∷ "POST" ∷ "PUT" ∷ "DELETE" ∷ "OPTIONS" ∷ [];
  allowed_headers = "Accept" ∷ "Authorization" ∷ "Content-Type" ∷ [];
  allow_credentials = false;
  max_age = pos 300;
}

-- `cors.Options` of go-chi/cors, the fields that are given.
pub record PackageOptions : Type 0 where
  pub allowed_origins : List String
  pub allowed_methods : List String
  pub allowed_headers : List String
  pub allow_credentials : Bool
  pub max_age : ℤ

abbrev pub handler :
    (PackageOptions → Request → Headers × Bool) → CorsOptions → Request → Headers × Bool
handler cors opts = cors (record {
  allowed_origins = opts.allowed_origins;
  allowed_methods = opts.allowed_methods;
  allowed_headers = opts.allowed_headers;
  allow_credentials = opts.allow_credentials;
  max_age = opts.max_age;
})
