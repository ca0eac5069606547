-- ===== src/Cors.antt =====
-- cors/cors.go, a second package of the same handler as middleware/cors/cors.go.
use api_toolkit.Prelude.{◌≡◌, refl, Bool, false, [], ◌∷◌}
use api_toolkit.Prelude.Int.{pos}
use api_toolkit.Http.{Request, Headers}
use api_toolkit.Http.Cors
use api_toolkit.Http.Cors.{CorsOptions, PackageOptions}

unfoldable pub default_options : CorsOptions
default_options = record {
  allowed_origins = "*" ∷ [];
  allowed_methods = "GET" ∷ "POST" ∷ "PUT" ∷ "DELETE" ∷ "OPTIONS" ∷ [];
  allowed_headers = "Accept" ∷ "Authorization" ∷ "Content-Type" ∷ [];
  allow_credentials = false;
  max_age = pos 300;
}

unfoldable pub handler :
    (PackageOptions → Request → Headers × Bool) → CorsOptions → Request → Headers × Bool
handler cors opts = cors (record {
  allowed_origins = opts.allowed_origins;
  allowed_methods = opts.allowed_methods;
  allowed_headers = opts.allowed_headers;
  allow_credentials = opts.allow_credentials;
  max_age = opts.max_age;
})

-- With their default options both packages give the same handler.
pub handler-Cors :
    (cors : PackageOptions → Request → Headers × Bool)
    → handler cors default_options ≡ Cors.handler cors Cors.default_options
unfolding handler default_options
handler-Cors cors = refl
