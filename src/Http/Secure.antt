-- ===== src/Http/Secure.antt =====
-- secure/secure.go, a second package of the same handler as middleware/secure/secure.go.
use api_toolkit.Prelude.{◌≡◌, refl, if◌then◌else◌, codes}
use api_toolkit.Http.{Request, World, Handler, set_header}
use api_toolkit.Http.Guards.{secure}

unfoldable pub middleware : Handler → Handler
middleware next r w =
    let w1 = set_header "X-Content-Type-Options" (codes "nosniff") w in
    let w2 = set_header "X-Frame-Options" (codes "DENY") w1 in
    let w3 = set_header "Referrer-Policy" (codes "no-referrer") w2 in
    let w4 =
      set_header "Content-Security-Policy" (codes "default-src 'none'; frame-ancestors 'none'")
        w3 in
    let w5 =
      set_header "Strict-Transport-Security" (codes "max-age=31536000; includeSubDomains") w4 in
    next r (if r.tls then w5 else w4)

-- Both packages give the same handler.
pub middleware-secure :
    (next : Handler) (r : Request) (w : World) → middleware next r w ≡ secure next r w
unfolding middleware secure
middleware-secure next r w = refl
