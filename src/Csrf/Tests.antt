-- ===== src/Csrf/Tests.antt =====
-- Runs of the check of src/common/middleware/csrf.middleware.ts.
use gbi_backend.Base.{◌≡◌, refl, Option, none, some, List, [], ◌∷◌, Text, text_eq}
use gbi_backend.Base.Texts.{codes, join}
use gbi_backend.Base.Normal.{trim}
use gbi_backend.Http.{ok, err, forbidden, csrf_token}
use gbi_backend.Csrf.{
  production, Request, includes_text, is_auth_path, is_state_changing, is_postman, parse_cookies,
  use_middleware,
}

abbrev plainly : Text → Option Text
plainly t = some t

abbrev cookies : List (Text × Text)
cookies = (codes "theme", codes "a=b") ∷ (codes "XSRF-TOKEN", codes "k9") ∷ []

abbrev request : Text → Option Text → Request
request url header = record {
  cookie = some (codes "theme=a=b; XSRF-TOKEN=k9");
  method = codes "post";
  url = url;
  x_xsrf_token = header;
  user_agent = none;
}

refused_runs :
    (use_middleware plainly production
      (codes "r")
      (request (codes "/devices/claim") (some (codes "k8")))
      []).0
    ≡ err forbidden csrf_token
unfolding use_middleware parse_cookies join is_auth_path is_state_changing is_postman includes_text
    text_eq trim
refused_runs = refl

-- The exempt paths are looked for in the query too.
exempt_runs :
    (use_middleware plainly production
      (codes "r")
      (request (codes "/devices/claim?next=/auth/login") none)
      []).0
    ≡ ok tt
unfolding use_middleware parse_cookies join is_auth_path is_state_changing is_postman includes_text
    text_eq trim
exempt_runs = refl
