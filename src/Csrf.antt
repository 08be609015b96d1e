-- ===== src/Csrf.antt =====
-- The double-submit check of src/common/middleware/csrf.middleware.ts. `decodeURIComponent`, which may
-- throw, and the random token are arguments; header names are in lower case, as Node gives them.
mod Tests
pub mod Words
pub mod Token
pub mod Check
use gbi_backend.Base.{
  ℕ, Bool, true, false, not, ◌&&◌, ◌||◌, Option, none, some, List, [], ◌∷◌, ◌++◌, map, Text,
  text_eq, leb, ◌-◌, ◌==◌, if◌then◌else◌,
}
use gbi_backend.Base.Normal.{lower, trim}
use gbi_backend.Base.Texts.{codes, join}
use gbi_backend.Http.{
  forbidden, internal, csrf_token, malformed_cookie, Action, pure, throw, throw_if, or_throw,
  modify, ◌>>=◌, ◌>>◌,
}

pub data NodeEnv : Type 0 where
  test production development : NodeEnv

pub record Request : Type 0 where
  pub cookie : Option Text
  pub method : Text
  pub url : Text
  pub x_xsrf_token : Option Text
  pub user_agent : Option Text

-- `str.split(separator)`
unfoldable pub split : ℕ → Text → List Text
split sep [] = [] ∷ []
split sep (c ∷ s) =
    let rest = split sep s in
    if c == sep then [] ∷ rest else elim rest [ [] ↦ (c ∷ []) ∷ [] | x ∷ xs ↦ (c ∷ x) ∷ xs ]

abbrev pub is_blank : Text → Bool
is_blank [] = true
is_blank (c ∷ s) = false

abbrev pub equals_sign : ℕ
equals_sign = 61

abbrev pub semicolon : ℕ
semicolon = 59

-- The key and the value of one cookie, before the value is decoded
unfoldable pub key_value : Text → Text × Text
unfolding split
key_value cookie = elim (split equals_sign cookie) [
  | [] ↦ ([], [])
  | key ∷ parts ↦ (trim key, join equals_sign parts)
]

abbrev pub starts_with : Text → Text → Bool
starts_with [] s = true
starts_with (c ∷ t) [] = false
starts_with (c ∷ t) (d ∷ s) = (c == d) && starts_with t s

-- `str.includes(text)`
unfoldable pub includes_text : Text → Text → Bool
includes_text t [] = starts_with t []
includes_text t (c ∷ s) = starts_with t (c ∷ s) || includes_text t s

abbrev pub upper : ℕ → ℕ
upper c = if leb 97 c && leb c 122 then c - 32 else c

-- the paths that are exempt, wherever they stand in the URL
unfoldable pub is_auth_path : Text → Bool
is_auth_path url =
    let u = map lower url in
    includes_text (codes "/auth/login") u
    || includes_text (codes "/auth/signup") u
    || includes_text (codes "/admin/login") u
    || includes_text (codes "/auth/verify-email-otp") u
    || includes_text (codes "/auth/refresh-token") u
    || includes_text (codes "/webhooks/aws-ses") u
    || includes_text (codes "/subscriptions/webhook") u

unfoldable pub is_state_changing : Text → Bool
is_state_changing method =
    let m = map upper method in
    text_eq m (codes "POST")
    || text_eq m (codes "PUT")
    || text_eq m (codes "DELETE")
    || text_eq m (codes "PATCH")

unfoldable pub is_postman : Option Text → Bool
is_postman none = false
is_postman (some agent) = includes_text (codes "postman") (map lower agent)

abbrev pub is_production : NodeEnv → Bool
is_production production = true
is_production _ = false

-- `!headerToken || headerToken !== token`
abbrev pub is_invalid : Option Text → Text → Bool
is_invalid none token = true
is_invalid (some header) token = is_blank header || not (text_eq header token)

abbrev pub new_cookie : NodeEnv → Text → Text
new_cookie env token =
    codes "XSRF-TOKEN="
    ++ (token
        ++ (codes "; Path=/; SameSite=Lax; Max-Age=86400"
            ++ (if is_production env then codes "; Secure" else [])))

module _ (decode : Text → Option Text) where
  -- the loop of `parseCookies`, as the entries in order
  unfoldable pub parse_all : List Text → Option (List (Text × Text))
  unfolding key_value
  parse_all [] = some []
  parse_all (cookie ∷ rest) =
      let (key, raw) = key_value cookie in
      let later = parse_all rest in
      if is_blank key then later else elim (decode raw) [
        | none ↦ none
        | some value ↦ elim later [ none ↦ none | some list ↦ some ((key, value) ∷ list) ]
      ]

  unfoldable pub parse_cookies : Option Text → Option (List (Text × Text))
  unfolding parse_all split
  parse_cookies none = some []
  parse_cookies (some header) =
      if is_blank header then some [] else parse_all (split semicolon header)

-- `list[key]`, where a later entry of the same key replaces an earlier one; a missing one is empty here
abbrev pub value_at : Text → List (Text × Text) → Text → Text
value_at key [] found = found
value_at key (entry ∷ rest) found =
    value_at key rest (if text_eq entry.0 key then entry.1 else found)

-- The token to compare with: the cookie's, or a new one
abbrev pub current_token : List (Text × Text) → Text → Text
current_token cookies random =
    let t = value_at (codes "XSRF-TOKEN") cookies [] in if is_blank t then random else t

module _ (decode : Text → Option Text) (env : NodeEnv) (random : Text) where
  -- the check after the token is known
  unfoldable pub verify_token : Request → Text → Action (List Text) (Unit {0})
  verify_token r token =
      if is_auth_path r.url
      then pure tt
      else if not (is_state_changing r.method)
      then pure tt
      else if is_postman r.user_agent && not (is_production env)
      then pure tt
      else throw_if (is_invalid r.x_xsrf_token token) forbidden csrf_token

  -- the middleware outside of tests; a URIError is answered as an internal error
  unfoldable pub check_request : Request → Action (List Text) (Unit {0})
  unfolding verify_token
  check_request r = do
    cookies ← or_throw (parse_cookies decode r.cookie) internal malformed_cookie
    let found = value_at (codes "XSRF-TOKEN") cookies []
    if is_blank found then modify (λ headers. headers ++ new_cookie env random ∷ []) else pure tt
    verify_token r (current_token cookies random)

  -- The state is the list of `Set-Cookie` headers; a result is a call of `next`.
  unfoldable pub use_middleware : Request → Action (List Text) (Unit {0})
  unfolding check_request
  use_middleware r = elim env [
    | test ↦ pure tt
    | production ↦ check_request r
    | development ↦ check_request r
  ]
