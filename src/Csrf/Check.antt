-- ===== src/Csrf/Check.antt =====
-- Which requests src/common/middleware/csrf.middleware.ts lets through.
use gbi_backend.Base.{◌≡◌, ◌≢◌, ◌⊎◌, true, false, Option, some, [], Text, text_eq}
use gbi_backend.Csrf.Words.{IsExempt, IsChanging}
use gbi_backend.Csrf.{Request, is_blank, is_auth_path, is_state_changing}

-- The header repeats the token, and is not empty.
abbrev pub IsRepeated : Option Text → Text → Type 0
IsRepeated header token =
    (t : Text) × (header ≡ some t) × (is_blank t ≡ false) × (text_eq t token ≡ true)

module _ (decode : Text → Option Text) (random : Text) where
  abbrev IsPassed : Request → Text → Type 0
  IsPassed r token =
      (is_auth_path r.url ≡ true)
      ⊎ (is_state_changing r.method ≡ false)
      ⊎ IsRepeated r.x_xsrf_token token

  -- What lets a request pass: an exempt path in its URL, a method that changes nothing, or the
  -- token in its header.
  abbrev pub IsAllowed : Request → Text → Type 0
  IsAllowed r token =
      IsExempt r.url ⊎ (¬ IsChanging r.method) ⊎ ((r.x_xsrf_token ≡ some token) × (token ≢ []))
