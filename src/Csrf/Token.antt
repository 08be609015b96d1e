-- ===== src/Csrf/Token.antt =====
-- The token that src/common/middleware/csrf.middleware.ts compares with.
use gbi_backend.Base.{
  ◌≡◌, ◌≢◌, ◌⊎◌, refl, ap, ◌∙◌, inl, inr, List, [], ◌∷◌, ◌++◌, Text, text_eq, text_eq_refl,
  eq_of_text_eq, All, Bool-cases, if◌then◌else◌,
}
use gbi_backend.Base.Texts.{codes}
use gbi_backend.Csrf.{value_at, current_token}

abbrev pub IsUnnamed : Text → List (Text × Text) → Type 0
IsUnnamed key entries = All (λ (e : Text × Text). e.0 ≢ key) entries

-- The last cookie with the name has the value.
abbrev pub IsLast : Text → Text → List (Text × Text) → Type 0
IsLast key value cookies =
    (before : List (Text × Text)) × (after : List (Text × Text)) × (cookies
      ≡ before ++ (key, value) ∷ after)
    × IsUnnamed key after

-- The token is that of the last cookie XSRF-TOKEN, and the new one where there is no such cookie or
-- it is empty.
abbrev pub IsToken : List (Text × Text) → Text → Text → Type 0
IsToken cookies random token =
    ((token ≢ []) × IsLast (codes "XSRF-TOKEN") token cookies)
    ⊎ ((token ≡ random)
        × (IsUnnamed (codes "XSRF-TOKEN") cookies ⊎ IsLast (codes "XSRF-TOKEN") [] cookies))

value_at-unnamed :
    (key : Text) (entries : List (Text × Text)) (found : Text)
    → IsUnnamed key entries
    → value_at key entries found ≡ found
value_at-unnamed key [] found h = refl
value_at-unnamed key (x ∷ rest) found (h, k) = elim (Bool-cases (text_eq x.0 key)) [
  | inl e ↦ absurd (h (eq_of_text_eq x.0 key e))
  | inr e ↦ rw e (value_at-unnamed key rest found k)
]

value_at-last :
    (key value : Text) (before after : List (Text × Text)) (found : Text)
    → IsUnnamed key after
    → value_at key (before ++ (key, value) ∷ after) found ≡ value
value_at-last key value [] after found h =
    ap (λ b. value_at key after (if b then value else found)) (text_eq_refl key)
    ∙ value_at-unnamed key after value h
value_at-last key value (x ∷ before) after found h =
    value_at-last key value before after (if text_eq x.0 key then x.1 else found) h

-- The middleware compares with this token.
pub current_token_lem :
    (cookies : List (Text × Text)) (random token : Text)
    → IsToken cookies random token
    → current_token cookies random ≡ token
current_token_lem cookies random [] (inl (filled, last)) = absurd (filled refl)
current_token_lem cookies random (c ∷ t) (inl (filled, (before, after, e, h))) =
    rw (e, value_at-last (codes "XSRF-TOKEN") (c ∷ t) before after [] h) refl
current_token_lem cookies random token (inr (new, inl h)) =
    rw (value_at-unnamed (codes "XSRF-TOKEN") cookies [] h, new) refl
current_token_lem cookies random token (inr (new, inr (before, after, e, h))) =
    rw (e, value_at-last (codes "XSRF-TOKEN") [] before after [] h, new) refl
