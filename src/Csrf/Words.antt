-- ===== src/Csrf/Words.antt =====
-- What the texts of src/common/middleware/csrf.middleware.ts hold: paths, methods and the token.
use gbi_backend.Base.{
  ◌≡◌, ◌⊎◌, ◌↔◌, refl, sym, ap, ◌∙◌, inl, inr, Bool, true, false, ◌||◌, List, [], ◌∷◌, ◌++◌, map,
  Text, text_eq, eq_of_text_eq, Memᴰ, Bool-cases, arith,
}
use gbi_backend.Base.Normal.{lower}
use gbi_backend.Base.Texts.{codes}
use gbi_backend.Csrf.{starts_with, includes_text, upper, is_auth_path, is_state_changing}

starts_with-append : (p t : Text) → starts_with p (p ++ t) ≡ true
starts_with-append [] t = refl
starts_with-append (c ∷ p) t = let more = starts_with-append p t in ground arith

starts_with_rest : (p s : Text) → starts_with p s ≡ true → (after : Text) × (s ≡ p ++ after)
starts_with_rest [] s h = (s, refl)
starts_with_rest (c ∷ p) [] h = absurd (ground arith)
starts_with_rest (c ∷ p) (d ∷ s) h =
    let (after, e) = starts_with_rest p s (ground arith) in
    let same : d ≡ c = ground arith in (after, rw e (ap (λ x. x ∷ (p ++ after)) same))

-- The text stands somewhere in the other.
abbrev pub IsWithin : Text → Text → Type 0
IsWithin p s = (before : Text) × (after : Text) × (s ≡ before ++ (p ++ after))

includes_text-IsWithin : (p s : Text) → includes_text p s ≡ true → IsWithin p s
unfolding includes_text
includes_text-IsWithin p [] h = let (after, e) = starts_with_rest p [] h in ([], after, e)
includes_text-IsWithin p (c ∷ s) h = elim (Bool-cases (starts_with p (c ∷ s))) [
  | inl k ↦ let (after, e) = starts_with_rest p (c ∷ s) k in ([], after, e)
  | inr k ↦
      let (before, after, e) = includes_text-IsWithin p s (rw k at h) in
      (c ∷ before, after, ap (λ t. c ∷ t) e)
]

includes_text-append : (p before after : Text) → includes_text p (before ++ (p ++ after)) ≡ true
unfolding includes_text
includes_text-append [] [] [] = refl
includes_text-append [] [] (c ∷ t) = refl
includes_text-append (c ∷ p) [] after = let k = starts_with-append (c ∷ p) after in ground arith
includes_text-append p (c ∷ before) after =
    let more = includes_text-append p before after in
    elim (Bool-cases (starts_with p (c ∷ (before ++ (p ++ after))))) [
      | inl k ↦ rw k refl
      | inr k ↦ rw k more
    ]

-- The URL, in lower case, holds one of the exempt paths.
abbrev pub exempt_paths : List Text
exempt_paths =
    codes "/auth/login"
    ∷ codes "/auth/signup"
    ∷ codes "/admin/login"
    ∷ codes "/auth/verify-email-otp"
    ∷ codes "/auth/refresh-token"
    ∷ codes "/webhooks/aws-ses"
    ∷ codes "/subscriptions/webhook"
    ∷ []

abbrev pub IsExempt : Text → Type 0
IsExempt url = (path : Text) × Memᴰ path exempt_paths × IsWithin path (map lower url)

abbrev holds_one : List Text → Text → Bool
holds_one [] u = false
holds_one (p ∷ rest) u = let later = holds_one rest u in includes_text p u || later

holds_one_found :
    (paths : List Text) (u : Text)
    → holds_one paths u ≡ true
    → (path : Text) × Memᴰ path paths × IsWithin path u
holds_one_found [] u h = absurd (ground arith)
holds_one_found (p ∷ rest) u h = elim (Bool-cases (includes_text p u)) [
  | inl k ↦ (p, Memᴰ.head refl, includes_text-IsWithin p u k)
  | inr k ↦ let (path, m, w) = holds_one_found rest u (rw k at h) in (path, Memᴰ.tail m, w)
]

holds_one_member :
    (paths : List Text) (path u : Text)
    → Memᴰ path paths
    → IsWithin path u
    → holds_one paths u ≡ true
holds_one_member [] path u m w = elim m [ ]
holds_one_member (p ∷ rest) path u (Memᴰ.head e) (before, after, q) =
    let k : includes_text p u ≡ true = rw (q, e) (includes_text-append p before after) in rw k refl
holds_one_member (p ∷ rest) path u (Memᴰ.tail m) w =
    let more = holds_one_member rest path u m w in ground arith

or_nest :
    (a b c d e f g : Bool)
    → (a || b || c || d || e || f || g) ≡ (a || (b || (c || (d || (e || (f || (g || false)))))))
or_nest true b c d e f g = refl
or_nest false true c d e f g = refl
or_nest false false true d e f g = refl
or_nest false false false true e f g = refl
or_nest false false false false true f g = refl
or_nest false false false false false true g = refl
or_nest false false false false false false true = refl
or_nest false false false false false false false = refl

is_auth_path-holds_one : (url : Text) → is_auth_path url ≡ holds_one exempt_paths (map lower url)
unfolding is_auth_path
is_auth_path-holds_one url =
    let holds : Text → Bool = λ p. includes_text p (map lower url) in
    or_nest (holds (codes "/auth/login")) (holds (codes "/auth/signup"))
      (holds (codes "/admin/login")) (holds (codes "/auth/verify-email-otp"))
      (holds (codes "/auth/refresh-token")) (holds (codes "/webhooks/aws-ses"))
      (holds (codes "/subscriptions/webhook"))

pub is_auth_path_iff : (url : Text) → (is_auth_path url ≡ true) ↔ IsExempt url
is_auth_path_iff url =
    let q = is_auth_path-holds_one url in
    (
      λ h. holds_one_found exempt_paths (map lower url) (sym q ∙ h),
      λ (path, m, w). q ∙ holds_one_member exempt_paths path (map lower url) m w,
    )

-- A method that changes state
abbrev pub IsChanging : Text → Type 0
IsChanging method =
    (map upper method ≡ codes "POST")
    ⊎ (map upper method ≡ codes "PUT")
    ⊎ (map upper method ≡ codes "DELETE")
    ⊎ (map upper method ≡ codes "PATCH")

pub is_state_changing_iff : (method : Text) → (is_state_changing method ≡ true) ↔ IsChanging method
unfolding is_state_changing text_eq
is_state_changing_iff method = (there, back)
  where
    there : is_state_changing method ≡ true → IsChanging method
    there h = elim (Bool-cases (text_eq (map upper method) (codes "POST"))) [
      | inl a ↦ inl (eq_of_text_eq (map upper method) (codes "POST") a)
      | inr a ↦ elim (Bool-cases (text_eq (map upper method) (codes "PUT"))) [
        | inl b ↦ inr (inl (eq_of_text_eq (map upper method) (codes "PUT") b))
        | inr b ↦ elim (Bool-cases (text_eq (map upper method) (codes "DELETE"))) [
          | inl c ↦ inr (inr (inl (eq_of_text_eq (map upper method) (codes "DELETE") c)))
          | inr c ↦
              inr (inr (inr (eq_of_text_eq (map upper method) (codes "PATCH") (rw (a, b, c) at h))))
        ]
      ]
    ]

    back : IsChanging method → is_state_changing method ≡ true
    back (inl e) = rw e refl
    back (inr (inl e)) = rw e refl
    back (inr (inr (inl e))) = rw e refl
    back (inr (inr (inr e))) = rw e refl
