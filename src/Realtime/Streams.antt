-- ===== src/Realtime/Streams.antt =====
-- The streams that a user leaves open, where each is opened once: src/realtime/sse.service.ts.
use gbi_backend.Base.{
  ℕ, ◌≡◌, ◌≢◌, refl, sym, subst, ap, inl, inr, Bool, List, [], ◌∷◌, ◌++◌, All, Distinct, Bool-cases,
  arith, ◌==◌, remove_where, if◌then◌else◌,
}
use mathlib.Core.List.{append_assoc}
use gbi_backend.Realtime.{SseCall, adding, removing, without_first}

-- The streams of one user, from the calls alone: those of other users play no part.
unfoldable pub open_streams : ℕ → List SseCall → List ℕ → List ℕ
open_streams user_id [] streams = streams
open_streams user_id (adding u res ∷ rest) streams =
    open_streams user_id rest (if u == user_id then streams ++ res ∷ [] else streams)
open_streams user_id (removing u res ∷ rest) streams =
    open_streams user_id rest
      (if u == user_id then remove_where (λ r. r == res) streams else streams)

-- The streams that the calls of one user open
unfoldable pub opened : ℕ → List SseCall → List ℕ
opened user_id [] = []
opened user_id (adding u res ∷ rest) =
    let later = opened user_id rest in if u == user_id then res ∷ later else later
opened user_id (removing u res ∷ rest) = opened user_id rest

-- The same streams, with the first one removed where it is closed
unfoldable pub spliced : ℕ → List SseCall → List ℕ → List ℕ
spliced user_id [] streams = streams
spliced user_id (adding u res ∷ rest) streams =
    spliced user_id rest (if u == user_id then streams ++ res ∷ [] else streams)
spliced user_id (removing u res ∷ rest) streams =
    spliced user_id rest (if u == user_id then without_first res streams else streams)

abbrev pub AreApart : List ℕ → Type 0
AreApart = Distinct (λ (r : ℕ). r)

remove_where-absent :
    (res : ℕ) (xs t : List ℕ) → All (λ y. res ≢ y) (xs ++ t) → remove_where (λ r. r == res) xs ≡ xs
remove_where-absent res [] t h = refl
remove_where-absent res (x ∷ xs) t (h, k) = elim (Bool-cases (x == res)) [
  | inl e ↦ absurd (h (ground arith))
  | inr e ↦ rw e (ap (λ l. x ∷ l) (remove_where-absent res xs t k))
]

without_first-remove_where :
    (res : ℕ) (xs t : List ℕ)
    → AreApart (xs ++ t)
    → without_first res xs ≡ remove_where (λ r. r == res) xs
without_first-remove_where res [] t d = refl
without_first-remove_where res (x ∷ xs) t (h, d) = elim (Bool-cases (x == res)) [
  | inl e ↦
      let same : x ≡ res = ground arith in
      rw e (sym (remove_where-absent res xs t (subst (λ y. All (λ z. y ≢ z) (xs ++ t)) same h)))
  | inr e ↦ rw e (ap (λ l. x ∷ l) (without_first-remove_where res xs t d))
]

All-remove_where :
    (P : ℕ → Type 0) (p : ℕ → Bool) (xs t : List ℕ)
    → All P (xs ++ t)
    → All P (remove_where p xs ++ t)
All-remove_where P p [] t h = h
All-remove_where P p (x ∷ xs) t (h, k) = elim (Bool-cases (p x)) [
  | inl e ↦ rw e (All-remove_where P p xs t k)
  | inr e ↦ rw e (h, All-remove_where P p xs t k)
]

AreApart-remove_where :
    (p : ℕ → Bool) (xs t : List ℕ) → AreApart (xs ++ t) → AreApart (remove_where p xs ++ t)
AreApart-remove_where p [] t d = d
AreApart-remove_where p (x ∷ xs) t (h, d) = elim (Bool-cases (p x)) [
  | inl e ↦ rw e (AreApart-remove_where p xs t d)
  | inr e ↦ rw e (All-remove_where (λ y. x ≢ y) p xs t h, AreApart-remove_where p xs t d)
]

-- Where each stream is opened once, closing one removes just that one.
pub spliced-open_streams :
    (u : ℕ) (calls : List SseCall) (streams : List ℕ)
    → AreApart (streams ++ opened u calls)
    → spliced u calls streams ≡ open_streams u calls streams
unfolding spliced open_streams opened
spliced-open_streams u [] streams d = refl
spliced-open_streams u (adding v res ∷ rest) streams d = elim (Bool-cases (v == u)) [
  | inl e ↦ rw e (
      spliced-open_streams u rest (streams ++ res ∷ [])
        (subst AreApart (sym (append_assoc streams (res ∷ []) (opened u rest))) (rw e at d)))
  | inr e ↦ rw e (spliced-open_streams u rest streams (rw e at d))
]
spliced-open_streams u (removing v res ∷ rest) streams d = elim (Bool-cases (v == u)) [
  | inl e ↦
      rw (e, without_first-remove_where res streams (opened u rest) d)
        (spliced-open_streams u rest (remove_where (λ r. r == res) streams)
          (AreApart-remove_where (λ r. r == res) streams (opened u rest) d))
  | inr e ↦ rw e (spliced-open_streams u rest streams d)
]
