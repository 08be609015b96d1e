-- ===== src/Intervals.antt =====
-- The size of the buckets of a chart: autoInterval in src/telemetry/telemetry-query.service.ts. The
-- quotients of that code are in units of 1/6000000, so that a range in milliseconds is exact.
mod Tests
use gbi_backend.Base.{
  ℕ, ◌+◌, ◌-◌, ◌*◌, ◌≤◌, ◌<◌, ◌≡◌, refl, inl, inr, Bool, true, false, List, [], ◌∷◌, All, sym,
  subst, All-imp, Memᴰ, Bool-cases, arith, ltb, leb, if◌then◌else◌,
}

-- `buckets` in minutes, after the first one, and all of them
abbrev pub later_buckets : List ℕ
later_buckets =
    2 ∷ 3 ∷ 5 ∷ 10 ∷ 15 ∷ 30 ∷ 60 ∷ 120 ∷ 180 ∷ 240 ∷ 360 ∷ 720 ∷ 1440 ∷ 2880 ∷ 4320 ∷ 10080 ∷ 43200
    ∷ []

abbrev pub buckets : List ℕ
buckets = 1 ∷ later_buckets

-- `Math.abs`
abbrev pub apart : ℕ → ℕ → ℕ
apart a b = if leb a b then b - a else a - b

-- `Math.abs(bucket - rawInterval)`
unfoldable pub distance : ℕ → ℕ → ℕ
distance range bucket = apart (bucket * 6000000) range

-- the loop over the buckets: the best one so far, with its distance
unfoldable pub snap : (range : ℕ) → List ℕ → (snapped min_diff : ℕ) → ℕ
snap range [] snapped min_diff = snapped
snap range (b ∷ rest) snapped min_diff =
    let nearer = ltb (distance range b) min_diff in
    snap range rest (if nearer then b else snapped) (if nearer then distance range b else min_diff)

-- `autoInterval` of a start and an end, in milliseconds
unfoldable pub auto_interval : (start end : ℕ) → ℕ
unfolding snap
auto_interval start end =
    let range = apart start end in
    if leb range (15 * 60000) then 1 else snap range later_buckets 1 (distance range 1)

-- The gap between two numbers, whichever is larger
abbrev pub gap : ℕ → ℕ → ℕ
gap a b = (a - b) + (b - a)

apart-gap : (a b : ℕ) → apart a b ≡ gap a b
apart-gap a b = elim (Bool-cases (leb a b)) [
  | inl e ↦ rw e (ground arith)
  | inr e ↦ rw e (ground arith)
]

le_of_eqs : {a b c d : ℕ} → a ≡ b → c ≡ d → a ≤ c → b ≤ d
le_of_eqs p q h = rw (← p, ← q) h

distance-gap : (range bucket : ℕ) → distance range bucket ≡ gap (100 * (bucket * 60000)) range
unfolding distance
distance-gap range bucket = elim (Bool-cases (leb (bucket * 6000000) range)) [
  | inl e ↦ rw e (ground arith)
  | inr e ↦ rw e (ground arith)
]

-- A bucket of the list, and a hundred of none of the list are nearer to the range.
abbrev pub IsNearest : ℕ → List ℕ → ℕ → Type 0
IsNearest range list x =
    Memᴰ x list × All (λ b. gap (100 * (x * 60000)) range ≤ gap (100 * (b * 60000)) range) list

-- A bucket of the list, and none of the list is nearer.
abbrev pub IsBest : ℕ → List ℕ → ℕ → Type 0
IsBest range list x = Memᴰ x list × All (λ b. distance range x ≤ distance range b) list

second : {x y z : ℕ} {t : List ℕ} → Memᴰ x (y ∷ t) → Memᴰ x (y ∷ z ∷ t)
second (Memᴰ.head q) = Memᴰ.head q
second (Memᴰ.tail m) = Memᴰ.tail (Memᴰ.tail m)

-- The loop gives the bucket that it had or one of the list, and none of these is nearer.
snap-IsBest :
    (range : ℕ) (list : List ℕ) (snapped : ℕ)
    → IsBest range (snapped ∷ list) (snap range list snapped (distance range snapped))
unfolding snap
snap-IsBest range [] snapped = (Memᴰ.head refl, (omega arith, tt))
snap-IsBest range (b ∷ rest) snapped =
    elim (Bool-cases (ltb (distance range b) (distance range snapped))) [
      | inl e ↦
          let (m, (near, all)) = snap-IsBest range rest b in
          let q : snap range (b ∷ rest) snapped (distance range snapped)
              ≡ snap range rest b (distance range b) =
            rw e in
          subst (IsBest range (snapped ∷ b ∷ rest)) (sym q)
            (Memᴰ.tail m, (ground arith, (near, all)))
      | inr e ↦
          let (m, (near, all)) = snap-IsBest range rest snapped in
          let q : snap range (b ∷ rest) snapped (distance range snapped)
              ≡ snap range rest snapped (distance range snapped) =
            rw e in
          subst (IsBest range (snapped ∷ b ∷ rest)) (sym q) (second m, (near, (ground arith, all)))
    ]

-- The interval of a range of more than 15 minutes is one of the eighteen buckets, from 1 to
-- 43200 minutes, and no bucket is nearer to a hundredth of the range.
pub auto_interval-IsNearest :
    (start end : ℕ)
    → 15 * 60000 < gap start end
    → IsNearest
        (gap start end)
        (1 ∷ 2 ∷ 3 ∷ 5 ∷ 10 ∷ 15 ∷ 30 ∷ 60 ∷ 120 ∷ 180 ∷ 240 ∷ 360 ∷ 720 ∷ 1440 ∷ 2880 ∷ 4320
          ∷ 10080 ∷ 43200 ∷ [])
        (auto_interval start end)
unfolding auto_interval
auto_interval-IsNearest start end h =
    let g : apart start end ≡ gap start end = apart-gap start end in
    let e : leb (apart start end) (15 * 60000) ≡ false = ground arith in
    let (m, near) = snap-IsBest (apart start end) later_buckets 1 in
    rw (e, ← g)
      (
        m,
        All-imp
            (λ b.
              distance (apart start end)
                (snap (apart start end) later_buckets 1 (distance (apart start end) 1))
              ≤ distance (apart start end) b)
            (λ b.
              gap
                (100
                  * (snap (apart start end) later_buckets 1 (distance (apart start end) 1) * 60000))
                (apart start end)
              ≤ gap (100 * (b * 60000)) (apart start end))
            buckets
            (λ b h.
              le_of_eqs (distance-gap (apart start end) _) (distance-gap (apart start end) b) h)
            near,
      )
