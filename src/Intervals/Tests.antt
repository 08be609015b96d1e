-- ===== src/Intervals/Tests.antt =====
-- Runs of autoInterval (src/telemetry/telemetry-query.service.ts).
use gbi_backend.Base.{[], ◌∷◌, ◌≡◌, refl, arith}
use gbi_backend.Intervals.{distance, snap, auto_interval, auto_interval-IsNearest, IsNearest, gap}

-- A week has buckets of two hours.
week_runs : auto_interval 0 604800000 ≡ 120
unfolding auto_interval snap distance
week_runs = refl

auto_interval-IsNearest_example :
    IsNearest
      (gap 0 604800000)
      (1 ∷ 2 ∷ 3 ∷ 5 ∷ 10 ∷ 15 ∷ 30 ∷ 60 ∷ 120 ∷ 180 ∷ 240 ∷ 360 ∷ 720 ∷ 1440 ∷ 2880 ∷ 4320 ∷ 10080
        ∷ 43200 ∷ [])
      (auto_interval 0 604800000)
auto_interval-IsNearest_example = auto_interval-IsNearest 0 604800000 (omega arith)
