-- ===== src/Reports/Jobs.antt =====
-- The jobs of src/reports/reports.service.ts (getReportStatus) and the cleanup of
-- src/reports/reports.scheduler.ts.
use gbi_backend.Base.{◌≤◌}
use gbi_backend.Base.{◌<◌}
use gbi_backend.Base.{
  ℕ, ◌≡◌, ◌≢◌, ◌↔◌, ◌⊎◌, refl, inl, inr, Bool, true, none, some, List, [], ◌∷◌, Memᴰ, All,
  All-member, All-of_members, All-remove_where, All-remove_where_kept, remove_where,
  member-remove_where, Distinct, Distinct-eq, Bool-cases, Option-cases, arith,
}
use gbi_backend.Http.{ok}
use gbi_backend.Prisma.{Prisma}
use gbi_backend.Reports.{
  GeneratedReport, Job, JobState, State, Status, has_report_id, has_job_id, is_expired,
  get_report_status, clean, clean_all, cleanup_expired_reports,
}

module _ (db : Prisma) where
  -- What a completed report needs
  unfoldable pub IsReady : (user_id job_id key : ℕ) → State → Type 0
  IsReady user_id job_id key s =
      (r : GeneratedReport) × (db.find_first (has_report_id job_id) s.reports ≡ some r)
      × (r.user_id ≡ user_id)
      × (r.file_key ≡ some key)
      × ((db.find_first (has_job_id job_id) s.jobs ≡ none)
          ⊎ ((job : Job) × (db.find_first (has_job_id job_id) s.jobs ≡ some job)
              × (job.state ≡ JobState.completed)))

  -- The status of a report is completed, with a file, exactly where the report is found, belongs
  -- to the user and has that file, and its job is gone from the queue or completed.
  pub get_report_status_iff :
      (user_id job_id key : ℕ) (s : State)
      → ((get_report_status db user_id job_id s).0 ≡ ok (Status.completed key))
        ↔ IsReady user_id job_id key s
  unfolding get_report_status IsReady
  get_report_status_iff user_id job_id key s = (there, back)
    where
      there :
          (get_report_status db user_id job_id s).0 ≡ ok (Status.completed key)
          → IsReady user_id job_id key s
      there h = elim (Option-cases (db.find_first (has_report_id job_id) s.reports)) [
        | inl e ↦ absurd (ground arith)
        | inr (r, e) ↦ elim (Option-cases (db.find_first (has_job_id job_id) s.jobs)) [
          | inl f ↦ (r, e, ground arith, ground arith, inl f)
          | inr (job, f) ↦ (r, e, ground arith, ground arith, inr (job, f, ground arith))
        ]
      ]

      back :
          IsReady user_id job_id key s
          → (get_report_status db user_id job_id s).0 ≡ ok (Status.completed key)
      back (r, e, own, k, inl f) = ground arith
      back (r, e, own, k, inr (job, f, done)) = ground arith

  module _ (refuses : ℕ → Bool) where
    -- The file system keeps the report's file.
    abbrev pub IsRefused : GeneratedReport → Type 0
    IsRefused r = (key : ℕ) × (r.file_key ≡ some key) × (refuses key ≡ true)

    -- A round deletes the report's row, unless its file stays.
    clean_outcomes :
        (r : GeneratedReport) (s : State)
        → (((clean db refuses r s).reports ≡ remove_where (has_report_id r.id) s.reports))
          ⊎ (IsRefused r × ((clean db refuses r s).reports ≡ s.reports))
    unfolding clean
    clean_outcomes r s = elim (Option-cases r.file_key) [
      | inl e ↦ inl (ground (arith, db.delete_many_lem (has_report_id r.id) s.reports))
      | inr (key, e) ↦ elim (Bool-cases (refuses key)) [
        | inl k ↦ inr ((key, e, k), ground arith)
        | inr k ↦ inl (ground (arith, db.delete_many_lem (has_report_id r.id) s.reports))
      ]
    ]

    clean_all-All :
        (P : GeneratedReport → Type 0) (rs : List GeneratedReport) (s : State)
        → All P s.reports
        → All P (clean_all db refuses rs s).reports
    unfolding clean_all
    clean_all-All P [] s h = h
    clean_all-All P (r ∷ rest) s h =
        clean_all-All P rest (clean db refuses r s) (elim (clean_outcomes r s) [
          | inl e ↦ rw e (All-remove_where P (has_report_id r.id) s.reports h)
          | inr (k, e) ↦ rw e h
        ])

    clean_all-member :
        (rs : List GeneratedReport) (s : State) (r : GeneratedReport)
        → All (λ x. x.id ≢ r.id) rs
        → Memᴰ r s.reports
        → Memᴰ r (clean_all db refuses rs s).reports
    unfolding clean_all
    clean_all-member [] s r h m = m
    clean_all-member (x ∷ rest) s r (d, h) m =
        clean_all-member rest (clean db refuses x s) r h (elim (clean_outcomes x s) [
          | inl e ↦ rw e (member-remove_where (has_report_id x.id) s.reports r m (ground arith))
          | inr (k, e) ↦ rw e m
        ])

    -- A report of the list leaves no row with its id, or it was refused.
    clean_all-gone :
        (rs : List GeneratedReport) (s : State) (r : GeneratedReport)
        → Memᴰ r rs
        → IsRefused r ⊎ All (λ y. y.id ≢ r.id) (clean_all db refuses rs s).reports
    unfolding clean_all
    clean_all-gone [] s r m = elim m [ ]
    clean_all-gone (x ∷ rest) s r (Memᴰ.tail m) = clean_all-gone rest (clean db refuses x s) r m
    clean_all-gone (x ∷ rest) s r (Memᴰ.head same) = elim (clean_outcomes x s) [
      | inr (k, e) ↦ inl (rw same k)
      | inl e ↦ inr (
          clean_all-All (λ y. y.id ≢ r.id) rest (clean db refuses x s)
            (rw e (
              All-remove_where_kept (λ y. Unit {0}) (λ y. y.id ≢ r.id) (has_report_id x.id)
                s.reports (λ y u k q. absurd (ground arith))
                (All-of_members (λ y. Unit {0}) s.reports (λ y n. tt)))))
    ]

    -- Where report ids are unique, after a cleanup an expired report is left only where the file
    -- system refused to delete its file, and every report that has not expired is left.
    pub cleanup_expired_reports_exact :
        (now : ℕ) (s : State)
        → Distinct (λ (r : GeneratedReport). r.id) s.reports
        → All
            (λ r. r.expires_at < now → IsRefused r)
            (cleanup_expired_reports db refuses now s).reports
          × ((r : GeneratedReport)
              → Memᴰ r s.reports
              → now ≤ r.expires_at
              → Memᴰ r (cleanup_expired_reports db refuses now s).reports)
    unfolding cleanup_expired_reports
    cleanup_expired_reports_exact now s uniq =
        let expired = db.find_many (is_expired now) s.reports in
        (
          All-of_members (λ r. r.expires_at < now → IsRefused r)
              (clean_all db refuses expired s).reports
              (λ r m old.
                elim (clean_all-gone expired s r (
                  db.find_many_complete (is_expired now) s.reports r (was r m)
                    (unfold_old r old))) [
                      | inl k ↦ k
                      | inr h ↦ absurd (
                          All-member (λ y. y.id ≢ r.id) (clean_all db refuses expired s).reports r h
                            m refl)
                    ]),
          λ r m young.
              clean_all-member expired s r
                (All-of_members (λ x. x.id ≢ r.id) expired
                  (λ x n same.
                    let (old, mx) = db.find_many_sound (is_expired now) s.reports x n in
                    let q : x ≡ r =
                      Distinct-eq (λ (r : GeneratedReport). r.id) s.reports x r uniq mx m same in
                    absurd (ground arith)))
                m,
        )
      where
        unfold_old : (r : GeneratedReport) → r.expires_at < now → is_expired now r ≡ true
        unfold_old r old = ground arith

        was :
            (r : GeneratedReport)
            → Memᴰ r (clean_all db refuses (db.find_many (is_expired now) s.reports) s).reports
            → Memᴰ r s.reports
        was r m =
            All-member (λ y. Memᴰ y s.reports) _ r
              (clean_all-All (λ y. Memᴰ y s.reports) (db.find_many (is_expired now) s.reports) s
                (All-of_members (λ y. Memᴰ y s.reports) s.reports (λ y n. n)))
              m
