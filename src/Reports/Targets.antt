-- ===== src/Reports/Targets.antt =====
-- What a report is about (backend/src/reports/reports.service.ts).
use event_now.Prelude.{
  ℕ, ◌≡◌, ◌⊎◌, refl, sym, ◌∙◌, ap, subst, Bool, true, not, ◌&&◌, Option, none, some, is_id, is_some,
  if◌then◌else◌, Option-cases, Bool-cases, inl, inr, arith,
}
use event_now.Prelude.Outcome.{ok, err, final}
use event_now.Prisma.{Prisma}
use event_now.Prisma.Laws.{find_unique-create_self}
use event_now.Http.{HttpException, conflict, bad_request, not_found}
use event_now.Http
use event_now.Database.{Db, Report, ReportType, ReportStatus}
use event_now.Reports.{
  CreateReportDto, is_user_report, same_type, same_id, clashes, new_report, handle, create_report,
  find_target, create_row, update_report_status,
}

-- A report names a target of its type and no other, and nobody reports herself.
abbrev pub has_target : Report → Bool
has_target r =
    if is_user_report r.type
    then is_some r.target_user_id
      && not (is_some r.target_event_id)
      && not (is_id r.target_user_id r.reporter_id)
    else not (is_some r.target_user_id) && is_some r.target_event_id

same_type_self : (t : ReportType) → same_type t t ≡ true
same_type_self ReportType.user = refl
same_type_self ReportType.event = refl

same_id_self : (o : Option ℕ) → is_some o ≡ true → same_id o o ≡ true
same_id_self none h = absurd (ground arith)
same_id_self (some k) h = ground arith

same_type_sym : (a b : ReportType) → same_type a b ≡ same_type b a
same_type_sym ReportType.user ReportType.user = refl
same_type_sym ReportType.user ReportType.event = refl
same_type_sym ReportType.event ReportType.user = refl
same_type_sym ReportType.event ReportType.event = refl

same_id_sym : (a b : Option ℕ) → same_id a b ≡ same_id b a
same_id_sym none none = refl
same_id_sym none (some b) = refl
same_id_sym (some a) none = refl
same_id_sym (some a) (some b) = ground arith

clashes_sym : (r s : Report) → clashes r s ≡ clashes s r
clashes_sym r s = ground (
  arith,
  same_type_sym r.type s.type,
  same_id_sym r.target_user_id s.target_user_id,
  same_id_sym r.target_event_id s.target_event_id,
)

clashes_self : (r : Report) → has_target r ≡ true → clashes r r ≡ true
clashes_self r h =
    ground
      (arith, same_type_self r.type, same_id_self r.target_user_id, same_id_self r.target_event_id)

module _ (p : Prisma) where
  modified :
      (i k : ℕ) (status : ReportStatus) (t : p.Table Report) (r : Report)
      → p.find_unique k (p.modify i (handle status) t) ≡ some r
      → (s : Report) × (p.find_unique k t ≡ some s) × (r ≡ record s { status = r.status })
  modified i k status t r h = elim (Option-cases (p.find_unique k t)) [
    | inl e ↦ absurd (ground (arith, p.find_unique-modify k i (handle status) t))
    | inr (s, e) ↦ (s, e, ground (arith, p.find_unique-modify k i (handle status) t))
  ]

module _ {p : Prisma} where
  abbrev with_reports : Db p → p.Table Report → Db p
  with_reports d t = record d { social = record d.social { report = t } }

  find_target_cases :
      (dto : CreateReportDto) (d : Db p)
      → (find_target dto d ≡ ok tt d) ⊎ ((e : HttpException) × (find_target dto d ≡ err e d))
  unfolding find_target
  find_target_cases dto d = elim (Bool-cases (is_user_report dto.type)) [
    | inl u ↦ elim (Option-cases dto.target_user_id) [
      | inl n ↦ inl (ground (arith, u, n))
      | inr (k, e) ↦ elim (Option-cases (p.find_unique k d.user)) [
        | inl e2 ↦ inr (not_found Http.user_missing, ground (arith, u, e, e2))
        | inr (v, e2) ↦ inl (ground (arith, u, e, e2))
      ]
    ]
    | inr u ↦ elim (Option-cases dto.target_event_id) [
      | inl n ↦ inl (ground (arith, u, n))
      | inr (k, e) ↦ elim (Option-cases (p.find_unique k d.event)) [
        | inl e2 ↦ inr (not_found Http.event_missing, ground (arith, u, e, e2))
        | inr (v, e2) ↦ inl (ground (arith, u, e, e2))
      ]
    ]
  ]

  create_report_cases :
      (reporter_id : ℕ) (dto : CreateReportDto) (d : Db p)
      → ((has_target (new_report reporter_id dto) ≡ true)
          × (p.find_first (clashes (new_report reporter_id dto)) d.social.report ≡ none)
          × (create_report reporter_id dto d
              ≡ ok
                  (p.new_id d.social.report)
                  (with_reports d (p.create (new_report reporter_id dto) d.social.report))))
        ⊎ ((e : HttpException) × (create_report reporter_id dto d ≡ err e d))
  unfolding create_report create_row
  create_report_cases by dto d =
      let u = is_user_report dto.type in
      let to_user = is_some dto.target_user_id in
      let to_event = is_some dto.target_event_id in
      elim (Bool-cases (not to_user && not to_event)) [
        | inl e ↦ inr (bad_request Http.no_target, ground (arith, e))
        | inr e1 ↦ elim (Bool-cases (to_user && to_event)) [
          | inl e ↦ inr (bad_request Http.two_targets, ground (arith, e1, e))
          | inr e2 ↦ elim (Bool-cases (not u && not to_event)) [
            | inl e ↦ inr (bad_request Http.no_target_event, ground (arith, e1, e2, e))
            | inr e3 ↦ elim (Bool-cases (u && not to_user)) [
              | inl e ↦ inr (bad_request Http.no_target_user, ground (arith, e1, e2, e3, e))
              | inr e4 ↦ elim (Bool-cases (u && is_id dto.target_user_id by)) [
                | inl e ↦ inr (bad_request Http.reports_self, ground (arith, e1, e2, e3, e4, e))
                | inr e5 ↦ elim (find_target_cases dto d) [
                  | inr (x, e) ↦ inr (x, ground (arith, e1, e2, e3, e4, e5, e))
                  | inl e6 ↦
                      elim (Option-cases
                        (p.find_first (clashes (new_report by dto)) d.social.report)) [
                          | inr (r, e) ↦ inr (
                            conflict Http.already_reported,
                            ground (arith, e1, e2, e3, e4, e5, e6, e),
                          )
                          | inl free ↦ inl (
                            ground (arith, e1, e2, e3, e4, e5),
                            free,
                            ground (arith, e1, e2, e3, e4, e5, e6, free),
                          )
                        ]
                ]
              ]
            ]
          ]
        ]
      ]

  -- Every report has a target as it should, and no two of them fall under a unique key.
  pub record IsFiled (d : Db p) : Type 0 where
    pub targets :
        (k : ℕ) (r : Report) → p.find_unique k d.social.report ≡ some r → has_target r ≡ true
    pub unique :
        (j k : ℕ) (r s : Report)
        → p.find_unique j d.social.report ≡ some r
        → p.find_unique k d.social.report ≡ some s
        → clashes r s ≡ true
        → j ≡ k

  created-IsFiled :
      (r : Report) (d : Db p)
      → IsFiled d
      → has_target r ≡ true
      → p.find_first (clashes r) d.social.report ≡ none
      → IsFiled (with_reports d (p.create r d.social.report))
  created-IsFiled r d filed target free =
      let t = d.social.report in
      record {
        targets = λ k s fs. ground (arith, p.find_unique-create k r t, filed.targets k s, target);
        unique = λ j k s s' fj fk clash. ground (
          arith,
          p.find_unique-create j r t,
          p.find_unique-create k r t,
          filed.unique j k s s',
          p.find_first-none (clashes r) t j s free,
          p.find_first-none (clashes r) t k s' free,
          clashes_sym s r,
        );
      }

  -- Whatever `createReport` answers: every report has a target of its type and no other, nobody has
  -- reported herself, and nobody has reported the same target twice.
  pub create_report-IsFiled :
      (reporter_id : ℕ) (dto : CreateReportDto) (d : Db p)
      → IsFiled d
      → IsFiled (final (create_report reporter_id dto d))
  create_report-IsFiled by dto d filed = elim (create_report_cases by dto d) [
    | inr (e, run) ↦ subst (λ r. IsFiled (final r)) (sym run) filed
    | inl (target, free, run) ↦
        subst (λ r. IsFiled (final r)) (sym run)
          (created-IsFiled (new_report by dto) d filed target free)
  ]

  -- The handling of a report changes its status only, so that the reports stay in order.
  pub update_report_status-IsFiled :
      (report_id : ℕ) (status : ReportStatus) (d : Db p)
      → IsFiled d
      → IsFiled (final (update_report_status report_id status d))
  unfolding update_report_status
  update_report_status-IsFiled id status d filed =
      let t = d.social.report in
      elim (Option-cases (p.find_unique id t)) [
        | inl e ↦ ground (arith, e, filed)
        | inr (q, e) ↦
            let changed : IsFiled (with_reports d (p.modify id (handle status) t)) = record {
              targets = λ k r fr.
                  let (s, fs, same) = modified p id k status t r fr in
                  ground (arith, same, filed.targets k s fs);
              unique = λ j k r r' fj fk clash.
                  let (s, fs, same) = modified p id j status t r fj in
                  let (s', fs', same') = modified p id k status t r' fk in
                  filed.unique j k s s' fs fs' (ground (arith, same, same'));
            } in
            ground (arith, e, changed)
      ]

  -- Once a report is made, its author cannot report the same target again, for whatever reason: the
  -- call throws and nothing changes.
  pub create_report-create_report :
      (reporter_id id : ℕ) (dto dto' : CreateReportDto) (d d' : Db p)
      → create_report reporter_id dto d ≡ ok id d'
      → dto'.type ≡ dto.type
      → dto'.target_user_id ≡ dto.target_user_id
      → dto'.target_event_id ≡ dto.target_event_id
      → (e : HttpException) × (create_report reporter_id dto' d' ≡ err e d')
  create_report-create_report by id dto dto' d d' h type user event =
      elim (create_report_cases by dto' d') [
        | inr again ↦ again
        | inl (target', free', run') ↦ elim (create_report_cases by dto d) [
          | inr (e, run) ↦ absurd (ground (arith, h, run))
          | inl (target, free, run) ↦
              let r = new_report by dto in
              let r' = new_report by dto' in
              let here : with_reports d (p.create r d.social.report) ≡ d' =
                ap final (sym run ∙ h) in
              let there : p.find_unique (p.new_id d.social.report) d'.social.report ≡ some r =
                subst (λ x. p.find_unique (p.new_id d.social.report) x.social.report ≡ some r) here
                  (find_unique-create_self p r d.social.report) in
              absurd (
                ground (
                  arith,
                  p.find_first-none (clashes r') d'.social.report (p.new_id d.social.report) r free'
                      there,
                  clashes_self r target,
                  type,
                  user,
                  event,
                ))
        ]
      ]
