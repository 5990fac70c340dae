-- ===== src/Reports.antt =====
-- backend/src/reports/reports.service.ts: users report events and other users, administrators handle
-- the reports. The columns of events and users that the answers show are left out.
pub mod Targets
mod Tests
use event_now.Prelude.{
  ℕ, Bool, true, false, not, ◌&&◌, ◌||◌, Option, none, some, List, [], ◌∷◌, ◌==◌, is_id, is_some,
  if◌then◌else◌,
}
use event_now.Prelude.Outcome.{Outcome, ok, err, throw_if, or_throw, pure, get, ◌>>=◌, ◌>>◌}
use event_now.Prisma.{Prisma}
use event_now.Http.{
  HttpException, bad_request, not_found, conflict, forbidden, record_not_found, unique_violation,
  lock_unavailable,
}
use event_now.Http
use event_now.Database.{
  Db, Handler, Report, ReportType, ReportReason, ReportStatus, users, events, reports,
  find_or_throw, create, update,
}
use event_now.Database

pub record CreateReportDto : Type 0 where
  pub type : ReportType
  pub reason : ReportReason
  pub target_user_id : Option ℕ
  pub target_event_id : Option ℕ

abbrev pub is_user_report : ReportType → Bool
is_user_report ReportType.user = true
is_user_report ReportType.event = false

abbrev pub same_type : ReportType → ReportType → Bool
same_type ReportType.user b = is_user_report b
same_type ReportType.event b = not (is_user_report b)

abbrev pub same_status : ReportStatus → ReportStatus → Bool
same_status ReportStatus.pending ReportStatus.pending = true
same_status ReportStatus.reviewed ReportStatus.reviewed = true
same_status ReportStatus.resolved ReportStatus.resolved = true
same_status ReportStatus.dismissed ReportStatus.dismissed = true
same_status _ _ = false

-- Equal columns under a unique key: in PostgreSQL null is equal to nothing.
abbrev pub same_id : Option ℕ → Option ℕ → Bool
same_id none b = false
same_id (some k) b = is_id b k

-- `@@unique([reporterId, type, targetUserId])` and `@@unique([reporterId, type, targetEventId])`.
abbrev pub clashes : Report → Report → Bool
clashes r s =
    r.reporter_id == s.reporter_id
    && same_type r.type s.type
    && (same_id r.target_user_id s.target_user_id || same_id r.target_event_id s.target_event_id)

abbrev pub new_report : ℕ → CreateReportDto → Report
new_report reporter_id dto = record {
  reporter_id = reporter_id;
  type = dto.type;
  reason = dto.reason;
  status = ReportStatus.pending;
  target_user_id = dto.target_user_id;
  target_event_id = dto.target_event_id;
}

abbrev pub has_status : Option ReportStatus → Report → Bool
has_status none r = true
has_status (some status) r = same_status r.status status

abbrev pub handle : ReportStatus → Report → Report
handle status r = record r { status = status }

-- What the `catch` throws in the place of an exception.
abbrev pub already_reported : HttpException → HttpException
already_reported unique_violation = conflict Http.already_reported
already_reported (bad_request m) = bad_request m
already_reported (not_found m) = not_found m
already_reported (forbidden m) = forbidden m
already_reported (conflict m) = conflict m
already_reported record_not_found = record_not_found
already_reported lock_unavailable = lock_unavailable

module _ {p : Prisma} where
  -- The target of the report's type is there.
  find_target : CreateReportDto → Handler p (Unit {0})
  find_target dto d =
      if is_user_report dto.type
      then (elim dto.target_user_id [
        | none ↦ ok tt d
        | some id ↦ (find_or_throw users id (not_found Http.user_missing) >>= λ u. pure tt) d
      ])
      else (elim dto.target_event_id [
        | none ↦ ok tt d
        | some id ↦ (find_or_throw events id (not_found Http.event_missing) >>= λ e. pure tt) d
      ])

  create_row : Report → Handler p ℕ
  create_row r d = elim (p.find_first (clashes r) d.social.report) [
    | some e ↦ err unique_violation d
    | none ↦ create reports r d
  ]

  caught : Outcome HttpException (Db p) ℕ → Outcome HttpException (Db p) ℕ
  caught (ok id d) = ok id d
  caught (err e d) = err (already_reported e) d

  pub create_report : ℕ → CreateReportDto → Handler p ℕ
  unfolding find_target create_row caught
  create_report reporter_id dto = do
    throw_if (not (is_some dto.target_user_id) && not (is_some dto.target_event_id))
        (bad_request Http.no_target)
    throw_if (is_some dto.target_user_id && is_some dto.target_event_id)
        (bad_request Http.two_targets)
    throw_if (not (is_user_report dto.type) && not (is_some dto.target_event_id))
        (bad_request Http.no_target_event)
    throw_if (is_user_report dto.type && not (is_some dto.target_user_id))
        (bad_request Http.no_target_user)
    throw_if (is_user_report dto.type && is_id dto.target_user_id reporter_id)
        (bad_request Http.reports_self)
    find_target dto
    λ d. caught (create_row (new_report reporter_id dto) d)

  pub get_my_reports : ℕ → Handler p (List (ℕ × Report))
  get_my_reports user_id = do
    db ← get
    pure (p.find_many (λ r. r.reporter_id == user_id) db.social.report)

  pub get_all_reports : Option ReportStatus → Handler p (List (ℕ × Report))
  get_all_reports status = do db ← get; pure (p.find_many (has_status status) db.social.report)

  pub update_report_status : ℕ → ReportStatus → Handler p (Unit {0})
  update_report_status report_id status = do
    _ ← find_or_throw reports report_id (not_found Http.report_missing)
    update reports report_id (handle status)
