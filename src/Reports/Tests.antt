-- ===== src/Reports/Tests.antt =====
-- The theorems on reports applied to a small database (backend/src/reports/reports.service.ts).
use event_now.Prelude.{◌≡◌, some, none, refl, arith}
use event_now.Prelude.Outcome.{ok, err, final}
use event_now.Http.{HttpException}
use event_now.Database.{ReportType, ReportReason}
use event_now.Reports.{CreateReportDto, create_report}
use event_now.Reports.Targets.{IsFiled, create_report-create_report}
use event_now.Tests.{sold}

abbrev about_user : CreateReportDto
about_user = record {
  type = ReportType.user;
  reason = ReportReason.spam;
  target_user_id = some 3;
  target_event_id = none;
}

abbrev once_more : CreateReportDto
once_more = record about_user { reason = ReportReason.scam }

sold-IsFiled : IsFiled sold
sold-IsFiled = record {
  targets = λ k r h. absurd (ground arith);
  unique = λ j k r s h. absurd (ground arith);
}

reported : create_report 7 about_user sold ≡ ok 0 (final (create_report 7 about_user sold))
unfolding create_report
reported = refl

create_report-create_report_example :
    (e : HttpException) × (create_report 7 once_more (final (create_report 7 about_user sold))
      ≡ err e (final (create_report 7 about_user sold)))
create_report-create_report_example =
    create_report-create_report 7 0 about_user once_more sold
      (final (create_report 7 about_user sold)) reported refl refl refl
