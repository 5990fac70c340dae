-- ===== src/Notifications/Tests.antt =====
-- The theorems on notifications applied to a small database
-- (backend/src/notifications/notifications.service.ts).
use event_now.Prelude.{some, none, [], ◌∷◌}
use event_now.Prisma.Rows.{in_memory}
use event_now.Database.{Db, Notification, NotificationType}
use event_now.Notifications.{notice}
use event_now.Tests.{sample}

abbrev welcome : Notification
welcome = notice 7 NotificationType.new_follower (some 8)

abbrev notified : Db in_memory
notified = record sample {
  notification = some (notice 7 NotificationType.new_message none) ∷ some welcome ∷ [];
}
