-- ===== src/Notifications/Service/Listing.antt =====
-- notifications/notification.service.ts: the page of the notifications of a user.
use schematica_api.Common.{Bool, String, ℕ, Option, none, some, leb, find, nat_eq, ◌==◌}
use schematica_api.Database.{Database, PrismaService}
use schematica_api.Entities.{UserNotificationStatus, Notification}
use schematica_api.Notifications.Service.{NotificationDto, notification_dto}
use schematica_api.Pagination.{PaginationQueryDto, PaginatedServiceResponse, OrderBy, paginated}

-- The notification of a status is a required relation.
abbrev pub notification_of : Database → UserNotificationStatus → Option Notification
notification_of db status = find (λ n. nat_eq n.id status.notification_id) db.notifications

abbrev pub time_of : Option Notification → ℕ
time_of none = 0
time_of (some n) = n.created_at

-- `orderBy: { notification: { createdAt: 'desc' } }`
abbrev pub newest_first : Database → UserNotificationStatus → UserNotificationStatus → Bool
newest_first db a b = leb (time_of (notification_of db b)) (time_of (notification_of db a))

abbrev pub shown : PrismaService → Database → UserNotificationStatus → Option NotificationDto
shown client db status = elim (notification_of db status) [
  | none ↦ none
  | some n ↦ some (notification_dto client db status n)
]

unfoldable pub find_all_for_user :
    PrismaService
    → OrderBy
    → Database
    → String
    → PaginationQueryDto
    → PaginatedServiceResponse (Option NotificationDto)
find_all_for_user client order_by db user_id query =
    paginated (shown client db)
      (order_by UserNotificationStatus (newest_first db)
        (client.notification_status.find_many (λ s. s.user_id == user_id) db.notification_statuses))
      (client.notification_status.count (λ s. s.user_id == user_id) db.notification_statuses) query
