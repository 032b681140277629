-- ===== src/Notifications/Tests.antt =====
-- Histories of sockets.
use schematica_api.Common.{◌≡◌, ◌↔◌, false, none, refl, In, [], ◌∷◌}
use schematica_api.Database.{Database, memory_client, memory_client-IsPrisma}
use schematica_api.Notifications.Mentions.{parse_mentions}
use schematica_api.Notifications.Mentions.Occurrences.{IsMentioned, parse_mentions_iff}
use schematica_api.Notifications.Service.Reading.{IsMarked, mark_all_as_read-IsMarked}
use schematica_api.Notifications.Service.Reviewers.{
  IsReviewTold, create_notification_for_endpoint_review-IsReviewTold,
}
use schematica_api.Samples.{alice_row, bob, item_endpoint, db}
use schematica_api.Notifications.Sockets.{connects, disconnects, run, IsTidy, run-IsTidy}

run-IsTidy_example :
    IsTidy (run (connects "u1" "s1" ∷ connects "u1" "s2" ∷ disconnects "s1" ∷ []) [])
run-IsTidy_example =
    run-IsTidy (connects "u1" "s1" ∷ connects "u1" "s2" ∷ disconnects "s1" ∷ []) [] (tt, tt)

-- A full stop behind the name is taken for a part of it.
stop_test : parse_mentions "Thanks, @bob." ≡ "bob." ∷ []
unfolding parse_mentions
stop_test = refl

parse_mentions_iff_example :
    In "bob" (parse_mentions "Hi @bob, hi") ↔ IsMentioned "bob" "Hi @bob, hi"
parse_mentions_iff_example = parse_mentions_iff "bob" "Hi @bob, hi"

abbrev unread_db : Database
unread_db = record db {
  notifications =
      record { id = 1; message = "m"; link = "l"; actor_id = none; created_at = 5 } ∷ [];
  notification_statuses =
      record { notification_id = 1; user_id = "u1"; is_read = false; read_at = none } ∷ [];
}

mark_all_as_read-IsMarked_example : (db' : Database) × IsMarked memory_client unread_db "u1" 9 db'
mark_all_as_read-IsMarked_example =
    mark_all_as_read-IsMarked memory_client memory_client-IsPrisma unread_db "u1" 9 refl

-- Alice owns the project, and Bob asks for the review.
abbrev two_users : Database
two_users = record db { users = alice_row ∷ record alice_row { id = "u2"; username = "bob" } ∷ [] }

create_notification_for_endpoint_review-IsReviewTold_example :
    IsReviewTold memory_client two_users (("u1", "s1" ∷ []) ∷ []) bob "p1" "Shop" item_endpoint 2 9
create_notification_for_endpoint_review-IsReviewTold_example =
    create_notification_for_endpoint_review-IsReviewTold memory_client memory_client-IsPrisma
      two_users (("u1", "s1" ∷ []) ∷ []) bob "p1" "Shop" item_endpoint 2 9 (refl, refl) refl refl
