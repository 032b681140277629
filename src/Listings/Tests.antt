-- ===== src/Listings/Tests.antt =====
-- Pages of a small state; a database that keeps the order of its rows.
use schematica_api.Audit.{AuditLogQueryDto}
use schematica_api.Common.{◌≡◌, ◌==◌, arith, refl, false, none, some, [], ◌∷◌}
use schematica_api.Database.{Database, memory_client, memory_client-IsPrisma}
use schematica_api.Listings.{AreListings, IsAuditListing, find_all-IsListing}
use schematica_api.Pagination.{
  OrderBy, Contains, IsOrderBy, last_page, paginated, skip, matches_search,
}
use schematica_api.Samples.{alice, alice_row, db}
use schematica_api.Users.Listing.{find_all_paginated}
use schematica_api.Users.Sanitized.{sanitized}

abbrev as_stored : OrderBy
as_stored Row before rows = rows

as_stored-IsOrderBy : IsOrderBy as_stored
as_stored-IsOrderBy Row before rows kind = refl

abbrev equals : Contains
equals part text = part == text

abbrev crowd : Database
crowd = record db {
  users =
      alice_row
      ∷ record alice_row { id = "u4"; username = "carl" }
      ∷ record alice_row { id = "u5"; username = "dora"; deleted_at = some "T9" }
      ∷ [];
}

-- The second page; a user who is deleted is not shown as such.
second_page_test :
    find_all_paginated memory_client as_stored equals crowd
      (record { query = record { limit = 2; page = 2 }; search = none })
    ≡ record {
      items =
          record { id = "u5"; username = "dora"; profile_image = none; is_deleted = false } ∷ [];
      meta = record { total = 3; page = 2; limit = 2; last_page = 2 };
    }
unfolding find_all_paginated paginated skip last_page sanitized matches_search
second_page_test = refl

abbrev any_log : AuditLogQueryDto
any_log = record {
  query = record { limit = 10; page = 1 };
  actor_id = none;
  target_id = none;
  action = none;
}

find_all-IsListing_example :
    AreListings memory_client as_stored equals crowd alice none "p1" 2
    × IsAuditListing memory_client as_stored crowd any_log 2
find_all-IsListing_example =
    find_all-IsListing memory_client memory_client-IsPrisma as_stored as_stored-IsOrderBy equals
      crowd alice none "p1" any_log 2 (omega arith)
