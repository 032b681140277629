-- ===== src/Samples.antt =====
-- A small state of the program, on which the tests run.
use schematica_api.Access.{Grants}
use schematica_api.Common.{none, some, [], ◌∷◌}
use schematica_api.Database.{Database}
use schematica_api.Entities.{User, Project, Endpoint, draft, owner, viewer}
use schematica_api.Json.{obj, str, Fields, end, field}
use schematica_api.User.{UserDto, member, admin}

abbrev pub alice : UserDto
alice = record { id = "u1"; username = "alice"; role = member; teams = some [] }

abbrev pub bob : UserDto
bob = record {
  id = "u2";
  username = "bob";
  role = member;
  teams = some (record { id = "t1"; name = "t1" } ∷ []);
}

abbrev pub root : UserDto
root = record { id = "u3"; username = "root"; role = admin; teams = none }

abbrev pub alice_row : User
alice_row = record {
  id = "u1";
  username = "alice";
  password = some "hash:pw";
  role = member;
  profile_image = none;
  token_version = 1;
  deleted_at = none;
}

abbrev pub shop : Project
shop = record {
  id = "p1";
  name = "Shop";
  name_normalized = "shop";
  description = none;
  servers = none;
  creator_id = "u1";
  updated_by_id = "u1";
  updated_at = "T0";
}

abbrev pub get_item : Fields
get_item = field "summary" (str "Get") (field "responses" (obj end) end)

abbrev pub item_endpoint : Endpoint
item_endpoint = record {
  id = "e1";
  path = "/items";
  method = "GET";
  status = draft;
  operation = obj get_item;
  project_id = "p1";
  creator_id = "u1";
  updated_by_id = "u1";
  created_at = "T0";
  updated_at = "T0";
}

abbrev pub grants : Grants
grants = record {
  projects = shop ∷ [];
  user_accesses = record { user_id = "u1"; project_id = "p1"; type = owner } ∷ [];
  team_accesses = record { team_id = "t1"; project_id = "p1"; type = viewer } ∷ [];
  denied_users = record { user_id = "u9"; project_id = "p1" } ∷ [];
}

abbrev pub db : Database
db = record {
  grants = grants;
  users = alice_row ∷ [];
  teams = [];
  team_memberships = [];
  endpoints = item_endpoint ∷ [];
  notes = record { id = 1; content = "hello"; endpoint_id = "e1"; author_id = "u1" } ∷ [];
  environments = record { id = "v1"; name = "dev"; description = none; project_id = "p1" } ∷ [];
  secrets = [];
  auth_providers = [];
  schema_components = [];
  audit_logs = [];
  changelogs = [];
  notifications = [];
  notification_statuses = [];
}
