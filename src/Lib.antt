-- ===== src/Lib.antt =====
-- A model of the server of Schematica, a web API on which teams design HTTP APIs: projects hold
-- endpoints (an OpenAPI operation under a method and a path), schemas, environments with secrets,
-- and notes, and an OpenAPI document can be built from a project and imported into it.
--
-- Parts, and the code they model:
--   Exceptions, Exceptions/Filter   src/common/exceptions and the filter that answers them
--   User, Entities, Database        the rows of prisma/schema.prisma and the state they make up
--   Prisma, Prisma/Errors           the database client, a parameter, and
--                                   src/common/utils/prisma-error.util.ts
--   Json, Http, Events              JSON values, the valid methods, the events that are emitted
--   Locking, Locking/Gateway        src/locking/locking.service.ts and locking.gateway.ts
--   Reconciliation, SpecBuilder     src/projects/spec-reconciliation and src/projects/spec-builder
--   ApiLinting, Endpoints           src/api-linting and src/projects/endpoints/endpoints.service.ts
--   Access, Guards                  src/access-control, and the guards of the routes
--   Projects, Projects/Sharing,     src/projects/projects.service.ts
--   Projects/Import
--   Notes, Environments, Secrets    the services of the same name under src/projects
--   SchemaComponents
--   MockServer                      src/mock-server/mock-server.service.ts
--   Notifications                   src/notifications/notifications.gateway.ts
--   Notifications/Mentions, Service src/notifications/notification.service.ts and its listener
--   Changelog, Audit                src/changelog, src/audit and src/cleanup
--   Pagination, Listings, Teams,    the pages of the services, src/common/dto and src/teams
--   and the modules named Listing
--   Encryption                      src/encryption/encryption.service.ts
--   Users, Auth, Auth/OAuth         src/users/users.service.ts, src/auth/auth.service.ts,
--                                   src/auth/strategies and src/auth/constants
--   Admin                           src/admin/users and src/admin/teams
--   Routes                          the controllers of endpoints, locks and secrets: the guards of a
--                                   route, and then the service
--   Common, Samples                 shared helpers, and a small state for the tests
--
-- How they interact: a request passes guards (Guards, which ask Access and Locking), then a service
-- runs on a `Database` and answers with the database after it, the events in order and a value
-- (`Done`), or throws an exception, which the filter turns into a response. A service calls the
-- database client through `PrismaService`, a record of calls whose documented behaviour is
-- `IsPrisma`: every theorem holds for every client with these laws, and `for_every_client` carries
-- it over from the client that keeps its tables in memory. A body with no transaction writes once,
-- so an exception leaves the database as it was. `updateStatus` reads and writes in two steps, and
-- takes the database at each, so that other requests may run between them.
--
-- Parameters: the linter, the parser of documents, the path matcher, the verification of tokens,
-- bcrypt, the AES-GCM cipher, the rooms of the sockets and ParseIntPipe are records or functions,
-- with their documented laws where a theorem relies on them; ids, times and random numbers that the code makes are arguments. How the database
-- orders the rows of a page is a parameter that keeps the rows (`IsOrderBy`) and answers the same
-- rows in the same order each time. How it compares a search with a text is a parameter, too. The locks and the sockets are states of their own, with the time
-- of each call as an argument; `Locking/Refinement` says what the locks promise without the map, the
-- cleanup job and the locks that have run out. Reads of the database do not fail in the model, so the
-- `catch` clauses around a mere read have no counterpart.
--
-- Bounds: two loops run on fuel. A number is printed with at most as many digits as its value plus
-- one; the `while (true)` loop that counts up to a free username gets one round more than there are
-- users, and each round that fails meets another user. Numbers are natural numbers; text is
-- lowered on ASCII.
--
-- Not modelled: the other controllers, modules, DTO validation, configuration, logging, files, the
-- redirects of OAuth, the linter's rules, and the links of a project.
mod Common
mod Samples
pub mod User
pub mod Exceptions
pub mod Locking
pub mod Json
pub mod Entities
pub mod Http
pub mod Reconciliation
pub mod SpecBuilder
pub mod Prisma
pub mod Access
pub mod Database
pub mod Events
pub mod ApiLinting
pub mod Endpoints
pub mod Users
pub mod Auth
pub mod Admin
pub mod Encryption
pub mod Guards
pub mod Notes
pub mod MockServer
pub mod Notifications
pub mod Environments
pub mod SchemaComponents
pub mod Pagination
pub mod Projects
pub mod Teams
pub mod Changelog
pub mod Audit
pub mod Listings
pub mod Routes
pub mod Secrets
