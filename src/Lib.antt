-- ===== src/Lib.antt =====
-- Hotel booking management API: bookings, payments, list caches, one-time codes, two-factor
-- authentication, refresh tokens, and the registration and login of users.
--
-- The API is a NestJS application. A booking request reserves rooms of a hotel for some days
-- (src/v1/booking); a payment, by Stripe or in cash, confirms the booking (src/v1/payment); admins
-- check guests in and out, which sets the status of the rooms (src/v1/room). The services keep their
-- lists in a cache that their writes invalidate. Accounts hold one-time codes and refresh tokens
-- (src/v1/otp, src/v1/auth). All state is in PostgreSQL tables that TypeORM reads and writes, and in
-- the cache.
--
-- The files, and the code they are about:
--
--   Base              Boolean tests, lists, tables with TypeORM's save, update, delete and findOne
--                     (Base/Table, Base/Query), the keys, names and counts of their rows (Base/Keys,
--                     Base/Names, Base/Counting), and handlers that throw NestJS exceptions
--                     (Base/Exec)
--   Entities          the rows of the tables: src/v1/*/entities
--   Booking           src/v1/booking/services/booking.service.ts. Booking/Transitions has the
--                     transition tables and assertValidTransition, Booking/Request the checks of a
--                     request, Booking/Service create, findOne and patchStatus (patch_status);
--                     Checks, Overlap, Calendar, Statuses, Lifecycle, Creation, Totals, Race and
--                     Occupancy hold the proofs, named for what they are about
--   Cache             registerListKey and the invalidation of lists, which the payment, hotel and
--                     room services share; Cache/Laws and Cache/Holds have the proofs
--   Payment           src/v1/payment/services/payment.service.ts: Payment/Keys the filters and cache
--                     keys, Payment/Service the operations (findOne is find_one_payment); Paid,
--                     Handlers and Intents hold the proofs
--   Auth              Auth/Otp is src/v1/otp/services/otp.service.ts (create is create_otp),
--                     Auth/TwoFactor src/v1/auth/services/two-factor.service.ts and Auth/Token
--                     src/v1/auth/services/token.service.ts, Auth/PasswordReset
--                     src/v1/auth/services/password-reset.service.ts and Auth/AdminAuth
--                     src/v1/auth/services/admin-auth.service.ts. Auth/UserAuth, Auth/Register and
--                     Auth/Profile are src/v1/auth/services/user-auth.service.ts (updateProfile is
--                     update_user_profile, changePassword change_user_password), Auth/Images
--                     src/common/services/file-upload.service.ts, Auth/Requests the runs of users'
--                     requests; Codes, Lockout, Login, Sessions, Issued, Reset, Kept, OneSession,
--                     Stages, Progress, Registration, Completion and Takeover hold the proofs
--   Room              src/v1/room/services/room.service.ts (create is create_room, update
--                     update_room, remove remove_room): Room/Keys the filters and cache keys,
--                     Room/Service the operations; Numbers, Orderly, Updates and Runs hold the proofs
--   Role              src/v1/auth/services/role.service.ts (create is create_role around
--                     create_in_transaction, update likewise): Role/Service the operations;
--                     Sound, Updates and Runs hold the proofs
--   UserAdmin         src/v1/user/services/user.service.ts (create is create_user, findOne
--                     find_one_user, update update_user, remove remove_user); UserAdmin/Phones holds
--                     the proofs
--   Log               Log/Body is sanitizeBody and Log/Intercept intercept of
--                     src/v1/log/interceptors/activity-log.interceptor.ts, Log/Audit
--                     src/v1/log/utils/audit-log-metadata.util.ts; Log/Paths holds proofs
--   System            the booking and the payment service over their shared tables, one request
--                     after another; Effect is the abstract step of a request, Rules what sound
--                     tables are, and Sound, Lifecycle, Bookings and Payments hold the proofs;
--                     Private adds the lists of payments that are asked for in between
--   Guard             src/v1/auth/guards/permissions.guard.ts, roles.guard.ts and
--                     resource-ownership.guard.ts; Guard/Permissions has the proofs
--   Samples, Tests    a small database, at which the theorems are applied
--
-- A table is the list of its rows, and a handler a function from the tables to a result or an
-- exception and the tables it leaves; what was written before an exception stays, outside a
-- transaction. A handler runs to its end before the next one, except where Booking/Race interleaves
-- two requests. What is not code of the repository is a parameter: which of several matching rows a
-- query returns (the record Orm with its documented behaviour), the clock, the identifiers that the
-- database generates and whether a log row can be written (Surroundings), Stripe, the cache manager
-- and its laws, bcrypt, JWT, SHA-256, Google's and Apple's identity tokens, S3, the mail server, the
-- SMS provider, and the random booking
-- reference and codes. A uuid is a number, a date column a number of days, a time a number of
-- milliseconds, the text of a date in a request the instant that JavaScript and the day that
-- PostgreSQL read in it, and a decimal column a number of hundredths, so that prices are exact; the code's sums are floating point numbers. Log messages and
-- the texts of exceptions beyond their fixed part are left out. There is no fuel: every handler
-- recurs on a list.
--
-- Not modelled: controllers, modules, seeders, migrations, filters, mail, SMS and file storage, which
-- are wiring or input and output; the pagination of lists beyond the payments; the
-- profiles of admins, and the services that store hotels, room types,
-- rate options, roles and settings row by row.
pub mod Base
pub mod Entities
pub mod Booking
pub mod Cache
pub mod Payment
pub mod Room
pub mod Role
pub mod UserAdmin
pub mod Log
pub mod Samples
pub mod Auth
pub mod Guard
pub mod System
