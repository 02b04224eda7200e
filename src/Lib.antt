-- ===== src/Lib.antt =====
-- Verification of the Wheelmatch backend (backend/app), a marketplace for vehicles: FastAPI services
-- over a relational database, written in Python.
--
-- The development models the services' own decisions and transactions. A table is the list of its
-- rows, a transaction a function from the tables to the tables and a result; a call that raises
-- inside its transaction leaves the tables as they were, and one that commits before it raises
-- returns an error with the new tables. Ids, times, drawn tokens and digests are numbers and
-- arguments of the call. Rows are locked by the code (`FOR UPDATE`), so a handler is one step;
-- where it reads before its transaction, the model takes that earlier read as an argument.
--
-- The parts, and the files that model them:
--   Base            helpers: Boolean tests, tables, results, lemmas on lookups and writes
--   Core            core/idempotency/repository.py (Idempotency), the rows of the outbox and the audit
--                   log that every handler appends (Events), core/outbox/relay.py (Outbox) with the
--                   steps of several relays on one table, and workers/consumer.py (Consumer)
--   Authorization   modules/authorization/policy.py: capabilities and permissions of a caller
--   Identity        modules/identity/session_service.py with repository.py: Users and Sessions are
--                   the tables, Login, Refresh and Signout the handlers (`login`, `refresh`,
--                   `logout_session` for `logout`, `logout_every_session` for `logout_all`,
--                   `revoke_session`, `change_password`, `authenticate_access_token`), History any
--                   sequence of them; Sessions.Closed, Revocation, Ends, PasswordChange, Tokens,
--                   Spent, Once, Locking, Written and Locked hold the proofs. RateLimit is rate_limit.py,
--                   Challenges `verify_challenge` and Recovery `reset_password` of service.py, with
--                   Recovery.Reset and Recovery.Once for what a reset does
--   Dealers         modules/dealers/service.py with repository.py: Service (`update_membership`),
--                   Founding (`create_organization`), Inviting (`invite_member`), Accepting
--                   (`accept_invitation`), Leaving (`leave_organization`), History any sequence of
--                   them; Owners, Rights and Once hold the proofs. The handlers ask the policy of
--                   Authorization, reserve keys of Core and lock users of Identity
--   Verification    modules/verification: State (state.py, ownership_state.py), Reuse
--                   (ownership_reuse.py), Identity (service.py, repository.py, models.py) and
--                   Ownership (ownership_service.py, ownership_repository.py, ownership_models.py).
--                   Identity.Results holds a provider's result, Applying `apply_provider_result`,
--                   Starting `start` with its transactions (`claim_attempt`, `finalize_session`,
--                   `finalize_session_failure`), History any interleaving of those transactions, of
--                   any users; Changes lists what one of them does to the rows, and Final, Versions,
--                   Projection, Evidence, Opening and Once hold the proofs.
--                   Ownership.Access holds the checks, Canonical `_resolve_canonical`, Claims and
--                   Claiming `_claim_attempt` (`claim_ownership`), Starting `start`
--                   (`start_ownership`) and `status` (`ownership_status`), Validating a provider's
--                   result, Finalizing the ends of a session, Applying `apply_provider_result`
--                   (`apply_ownership`); Named, Evidence, Opening, Current and Fresh hold the proofs
--   Media           the status values of modules/media/models.py; Worker is the claim of
--                   modules/media/worker.py (`claim` for `_claim`), Worker.Finish the ends of a
--                   claim, and Claims and Storage hold the proofs
--   Listings        modules/listings: Readiness (readiness.py), the gates before moderation, which
--                   read verification and media statuses, and Readiness.Outcome, what follows from
--                   them for a submission; Drafts (service.py, repository.py,
--                   cursors.py) with Access (the checks of a caller), Creating (`create`), Updating
--                   (`update`), History (any sequence of them, with Changes), Cursors (the signed
--                   cursors, without the base64 and JSON text), Paging (`list_owned`) and Order (the
--                   order of its query); Paging.Complete follows the cursors to the end
--
-- Parameters: password hashing is the record `Passwords`, the keyed digest of tokens a function
-- `digest`, the event publisher and the event handlers are functions, and what Redis answers is an
-- argument. `len` is the length of a text, `fingerprint` the keyed digest of ownership material, `mac`
-- and `digest` of Cursors are the HMAC and the hash of a filter, a verification provider is a function
-- `provider` to a reference or an exception, and `meanwhile` is whatever other transactions do while
-- it is asked. One theorem assumes something of them: that the rate limiter's `digest` tells a subject
-- from every other subject of the requests between.
--
-- Bounds: recursion is on the lists of rows, of evidence or of calls, or on the size of a batch. Only
-- `follow` of Listings/Drafts/Paging, a client that asks for page after page, has fuel: one page more
-- than there are listings is enough.
--
-- Not modelled: HTTP routing and schemas, configuration, telemetry, the database driver, message
-- delivery, object storage and image processing; and, so far, the capability cache, registration, the
-- request of a recovery, the submission of a listing and the media service.
pub mod Base
pub mod Core
pub mod Authorization
pub mod Identity
pub mod Dealers
pub mod Verification
pub mod Media
pub mod Listings
