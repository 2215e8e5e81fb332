-- ===== src/Lib.antt =====
-- A model of the publishing core of Osir AI, a scheduler of social media posts, with its theorems.
-- Paths are from the repository's root.
--
-- A `Post` is the content, and has one `PlatformPost` for each channel, whose status drives all
-- else. The composer creates posts, moves platform posts through an editorial state machine and
-- copies posts; the approval services move them through review; the calendar gives them slots of a
-- queue; the engine polls for those that are due, hands them to the provider of the platform and
-- retries, and posts first comments. Members have roles in an organization and in its workspaces;
-- they issue keys, with which agents call the services over an API, and get notices on several
-- channels. The status and the time of a post are derived from its platform posts.
--
-- Which file models what:
--   Workflow.antt            apps/composer/models.py: `PlatformPost.Status`, `VALID_TRANSITIONS`
--   Workflow/Aggregate.antt  apps/composer/status.py: `derive_post_status`
--   Records.antt             the tables: apps/composer/models.py, apps/calendar/models.py,
--                            apps/workspaces/models.py
--   Composer.antt            apps/composer/services.py: `transition_platform_post` and its gate
--   Composer/Sync.antt       the same: `sync_post_scheduled_at`
--   Composer/Create.antt     the same: `create_post`
--   Composer/Clone.antt      the same: `clone_post`
--   Approvals.antt           apps/approvals/services.py: the decisions, on a whole post or on one
--                            platform post, and the bulk ones
--   Approvals/Effects.antt   the same: targets, audit trail, reminders, notifications
--   Approvals/Loop.antt      the same: the loops over the targets
--   Approvals/Tasks.antt     apps/approvals/tasks.py: reminders and escalations of stalled approvals
--   Publisher.antt           apps/publisher/engine.py: the poll, groups, retries, first comments
--   Publisher/Tables.antt    the same: holds and times; apps/publisher/models.py
--   Publisher/Attempt.antt   the same: one attempt, `_publish_platform_post`
--   Publisher/Comment.antt   the same: the task that posts a first comment
--   Calendar.antt            apps/calendar/services.py: slots, `add_post_next_available`,
--                            `remove_from_queue`
--   Calendar/Drag.antt       the same: `reschedule_platform_post`
--   Calendar/Reorder.antt    the same: `reorder_queue`
--   Calendar/Repair.antt     the same: `repair_future_published_scheduled_at`
--   Calendar/Bulk.antt       the same: `bulk_platform_action`
--   Members.antt             apps/members/models.py: memberships, roles and permissions; the levels
--                            of apps/members/services.py
--   Members/Invite.antt      apps/members/services.py: invitations
--   Members/Change.antt      the same: removal, org roles, workspace assignments
--   Keys.antt                apps/api_keys/models.py: `ApiKey`
--   Keys/Token.antt          apps/api_keys/services.py: `parse_token`
--   Keys/Names.antt          sets of permission names; apps/members/models.py: `PERMISSION_KEYS`
--   Keys/Issue.antt          apps/api_keys/services.py: issuing, editing and revoking
--   Keys/Cache.antt          the interface of the cache that the same file calls
--   Keys/Verify.antt         the same file: `verify_token`
--   Keys/Signals.antt        apps/api_keys/signals.py, and the services with their signals
--   Keys/Runs.antt           runs of those services over one cache; Keys/Workers.antt has runs of
--                            workers with a cache each
--   Notify.antt              apps/notifications/models.py; channels and quiet hours of
--                            apps/notifications/engine.py
--   Notify/Send.antt         apps/notifications/engine.py: `notify`
--   Notify/Deliver.antt      the same: attempts at a delivery, webhooks, the sweep
--   Api/Address.antt         apps/api/limits.py: `_client_ip`
--   Api/Throttle.antt        the same: the throttle of failed authentications
--   Api/Auth.antt            apps/api/auth.py: the authentication by key
--   Api/Idempotency.antt     apps/api/middleware.py and tasks.py: idempotent requests
-- The other modules beside these hold the proofs, and those named Examples the tests and the
-- instances at concrete values. Prelude.antt has the helpers.
--
-- How the state corresponds: a table is a list of records in the order of its query, a key and a
-- foreign key are numbers, an instant is a number of seconds (a wall-clock time one of minutes), a
-- text is the list of its code points, a JSON column its encoded text (of permissions a list of
-- names). `.filter(...).update(...)` is `update_where`, and `save()` writes a row by its key. A
-- function that raises returns `err`, and the transaction around it leaves the tables as they
-- were. Columns that no modelled function reads, and `updated_at`, are left out.
--
-- Code outside is a parameter: the provider's reply to an attempt (with what an exception carries
-- and its friendly sentence), the stored sentences, the delay of a first comment, the last change
-- of a post, which accounts take a first comment, what the provider answers to a comment and
-- whether it can look for one and what it finds (the providers' code, whose answers the theorem on
-- first comments does not take for right), `lower` on an e-mail address, the reading of a text as
-- a UUID, the digests and the random part of a key, the text of a primary key, the cache, what
-- mail and an HTTP request answer, the local time, and the calendar (weekday, local date and
-- instant of a wall-clock time). The lookahead over slots is sixty days, as in the source; every
-- loop runs over a list or a number of days, so that no fuel is needed. The threads of the engine
-- work on different rows and are run one after the other; the clock stands still within a poll. A
-- table write that fails is not modelled. A verification of a token, its reads of the cache and
-- the tables together, is one step.
--
-- Not modelled: the dispatch to a provider and its media files, mails, `prioritize` of the queues
-- and the default slots of a channel, the word diff of versions, the audit log, the sessions and
-- OAuth tokens of the API and its limits per minute and per platform, and the check that an
-- address of a webhook is public (a parameter), and the other apps (inbox, analytics, media
-- library, web views, MCP and OAuth servers), which lie around this core.
pub mod Prelude
pub mod Workflow
pub mod Records
pub mod Composer
pub mod Approvals
pub mod Publisher
pub mod Calendar
pub mod Members
pub mod Keys
pub mod Api
pub mod Notify
