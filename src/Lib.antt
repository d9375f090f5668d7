-- ===== src/Lib.antt =====
-- Release Ops watches repositories for releases and opens tickets for them. This library models the
-- logic of its web application (apps/web), of the script that drafts its own releases
-- (scripts/ci/create-draft-release.mjs), of the tasks of its roadmap (scripts/roadmap) and of its
-- audit reports. The server, written in Go, is outside of it: the web application meets the server
-- through a proxy, and here the server is what a call answers.
--
-- The parts, with the files that model them:
--   Common: what the parts share. Tests and lists on the native numbers; Text has JavaScript's
--     trim, split, join, startsWith and includes; Json has the values of JavaScript that come from
--     JSON, and objects as lists of their own properties (lookup, insert, and spread for `{...a,
--     ...b}`).
--   Session: Middleware is apps/web/middleware.ts (middleware, getSessionUser, isPublicAuthPath,
--     isLoginPath); Access has its theorems. SafeRedirect is safeRedirectPath of
--     apps/web/lib/auth/safe-redirect.ts.
--   Http: Proxy is apps/web/app/api/go/[...path]/route.ts (proxyRequest and the handlers GET,
--     POST, PATCH, DELETE); Client is apps/web/lib/api/client.ts (request, parseApiError,
--     apiClient). The client calls the proxy's path, and the forms below call the client.
--   Integrations: Kinds is apps/web/lib/integrations/kinds.ts and
--     apps/web/lib/repos/source-kinds.ts, Secret is apps/web/lib/integrations/secret.ts.
--   TicketProjects: StatusMapping, CreateConfig and ContentTemplates are the files
--     status-mapping.ts, create-config.ts and content-templates.ts of apps/web/lib/ticket-projects.
--   Forms: Base is what the four forms share (the stored entities of apps/web/lib/query/types.ts,
--     and how a submission ends); Repo is components/repos/repo-dialog.tsx, Project is
--     components/ticket-projects/project-drawer.tsx, Integration is
--     components/integrations/integration-drawer.tsx and Notification is
--     components/notifications/notification-drawer.tsx, all of apps/web. The state of a form is a
--     record with a field for each useState; an event is a function on it (handle), an effect is a
--     function of the state its render saw and of the state so far, one round of effects is
--     `commit`, the rounds after an event are `settle`, and `submit` is the part of handleSubmit
--     before the call.
--   Account: the forms of apps/web/app that sign a user in (login/login-form.tsx), set a password
--     (accept-invitation/accept-invitation-form.tsx and reset-password/reset-password-form.tsx) and
--     ask for a new one (forgot-password/forgot-password-form.tsx). They use Http.Client, and the
--     login form uses SafeRedirect. Profile is components/profile/profile-view.tsx with
--     hooks/useProfile.ts, and Confirm is app/confirm-email-change/confirm-email-change-form.tsx.
--   Dashboard: PageSize is apps/web/lib/hooks/use-persisted-page-size.ts, PollHistory the paging
--     of apps/web/components/dashboard/poll-run-history.tsx, Badges the badges, links and errors
--     there, in status-card.tsx and in last-run-errors.tsx.
--   Release: Semver is parseSemver and compareSemver of scripts/ci/create-draft-release.mjs,
--     Draft is its main: `plan` for the decision, `publish` for the commands that change something.
--   Roadmap: describe and specRefs of scripts/roadmap/spec-links.mjs, epic, leaf and
--     withRoadmapId of scripts/roadmap/registry.mjs; Markers has the theorems. Import is `main` of
--     scripts/import-roadmap-phasical.mjs: Marked reads ROADMAP_ID_RE, Tracker is what `api`
--     reaches, with a constructor for each request, Planning has the maps and the plan, and Import
--     the calls, as computations that may fail at each call. Its children follow the run: Calm for
--     parts that create no task, Unique and Once for markers, Grows and Again for a second run,
--     Pinned and Ready for the status, Dry for a run without --apply. Intake is
--     scripts/audit-roadmap-intake.mjs, whose blockers stop the import: Empty is about its lists of
--     messages, Laws about the roadmaps it accepts, and Guarded puts the two
--     together. Page is the tables of scripts/generate-roadmap.mjs and its escaping, and Spec the
--     coverage, the drift and the references of scripts/audit-roadmap-spec.mjs, for any list of requirements.
--   Audit: scripts/audit-report.mjs. Scalar is parseScalar and parseKeyBlock, Finding
--     parseFinding, Report parseReport, Command the commands of main; Result is what `fail` throws.
--     The lines of a report are also its sections (Lines), Parsed is what a report that is accepted
--     consists of, and Marking, Value, Keys, Order, Filed, Sections, Marks and Refiled follow a mark
--     from its line up to the whole report; Recorded has the runs and Sound the findings.
--
-- What is a parameter: fetch, JSON.stringify and the URL parser of the platform; Number on a text
-- (create-config.ts); localeCompare; the answers of git and gh, as a record; where a run's audit
-- report lies and whether it can be written; the tracker of the roadmap, as a record (Tracker) with
-- the behaviour that the import relies on (IsLawful).
--
-- Bounds: two rounds of effects are run after an event. The pages of the poll history are followed
-- with fuel, and one step more than there are runs is enough. Numbers of a version and page sizes
-- are natural numbers, where JavaScript has doubles: they agree below 2 ^ 53. The import looks for
-- the issue of a new task as often as `polls` says, whatever that is.
--
-- Not modelled: markup, translations (a message is its key), toasts and log output, the query
-- cache, the matcher of the middleware, the server, the texts that the audit against the spec looks
-- for, the markup of the generated page, and the pages for users and settings.
pub mod Common
pub mod Integrations
pub mod TicketProjects
pub mod Session
pub mod Http
pub mod Forms
pub mod Account
pub mod Release
pub mod Roadmap
pub mod Audit
pub mod Dashboard
