-- ===== src/Lib.antt =====
-- A verification library of the incident workflow of Map Action (the Django application Mapapi).
--
-- The program. Citizens and field agents report incidents; organisations take them in charge, alone
-- or with others, work on them through tasks, and bring them to a resolution that a super admin
-- validates. Jobs of Celery Beat act when people do not. The views are request handlers over the
-- tables of the database; permission classes guard them, and receivers of signals add effects to
-- the writes.
--
-- Which file models what, with the source below Mapapi/ of the repository:
--   Models          models.py: the choices, the rows with the fields that the workflow uses, and
--                   Incident.save. A table is a list of rows; the database is the record Db.
--   Orm             the queryset calls (filter, exists, update, count) as operations on lists.
--   Http            a request (user, URL key, clock, next UUID, whether the mail queue answers)
--                   and a reply; each refusal is a value of Error, with its HTTP status.
--   Roles           roles.py. Permissions: permissions.py; Permissions/Order compares the classes.
--   Views           what every handler begins with: the permission classes and the 404.
--   Signals         signals.py: what a write to Collaboration sets off.
--   Incidents       views/incident.py: TakeInCharge (TakeInChargeView), Resolution (the views from
--                   HandleIncidentView to RejectResolutionView), Disengage.
--   Beat            tasks.py: the five jobs of the workflow; a job is a loop over the rows that it
--                   has read, and Beat/Loop relates the loop to one simultaneous update.
--   Flow            the life cycle of an incident as a table of edges, and runs of requests.
--   Tasks           IncidentTask and update_progress of models.py, its serializer, views/task.py.
--   OrgAssignments  the assignment of an incident to an organisation, of views/incident.py.
--   Collaborations  views/collaboration.py and CollaborationSerializer; Edits has PATCH, PUT, DELETE
--                   and the bulk request, Table the keys of the table as a whole.
--   Suggestions     views/partner_suggestion.py and its serializer: suggesting a partner, and the
--                   answers.
--   Trash           the bulk views and the restoration, of views/incident.py.
--   Accounts        the rights on users of views/user.py, and the one-time code of models.py.
--   Members         views/organisation.py: adding, changing and deleting the members of an
--                   organisation, with the rule on the last active administrator.
--   Agents          the accounts of field agents and staff, the agent code, and the PIN login, of
--                   views/organisation.py, models.py and views/incident.py.
--   ActingOrgs      services/incident_orgs.py: the organisations that act on an incident.
--   FieldWork       the missions of field agents and their reports, of views/incident.py.
--   Incidents/Reports  views/incident.py: the incident beside its workflow (who sees it, PUT,
--                   DELETE, the public flag). Incidents/Intake: the report of an incident, with the
--                   point of the reporter, the prediction and the queue of its analysis.
--   Ivr             ivr_views.py: the webhooks of a call to the voice server.
--   Predictions     the analysis job of tasks.py, services/prediction_mapper.py, and the retry.
--   Chat            conversations that are loaded page by page, of views/message.py and
--                   views/incident.py; Discussion: the discussion of an incident; Assistant: the
--                   chat with the assistant, whose service is a parameter.
--   Impact          views/impact.py: the figures of impact, by period and by scope.
--   Listings        views/incident.py: the lists of incidents and the map; Dashboard: the counters of
--                   the dashboards, and the list of agents of views/organisation.py; Monthly: the
--                   statistics of a zone by month.
--   Channels        consumers.py, ws_auth.py, routing.py and the pushes of signals.py: the WebSockets.
--   Inbox           views/notification.py: notifications read and unread, the feed of activity.
--   Profiles        views/user.py: editing and creating accounts; SignIn: passwords and codes.
--   Cases           the theorems at concrete databases.
--
-- A handler is a function from a request and a database to a reply and a database, with the guards
-- in the order of the source. Keys are natural numbers; two rows get the same key only if the
-- clock of UUIDs repeats itself, so lemmas that need distinct keys say so. Times are seconds,
-- dates days; all are natural numbers, and an elapsed time that would be negative is 0. Every
-- definition is a total function by structural recursion; the endless loop of generate_agent_code
-- is a search through the list of the codes that it draws, and the client Chat.scroll_back sends
-- at most a given number of requests, of which one more than there are rows is enough. The parsed
-- data of a request (modes, roles, dates, stripped texts) are arguments, `none` for what the
-- parser rejects.
--
-- Not modelled: the queries of the framework beyond the calls above, transactions and concurrent
-- requests (a request is one step), media files, e-mails, the texts of messages and pushes, the
-- order, pages and text search of lists, figures in floating point, pictures and places, signed
-- tokens and cookies, Django's login by password and the content pages.
--
-- Parameters of the model are the hashing of PINs and passwords (Django; one is accepted against
-- its own hash), str.isdigit (all of Unicode), the address that is built from a caller's number,
-- the calendar (datetime), the channel layer, and the answers of the model and chat services.
pub mod Prelude
pub mod Orm
pub mod Models
pub mod Http
pub mod Roles
pub mod Permissions
pub mod Views
pub mod Signals
pub mod Incidents
pub mod Beat
pub mod Flow
pub mod Tasks
pub mod OrgAssignments
pub mod Trash
pub mod Collaborations
pub mod Suggestions
pub mod Accounts
pub mod Members
pub mod Agents
pub mod ActingOrgs
pub mod Ivr
pub mod FieldWork
pub mod Predictions
pub mod Impact
pub mod Listings
pub mod Dashboard
pub mod Monthly
pub mod Chat
pub mod Discussion
pub mod Assistant
pub mod Channels
pub mod Inbox
pub mod Profiles
pub mod SignIn
pub mod Cases
