-- ===== src/Lib.antt =====
-- Tallox (tallox.go): the GraphQL backend of a faculty's teaching-assignment planning.
--
-- A request comes in through one of two doors (internal/auth), which turn a header or a token into
-- an actor (internal/principal). The rules (internal/policy) answer, from the actor, the state of a
-- semester and a record, who sees what and who may change what and when. Each visibility rule is
-- written twice, as a guard on one record and as a filter for a query. Before an operation is executed
-- the scopes of its root fields are asked for (graph). The services (internal/domain) ask the rules and
-- then change the tables (internal/store).
--
-- Principal            internal/principal/principal.go: the actor
-- Policy.Role          internal/policy/role.go: the roles and the set of them that an actor holds
-- Policy.IdScope       internal/policy/idscope.go: the ids that a scoped grant names
-- Policy.Onlooker      internal/policy/partner.go, observer.go, interactive.go
-- Policy.Programme     internal/policy/programme.go, and DemandReadScope of partner.go
-- Policy.SubjectGroup  internal/policy/subjectgroup.go
-- Policy.Phase         internal/policy/phase.go, and the steps between phases of semester.go
-- Policy.Write         internal/policy/write.go: who writes what in which phase
-- Policy.Semester      internal/policy/semester.go, windows.go, modulesplit.go, zpa.go, and
--                      SemesterState of wish.go
-- Policy.Wish          internal/policy/wish.go
-- Policy.Assignment    internal/policy/assignment.go
-- Policy.DesiredHours  internal/policy/desiredhours.go, assignedload.go
-- Policy.Competence    internal/policy/competence.go
-- Policy.Narrow        internal/policy/admin.go: the narrowing of an actor to selected roles
-- Policy.Scope         internal/policy/scope.go: what a token's scopes permit
-- Policy.Reach         whom the two planning rules let through, by the grants
-- Policy.TokenReach    a token against the browser session of the same person
-- Auth.Encoding        base32 and base64 as Go's library writes them
-- Auth.Token           internal/auth/token.go: the form of a token
-- Auth.Refusal         internal/auth/auth.go, refusal.go: errors, refusals, the middleware
-- Auth.TokenDoor       internal/auth/tokenauth.go, Person and Token of auth.go, and (Service) the
--                      mount in bootstrap/bootstrap.go; Declined is about what it refuses
-- Auth.BrowserDoor     internal/auth/proxy.go
-- Domain.TokenService  internal/domain/token.go: creating, listing and revoking tokens
-- Domain.Calendar      internal/domain/semester_calendar.go, and the pattern of a code of semester.go
-- Domain.Semesters     internal/domain/semester.go: the workflow of a semester; Requests has the calls
--                      in a row and the statements that they may come down to, Listing the list
-- Domain.Assignments   internal/domain/assignmentservice.go: who teaches which part; Visible, Listed
--                      and Own are about the reads, Writes, SetOutcome and Cleared about the writes
-- Store.Rows           a table as the list of its rows, and what statements do to them
-- Store.Assignments    internal/store/assignments.go, db/queries/assignment.sql and the constraints of
--                      the table in db/migrations; records of internal/domain/assignment.go
-- Store.Semesters      internal/store/semesters.go, db/queries/semester.sql: the table of semesters
-- Domain.ZpaSync       internal/domain/zpasync.go (syncKind) and zpa.go: the import of one kind of the
--                      examination office's objects
-- Store.Zpa            internal/store/zpa.go, db/queries/zpa.sql: the cache of those objects, the log of
--                      changes and what a run found
-- Store.Tokens         internal/store/tokens.go, TokenByID and MarkTokenUsed of directory.go,
--                      db/queries/token.sql and the constraints of the table in db/migrations
-- Graph.Scope          graph/scope.go: the check of an operation's scopes
-- Tests                concrete inputs
--
-- A function keeps its name in snake case; a method stands in the module of its type. A uuid is a
-- number, uuid.Nil is 0: the rules only compare ids. A moment is a number, the zero time.Time is 0.
-- A type of texts with constants (Role, Phase, WriteArea, ScopeArea) is a data type of the constants;
-- where the source can hold another text, the constructor other holds it. Role texts, mails and
-- sentences are native texts, scopes are lists of code points, tokens are lists of bytes. The
-- sentences that a function returns are constants; sentences that no function returns are left out.
-- A map is an association list or, in the record of uses, a function; a set of roles is the list of
-- its keys.
--
-- A loop goes through a list, but for two that have fuel. The walk of an operation's root fields enters
-- no fragment twice, so its fuel is the number of the fragments, and the walk never lacks it. The digits
-- of a year are computed with the year itself as fuel, and what is shown of codes is for the years of
-- four digits.
--
-- The table of semesters is the list of its rows, NULL is none, and a statement's now() and the id of a
-- new row are arguments. A statement of the database is a function on the table, a transaction too, and
-- the calls of the service come one after another; so the second attempt of SetPlanningSemester is not
-- modelled. The open wish rounds that PublishWishes asks for are an argument. Of a parsed document the
-- fields that scope.go reads are modelled, a name or a raw value being a list of code points.
--
-- The tables that the assignments are read from are lists of rows in one record. What a part's course
-- instance, programme, module and subject group contribute to a condition stands as columns of the
-- part, since no statement of the assignments changes them. A mail column, which the database compares
-- without regard to case, holds texts in lower case. Left out are the columns for display (names,
-- hours, languages), the order of a list, and two calls at once: each call reads and writes the tables
-- with no other in between. The database is taken to answer every statement on the semesters and on the
-- assignments: only a constraint of a table or a taken id makes one fail. So no call ends because a
-- connection breaks, or because PostgreSQL refuses a text that holds the character NUL. The length of a
-- note is that of its UTF-8 form in the service and the number of its characters in the check of the
-- table, as in the source.
--
-- The import of a kind is a function on the cache, with what the examination office's interface answers
-- as a parameter. Which statements of the database fail is part of the state, a list of outcomes that each
-- statement takes one off. A payload is the text that was stored: PostgreSQL may write a jsonb value in
-- another way, which the service only sees through encoding/json, a parameter too. The hash of the
-- content, the times of an object other than the one it is gone since, the run around the kinds, the
-- lock and the reads of runs are left out.
--
-- The token door and the token service pass the state on that they change: the record of uses, and
-- the state of the store. A Go result with an error is a Result; an error that the source wraps is the
-- one it wraps. The clock is an argument, once for each reading of it.
--
-- What is not under the repository is a parameter: the tables of Go's unicode package (Unicode, with
-- what it documents for ASCII), the trimming of a header's bytes, SHA-256, the addition of days to a
-- date, the uuid of a mail address, and the random bytes of a minted token. So is what PostgreSQL and
-- its driver make of a time, which they keep in microseconds, and what 91 days after a time is
-- (Timestamps). TokenStore and TokenLookup are interfaces, which Store.Tokens fills; which statements
-- on the tokens fail is part of its state, as in the import. Requests at the token door come one after
-- another: two in the same moment, which read the record of uses before either writes to it, are not
-- modelled. Nor are the other services of internal/domain, the client of the examination office's
-- interface, the other tables of the store, the generated code, the resolvers, and the start of the
-- process.
pub mod Prelude
pub mod Principal
pub mod Domain
pub mod Policy
pub mod Store
pub mod Auth
pub mod Graph
mod Tests
