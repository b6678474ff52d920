-- ===== src/Lib.antt =====
-- The Go backend of sild: who may do what in a conversation, how a support request moves through
-- its life, and how the stored queues are shared by several processes.
--
-- The parts and how they interact:
--   - A request carries a principal (backend/internal/principal/principal.go): an API key, a
--     user, a member session with role assignments, or a signed upload. Principal.antt has the
--     record and its methods: HasRole, ScopeOf, Queues, Operator, RequesterOnly,
--     RequesterQueues, Privileged and so on. Models/Enums and Models/Rbac have what it reads
--     of backend/internal/store/models.
--   - The policy (backend/internal/policy) decides. Policy/Action is the capability table of
--     action.go and Policy/Catalog its listings; Policy/Decision is Authorize and Internal of
--     policy.go; Policy/Scope is Scope of scope.go, the ceiling on a collection, and
--     Policy/Grants the projection of it that is sent to a client; Policy/Translation is
--     translation.go; Policy/Roles is roles.go, with the check of scope documents in
--     Policy/Roles/Document.
--   - Between the policy and the rows stand Store/ConversationList (applyScope and
--     applyCeiling of backend/internal/store/gormstore/conversation_list.go, a query as a test
--     on the rows of one conversation) and Api/Authz (conversationAttrs of
--     backend/internal/apiutil/authz.go with classifyConv and IsArchivedMember of
--     backend/internal/domain). The two read the same rows in two ways; Api/Authz/Branches and
--     Api/Authz/Ceiling compare them.
--   - An assignment is a row (Store/Assignments: assignmentRepo of
--     backend/internal/store/gormstore/conversation.go) that the service moves
--     (Domain/Assignment: AddAssignment, ClaimAssignment, CloseAssignment and ReturnToQueue of
--     backend/internal/domain/assignment.go). The guarded write of Transition decides between
--     callers.
--   - Domain/Membership has the members and the end of one conversation (AddMember,
--     RemoveMember, CloseConversation and Remap of backend/internal/domain/conversation.go),
--     Domain/ExternalId the ids that may enter (backend/internal/domain/externalid.go), and
--     Domain/Parts the structured parts of a message (backend/internal/domain/parts.go).
--   - Domain/Message is SendMessage of backend/internal/domain/message.go: Begin has the
--     checks up to the transaction, Finish the insert under the unique index and what it sets
--     off, with WithoutInternalParts of backend/internal/views/views.go. The two are apart so
--     that other sends can run between them.
--   - A translation project has keys, overrides, releases and bundles (Store/Translations:
--     backend/internal/store/gormstore/translation.go, the rows of one tenant and project). I18n
--     and I18n/Catalog are backend/internal/i18n/catalog.go: language tags, the catalogue and
--     what text a key resolves to. Domain/Translation is
--     backend/internal/domain/translation.go: projects and their settings; Releases publishes,
--     rolls back and reads, Editing writes overrides and keys, Listing is the editor's view.
--     Store/Translations/Steps is the step relation of the statements, of which every call but
--     a deletion is a sequence (Domain/Translation/Steps), so that what holds of the statements
--     holds of calls that interleave.
--   - The members of a tenant hold roles (Domain/Team: the part of
--     backend/internal/domain/admin.go on members and roles, over Store/RoleAssignments:
--     backend/internal/store/gormstore/rbac.go), from which the principals above are made.
--     Domain/Requester is backend/internal/domain/requester_assertion.go: what the assistant may
--     ask in the name of a requester, and what the requester approves, as parts of a message. The
--     count and the insert of an assertion are two statements, which Assertions interleaves with
--     those of other requests; the page of an approval is the last hundred messages.
--     Store/Receipts has the read receipts (backend/internal/domain/receipt.go and receiptRepo of
--     backend/internal/store/gormstore/conversation.go).
--   - Events reach open sockets by channels (Realtime: backend/internal/realtime/channels.go,
--     centrifuge.go and publisher.go, with emitObserved and operators of
--     backend/internal/domain/service.go). Followed says what a channel says of who follows it,
--     Listed what a session's list shows, and Readable puts the two together;
--     Realtime/Subscriptions is reconcileSubscriptions of backend/internal/domain/admin.go, which
--     Domain/Team/Sockets runs behind the role writes.
--   - Background work is shared by leases (Store/Lease:
--     backend/internal/store/gormstore/lease.go, and renew and RunLeased of
--     backend/internal/store/lease.go) and by claims on rows (Store/Claim:
--     backend/internal/store/gormstore/claim.go), which the webhook relay uses (Webhook:
--     backend/internal/connector/webhook/relay.go).
--   - Store/Page is SlicePage of backend/internal/store/page.go, Api/Paging the cursors on the wire
--     and the paging parameters of a request (backend/internal/apiutil/paging.go), and Middleware/RateLimit the
--     counter of backend/internal/middleware/ratelimit.go.
--   - Common has the names that all share, the tests on numbers and texts, and the measured
--     lists; Examples applies the theorems at concrete inputs.
--
-- How the code is written down: a struct is a record with the fields that the modelled code reads,
-- a string type with constants is a data type, with one constructor for any other string where the
-- code can meet one, a nil pointer is none, and a time is a number. A statement of the database is
-- one step on the state, queries do not fail, and a call that a database or an endpoint answers
-- takes the answer as an input. Text comparison is str_eq, which is proved to be equality. A map
-- is a function, or a list of pairs with lookup and assign where the code iterates over it. Lower
-- case is that of ASCII letters. JSON is modelled from what encoding/json decodes on.
--
-- Bounds and fuel: every function is total by structure. The only fuel is that of walk in
-- Store/Page/Walk, a client that follows cursors: one more than the number of items is enough,
-- since a page that is not the last holds at least one item. Attempts, delays, limits and counters
-- are numbers without an upper bound, written without the wrap-around of a machine word, which
-- they do not come near.
--
-- Not modelled: the HTTP handlers and their encoding, SQL beyond the conditions named above,
-- signatures and tokens, what follows a sent message (requeueing, outbound mail, push: named
-- effects), the push, realtime and mail services, configuration and wiring, and the clients in
-- other languages. These are input and output, libraries, or glue around the parts above. Search,
-- the list of conversations with its filters, inbound mail, the nudges of the push service, and the
-- rest of the conversation service have logic of their own and are not covered.
pub mod Api
pub mod Common
pub mod Domain
pub mod Examples
pub mod I18n
pub mod Middleware
pub mod Models
pub mod Policy
pub mod Principal
pub mod Realtime
pub mod Store
pub mod Webhook
