-- ===== src/Lib.antt =====
-- The identity oracle of github.com/tokenized/identity-oracle, a Go service that vouches for the
-- entities behind extended public keys. Users register an entity and a public key, add extended
-- keys, and ask for signatures that bind their entity, a contract or a token receipt to a key and
-- to a recent block of the chain.
--
-- The parts, their files here and their code:
-- * Listener (internal/oracle/listener.go): the window of the latest block hashes. `Listener` is the
--   struct's `hashes`, `height` and `offset` with the node's answers; `handle_headers`,
--   `initialize_headers`, `clean_hashes` and `recent_sig_hash` are its methods. Listener/Interleaving
--   has the sections that hold the mutex, between which other calls may run.
-- * Formations and MessageId (internal/oracle/listener.go): the contract formations and the next
--   message id in object storage, on `put` and `fetch` of Storage (internal/platform/db/db.go).
-- * Node (internal/oracle/listener.go): the callbacks of the node's client that start it up, and `Save`
--   of bootstrap.go.
-- * Entity (internal/oracle/entity.go): `VerifyEntityIsSubset`. Entity/Subset says what it promises.
-- * Database, Users and XPubs (internal/platform/db/db.go, internal/oracle/user.go and xpub.go): the
--   two tables as lists of rows, and each statement as a function on them. Consistency has the
--   constraints of db/master.
-- * Sessions (internal/platform/db/db.go and interface.go): `DB` as a handle, with its copies, its
--   transactions and its status check. Handlers work on a copy of the service's handle.
-- * Registry (internal/oracle/user.go): what the tables promise, a map from ids to identities
--   that requests change, one after the other or at once (Registry/Interleaving). Registry/Order
--   forgets the order of rows, and Registry/Commuting is the quotient of tables by it.
-- * Signing (internal/oracle/identity.go and transfer.go): the hashes that are signed, from the
--   registered entity, the window's recent hash and the database.
-- * Web (internal/platform/web, internal/mid/errors.go and cors.go): responses, errors, the chain of
--   middleware in which a request is served, and the application with its routes in Web/App.
-- * Logging (internal/mid/request_logging.go): the line that is logged for a request.
-- * Handlers (cmd/identityoracled/handlers): one function for each handler, from the decoded request
--   and the tables to the response and the tables. Handlers/Api is the table of routes of routes.go.
--   Handlers/Served, Handlers/Journey and Handlers/SharedKeys follow requests that are in order;
--   Handlers/Registrations says which registrations are served, Handlers/Truthful and Handlers/Definite
--   what the client learns from a status, Handlers/Silent what it gets when a handler sends nothing, and
--   Handlers/Messages what a signature is over.
-- * Bootstrap (cmd/identityoracled/bootstrap, cmd/identityoracled/main.go): `Setup`, `Run` and the end
--   of `main`, which join the database, the listener, the routes and the saved message id.
--   Bootstrap/Main is `main` from the loading of its configuration on, Bootstrap/Launch follows it to
--   its end, and in Bootstrap/Blocks the handlers take their recent block from the listener.
-- * Errors and Prelude are shared. Samples has concrete parameters for the tests.
--
-- Go's (value, error) and panics are the type `Outcome`. State is passed on explicitly: the window, the
-- contents of storage, the tables, the response. Texts of errors are kept as far as a format's words
-- and arguments. Heights and ids are natural numbers with their wrap at 2 ^ 32 and 2 ^ 64 written out. A
-- number of required signers is an int of 64 bits, and the database refuses one outside its INT column.
-- A write to storage that fails leaves what the store says, an argument that may differ from before.
-- A handler that sends nothing gets the status 200 of net/http, `finished` of Web.
-- All recursion is on the structure of lists and numbers, so no fuel is needed.
--
-- Code that is not in the repository is a parameter with its documented laws: `ErrorsPkg`
-- (github.com/pkg/errors), `ObjectStore` (storage), `Driver` and `Sql` (PostgreSQL through sqlx),
-- `Protocol`, `Crypto` and `Services` (bitcoin, the protocol's actions and hashes, protobuf, uuid, sha256),
-- `NodePackages` (the clients of the nodes). The node, the clock, new ids, the JSON decoder and the
-- approver are arguments.
--
-- Not modelled: which route a request takes (the package httptreemux), tracing, what the logger is
-- told to print, and the text of the elapsed time in the log, which is a number here.
pub mod Bootstrap
pub mod Consistency
pub mod Database
pub mod Entity
pub mod Errors
pub mod Formations
pub mod Handlers
pub mod Listener
pub mod Logging
pub mod MessageId
pub mod Node
pub mod Prelude
pub mod Registry
pub mod Samples
pub mod Sessions
pub mod Signing
pub mod Storage
pub mod Users
pub mod Web
pub mod XPubs
