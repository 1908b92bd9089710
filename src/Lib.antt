-- ===== src/Lib.antt =====
-- The verification library of the Let's Encrypt dns-persist-01 CA connector.
--
-- The connector serves the webhooks of a certificate manager (internal/app). Each webhook builds an
-- ACME client from the connection (internal/app/service/service.go), registers the account key and
-- runs an operation on the client (internal/acme). Domain control is shown by a standing TXT record
-- _validation-persist.<domain> (internal/record): in manual mode the customer publishes it, in auto
-- mode the connector does, through a DNS provider (internal/publisher). The handlers of
-- internal/app/letsencrypt stand between the service and an HTTP server (internal/handler/web),
-- which may decrypt the bodies first; app.go wires them. An onboarding tool
-- (cmd/dnspersist-tool) prints the records, checks them and registers a customer at the
-- certificate manager, from the command line or a web page.
--
-- State and effects. Base holds texts as lists of character codes with the functions of Go's
-- strings on ASCII. Errors holds the errors as values, with the problem documents of
-- internal/acme/types.go. Acme/Outside holds what the engine meets and does not implement, as a
-- record of parameters: HTTP, the clock, cancellation, signatures and JSON; an answer may depend on
-- all that has happened so far. Acme/Act is the state of a client with that trace, and the monad of
-- the methods that change it; Acme/Act/Keeps and Acme/Act/Leads are its program logic. Errors/Doing
-- is the same monad on any state: the requests that the tool has sent to the certificate manager
-- (Onboard/Calls), and the traces, files and output of the tool (Tool/Machine).
--
-- The parts:
--   Acme/Client    internal/acme/client.go: Directory, getNonce, setNonce, post
--   Acme/Account   internal/acme/account.go: Register, LookupAccount
--   Acme/Order     internal/acme/order.go: NewOrder, GetOrder, GetAuthorization, AcceptChallenge,
--                  Finalize, GetCertificate
--   Acme/Revoke    internal/acme/revoke.go: RevokeCert
--   Acme/Jws       internal/acme/jws.go: signJWS, jwk, coord
--   Acme/Pem       internal/acme/jws.go: normalizePEM, ParseAccountKey
--   Acme/Persist   internal/acme/dnspersist.go: ValidateIssuer, ResolveAuthorization, waitForAuthz,
--                  WaitForOrder
--   Acme/Engine    invariants of all engine operations, from what the primitives keep; the client
--                  as a state machine
--   Record         internal/record/generate.go: Generate, ZoneFile
--   Names          the readers of domain lists: parseDomainList, dedupeLower, splitDomains
--   Live           recordLive of the connector and of the tool
--   Domain         internal/app/domain
--   Service        internal/app/service: buildClient, ensureAccount, newPublisher; below it
--                  Issue (RequestCertificate), Check (CheckOrder, CheckCertificate), Revoke,
--                  TestConnection, Options, Certs (CSR and certificate readers)
--   Route53        internal/publisher/route53/route53.go: EnsureRecord, DeleteRecord, Validate and
--                  waitForSync, over a record Sdk of the SDK calls and the clock
--   Acme/Fresh     internal/acme/jws.go: GenerateAccountKey, PEM
--   Handlers       internal/app/letsencrypt: the eight handlers, over a record of the service
--                  interfaces; below it Server (internal/handler/web/web.go: RegisterHandlers and
--                  addPayloadEncryptionMiddleware) and Wired (app.go: the service behind them)
--   Plan           cmd/dnspersist-tool/core.go: collapse, parentOf, specs
--   Tool           cmd/dnspersist-tool/core.go: clientForKeyPEM, opRecords, opValidate, opEmail,
--                  opPlan, buildCustomerEmail; below it Machine (opNewAccount), Cli (main.go: the
--                  commands), Cli/Main (main.go: main) and Web (web.go: the handlers)
--   Onboard        cmd/dnspersist-tool/cm.go: runOnboard; below it Calls (do, truncate), Accounts
--                  (sealBox, edgeInfo, findAccount, createCA, registerProduct) and Templates
--                  (cnSanRegexes, createTemplate, teamID, createApplication)
--   Examples       a small CA with its DNS, and the theorems at concrete inputs
--
-- Loops. A list is walked by structural recursion. The two polls of internal/acme/dnspersist.go run
-- on rounds: one for each interval within the timeout, and two more; a clock that does not go back
-- and that a pause moves by its length makes them enough. The two attempts of post are two rounds.
-- The reader of PEM certificates has one round more than the text has characters, since each block
-- takes one at least.
--
-- Patterns. What a pattern of cnSanRegexes allows is read from its text by an anchored match of the
-- syntax of RE2 that occurs there: plain and escaped characters behind an optional `(.*\.)?`.
--
-- Numbers are natural numbers. Durations and the expiry of a record are read as 0 where the code
-- tests for values that are not positive.
--
-- Webhooks follow each other in the model, on one trace; each has a client of its own, so requests
-- that overlap share nothing but the CA and the DNS.
--
-- Not modelled: the start and the stop of the HTTP servers, the logger and the log lines, the mutex
-- of the client, the parsing of flags (the commands take flags that are parsed), the text of the
-- usage, and the constructors of the Route 53 client, which only configure the SDK. A file that
-- cannot be written is left as it is. Text outside ASCII is not treated as Go does;
-- `%q` escapes control characters, quotes and backslashes.
pub mod Base
pub mod Errors
pub mod Record
pub mod Names
pub mod Live
pub mod Acme
pub mod Domain
pub mod Service
pub mod Handlers
pub mod Route53
pub mod Plan
pub mod Tool
pub mod Onboard
pub mod Examples
