-- ===== src/Lib.antt =====
-- The backend of Blueprint Audio: beats are uploaded, processed and sold.
--
-- A producer uploads the files of a beat in a session; finalizing the session creates the spec
-- and a job, which a worker claims under a lease, processes, and completes or fails. A buyer
-- orders a license of a spec; a payment, confirmed through Razorpay or by a Dodo webhook, pays
-- the order and issues the license. Users log in, refresh and end sessions, and confirm their
-- e-mail or set a new password by codes that are sent to them.
--
-- Db models database/sql: an action is a function of an environment and a world, which has a
-- store and a count of the calls made so far. The environment says of each call whether it
-- fails, what the clock shows, which identifier uuid.NewV7 returns and which rows are locked by
-- others (SKIP LOCKED). A transaction restores the store on every error; a COMMIT that fails
-- is taken as rolled back. NOW() in a transaction is the clock at its start. Each repository
-- call is one atomic step. In Catalog/History and Auth/History an interleaving of clients is a
-- sequence of repository calls. A call of the payment service is several repository calls without a
-- transaction: Payment/Clients keeps where each client stands between them, and a schedule says
-- which client makes the next step. A failed call stands for every failure of the driver,
-- constraints that are not modelled included.
--
-- Catalog models internal/modules/catalog:
--   Catalog/Domain      domain/upload.go, spec.go, errors.go
--   Catalog/Tables      the tables of db/migrations with their unique constraints
--   Catalog/Sessions    infrastructure/persistence/postgres/upload_repo.go, CreateSession to
--                       MarkSessionFailed
--   Catalog/Jobs        the same file, FinalizeUpload to FailJob
--   Catalog/Specs       createSpecTx of spec_repo.go
--   Catalog/Request     the calls that domain.SpecUploadRepository offers, and
--   Catalog/History     sequences of them
-- Payment models internal/modules/payment:
--   Payment/Domain        domain/models.go
--   Payment/Repositories  infrastructure/persistence/postgres
--   Payment/Dodo          verifyDodoSignature and its helpers of application/service.go
--   Payment/Service       VerifyPayment, HandleDodoWebhook and issueLicense of that file
--   Payment/Steps, Payment/Soundness  what VerifyPayment leaves in the tables, alone
--   Payment/Clients       the same calls cut at their repository calls, as clients that interleave
--   Payment/Alone         that the steps of a client are its call
--   Payment/Backing, Payment/Rows, Payment/Moves, Payment/History  what all interleavings keep
-- Auth models internal/modules/auth:
--   Auth/Domain        domain/user.go, session.go, email_token.go, errors.go
--   Auth/Repositories  infrastructure/persistence/postgres: codes, sessions, and the calls of
--                      user_repo.go that the service makes
--   Auth/Service       application/auth_service.go without Register and GoogleLogin
--   Auth/History       sequences of repository calls
-- Upload models internal/modules/catalog/application/upload_service.go:
--   Upload/Paths       filepath.Base and filepath.Ext
--   Upload/Files       the checks of one file and of a whole upload, and the final keys
--   Upload/Site        the tables together with the object store (SpecObjectStore)
--   Upload/Service     Initiate, PrepareFile, ConfirmFile and Status, as calls of the repository
--                      in Catalog and of the object store
--   Upload/Submit      Complete, in the same way
--   Upload/Completion, Upload/Guards  what Complete, ConfirmFile and PrepareFile check
-- Processing models internal/modules/catalog/application/processor.go:
--   Processing/Bytes   io.ReadFull, io.CopyN and encoding/binary on a list of bytes
--   Processing/Wav     validateWAV, on an object's size and bytes
--   Processing/Archive validateStems
--   Processing/Worker  a worker's identifier, of worker.go beside it
--   Processing/Media   normalizeCoverImage, readBounded and the objects that process opens
--   Processing/Process process, with cleanupKeys and the keys that it may have written to
--   Processing/Next    ProcessNext and its heartbeat, RequeueStale and ExpireUploads, over the
--                      repository in Catalog; Processing/Next/Loop  the loop of worker.go
-- and waveform.go beside it:
--   Processing/Waveform       the decoding loop of AnalyzeMP3, and
--   Processing/Waveform/Bars  the bars and the duration that it derives
-- Listing models the checks of a spec in internal/modules/catalog/application:
--   Listing/Draft       the fields of domain/spec.go that they read
--   Listing/Lists       validateStringList, and
--   Listing/Validation  validateSpec, of validation.go
--   Listing/Slug, Listing/Unique  slugify, randomCodeSegment and generateUniqueSlug of service.go,
--                                 and
--   Listing/Create      prepareSpecForCreate with the currencies
-- Notification models internal/modules/notification/infrastructure/websocket/hub.go:
--   Notification/Hub   the loop of Run, where a panic is a step that returns nothing
-- Gateway models internal/gateway/middleware:
--   Gateway/RateLimit  rate_limit.go: the counts, their cleanup and a request's key
--   Gateway/Access     auth.go and rbac.go: which requests reach a handler
--
-- Identifiers and times are natural numbers, with 0 for uuid.Nil and the zero time. Prices and
-- musical metadata of a spec are columns that no operation of Catalog reads, and are left out there;
-- Listing has those that the validation reads, with float64 as a parameter.
-- HMAC, hex, base64, encoding/json, uuid.Parse, uuid.NewString, the tables of package unicode and the Razorpay
-- client are parameters, the record Providers; so are SHA-256, bcrypt, crypto/rand, the JWT
-- library, the mailer and PostgreSQL's lower() in Auth. Rows that tie in ORDER BY created_at are
-- returned in the order of their insertion. Strings are lists of code points; a number that is no
-- Unicode scalar value stands for a byte outside UTF-8. The object store is a parameter that says
-- what each call returns, and so are the packages image, imaging and mp3 and the float64 arithmetic
-- of the waveform. A Go map of the limiter is a function from its keys.
--
-- Every loop runs over a list, but for the one over a WAV file's chunks, which runs on fuel: as many
-- rounds as there are bytes after the RIFF header, where each round takes eight at least; the
-- generators of slugs and short codes try ten times, as they do in the source.
--
-- Not modelled: HTTP handlers, e-mail (the receipt's goroutine writes no table), SaveMetadata,
-- the decoding of images and MP3 files, the JWT library, analytics,
-- administration, the stored notifications, and queries that only read.
pub mod Common
pub mod Db
pub mod Catalog
pub mod Payment
pub mod Auth
pub mod Gateway
pub mod Processing
pub mod Upload
pub mod Listing
pub mod Notification
