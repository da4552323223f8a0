-- ===== src/Lib.antt =====
-- Models of parts of the mail server madmail, and the theorems about them.
--
-- A message reaches the server at an endpoint (SMTP, submission), passes the limits of
-- internal/limits and the message pipeline of internal/msgpipeline, which runs checks and modifiers
-- on it, applies the DMARC policy of its author's domain and hands it to targets: the store of the
-- local accounts in internal/storage/imapsql, or the outbound queue of internal/target/queue. The
-- queue delivers to a target, repeats failed attempts with the help of a time wheel and the error
-- model of framework/exterrors, and reports to the sender what failed for good; the remote target
-- below it takes its connections from internal/smtpconn/pool. internal/quota keeps the storage
-- quotas of the local users, and internal/auth/pass_table their passwords.
--
--   Prelude  tests, lists, texts, maps as association lists, and integers with Go's 64-bit
--            wrap-around.
--   Quota    internal/quota/cache.go: the cache with all its operations. Each holds the lock for its
--            whole body, so that a history is a list of calls.
--   Storage  internal/storage/imapsql: the quotas of imapsql.go, in the database and in the cache of
--            Quota (Storage.Startup is `populateQuotaCache`), and `CreateIMAPAcct` of maddyctl.go;
--            Storage.Delivery is delivery.go, and
--            Storage.Accounts the removal of accounts, the block list and `GetOrCreateIMAPAcct`.
--   Auth     internal/auth/auth.go; Auth.PassTable is internal/auth/pass_table/hash.go, its children
--            Table and Login are table.go: the accounts and settings, the switches and `AuthPlain`.
--   Limits   internal/limits: Limits.Limiter is the interface L of limiters/limiters.go, which
--            Limits.Semaphore (concurrency.go), Limits.Rate (rate.go) and Limits.Multi
--            (multilimit.go) implement, and Limits.Bucket (bucket.go) keeps by key; Limits.Group is
--            limits.go, its Config child `Init` with the directives of the configuration.
--   Errors   framework/exterrors: an error is a chain of layers that may have `Temporary` and
--            `Fields`; and `toSMTPErr` of internal/target/queue/queue.go.
--   Address  framework/address: `Split`, `QuoteMbox` and `UnquoteMbox` of split.go, and
--            `ValidMailboxName` of validation.go; a text is the list of its code points.
--            Address.Lookup is norm.go, with framework/dns/norm.go.
--   Dmarc    internal/dmarc: evaluate.go, and Dmarc.Verifier, verifier.go.
--   Pipeline internal/msgpipeline: Pipeline.Checks is check_runner.go with its child Results for the
--            results and DMARC, Pipeline.Routing the choice of blocks, and Pipeline.Delivery the
--            delivery of msgpipeline.go (its children Start, Recipients and Body) with the modifier
--            groups of internal/modify/group.go.
--   Pool     internal/smtpconn/pool/pool.go: each operation is one step.
--   Queue    internal/target/queue: Queue.Delivery is `deliver`, Queue.Attempt is `tryDelivery` with
--            `emitDSN`, Queue.Run the attempts on one message until it leaves the queue, and
--            Queue.Wheel is timewheel.go.
--   Queue.Disk, Queue.Scan, Queue.Session
--            internal/target/queue/queue.go: the files of a message and the functions that write,
--            read and remove them; `readDiskQueue` and the purges; `queueDelivery` and `dispatch`.
--
-- Choices. Operations that hold a lock are single steps. How a wait on a channel or a context ends is
-- an argument (a Boolean: whether the wait ends with a deadline). Go's pointers that may be nil and
-- its panics are `none` or a constructor `panics`. Times are natural numbers; the delay between attempts, number and
-- duration parsing, the JSON and header formats, the answers of targets, checks and modifiers, the
-- DNS and the public suffix list, the cryptography, the Unicode normal forms, `net.ParseIP`, the
-- database, the IMAP library below the store and the failures of file calls are parameters, and so are how
-- the calls that make and send a bounce end, the order in which the goroutines of a group of checks run and the
-- order in which a pipeline delivery ranges over its maps; each of these goroutines is called and stores what it
-- has to store before the next one. For the other maps the order of the keys is that of the list. Loops are structural on lists; the refill
-- loop of Rate runs on fuel, its burst size, which is enough since no more permits fit.
-- Not modelled: the text of bounce messages and their delivery, the goroutines and the delivery
-- semaphore of `dispatch` with its recovery from panics, the configuration of most parts, migrations, statistics,
-- Windows, logging, and the other packages (the endpoints, the remote target, the checks and
-- modifiers themselves, the tables, the command line and its installer), which are mostly I/O around
-- libraries.
pub mod Prelude
pub mod Address
pub mod Errors
pub mod Pipeline
pub mod Pool
pub mod Dmarc
pub mod Limits
pub mod Auth
pub mod Queue
pub mod Storage
pub mod Quota
