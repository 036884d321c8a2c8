-- ===== src/Lib.antt =====
-- A model of CloudPanel Gateway (internal/gateway), a Go service that puts an HTTP and MCP API with
-- tokens, scopes and a policy in front of CloudPanel's site operations, with the theorems that make
-- its parts correct.
--
-- The unprivileged API server authenticates a caller (http.go, core.go), keeps artifacts that are
-- uploaded in chunks (http.go, operations.go), and sends requests over sockets to a privileged helper
-- and a commit service, which write cron files (cron.go) and Nginx configuration (nginx_commit.go).
--
--   Base      shared names: tests on numbers, lists, byte texts, Go errors as `Result`, the clock
--             (nanoseconds, and the whole seconds that the database keeps), keyed tables
--   Names     domainRE with ValidateDomain (core.go), siteUserRE (logs.go)
--   Paths     path/filepath's Clean, Join, IsAbs, on which the checks rest; Safety and Rooted: what the
--             cleaned paths cannot hold
--   Auth      core.go: Scopes (scopeRE, HasScope), Tokens (the tokens table: CreateToken, ListTokens,
--             RevokeToken, Authenticate), Policy (Allowed, SetPolicy, the domains table);
--             http.go: Wrappers (token, auth, mcpAuth, validMCPOrigin)
--   Zip       operations.go: validateArtifactZIP; Extraction: extractZIP
--   Uploads   http.go: appendArtifactChunk; Begin: beginArtifactUpload; Completion:
--             completeArtifactUpload; Direct: artifacts (POST /v1/artifacts); Cleanup: CleanupArtifacts
--             (operations.go); Invariant: what rows and files hold, and Reach, the sequences of calls
--   Backups   operations.go: Encryption (encryptFile), Decryption (decryptFile), Format (what a backup
--             file is), Retention (pruneBackups, the backups table), Operations (createBackup),
--             Restore (restoreBackup, executeBackup)
--   Deployment  operations.go: deployArtifact, containedTarget; the directories are a function from
--             their paths
--   Cron      cron.go: Schedule (validateCronSchedule), Quoting (shellQuote), Runner
--             (validateCronRunner, siteRootFile), Render (renderCronCommand, renderCronFile),
--             Transaction (the tables and the file), Execute (executeCron, readCronResult)
--   Nginx     nginx_commit.go: commitNginxVhost, writeNginxFile
--   Static    static.go: patchSPAFallback, executeStatic
--   Settings  settings.go: mutateSiteWithCommit
--   Routes    http.go: siteCron with decodeCronRequest; Requests (HelperRequest of core.go, the scope,
--             the body and the call of the helper), Node (siteNode), StaticSite (siteStatic),
--             SiteSettings (siteSettings), Operations (siteOperations), Logs (siteLogs, which chooses
--             among them); Authorised: the scope that a request asks for, by what it does
--   Actions   core.go: the table Actions, ValidateAction; Handler: action, executeAction (http.go)
--
-- State is passed explicitly: an operation takes the tables and files that it works on and gives its
-- result beside the new ones. A call that can fail for reasons outside the program (disk, database,
-- another process) takes its error from a record of faults, one field for each call, so a theorem for
-- all faults is about every way to fail; what was changed before an error stays changed. Go's `(T,
-- error)` is `Result T`. Texts that are taken apart are lists of bytes, other texts are strings. An
-- `int64` that can wrap is written with its reduction modulo 2^64. The loop of
-- `decryptFile` runs on fuel, one more than the bytes of the file, and a theorem shows that it is
-- enough; every other loop runs over a list.
--
-- Outside the model, as arguments: digests, the authenticated cipher, the tar archive of a
-- backup, random identifiers, the ZIP reader, the URL parser, the
-- file system's answers to EvalSymlinks and Stat, the installed PHP and Node.js versions, the
-- revision of a cron table, the keyed hash of a vhost, the regular expressions of the PageSpeed
-- configuration, and the decoded bodies of the requests. Not modelled:
-- a cleanup in the middle of another upload operation, which the code's mutex does not exclude, the
-- sockets, the command line, the MCP tools, the reading of logs, the other operations on settings,
-- and the Node.js runtime.
pub mod Base
pub mod Deployment
pub mod Names
pub mod Paths
pub mod Zip
pub mod Backups
pub mod Auth
pub mod Uploads
pub mod Cron
pub mod Nginx
pub mod Static
pub mod Actions
pub mod Settings
pub mod Routes
