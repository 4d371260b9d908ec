-- ===== src/Lib.antt =====
-- The core of the SSH honeypot: the login, the virtual file system that an attacker works on, the event
-- bus that every component reports to, the detector that scores the events of a connection, and the
-- recorder of sessions.
--
-- How the parts work together: the shell and the sftp handler call the methods of the file system
-- under its lock; they and the ssh server publish events on the bus; the detector receives them from
-- its queue one after the other, keeps a state per connection and publishes alerts on the same bus.
--
-- Files, with the code that they model:
--   Base, Base/*          shared helpers: byte strings for Go strings and slices, lists over the native
--                         numbers, association lists for Go maps, the order of strings
--   Event/Defs            internal/event/events.go and bus.go: Bus, Subscribe, Unsubscribe, Publish
--   Event/Delivery        what the bus delivers and drops
--   Detect/Rules          internal/detect/rules.go: the rules, severityForScore, hostOnly, isPrivateIP
--   Detect/Defs           internal/detect/detector.go: handle, check, alert, enqueueNotify, finalReport
--   Detect/Monitor        monitorBusDropped
--   Detect/Score, Alerts, Severity, Closing
--                         the theorems of the detector
--   Vfs/Tree, Walk, State internal/vfs/vfs.go and attr.go: node, FileSystem, splitPath, walkPath,
--                         locateNode, subtreeStats and the tests of permissions and attributes
--   Vfs/Write             lockedWrite, WriteFile, AppendFile, Touch, Mkdir, Copy
--   Vfs/Remove, Change    Remove, RemoveAll, Rename; Chmod, Chown, SetAttrs
--   Vfs/Read, Proc        Resolve, List, ReadDir2, ReadFile, IsDir, Attrs; procContent
--   Vfs/Laws, Weight, Sound, Reach, Account, PathLaws
--                         the lemmas on trees, paths and the accounting invariant
--   Vfs/WriteBudget, MkdirBudget, RemoveBudget, RenameBudget, ChangeBudget, Ops
--                         the accounting of each operation and of sequences of operations
--   Vfs/RenameInside      a Rename of a directory to a place below itself
--   Vfs/Messages          the texts of the errors
--   Vfs/Visits            Walk, as the list of the steps that it makes
--   Vfs/Letters           AttrBit, FormatAttrs, AttrNames
--   Vfs/Seed, Bootstrap   addFile, addDir, fakeMtime; bootstrap and New, with every file written
--   Vfs/Seeded, Planted, Initial
--                         the file system that New returns
--   Vfs/Atomic, RoundTrip, MkdirUp
--                         failed operations, reading what was written, the walk of Mkdir
--   Tty/Defs              internal/tty/recorder.go, and readFrames of cmd/ttyshow/main.go
--   Tty/RoundTrip         what is read of a recording, and its size
--   Tty/Output            limitOutput of internal/shell/executor.go, nl2crlf of internal/ssh/server.go
--   Auth/Defs             internal/auth/authenticator.go
--   Auth/Grants           who is let in
--   Identity/Defs         internal/shell/identity.go: SanitizeUsername, ResolveUser and their helpers
--   Identity/Names        the names and the numbers of users
--   Shell/Filters, Columns, Dispatch
--                         runFilter, filterCmd and isFilter of internal/shell/parse.go, filter by filter
--   Shell/Text            the functions of package strings that they call, spaces of ASCII only
--   Shell/Runes           the characters of UTF-8, as the loops over them in tr and strings take them
--   Shell/Sorting, Lines, SortUniq
--                         what sort, uniq, grep, head and tail do to the lines of a text
--   Shell/Paths           the functions of package path that they call
--   Shell/Files           touchCmd, mkdirCmd, rmCmd, mvCmd, cpCmd, chmodCmd, chownCmd
--   Shell/Archives        stripArchiveExt, tarCmd, gzipCmd
--   Shell/FileBudget, FileCommands, RmProtected
--                         what these commands keep, and what rm refuses
--   Shell/Accounts, Crontab
--                         userAddCmd, userDelCmd, usermodCmd, passwdCmd and their helpers; crontabCmd
--   Shell/AccountLaws, NewAccount, AccountBudget
--                         the lines of /etc/passwd, and the accounting of these commands
--   Shell/Find, FindLaws  findCmd
--   Shell/Chattr, ChattrLaws
--                         chattrCmd of internal/shell/attr.go
--   Shell/History, HistoryLaws
--                         AddHistory, History, ClearHistory and RemoveSession of Executor
--   Shell/Tools, SudoLaws stripLeadingSudo, interpreterCode, gitCmd, javaCmd, makeCmd, fileCmd
--   Shell/Exec, ExecBudget
--                         execOne, and the accounting of every command
--   Shell/Syntax, Eval    runAST, runStmt, runPipeChain and runCall of internal/shell/parse.go
--   Shell/EvalLaws        what the evaluation keeps and puts out
--   Shell/Fallback        splitTopLevel, splitLogical, tokenize, runSequence, runAndOr, execPipeline
--   Shell/Quoting, AndOr, SecondRuns
--                         what they read, and which commands of a list run
--   Shell/BigOutput       the way of a large output to the recording
--   Shell/Modes           octalToPerm and chmodCmd's mode
--   Shell/Glob, GlobLaws  globMatch of internal/shell/executor.go, and what its patterns mean
--
-- State. A node is a tree value; a pointer into the tree is the list of the names on the way to it,
-- and an update through it rebuilds the path. Nothing in the source holds a pointer to a node over
-- the end of a locked section, so that aliasing does not arise, but for Rename into the source's own
-- subtree: the target directory is then not reached from the root any more, so that the link below
-- it changes nothing there. A method is a function from the state to the state and the error, one
-- step because of the lock. Times are natural numbers handed in. int64 counters are natural numbers:
-- the limits keep them below 2^31 + 2^26, far from wrapping, and a subtraction of counters that is
-- not exact does not occur in an accounted state.
--
-- Loops are structural recursion, but for four: globMatch runs on the length of the pattern, of
-- which each round takes at least a byte; stripLeadingSudo on the length of the text, likewise
-- (without fuel it has no result, which a theorem excludes); the reader of recordings runs on the
-- length of the file, of which each frame takes at least 12 bytes, and the decimal printer on the
-- number itself, which a division by 10 makes smaller (Base/Decimal). The words of package net,
-- net/url and the case folding of strings are the parameter record `Net`, since their code is not
-- part of the repository, and the digests and base64 of the shell's filters are the parameter record
-- `Codec`. The evaluation of a line is over the interface `Host`: the parser and the expansion of
-- words (mvdan.cc/sh), the single command, the filters and the writes. execOne is over the interface
-- `Others`: Exec of internal/vnet, sudo, the interpreters and the commands that print fixed texts.
-- The verb %q of package fmt is a parameter of the texts of errors.
--
-- Not modelled: the ssh transport, the shell's commands that print fixed texts, the store and the
-- reports (SQL and terminal output), the webhook's HTTP request, logging.
pub mod Base
pub mod Event
pub mod Detect
pub mod Auth
pub mod Tty
pub mod Vfs
pub mod Identity
pub mod Shell
