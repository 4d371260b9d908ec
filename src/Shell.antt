-- ===== src/Shell.antt =====
-- internal/shell: the commands of the shell, their text and their effect on the file system.
pub mod Text
pub mod Paths
pub mod Runes
pub mod Filters
pub mod Columns
pub mod Dispatch
pub mod Sorting
pub mod Lines
pub mod Modes
pub mod Glob
pub mod GlobLaws
pub mod Find
pub mod FindLaws
pub mod Chattr
pub mod ChattrLaws
pub mod Files
pub mod Archives
pub mod FileBudget
pub mod FileCommands
pub mod RmProtected
pub mod Syntax
pub mod Eval
pub mod EvalLaws
pub mod BigOutput
pub mod Fallback
pub mod Quoting
pub mod AndOr
pub mod SecondRuns
pub mod Accounts
pub mod AccountLaws
pub mod SortUniq
pub mod NewAccount
pub mod Crontab
pub mod Tools
pub mod History
pub mod HistoryLaws
pub mod SudoLaws
pub mod Exec
pub mod ExecBudget
pub mod AccountBudget
mod Tests
mod FileTests
mod EvalTests
mod AccountTests
mod ToolTests
mod ExecTests
