-- ===== src/Lib.antt =====
-- The five practical works of the operating systems course, as definitions with their theorems.
--
-- * Vmm models tp3/src, a simulated virtual memory. Vmm.PageTable is pt.c, Vmm.Tlb is tlb.c,
--   Vmm.Memory is pm.c, Vmm.Frame is vmm.c. Each keeps its static variables in a record, and a
--   function that changes them returns the new record. `pt_find_page` is `find_page`, `tlb_lookup`
--   is `lookup`, `get_frame` keeps its name. An index of -1 for "not found" is an `Option`. A page
--   number behind the page table, or an address behind the memory in pm_read and pm_write, has no
--   result; every frame that get_frame passes on exists. The log files and the printed summaries are
--   left out, but `vmm_log_command`, whose line is the record `Event`. The command language
--   (parse.y, tokens.l) is left out: `Command` is what it passes on.
-- * Shell models tp1/src, a command line shell. Shell.Chars and Shell.Tokenizer are tokenizer.c:
--   the standard input is a list of bytes, and a reader returns what is left of it. Shell.Parser is
--   parser.c: a list of tokens, as the tokenizer links them, becomes a list of commands. Shell.Run
--   is shell.c: the commands are run, and one turn of the loop of `main` joins the three. `pipe`,
--   `fork`, `execvp` and `waitpid` are one parameter, `Launch`, on any state. A read through a NULL
--   pointer and a write behind a buffer are results of their own. The fuel of a line is one more
--   than the length of the input, that of `cmd_parse` two more than the number of tokens behind the
--   first; each turn of the loops takes one of them at least. The freeing of memory is left out,
--   `malloc` is taken to succeed, and the size of a buffer to stay in the range of an `int`.
-- * Sched models tp2/src, a scheduler. Sched.Process is process.c; Sched.Level is the linked nodes
--   of one priority level of ready_queue.c, with addresses and links both ways, and Sched.Queue its
--   operations on the four levels; Sched.Worker is worker.c, Sched.Micro its loop over the pieces of
--   a quantum, and Sched.Turn a whole turn of a worker. A pointer to a process is a number. A call
--   on the ready queue is one step, since it holds the mutex of the level; what follows a run in
--   worker_run is three sections under the mutex of the process, and what the other threads do
--   between them is a parameter. The mutexes, the condition variable, the creation of the threads
--   and ready_queue_remove_par are left out. The loops over nodes have the size of the level as
--   their fuel, which is the number of its nodes; the loop over pieces has the quantum, since each
--   piece has a length of 1 at least. The product of floats in get_quantum is a parameter, and one
--   that is no `int` has no result; `min` cuts a quantum to an `int`. Sched.Os is os.c: what is done
--   to the processes under each lock of its mutex. os_run_user_mode is two steps, before and behind
--   its sleep; Sched.Os.World takes the steps of os_loop and of the workers in any order, with the
--   place of each process. Sched.Report is os_print_report, without the printing and the score,
--   which is a division of doubles. Times are arguments; the clock and the sleeps are left out. The
--   count of the bursts in a row of a file is taken to be one that `malloc` can serve.
-- * Turing models tp0/src, a simulator of Turing machines. Turing.Machine is the run of main.c: a
--   tape of a finite length that is resized, with the position of the head. Turing.Text is the
--   reading of a machine from a file, and `execute`. The tape grows at both ends, where
--   tp0/README.md has one that is infinite to the right only. A read or a write behind a buffer has
--   no result. `step` has fuel for its turns, since a machine need not halt. The lengths of the tape
--   are taken to stay in the range of an `int`.
-- * Fat models tp4/src, a reader of FAT32 archives, main.c and main.h. Fat.Path is
--   get_simplified_path and break_up_path; the loop has the length of the path as its fuel, and
--   takes a byte in each turn. Fat.Block is the boot block, the sectors and the table of clusters,
--   Fat.Name is file_has_name, Fat.File is read_file, Fat.Find is find_file_descriptor, which calls
--   the others. `.` and `..` are resolved in the text of a path, where tp4/README.md has them as
--   parts that are looked up. An archive is the list of its bytes, and a read past its end fails. A
--   NULL name, an array that overflows and a division by zero are results of their own. read_file
--   has the length of the buffer as its fuel, since each turn reads a byte; find_file_descriptor has
--   256 times the length of the archive, since a level of a path is a byte and each other turn goes
--   32 bytes on. What a failed read leaves in the next cluster is a parameter. `malloc` is taken to
--   succeed.
pub mod Base
pub mod Fat
pub mod Sched
pub mod Shell
pub mod Turing
pub mod Vmm
