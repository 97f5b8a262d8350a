-- ===== src/Lib.antt =====
-- A verification library for xv6 with a FIFO and an MLFQ scheduler (xv6/kernel, and xv6/user for the
-- programs that run on it), and for a shell (c-shell).
--
-- The kernel. The table of processes is the state that everything shares. `clockintr` advances the
-- clock, counts the run time, and boosts; `mlfq_tick` charges the running process and may make it
-- yield; `scheduler` takes the next process from the table; `sleep` and `wakeup` take processes out of
-- its reach and back.
--   Kernel/Proc       xv6/kernel/proc.h: `struct proc` as the record Proc, its state, the globals of
--                     proc.c and trap.c as the record Machine.
--   Kernel/Mlfq       proc.c: mlfq_slice, mlfq_higher_runnable, mlfq_tick, mlfq_boost, update_time,
--                     yield. Mlfq/Slice has the laws of charging, Mlfq/Tick those of a whole tick.
--   Kernel/Scheduler  proc.c: the FIFO and the MLFQ loop of scheduler() up to swtch. Scan and Choice
--                     have the search of the table for any order, Mlfq and Fifo apply it.
--   Kernel/Sleep      proc.c: sleep_prepare, sleep, wakeup, kkill, setkilled, killed. Sleep/Wakeup
--                     puts them, and what else writes a process, in sequences of events.
--   Kernel/Life       proc.c: allocproc, freeproc, kfork, reparent, kexit; Life/Wait has kwait and
--                     kwaitx. Life/Pids follows the pids through all of these, Life/Orphans the
--                     parents through an exit.
--   Kernel/Pipe       xv6/kernel/pipe.c: pipeclose, pipewrite and piperead between two sleeps.
--                     Pipe/Fifo shows the queue behind the ring of bytes.
--   Kernel/Memory     xv6/kernel/kalloc.c: kfree and kalloc; proc.c: growproc.
--   Kernel/Vm         xv6/kernel/vm.c: the page tables of processes, on a memory of words. Vm/Tree has the
--                     tree that a page table is, and Vm/Walk follows it. Vm/Entries, Vm/Map and
--                     Vm/Addresses are about mappages and walkaddr; Vm/Off, Vm/Cleared, Vm/Owned and
--                     Vm/Unmap about uvmunmap and the pages that it frees; Vm/Empty and Vm/Grow about a
--                     new table and the pages that one owns; Vm/Alloc, Vm/Rounds and Vm/Uvmalloc take
--                     uvmalloc apart; Vm/Process has proc_pagetable of proc.c, which makes the tables
--                     that it gets.
--   Kernel/Clock      xv6/kernel/trap.c: clockintr, and the preemption in usertrap and kerneltrap.
--   Kernel/Log        xv6/kernel/log.c: the redo log. Log/Words has the header, Log/Install the two
--                     loops that copy blocks, Log/Crash a recovery, Log/Commit a commit, Log/Atomic
--                     any crashes after one, and Log/Space the room that begin_op keeps.
--   Kernel/Cache      xv6/kernel/bio.c: the buffer cache. Cache/Lookup says which buffer bget takes,
--                     Cache/View what a block reads as, Cache/Ring and Cache/Release what a read and
--                     a release keep of the ring, Cache/Calls puts them in sequences.
--   Kernel/Console    xv6/kernel/console.c: consoleintr and consoleread. Console/Line has the text that
--                     the buffer shows, Console/Keys what a key does to it, Console/Session sequences
--                     of keys and reads.
--   Kernel/Strings    xv6/kernel/string.c. Strings/Moves is about memmove, Strings/Copies about
--                     safestrcpy.
--   Kernel/Path       xv6/kernel/fs.c: directories and path names. Path/Elements takes a path apart,
--                     Path/Walk follows it, Path/Link writes an entry.
--
-- The programs.
--   User/Grep         xv6/user/grep.c: the matcher, with the language of a pattern in Grep/Language,
--                     and the loop over what is read, in Grep/Lines.
--   User/Text         xv6/user/printf.c: printint; xv6/user/ulib.c: atoi. Text/Numbers is about both.
--
-- The shell. `run` reads the tokens of a line (`lex_line`), checks them (`parse_tokens`), and runs the
-- parts between `;` and `&` (`run_tokens`); a part in the background enters the table of jobs, which
-- the handler of SIGCHLD updates.
--   Shell/Token       c-shell/include/lexer.h.
--   Shell/Lexer       c-shell/src/lexer.c, byte by byte: the mode says where in the body of the loop
--                     the next byte is read. Lexer/Reference is what a line means, without buffers;
--                     Refinement, Quoting, Bounds and RoundTrip say what lex_line does.
--   Shell/Parser      c-shell/src/parser.c. Parser/Grammar is the grammar that it decides.
--   Shell/Jobs        c-shell/src/d1d2.c: the table of jobs and its signal handler. Jobs/Stable is about
--                     what stays of a job, Jobs/Text about its command, Jobs/Ends and Jobs/Noticed about
--                     the ends that the kernel tells of, and Jobs/Reports about what is reported.
--   Shell/Run         d1d2.c: run and run_tokens, on any runcomm and runbuff. Run/Line has what
--                     a line does, Run/Checked what the check knows of it, Run/Parts the loop.
--   Shell/Redirection c-shell/src/redirection.c: collect_command. Redirection/Arguments says what it
--                     collects.
--   Shell/Builtin     c-shell/src/func.c: what the builtins share.
--   Shell/Peek        func.c: peek, in both directions. Peek/Lines and Peek/Backwards follow the two loops
--                     over the bytes, Peek/Order compares them, and Peek/Command has the options.
--   Shell/Hop         func.c: hop. Hop/Saved is about the file of visited directories, Hop/Best and
--                     Hop/Preferred about the visit that a name finds, and Hop/Back about `hop -`.
--
-- How code is modelled. A pointer into a table is an index, a string is the list of its bytes before
-- the NUL, a `uint` is a number below 2 ^ 32 with the wrap written out, and an array index out of
-- bounds or a panic is `none`. A loop is a recursion on the list that it reads or on the count that
-- it runs down, and the few that are not have a bound on their rounds, named below. A loop over the table of processes that locks one slot at a time is one step: it is
-- not interleaved with another CPU; between such steps the events of Sleep/Wakeup come in any order.
-- Memory that `realloc` and `malloc` give is an argument `grants`: the n-th request is granted or not.
-- What `waitpid` and `kill` answer to the shell are arguments of its handlers. The disk under the log
-- makes `power` more writes of one block each, and loses all later ones: this is a crash at any point.
-- The ring of the buffer cache is a list, and each `read` of grep gives as many bytes as an argument
-- says, where there is room. The loop of namex has a bound of one round for each byte of the path and one
-- more, and the one of ^U one for each byte of the line: Path/Walk and Console/Keys are about these.
-- The loop of printint has 64 rounds, one for each bit. A sum in atoi that is too large for an `int` is
-- `none`, since C leaves it undefined.
--
-- Not modelled: the round robin loop of scheduler(), system calls, the kernel page table and the copies
-- between kernel and user, the inodes, their blocks, the table of files and the devices of xv6, its
-- other user programs, the pipelines and the terminal of the shell, and its builtins but for peek and
-- hop. These are either planned or are input and output only.
pub mod Prelude
pub mod Kernel
pub mod Shell
pub mod User
