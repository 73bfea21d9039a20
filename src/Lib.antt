-- ===== src/Lib.antt =====
-- Verification of the HC32F460 firmware: the kernel under src/rtos, the bit timing of its CAN driver,
-- the buffer and the file names of its log, the paths of its shell, the disk format of its file system
-- and its choice of blocks, and the escaping of its ZMODEM transfers.
--
-- The kernel keeps threads on ready queues, one for each of 32 priorities, with a bitmap of the queues
-- that are not empty. A thread that waits for an object or sleeps stands on the list of what it waits
-- for, with a timer if the wait may run out. The clock interrupt rotates the queue of the current
-- thread, asks for a switch, and fires the timers; a timer of a thread wakes it with an error. The
-- objects of ipc.rs put the current thread on their lists and wake the first of it. A switch is a
-- request that the PendSV exception carries out later.
--
-- The log writes entries into a buffer in RAM, from which a thread drains them into files; a boot
-- takes the number behind the newest one that the names of the files show. The files are on a file
-- system whose snapshots are found by a header with a checksum and a commit word, behind it a table of
-- erase counts and the entries; each snapshot goes to a free run of blocks of little wear. The shell
-- resolves what is typed against its working directory to the keys of that file system. ZMODEM sends
-- each byte of a file escaped as the line needs it. These parts do not call one another here: each is
-- modelled on its own.
--
-- Every operation of the kernel runs with interrupts masked, so that one is a function from state to
-- state here; `switch_to_first` at the end of `start` does not, and is one step with it all the same.
-- A thread, a timer, a mutex and a list head are their addresses; an intrusive list is the list of the
-- addresses of the owners of its nodes, in order, and the link of a node names the list it stands on.
-- A call that blocks is two functions: up to the point where the thread is switched away, and from
-- where it runs again (`take` and `take_resumed`). A function that panics gives `none`.
--
-- Which module models what:
--   Base                  numbers, tests, lists, insertion in order, single bits, texts
--   Rtos.Timer            src/rtos/timer.rs: `start_internal`, `stop_internal`, `insert_sorted`, `check`;
--                         `advance` and `ticks_from_ms` of src/rtos/mod.rs
--   Rtos.Kernel           the state: thread control blocks (`ThreadInner` of src/rtos/thread.rs), ready
--                         table, lists of waiting threads, mutexes, timers, switch request; the list
--                         operations of src/rtos/klist.rs
--   Rtos.Sched            src/rtos/sched.rs, `request_switch` and the switch of src/rtos/context.rs, `start`
--   Rtos.Ipc              what the objects of src/rtos/ipc.rs share: `suspend_current`, `suspend_prio`,
--                         `wake_head`, `ensure_ipc_context`, with `wakeup_thread` of src/rtos/thread.rs
--   Rtos.Ipc.Semaphore, Event, Mailbox, MessageQueue, Mutex
--                         the objects of src/rtos/ipc.rs, a function for each critical section; of the
--                         loops of mailboxes and message queues, a turn
--   Rtos.Thread           src/rtos/thread.rs: sleep, suspend, resume, time-out, deletion, stack checks
--   Can                   src/can_timing.rs: rates, the search `calculate`, the comparison of errors
--
--   Log.Decimal           decimals as the standard library prints and parses them
--   Log.File              src/logfile_core.rs: names of segments, order of boots, `next_boot`, the marker
--   Log.Ring              src/logring.rs: `begin_entry`, `append_to_entry`, `commit_entry`; in Log.Ring.Drain
--                         what takes entries out; an entry is a header of two bytes and its content
--   Shell.Path            src/shell/path.rs: `resolve`, a path being the bytes that are in use of its buffer
--   Shell.Path.Buffer     the same with the whole buffer, and `is_ancestor_of` and `rebase`, which compare
--                         all of it
--   Disk.Crc, Format      crates/littlefs/src/format.rs: the checksum, the layout arithmetic, words in bytes
--   Disk.Header, Record, Wear
--                         the same file: the codecs of the snapshot header, the entry header, and the table of
--                         erase counts
--   Disk.Placement        crates/littlefs/src/fs.rs: the choice of the run of blocks for the next snapshot, and
--                         the counts of wear it goes by
--   Zmodem                src/zmodem.rs: what is sent for a byte, how it is read back, the position in a
--                         header, the steps of the checksums
--
-- Words: a tick is 32 bits wide and goes round, a product in can_timing.rs is taken modulo 2^64, a
-- hold count modulo 2^8; a boot is 64 bits wide and goes round, a segment 32 bits; checked sums on the
-- disk are below 2^32, and sums of block numbers are taken to be; the count of lost entries of the
-- log, a word of 32 bits in the source, is a number without a bound; a priority and a bitmap are
-- numbers with a bound in the invariants.
--
-- Fuel: the loop of `check` takes fuel, and as many turns as there are expired timers and one more are
-- enough when callbacks leave the timers alone. The loops along the chain of mutex owners take fuel;
-- one turn is enough for a thread that waits for no mutex, which a thread that unlocks one is. The
-- loops of the log's buffer take one turn more than there are bytes in use, which are at least two for
-- each entry; a number is printed in as many turns as it counts.
--
-- Parameters: the callbacks of timers, the memory of a pool before its first message, the addresses of
-- lists, the tick rate, and whether an interrupt is being served.
--
-- Not modelled: the saving of registers beyond which thread they belong to, the hook that is run at a
-- switch, allocation and its failure, the assertions on destruction, names and statistics of threads,
-- the drivers, the front end of the log and its writing to files, the heap, the rest of the file
-- system and its block device, the frames and sessions of ZMODEM, the terminal of the shell, and the
-- programs that test the board.
pub mod Base
pub mod Can
pub mod Disk
pub mod Log
pub mod Rtos
pub mod Shell
pub mod Zmodem
