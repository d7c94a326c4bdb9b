-- ===== src/Lib.antt =====
-- Models and theorems for the programs of this repository: a multi-threaded web server, its request
-- handling and its robust input and output, the system calls over process weights, two allocators, and
-- a shell with jobs.
--
-- The parts and how they interact. In `web_server/`, `main` (server.c) sets up a request queue, a
-- list of the requests at work, one mutex and two condition variables. The master thread accepts
-- connections, applies an overload policy while the server is full, and enqueues; each worker takes
-- the oldest request, calls `requestHandle` (request.c) without the mutex, closes the connection and
-- updates the counters. `requestHandle` reads the request by the Rio package (segel.c) and answers
-- with a file, the output of a program, or an error page. In `process_weights/`, four system calls
-- (kernel/hw2.c) read and write the weight of the current task and walk its children and ancestors.
-- In `virtual_memory/`, `smalloc`, `scalloc`, `sfree` and `srealloc` (malloc_2.cpp) manage the memory
-- above the program break in a list of blocks, with statistics; malloc_3.cpp keeps the list sorted by
-- size, splits and merges blocks, and maps large ones. In `skeleton_smash/`, `main` (smash.cpp) reads
-- lines; `CreateCommand` makes a command of a line, and `execute` runs it on the list of jobs
-- (Commands.cpp), while the handlers of signals.cpp stop or kill the job in the foreground.
--
-- Files and code:
--   Prelude: tests on numbers, lists with native indices, `ℤ` (Prelude/Int), texts as lists of bytes
--     with `strstr`, `index` and `strcmp` (Prelude/Text).
--   Server: web_server/server.c. Its structs are the records `Request`, `RequestsQueue`,
--     `RequestsList`, `SharedInfo`, `ThreadInfo` and `MasterInfo`, with the fields of the source.
--     Server/Queue has `put_request` (the end of the section of `runMaster`) and `take_head`;
--     Server/Policies has `block`, `drop_tail`, `drop_head` and `drop_random`; Server/Master has the
--     section of `runMaster`; Server/Worker has the two sections of `workerFunction`; Server/Threads
--     has the threads as a step relation: a step is what a thread does from taking the mutex to
--     giving it up, or the handling of a request outside of it, in any order of the threads, and
--     `server_start` is what `main` sets up.
--   Requests: web_server/request.c. Requests/Uri has `requestParseURI` and `requestGetFiletype`,
--     Requests/Stats `buf_stats`, Requests/Headers `requestReadhdrs`, Requests/Handle
--     `requestHandle` with `requestError`, `requestServeStatic` and `requestServeDynamic`; its record
--     `Files` also says which `Rio_writen` or `Fork` fails, if one does, and a page that does not fit
--     into its array is an outcome of its own. Requests/Handle/Outcome states the answer for a URI.
--   Rio: web_server/segel.c. Rio/Unbuffered has `rio_readn` and `rio_writen`, Rio/Buffered `rio_t`,
--     `rio_readinitb` and `rio_read`, Rio/Readnb `rio_readnb`, Rio/Lines `rio_readlineb`. Rio/Script
--     is a concrete descriptor.
--   ProcessWeights: process_weights/kernel/hw2.c, over a table of tasks with their parent and
--     children (the fields of `task_struct` that it reads).
--   Malloc: virtual_memory/malloc_2.cpp, over a store of headers at addresses and a store of bytes.
--   Malloc3: virtual_memory/malloc_3.cpp, as runs that may exit in `validateCookie` or crash on NULL.
--     Malloc3/Lists has `firstAllocation`, `HeapListInsert` and `HeapListRemove`, Malloc3/Merge
--     `split`, `smerge` and `merge`, Malloc3/Allocate `smalloc`, `scalloc` and `sfree`,
--     Malloc3/Realloc `mmapsrealloc` and `srealloc`. The proofs are in the other
--     children of Malloc3, of the insertion (Insert, Ties, Placed, Sorted, LostBlocks), of the removal (Remove,
--     Removed), and of the search (BestFit).
--   Shell: skeleton_smash/Commands.cpp, the functions that trim a command line, take the sign of a
--     background command from it, and find the pipe or the redirection in it. Shell/State has the
--     classes of Commands.h, what is printed, and the system; Shell/Jobs the list of jobs,
--     Shell/Signals `skill` and the handlers of signals.cpp, Shell/Processes `swaitpid`, `sfork` and
--     what looks for finished jobs; Shell/Commands the constructors and `CreateCommand`;
--     Shell/Builtins the built-in commands; Shell/Execute external commands, pipes, redirections,
--     and the loop of smash.cpp. Shell/Nesting, Shell/Sides and Shell/Order with its children
--     follow the lines and the ids of the jobs through all of these; Shell/Finished, Shell/Added,
--     Shell/LastStopped and Shell/CtrlZ are about the list of jobs.
-- Where a parent module has definitions, the others below it have the lemmas; each module named `Tests`
-- or `JobTests` has runs on concrete data.
--
-- Parameters: `sbrk` is the record `Break` of Malloc; `sbrk`, `mmap` and `munmap` are the record
-- `Kernel` of Malloc3; the system calls of the shell, and the signals that come, are the record
-- `System` of Shell/State; `read` and `write` are the records `Input` and `Output` of Rio, with what their documentation says of the bytes they move; the file system is the
-- record `Files` of Requests/Handle; the values of `rand` and of the clock, and the results of
-- `requestHandle` where the threads call it, are arguments.
--
-- Bounds and fuel: counters and indices are numbers without an upper bound, the arithmetic on the
-- ring is that of the source, modulo the capacity. The master's loop over the policy needs two
-- rounds, since a policy makes room or gives the mutex up. The loops of the Rio package are given
-- fuel for the bytes and for `patience`, a bound on how often the call is interrupted; the loop of
-- `rio_readlineb` has its rounds from `maxlen`. `requestReadhdrs` has fuel for its lines, since it
-- need not end. The search of `smalloc` has fuel for the blocks, and `size_t` wraps at 64 bits. The
-- walks over the tasks have fuel for the depth of the tree.
-- Loops of Malloc3 over the list or the memory have fuel for the blocks. A pipe or a redirection of the
-- shell creates commands for parts of its line, which are shorter, so that `execute` has fuel for the
-- bytes of the line; the loop of `main` has fuel for the lines, since it need not end.
--
-- Not modelled: the parsing of the arguments of `main` in web_server/server.c, debugging output, the
-- clients and the CGI program, the wrappers of single system calls in web_server/segel.c, the opening of
-- sockets, and virtual_memory/malloc_1.cpp. In Requests, `WaitPid` of a child just made and `Munmap` of a
-- file just mapped succeed. In Malloc3, bytes that are moved over a header do not change
-- it. In Shell, a signal comes while the shell waits for a process or for a line, and not inside of
-- another function; process groups and the alarm are left out, and the commands timeout, fare and
-- setcore, which have empty bodies and are never made.
pub mod Malloc
pub mod Prelude
pub mod ProcessWeights
pub mod Requests
pub mod Rio
pub mod Server
pub mod Shell
pub mod Malloc3
