-- ===== src/Lib.antt =====
-- Mock-OS: three assignments that grow a shell into a small operating system.
--
-- a1 is a shell: a line is split into words (a1/shell.c), interpreted as a command
-- (a1/interpreter.c), and variables live in an array of pairs (a1/shellmemory.c). a2 adds
-- processes: scripts are loaded by pages into a frame store (a2/shellmemory.c), described by
-- process control blocks (a2/pcb.c) in a ready queue (a2/ready_queue.c) and run by a scheduler
-- (a2/kernel.c), whose lines come back to the parser (a2/shell.c) and the interpreter
-- (a2/interpreter.c). a3 has its own frame store (a3/shellmemory.c) for the pages of its processes
-- (a3/pcb.c), linked lists (a3/linked_list.c) for the ready queue, the pages by their last use and
-- all processes, and a kernel (a3/kernel.c) that runs the lines of processes on a CPU (a3/cpu.c):
-- a line goes to the shell (a3/shell.c) and from there to the interpreter (a3/interpreter.c), which
-- may start processes and run the kernel again. The commands on files are utilities
-- (a3/fs/fsutil.c, a3/fs/fsutil2.c) over a file system: paths (a3/fs/filesys.c) lead through
-- directories (a3/fs/directory.c) to open files (a3/fs/file.c); directories and files are bytes in
-- inodes (a3/fs/inode.c), whose sectors come from a map of the free ones (a3/fs/free-map.c) and lie
-- on a block device (a3/fs/block.c) behind a buffer cache (a3/fs/cache.c).
--
-- Files:
--   Prelude (with Tests, Lists, Strings, Int): Boolean tests, lists and texts over native numbers.
--   Store, Store/Laws: the array of name/value pairs that the three shell memories share.
--   Libc: characters, `strcspn` with "\r\n", isalnum, and text files read by lines.
--   A1/ShellMemory, A1/Shell, A1/Interpreter: a1/shellmemory.c, `parseInput` of a1/shell.c,
--     a1/interpreter.c. ShellMemory/Laws, Shell/Words, Shell/Bounds and Interpreter/Variables prove.
--   A2/State: a2/pcb.h, a2/pcb.c and the state of the kernel. A2/ShellMemory, A2/ReadyQueue,
--     A2/Kernel, A2/Interpreter, A2/Shell: the files of a2 with these names. ReadyQueue/Sorting and
--     Shell/Hang prove.
--   A3/ShellMemory: a3/shellmemory.c, with Frames for `frame_alloc`.
--   A3/Pcb: a3/pcb.h and a3/pcb.c; Paging and Lines prove.
--   A3/Exec: actions on a state that may fail; Exec/Leads has the rules to prove about them.
--   A3/Machine: the state of shell, kernel and file system; Machine/Live and Machine/Actions
--     prove. A3/Kernel and A3/Scheduler: a3/cpu.c and a3/kernel.c, by page faults and new
--     processes, and the running of processes; Kernel/Live and Scheduler/Live prove. A3/Guards,
--     A3/Commands, A3/FileCommands and A3/Interpreter: a3/interpreter.c, by the error codes and
--     the tests on the number of words, the commands of the shell, those on files, and the choice
--     of the command. A3/Shell: a3/shell.c. Guards/Answers, Commands/Answers,
--     FileCommands/Answers, Shell/Answers and Shell/Strtok prove.
--   A3/LinkedList: a3/linked_list.c. Links and Represents say what a well-linked list is; Insert,
--     Remove, Find and Deque prove.
--   A3/Fs/Block, A3/Fs/Cache: a3/fs/block.c and a3/fs/cache.c. Cache/Slots, Cache/Evict,
--     Cache/Refine and Cache/Session prove.
--   A3/Fs/Layout: `struct inode_disk`, and its bytes as they lie in memory and on the disk, which
--     the source copies; RoundTrip proves.
--   A3/Fs/BlockMap, A3/Fs/InodeIo, A3/Fs/Reserve, A3/Fs/Deallocate, A3/Fs/Inode: a3/fs/inode.c, by its
--     functions: `index_to_sector` and `byte_to_sector`; the loops of `inode_read_at` and
--     `inode_write_at`; `inode_reserve`; `inode_deallocate` and `get_inode_data_sectors`; the open
--     inodes. BlockMap/Refine, InodeIo/Bytes, Read, Patch, Write and WriteLoop, Reserve/Full,
--     Inode/Handles and Inode/Files prove.
--   A3/Fs/FreeMap: a3/fs/free-map.c; Allocate proves.
--   A3/Fs/DirEntry: `struct dir_entry` and the loops over the entries of a directory; Search, Lookup
--     and FreeSlot prove.
--   A3/Fs/State: the state of the file system. A3/Fs/Directory, A3/Fs/File, A3/Fs/FileSystem:
--     a3/fs/directory.c, a3/fs/file.c and a3/fs/filesys.c. Directory/Paths, Directory/Reading and
--     File/Writing prove. A3/Fs/Mount: `filesys_init` and `filesys_done`, and the file of the free map.
--   A3/Fs/Io: the screen, the host and the file system. A3/Fs/Util: a3/fs/fsutil.c. A3/Fs/Copy,
--     A3/Fs/Survey and A3/Fs/Recover: a3/fs/fsutil2.c, by `copy_in` and `copy_out`, what goes through
--     the files of the root directory, and `recover`. Copy/Reading and Survey/Fragments prove.
--   Tests: runs at concrete inputs.
--
-- Functions keep the names of the source in lower case. Global variables are a state that is
-- passed on: `Shell` in A1, `Kernel` in A2, `Cache`, `Disk` (with the free map), `FileSys` (with
-- what is open) and `Io` in A3/Fs, `Machine` around these in A3, `Heap` in A3/LinkedList. The
-- lists of the kernel are sequences, on which A3/LinkedList/Deque and A3/LinkedList/Find show
-- that the operations of a3/linked_list.c act as they do in A3/Machine and A3/Kernel. An array is
-- a list, a pointer into it an index, a pointer to a structure that is freed an address, a C
-- string the list of its character codes. Where C leaves the behaviour undefined (an index out of
-- range, a null pointer, memory that was freed, a buffer that overflows) the model ends in a
-- result of its own: `undefined` or `overflow` in A1, `fault` in A2, A3/LinkedList and the
-- actions of A3, `none` in A3/Pcb, A3/ShellMemory and A3/Fs, where `none` is a panic or failed
-- assertion as well: `debug_panic` of a3/fs/debug.c is meant to halt and only prints, but what
-- runs behind it has lost the condition that it relies on. What printing shows is a list of texts
-- in the state.
--
-- Fuel and bounds: the loops of `parseInput` get one round more than the 1000 characters they may
-- read; A1/Shell/Bounds shows that this is enough in assignment 1. The clock of the cache gets
-- one round more than it has slots, which A3/Fs/Cache/Evict shows to be enough. The loops that
-- read and write an inode get one round more than bytes asked for, a search in a directory one
-- more than it has entries, and one in a linked list one more than addresses were given out;
-- A3/Fs/InodeIo, A3/Fs/DirEntry/Search and A3/LinkedList/Find show that these are enough. Scripts
-- that run scripts recurse on a depth, and the schedulers of a2 and a3 and the loop on the
-- commands of a line of a3 on a number of rounds, all given by the caller, since these loops can
-- go on for ever. A process id is a natural number, where the source has an int; sizes, offsets and indexes are natural numbers, and those that C lets go negative are
-- integers. Sector numbers are 32 bits wide on the disk.
--
-- Parameters: the host's file system (listing, making, changing directories, the content of
-- files) in A1/Interpreter and A2/Interpreter, and `Host` in A3/Fs/Io: `system`, the files of the
-- host, `printf` of numbers, `atoi`, `strstr`, `hex_dump` and what `malloc` leaves in memory. The
-- bitmap of the free map, a3/fs/bitmap.c, is a library: its functions are `BitmapLib` and what
-- its comments say of them is `BitmapLaws`, both in A3/Fs/FreeMap; Tests/Bitmap fills them.
-- `sprintf` of a process id is a parameter of A3/Pcb. The block device keeps what was written
-- last to each sector. Memory is never short, and gives out new addresses.
--
-- Not modelled: the loops of a1 and a2 that read standard input (`main`), reopening the terminal,
-- printing that only shows the state, functions that are never called. a3/fs/list.c and
-- a3/fs/bitmap.c are copies of a library; the driver a3/fs/ide.c and a3/fs/partition.c are input and
-- output.
pub mod Prelude
pub mod Store
pub mod Libc
pub mod A1
pub mod A2
pub mod A3
pub mod Tests
