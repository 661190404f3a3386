-- ===== src/Lib.antt =====
-- A model of RockOS, a small x86-64 kernel in Rust, and theorems about it. The kernel's parts and the
-- files that model them:
--
--   Memory     src/memory.rs: the bitmap allocator of physical frames. A frame is its start address;
--              FREE_COUNT and TOTAL_USABLE are fields beside the bitmap. `Memory.new` is built from
--              the boot loader's memory map, whose regions enter with a flag for "usable".
--   Keyboard   src/keyboard.rs: the ring of scan codes against a bounded queue (Keyboard/Fifo), the
--              interrupt that fills it (Keyboard/Irq), and the layout (Keyboard/Layout). What the
--              controller's ports return is an argument.
--   Tty        src/tty.rs: scan codes to characters, lines and reads.
--   Task       src/task.rs and the assembly of src/syscall.rs: the frame that a system call saves on
--              the kernel stack, as steps on registers and a memory of words.
--   Process    src/process.rs: the process table, pids, exit and reaping.
--   Scheduler  src/scheduler.rs, with the timer interrupt of src/interrupts.rs and the exit of
--              src/syscall.rs: the run queue and which task runs next.
--   User       src/user.rs: the range checks on pointers from user mode (User/Ranges), over the memory
--              areas of a process (Process/Areas).
--   Fs         src/fs.rs and the `write` of src/syscall.rs: the descriptor table. User memory is a
--              function from addresses to bytes, the range checks are functions.
--   Brk        the heap of a process: `sys_brk` of src/process.rs and the unmapping of src/paging.rs. The
--              page table of the x86_64 crate is a record of operations and laws, `Mapper`.
--   Mmap       `sys_mmap` and `sys_munmap` of src/process.rs, over the same page table.
--   Syscall    src/syscall.rs: wait4, and nanosleep (Syscall/Sleep) with `sleep_until_ticks` of
--              src/scheduler.rs.
--   Bytes      `to_le_bytes` and `from_le_bytes`.
--   Paging     user memory behind the page table: translation, reading, writing (Paging/Access) and
--              copying (Paging/Copying), with physical memory a function from addresses to bytes.
--   Elf        src/elf.rs. Elf/Stack builds the bytes of a new program's first stack word by word, and
--              Elf/Stack/Reference describes them at once. Elf/Headers reads the headers of an image
--              and plans a segment; Elf/Loader is `load_elf_mapped`: Frames and Pages have the frames
--              and zeros of a segment, Segments its bytes, Reference and Whole compare the loader
--              with one that knows no pages, Notes and Bounds have the metadata. Elf/Exec is
--              `build_exec_stack`, `load_elf` and `load_elf_exec`: Unmapping and Clearing are about
--              the old image that goes, Replacing puts the steps together, Failing follows a load
--              that map_to refuses.
--              Elf/Samples has a page table and a small image for the tests.
--   Fork       `sys_fork` of src/process.rs: the child's stack (Fork/Copied), its slot
--              (Fork/Placing) and its place on the run queue (Fork/Queued).
--   Execve     `sys_execve` of src/process.rs: strings from user memory (Execve/Strings), and the
--              whole call (Execve/Replaced).
--   Vga        src/vga.rs: the cursor and the cells of the text screen.
--   Serial     src/serial.rs: the hexadecimal printer.
--   Prelude    shared names, Boolean tests and lists over the native numbers.
--
-- How they interact: a keyboard interrupt pushes a scan code onto the ring and feeds the terminal. The
-- timer interrupt counts ticks and asks for a switch of tasks when a slice is over. A system call
-- saves its frame (Task), runs its handler on the process table (Process), and ends in the scheduler,
-- which stores the frame in the caller's slot, rotates the queue if a switch is due, and resumes the
-- first live task; `exit` drops the caller from the queue instead.
--
-- Conventions: a value of the source's unsigned types is a native number, with wrap-around written out
-- where the source can wrap (FREE_COUNT, TICKS); an i32 exit code and an i64 target are their bit
-- patterns. Statics behind locks are fields of records that each operation takes and returns; the
-- `Option` around the process table and the scheduler, which is `None` only before `init`, is left
-- out. A panic is a `none` of its own (`Resumption.saved`) or an index that the invariants keep in
-- range. The loops are structural: over the bytes of the bitmap, the slots of the table, the
-- candidates for a pid (1022 of them, more than a table of 32 slots can use), the run queue, the
-- program headers, pages and bytes of an image. Padding to a multiple of 8 or 16 runs on as much fuel,
-- which a round short of it uses up. The
-- endless `hlt` loop of an empty run queue is the outcome `none` of picking. The loop of a blocking
-- read is structural over the list of interrupts that it sees, and ends as `blocked` when the list
-- does. Interrupts are on from its first `hlt` on, so that scan codes also come in between an attempt
-- and the next `hlt`; one that comes within an attempt waits for ever for the lock that the attempt
-- holds, and the outcome is `deadlocked`.
--
-- `Result` and `Parsed` keep a panic apart from an error: a sum of 64-bit numbers that carries, an
-- address that `VirtAddr::new` refuses, a page fault of the kernel. `VirtAddr::new` is a parameter,
-- known to keep addresses below 2 ^ 47. Of the page table, `Mapper` says what map_to and unmap do to the
-- translation of a page; the records TakesFrames, UnmapsFrames and RefusesMapped add, where a theorem
-- needs it, that map_to takes frames from the allocator and returns none, that unmap gives the frame of
-- a mapped page and leaves the page unmapped, and that map_to refuses a page that is mapped. Elf/Samples
-- has a page table that satisfies them all.
--
-- Not modelled: port output, descriptor tables, the frames that hold page tables as memory, the kernel
-- heap, the mapping of the demo program, the dispatch table of system calls and the order of boot. The
-- case that the frame allocator is not initialised is left out.
pub mod Prelude
pub mod Keyboard
pub mod Tty
pub mod Task
pub mod Memory
pub mod Process
pub mod Scheduler
pub mod User
pub mod Fs
pub mod Vga
pub mod Serial
pub mod Syscall
pub mod Brk
pub mod Mmap
pub mod Bytes
pub mod Elf
pub mod Paging
pub mod Fork
pub mod Execve
