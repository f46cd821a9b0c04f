-- ===== src/Lib.antt =====
-- StackVault hides a program's stack while it is not in use: at the start of a call the caller
-- issues a system call that saves its stack in kernel memory and overwrites it, and at the end one
-- that puts it back. This library models the kernel module, the readers it uses, and some helpers
-- beside it.
--
-- The parts.
--
-- Memory.antt, Memory/Alloc.antt: the memory that the module reads and writes, kernel's and user's,
-- one byte at an address, with the calls of kmalloc counted and the freed blocks recorded. kmalloc
-- itself is a parameter, a function of the number of calls so far and the size; KernelHeap says of
-- its first calls that up to 4 MB they do not fail, and that no two of the blocks meet (a block
-- that was freed is not handed out again within these calls). Reads and writes of user memory do
-- not fault, but a memcpy of restore_stack_buf past the end of the address space does.
--
-- StackBuf.antt (kernel_probe/stack_buf.c, stack_buf.h): the growing array of saved ranges.
-- init_stack_buf, copy_stack_buf (with grow, copy_slots and insert_entry for its parts), cmp and
-- restore_stack_buf (with restore_slots, restore_range and copy_back for its loops). list_sort is a parameter;
-- ListSort in StackBuf/Sorting.antt states what lib/list_sort.c documents. A list head that was
-- copied as a structure is `dangling`, and following it is a fault. StackBuf/Saved.antt has the
-- specification: read_back is what a buffer says of each byte, held which bytes it holds.
--
-- Mapper.antt (kernel_probe/mapper.c): the table of functions by address. Mapper/View.antt has its
-- specification, a sequence of symbols, and Mapper/Destroy.antt a fault of destroy_mapper.
--
-- Elf.antt (kernel_probe/parse_elf.c): elf_open on the bytes of a file, the accessors, and parse.
-- What opening the file gives is the parameter Lookup. The loop over the symbols has a round for
-- every symbol that fits between the table's ends, and one more. Elf/User.antt (parse_elf/elf.c) has
-- the user-level reader that it was made from, as far as the texts differ, and Elf/Listing.antt what
-- that one lists. Elf/Entered.antt follows parse into the mapper.
--
-- Probe.antt (kernel_probe/jprobe.c): the static variables as the record Module, and the handlers
-- jsys_encrypt_stack and jsys_decrypt_stack. Paras.antt has contains and find_in_stack_buf,
-- Pointers.antt restore_pointers, Scan.antt the loop over the stack. The rounds of that loop are an
-- argument, since a declared size can make it endless; one round for every address is enough where
-- no parameter wraps round. Shielded.antt, Passed.antt, Clearing.antt, Encrypt.antt, Keeps.antt,
-- Decrypt.antt, RoundTrip.antt and Faults.antt have the proofs for one call, Shown.antt and
-- PointerTrip.antt those for a call with pointer parameters, whose chains Pointers/Exposed.antt
-- describes, Misplaced.antt a fault where the pointer is not in the first range saved, SetUp.antt
-- and Nested.antt those for calls within calls: a run is a sequence of writes to user memory and
-- complete protected calls, each with a run between its two system calls and with parameters that
-- are all values or all pointers. A fault of the kernel is the result `oops`, rounds that ran out
-- are `hung`. A slot of sbuf_stack whose array was replaced behind a local pointer is `stale`.
--
-- Cipher.antt (kernel_probe/stack_encrypt.c): the XOR of a stack with a key. The rounds of the loop
-- over the words are an argument; one for every word and one more are enough. Cipher/Words.antt
-- follows the words byte by byte, Cipher/Params.antt the parameters that are set aside,
-- Cipher/RoundTrip.antt both runs.
--
-- Hash.antt (clear_stack/hash.c): the daemon's hash table; what the uninitialised hashval of htHash
-- starts with is an argument. malloc is taken to succeed. Hash/Others.antt follows the other keys, and
-- Hash/Sorted.antt the order of a bin.
--
-- Server.antt (clear_stack/stack_encrypt_server.c): safechar, get_page_frames and get_stack_areas,
-- over the page frame of an address. Server/Pagemap.antt has that frame, read from the process's
-- pagemap, which is a parameter. Server/DevMem.antt has encrypt_stack and read_memory_page: whether
-- open and lseek succeed, and how many bytes read and write transfer, are parameters.
-- Server/Requests.antt has a round of main from strtok on, over the C string in str, with strtok and
-- atol as the C library documents them, and the request that stack_encrypt_client.c builds. Client.antt,
-- Table.antt and Length.antt have the proofs. Server/Session.antt has the two ends of the socket: the
-- connections, with the array str that main keeps from one to the next and the answers, and the client;
-- Server/Echo.antt brings them together. Server/Dump.antt (kernel_probe/readmem.c) has the tool that
-- prints a page of /dev/mem.
--
-- Memory/Glibc.antt (test/user_level_memset.c, test/kernel_module_memset.c): the copy of glibc's
-- memset; Memory/Glibc/Fills.antt compares it with memset. Eight rounds are enough to align the
-- address.
--
-- Pass.antt (llvm/Hello.cpp): the pass Hello over the functions of a module. LLVM's instructions are
-- the parameter Ir. The loop comes to the instructions that it has put in, so that a body may want three
-- rounds for each of its instructions and one more; Pass/Inserted.antt proves these enough.
--
-- Loading.antt (jprobe_init and jprobe_exit of kernel_probe/jprobe.c, kernel_probe/kprobe.c): the
-- registration of the probes. Probe/Watch.antt (kernel_probe/jprobe.c): the probes of the write path,
-- which jprobe_init does not register any more, over the variables pid and p.
--
-- FileOps.antt (kernel_probe/file_ops.c): the wrappers of the kernel's file calls, which set the task's
-- address limit around each. The calls themselves are the parameter Vfs.
--
-- StackClear.antt (clear_stack/stack_clear.c): the hook at the end of every call. A round for every byte
-- of the frame and one more are enough.
--
-- Not modelled: what is only printed, with the handlers that do nothing else; file_close and file_sync,
-- which pass their argument on; the sample programs of stack_clear.c and test,
-- Hello2 and the registration of the LLVM passes, parser.py and the kernel patches (other languages).
-- Threads: the handlers run one at a time.
pub mod Base
pub mod Memory
pub mod StackBuf
pub mod Mapper
pub mod Elf
pub mod Probe
pub mod Cipher
pub mod Hash
pub mod Server
pub mod Pass
pub mod Loading
pub mod FileOps
pub mod StackClear
