-- ===== src/Lib.antt =====
-- The kernel of a small operating system for the uRISCV machine: processes that exchange messages,
-- a scheduler, interrupts, and a process of the kernel, the SSI, that serves requests.
--
-- The parts and their modules. Listx models headers/listx.h, the circular lists that link all
-- structures, over a memory of next and prev fields at numeric addresses; Listx.Heap describes all
-- lists of a memory at once, by the heads, the nodes of each and that no node stands in two. Types
-- models headers/types.h and headers/const.h; its State holds the fields of every structure by
-- address, the global variables of phase2/initial.c, the saved state at BIOSDATAPAGE and the
-- registers that the kernel uses. Pcb and Msg model phase1/pcb.c and phase1/msg.c function by
-- function, in the spelling of this language: insertProcQ is insert_proc_q. Scheduler, Exceptions,
-- Interrupts, Utils and Ssi model the files of those names under phase2/, and Initial
-- phase2/initial.c; Entry has the two entries into the kernel of phase2/exceptions.c. Support
-- models phase3/support.c. For the processes of phase3/, Actor has the calls that they make and
-- phase3/utils3.c; Vm, Mutex and Pager model phase3/vmSupport.c, Sst phase3/sst.c, SysSupport
-- phase3/sysSupport.c, and InitProc phase3/initProc.c. Tests has a concrete memory and runs on it.
--
-- How they interact. Every function is a command over State (Types.Machine), composed in the order
-- of the source. A command returns or exits: LDST, LDCXT, HALT, PANIC and WAIT never return to
-- their caller, so scheduler and the handlers end every path in an exit. The exception handler and
-- the SSI send through send_message; the SSI's own SYSCALL is the trap, the handler and the return
-- in one step, since the scheduler resumes a running process at once. A process of phase3/ runs on
-- a script of replies, which stands for the kernel and all other processes: a theorem on its calls
-- holds for every such script.
--
-- Loops. list_for_each runs on fuel of one round more than the 50 entries that a table can hold,
-- and a run out of fuel exits as endless; the theorems on queues assume at most 50 entries and
-- conclude that the loop ends. Loops with a constant bound count their rounds. terminate_process
-- has fuel for the depth of the tree and for the children of each process, both bounded by the 50
-- blocks.
--
-- Numbers. Addresses and words are natural numbers, counters and clocks wrap at 2 ^ 32 where the
-- code can reach that, and negative constants are written as unsigned words. Memory beside the
-- structures is read and written by word.
--
-- Not modelled. What the machine's own headers define of devices and of the cause register is the
-- parameter Arch, and Utils.Devices.IsUriscv states the layout that uRISCV documents. The offsets
-- of the fields of the pass up vector and the addresses of the functions are the parameter Image,
-- and Initial.Goal.IsUriscvVector states the vector that uRISCV documents. The offsets of the
-- fields assume a saved state of five words and 32 registers. The TLB is a list of entries found by
-- their high word. The test programs and the build are not modelled.
pub mod Common
pub mod Listx
pub mod Types
pub mod Pcb
pub mod Msg
pub mod Support
pub mod Utils
pub mod Scheduler
pub mod Exceptions
pub mod Interrupts
pub mod Entry
pub mod Ssi
pub mod Initial
pub mod Vm
pub mod Actor
pub mod Mutex
pub mod SysSupport
pub mod Sst
pub mod Pager
pub mod InitProc
mod Tests
