-- ===== src/Signal.antt =====
-- The signals of the kernel (linuxKerDev/syscallSignals: signal.c with the parts of sched.h that
-- it stands on, and the system calls in RW).
pub mod Numbers
pub mod Types
pub mod Jobctl
pub mod Pending
pub mod Send
pub mod Enqueue
pub mod Syscalls
pub mod Dequeue
pub mod Stop
pub mod Actions
pub mod Kill
pub mod Calls
pub mod Notify
pub mod Deliver
