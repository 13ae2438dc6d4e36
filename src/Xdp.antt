-- ===== src/Xdp.antt =====
-- src/main/ebpf/xdp_kern_prog.c: the XDP program and its rate limiters.
pub mod Program
pub mod Limiter
mod Tests
