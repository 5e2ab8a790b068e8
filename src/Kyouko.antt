-- ===== src/Kyouko.antt =====
-- The character drivers of the Kyouko2 card, first the one with a ring of DMA buffers
-- (linuxKerDev/graphicDriver/dmaBuffer: dmaBuffer.c, regdmaBuffer.h, macrodmaBuffer.h).
pub mod Regs
pub mod Device
pub mod Sync
pub mod Ring
pub mod Ioctl
pub mod Files
pub mod Load
pub mod Second
pub mod Triangle
pub mod Contact
