-- ===== src/Boot.antt =====
-- The kernel loader of src/boot.rs, src/elf.rs and src/bootparams.rs, in five parts: the image's
-- format (Image), the ELF segments (Elf), the zero page of the Linux boot protocol (Params), the
-- CPU's registers and page tables (Paging), and `load_kernel`, which puts them together (Load).
pub mod Errors
pub mod Image
pub mod Elf
pub mod Params
pub mod Paging
pub mod Load
pub mod Samples
mod Tests
pub mod Sized
