-- ===== src/Boot/Image/Placed.antt =====
-- Where the RAM disk and the command line of src/boot.rs go in guest memory.
use ferrvm.Prelude.{
  arith, ℕ, ◌+◌, ◌^◌, ◌≤◌, ◌≡◌, ap, ◌∙◌, inl, inr, Bool-cases, Option, none, some, List, [], ◌∷◌,
  ◌++◌, ok, bind_ok, length, ltb,
}
use ferrvm.Memory.{GuestMemory, read_at, write_at}
use ferrvm.Memory.Access.{write_at-read_at_disjoint}
use ferrvm.Boot.Errors.{in_memory, in_memory_ok}
use ferrvm.Boot.Image.{
  Files, read_file, load_initrd, write_initrd, setup_cmdline, cmdline_addr, initramfs_addr,
}

-- The RAM disk leaves what is below its address.
pub load_initrd_keeps :
    {P E : Type 0} (files : Files P) (mem mem' : GuestMemory) (path : Option P)
    (where_it_is : ℕ × ℕ) (other len : ℕ)
    → load_initrd {E = E} files mem path ≡ ok (where_it_is, mem')
    → other + len ≤ initramfs_addr
    → read_at mem' other len ≡ read_at mem other len
unfolding load_initrd write_initrd
load_initrd_keeps files mem mem' none w other len h below =
    ap (λ m. read_at m other len) (ground arith)
load_initrd_keeps {E = E} files mem mem' (some path) w other len h below =
    elim (Bool-cases (files.exists path)) [
      | inr missing ↦ ap (λ m. read_at m other len) (ground arith)
      | inl there ↦
          let read =
            bind_ok {B = (ℕ × ℕ) × GuestMemory} (read_file {E = E} files path) (write_initrd mem)
              (w, mem') (rw there at h) in
          elim (Bool-cases (ltb (length read.0) (2 ^ 32))) [
            | inr large ↦ absurd (ground arith)
            | inl small ↦
                let put =
                  bind_ok {B = (ℕ × ℕ) × GuestMemory}
                    (in_memory {E = E} (write_at mem initramfs_addr read.0))
                    (λ m. ok ((initramfs_addr, length read.0), m)) (w, mem') (ground arith) in
                let same : put.0 ≡ mem' = ground arith in
                write_at-read_at_disjoint mem mem' initramfs_addr read.0 other len
                  (in_memory_ok {E = E} _ put.0 put.1 ∙ ap (λ m. ok m) same) (inl below)
          ]
    ]

pub setup_cmdline_ok :
    {E : Type 0} (mem mem' : GuestMemory) (cmdline : List ℕ)
    → setup_cmdline {E = E} mem cmdline ≡ ok mem'
    → (length (cmdline ++ 0 ∷ []) ≤ 2048)
      × (write_at mem cmdline_addr (cmdline ++ 0 ∷ []) ≡ ok mem')
unfolding setup_cmdline
setup_cmdline_ok {E = E} mem mem' cmdline h =
    let bound : length (cmdline ++ 0 ∷ []) ≤ 2048 = ground arith in
    (bound, in_memory_ok {E = E} _ mem' (ground arith))
