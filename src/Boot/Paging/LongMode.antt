-- ===== src/Boot/Paging/LongMode.antt =====
-- `setup_long_mode` of src/boot.rs as a whole: guest memory and the CPU after it.
use ferrvm.Prelude.{
  arith, ℕ, ◌+◌, ◌^◌, ◌<◌, ◌≤◌, ◌≡◌, ◌∙◌, ap, inl, some, List, [], ◌∷◌, ok, bind_ok, length-to_le,
  to_le,
}
use ferrvm.Memory.{GuestMemory, read_at, write_at}
use ferrvm.Memory.Access.{write_at-read_at, write_at-read_at_disjoint}
use ferrvm.Cpu.{Vcpu, VcpuSregs}
use ferrvm.Boot.Paging.{
  write_words, write_page_tables, gdt_table, boot_gdt_offset, segment_gdt_entry, code_seg, data_seg,
  setup_long_mode, long_mode_sregs,
}
use ferrvm.Boot.Errors.{in_memory, in_cpu, in_memory_ok, in_cpu_ok}
use ferrvm.Boot.Paging.Walk.{walk, walk-write_page_tables, write_page_tables_entries}

write_words_keeps :
    (offset : ℕ) (entries : List ℕ) (mem mem' : GuestMemory) (other len : ℕ)
    → write_words offset entries mem ≡ ok mem'
    → other + len ≤ offset
    → read_at mem' other len ≡ read_at mem other len
unfolding write_words
write_words_keeps offset [] mem mem' other len h below =
    ap (λ m. read_at m other len) (ground arith)
write_words_keeps offset (entry ∷ entries) mem mem' other len h below =
    let step =
      bind_ok (write_at mem offset (to_le 8 entry)) (write_words (offset + 8) entries) mem' h in
    write_words_keeps (offset + 8) entries step.0 mem' other len step.2 (omega arith)
    ∙ write_at-read_at_disjoint mem step.0 offset (to_le 8 entry) other len step.1 (inl below)

-- The first of the entries reads back, and the rest are written behind it.
write_words_first :
    (offset entry : ℕ) (entries : List ℕ) (mem mem' : GuestMemory)
    → write_words offset (entry ∷ entries) mem ≡ ok mem'
    → (read_at mem' offset 8 ≡ ok (to_le 8 entry))
      × ((next : GuestMemory) × (write_words (offset + 8) entries next ≡ ok mem'))
unfolding write_words
write_words_first offset entry entries mem mem' h =
    let step =
      bind_ok (write_at mem offset (to_le 8 entry)) (write_words (offset + 8) entries) mem' h in
    (
      write_words_keeps (offset + 8) entries step.0 mem' offset 8 step.2 (omega arith)
          ∙ rw length-to_le at (write_at-read_at mem step.0 offset (to_le 8 entry) step.1),
      (step.0, step.2),
    )

gdt_table_read :
    (mem mem' : GuestMemory)
    → write_words boot_gdt_offset gdt_table mem ≡ ok mem'
    → (read_at mem' 0x500 8 ≡ ok (to_le 8 0))
      × (read_at mem' 0x508 8 ≡ ok (to_le 8 (segment_gdt_entry code_seg)))
      × (read_at mem' 0x510 8 ≡ ok (to_le 8 (segment_gdt_entry data_seg)))
unfolding gdt_table
gdt_table_read mem mem' h =
    let null = write_words_first 0x500 0 _ mem mem' h in
    let code = write_words_first 0x508 (segment_gdt_entry code_seg) _ null.1.0 mem' null.1.1 in
    let data_entry =
      write_words_first 0x510 (segment_gdt_entry data_seg) [] code.1.0 mem' code.1.1 in
    (null.0, code.0, data_entry.0)

-- When `setup_long_mode` succeeds, the CPU has been given the long-mode registers, whose page root
-- and descriptor table memory holds: the walk from that root maps each address below 1 GiB to
-- itself, and the table is the null, code and data descriptors.
pub setup_long_mode_lem :
    {C E : Type 0} (vcpu : Vcpu C E) (c c' : C) (mem mem' : GuestMemory)
    → setup_long_mode vcpu c mem ≡ ok (c', mem')
    → ((sregs : VcpuSregs) × (vcpu.get_sregs c ≡ ok sregs)
        × (vcpu.set_sregs (long_mode_sregs sregs) c ≡ ok c')
        × ((va : ℕ) → va < 2 ^ 30 → walk mem' ((long_mode_sregs sregs).cr3) va ≡ some va)
        × (read_at mem' ((long_mode_sregs sregs).gdt.base) 8 ≡ ok (to_le 8 0))
        × (read_at mem' ((long_mode_sregs sregs).gdt.base + 8) 8
            ≡ ok (to_le 8 (segment_gdt_entry code_seg)))
        × (read_at mem' ((long_mode_sregs sregs).gdt.base + 16) 8
            ≡ ok (to_le 8 (segment_gdt_entry data_seg))))
unfolding setup_long_mode long_mode_sregs
setup_long_mode_lem vcpu c c' mem mem' h =
    let got = bind_ok (in_cpu (vcpu.get_sregs c)) _ (c', mem') h in
    let words =
      bind_ok (in_memory (write_words boot_gdt_offset gdt_table mem)) _ (c', mem') got.2 in
    let tables = bind_ok (in_memory (write_page_tables words.0)) _ (c', mem') words.2 in
    let put = bind_ok (in_cpu (vcpu.set_sregs (long_mode_sregs got.0) c)) _ (c', mem') tables.2 in
    let same_cpu : put.0 ≡ c' = ground arith in
    let same_mem : tables.0 ≡ mem' = ground arith in
    let paged : write_page_tables words.0 ≡ ok mem' =
      in_memory_ok _ tables.0 tables.1 ∙ ap (λ m. ok m) same_mem in
    let gdt = gdt_table_read mem words.0 (in_memory_ok _ words.0 words.1) in
    let kept = (write_page_tables_entries words.0 mem' paged).3 in
    (
      got.0,
      in_cpu_ok _ got.0 got.1,
      in_cpu_ok _ put.0 put.1 ∙ ap (λ x. ok x) same_cpu,
      λ va small. walk-write_page_tables words.0 mem' va paged small,
      kept 0x500 8 (omega arith) ∙ gdt.0,
      kept 0x508 8 (omega arith) ∙ gdt.1,
      kept 0x510 8 (omega arith) ∙ gdt.2,
    )
