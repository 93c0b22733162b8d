-- ===== src/Boot/Paging/Walk.antt =====
-- The page tables of src/boot.rs as the processor walks them.
use ferrvm.Prelude.{
  arith, ℕ, zero, suc, ◌+◌, ◌-◌, ◌*◌, ◌/◌, ◌%◌, ◌^◌, ◌<◌, ◌≤◌, ◌≡◌, refl, ◌∙◌, ap, sym, inl, inr,
  Option, none, some, Bool, true, false, ok, err, ◌==◌, if◌then◌else◌, bind_ok, ok-injective,
  Bool-cases, length-to_le, bit_or, u64, ◌<<<◌, to_le, from_le, from_le-to_le,
}
use mathlib.Core.Path.{subst}
use ferrvm.Prelude.Bits.{bit_or_fields}
use ferrvm.Memory.{GuestMemory, read_at, write_at}
use ferrvm.Memory.Access.{write_at-read_at, write_at-read_at_disjoint}
use ferrvm.Boot.Paging.{
  pd_entry, write_pd, write_page_tables, boot_pml4_addr, boot_pdpte_addr, boot_pde_addr,
}

-- A 64-bit entry of a table in memory.
pub table_entry : GuestMemory → ℕ → ℕ → Option ℕ
table_entry mem table index = elim (read_at mem (table + index * 8) 8) [
  | err e ↦ none
  | ok bytes ↦ some (from_le bytes)
]

-- The address in an entry, bits 12 to 51.
abbrev pub next_table : ℕ → ℕ
next_table entry = entry / 2 ^ 12 % 2 ^ 40 * 2 ^ 12

abbrev pub is_present : ℕ → Bool
is_present entry = entry % 2 == 1

abbrev pub is_page : ℕ → Bool
is_page entry = entry / 2 ^ 7 % 2 == 1

-- One level: `shift` is the level's address bit, `lower` the walk of the tables below, for the levels
-- where an entry can map a page itself.
pub walk_level : GuestMemory → ℕ → ℕ → ℕ → (ℕ → Option ℕ) → Option ℕ
walk_level mem shift table va lower = elim (table_entry mem table (va / 2 ^ shift % 512)) [
  | none ↦ none
  | some entry ↦
      if is_present entry
      then (if is_page entry
          then some (entry / 2 ^ shift % 2 ^ (52 - shift) * 2 ^ shift + va % 2 ^ shift)
          else lower (next_table entry))
      else none
]

-- The physical address that the processor finds for `va` from the root table on, with four levels;
-- an entry of the last one maps 4 KiB.
pub walk : GuestMemory → ℕ → ℕ → Option ℕ
walk mem root va = walk_level mem 39 root va λ pdpt. walk_level mem 30 pdpt va λ pd.
    walk_level mem 21 pd va λ pt. elim (table_entry mem pt (va / 2 ^ 12 % 512)) [
      | none ↦ none
      | some entry ↦ if is_present entry then some (next_table entry + va % 2 ^ 12) else none
    ]

pd_entry_lem : (i : ℕ) → i < 512 → pd_entry i ≡ i * 2 ^ 21 + 0b1000_0011
unfolding pd_entry
pd_entry_lem i h =
    let fits : u64 (i <<< 21) ≡ i * 2 ^ 21 = omega arith in
    rw fits (bit_or_fields 21 i 0b1000_0011 (omega arith))

write_pd_keeps :
    (left i : ℕ) (mem mem' : GuestMemory) (other len : ℕ)
    → write_pd left i mem ≡ ok mem'
    → other + len ≤ boot_pde_addr + i * 8
    → read_at mem' other len ≡ read_at mem other len
unfolding write_pd
write_pd_keeps zero i mem mem' other len h below =
    ap (λ m. read_at m other len) (sym (ok-injective mem mem' h))
write_pd_keeps (suc left) i mem mem' other len h below =
    let step =
      bind_ok (write_at mem (boot_pde_addr + i * 8) (to_le 8 (pd_entry i))) (write_pd left (i + 1))
        mem' h in
    write_pd_keeps left (i + 1) step.0 mem' other len step.2 (omega arith)
    ∙ write_at-read_at_disjoint mem step.0 (boot_pde_addr + i * 8) (to_le 8 (pd_entry i)) other len
        step.1 (inl (omega arith))

write_pd_entry :
    (left i : ℕ) (mem mem' : GuestMemory) (j : ℕ)
    → write_pd left i mem ≡ ok mem'
    → i ≤ j
    → j < i + left
    → read_at mem' (boot_pde_addr + j * 8) 8 ≡ ok (to_le 8 (pd_entry j))
unfolding write_pd
write_pd_entry zero i mem mem' j h low high = absurd (omega arith)
write_pd_entry (suc left) i mem mem' j h low high =
    let word = to_le 8 (pd_entry i) in
    let step = bind_ok (write_at mem (boot_pde_addr + i * 8) word) (write_pd left (i + 1)) mem' h in
    elim (Bool-cases (i == j)) [
      | inl same ↦
          let e : i ≡ j = ground arith in
          let here : read_at mem' (boot_pde_addr + i * 8) 8 ≡ ok word =
            write_pd_keeps left (i + 1) step.0 mem' (boot_pde_addr + i * 8) 8 step.2 (omega arith)
            ∙ rw length-to_le at
                (write_at-read_at mem step.0 (boot_pde_addr + i * 8) word step.1) in
          subst (λ (k : ℕ). read_at mem' (boot_pde_addr + k * 8) 8 ≡ ok (to_le 8 (pd_entry k))) e
            here
      | inr other ↦ write_pd_entry left (i + 1) step.0 mem' j step.2 (ground arith) (omega arith)
    ]

-- The tables in memory, entry by entry.
pub write_page_tables_entries :
    (mem mem' : GuestMemory)
    → write_page_tables mem ≡ ok mem'
    → (read_at mem' boot_pml4_addr 8 ≡ ok (to_le 8 (bit_or boot_pdpte_addr 0b11)))
      × (read_at mem' boot_pdpte_addr 8 ≡ ok (to_le 8 (bit_or boot_pde_addr 0b11)))
      × ((j : ℕ) → j < 512 → read_at mem' (boot_pde_addr + j * 8) 8 ≡ ok (to_le 8 (pd_entry j)))
      × ((other len : ℕ)
          → other + len ≤ boot_pml4_addr
          → read_at mem' other len ≡ read_at mem other len)
unfolding write_page_tables
write_page_tables_entries mem mem' h =
    let pml4 = to_le 8 (bit_or boot_pdpte_addr 0b11) in
    let pdpt = to_le 8 (bit_or boot_pde_addr 0b11) in
    let first = bind_ok (write_at mem boot_pml4_addr pml4) _ mem' h in
    let second = bind_ok (write_at first.0 boot_pdpte_addr pdpt) (write_pd 512 0) mem' first.2 in
    let pd = write_pd_keeps 512 0 second.0 mem' in
    (
      pd boot_pml4_addr 8 second.2 (omega arith)
          ∙ write_at-read_at_disjoint first.0 second.0 boot_pdpte_addr pdpt boot_pml4_addr 8
              second.1 (inl (omega arith))
          ∙ rw length-to_le at (write_at-read_at mem first.0 boot_pml4_addr pml4 first.1),
      pd boot_pdpte_addr 8 second.2 (omega arith)
          ∙ rw length-to_le at (write_at-read_at first.0 second.0 boot_pdpte_addr pdpt second.1),
      λ j below. write_pd_entry 512 0 second.0 mem' j second.2 (omega arith) below,
      λ other len below.
          pd other len second.2 (omega arith)
          ∙ write_at-read_at_disjoint first.0 second.0 boot_pdpte_addr pdpt other len second.1
              (inl (omega arith))
          ∙ write_at-read_at_disjoint mem first.0 boot_pml4_addr pml4 other len first.1
              (inl (omega arith)),
    )

table_entry_lem :
    (mem : GuestMemory) (table index addr entry : ℕ)
    → table + index * 8 ≡ addr
    → read_at mem addr 8 ≡ ok (to_le 8 entry)
    → entry < 256 ^ 8
    → table_entry mem table index ≡ some entry
unfolding table_entry
table_entry_lem mem table index addr entry place found fits =
    rw (table_entry, place, found) (ap (λ e. some e) (from_le-to_le 8 entry fits))

walk_level_next :
    (mem : GuestMemory) (shift table va : ℕ) (lower : ℕ → Option ℕ) (entry : ℕ)
    → table_entry mem table (va / 2 ^ shift % 512) ≡ some entry
    → is_present entry ≡ true
    → is_page entry ≡ false
    → walk_level mem shift table va lower ≡ lower (next_table entry)
unfolding walk_level
walk_level_next mem shift table va lower entry e present table_below =
    rw (walk_level, e, present, table_below)

walk_level_page :
    (mem : GuestMemory) (shift table va : ℕ) (lower : ℕ → Option ℕ) (entry : ℕ)
    → table_entry mem table (va / 2 ^ shift % 512) ≡ some entry
    → is_present entry ≡ true
    → is_page entry ≡ true
    → walk_level mem shift table va lower
      ≡ some (entry / 2 ^ shift % 2 ^ (52 - shift) * 2 ^ shift + va % 2 ^ shift)
unfolding walk_level
walk_level_page mem shift table va lower entry e present page = rw (walk_level, e, present, page)

-- After the tables are written, the processor's walk from the root maps each address below 1 GiB to
-- itself.
pub walk-write_page_tables :
    (mem mem' : GuestMemory) (va : ℕ)
    → write_page_tables mem ≡ ok mem'
    → va < 2 ^ 30
    → walk mem' boot_pml4_addr va ≡ some va
unfolding walk
walk-write_page_tables mem mem' va h small =
    let tables = write_page_tables_entries mem mem' h in
    let i = va / 2 ^ 21 in
    let e4 : table_entry mem' boot_pml4_addr (va / 2 ^ 39 % 512) ≡ some 0xb003 =
      table_entry_lem mem' _ _ boot_pml4_addr 0xb003 (omega arith) tables.0 (omega arith) in
    let e3 : table_entry mem' boot_pdpte_addr (va / 2 ^ 30 % 512) ≡ some 0xc003 =
      table_entry_lem mem' _ _ boot_pdpte_addr 0xc003 (omega arith) tables.1 (omega arith) in
    let e2 : table_entry mem' boot_pde_addr (va / 2 ^ 21 % 512) ≡ some (i * 2 ^ 21 + 0b1000_0011) =
      table_entry_lem mem' _ _ (boot_pde_addr + i * 8) (i * 2 ^ 21 + 0b1000_0011) (omega arith)
        (rw (pd_entry_lem i (omega arith)) at (tables.2 i (omega arith))) (omega arith) in
    walk_level_next mem' 39 boot_pml4_addr va _ 0xb003 e4 refl refl
    ∙ walk_level_next mem' 30 boot_pdpte_addr va _ 0xc003 e3 refl refl
    ∙ walk_level_page mem' 21 boot_pde_addr va _ (i * 2 ^ 21 + 0b1000_0011) e2 (ground arith)
        (ground arith)
    ∙ ap (λ (a : ℕ). some a) (omega arith)
