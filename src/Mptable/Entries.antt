-- ===== src/Mptable/Entries.antt =====
-- The entries of the MP table of src/mptable.rs as a guest reads them.
use ferrvm.Prelude.{
  arith, ℕ, zero, suc, ◌+◌, ◌^◌, ◌<◌, ◌≡◌, refl, Bool, true, false, Option, none, some, List, [],
  ◌∷◌, ◌++◌, ◌==◌, if◌then◌else◌, get_or, take, drop, from_le-to_le,
}
use ferrvm.Prelude.Words.{to_le, from_le}
use ferrvm.Mptable.{
  fixed_bytes, mpc_entries, entry_count, processor_entries, intsrc_entries, pin_source, cpu_flags,
}

-- An entry of the table, by its fields.
pub data MpEntry : Type 0 where
  processor : (apic_id version flags signature features : ℕ) → MpEntry
  bus : (id : ℕ) → (name : List ℕ) → MpEntry
  ioapic : (id version flags address : ℕ) → MpEntry
  intsrc : (int_type flags source_bus source_irq dest_id dest_pin : ℕ) → MpEntry
  lintsrc : (int_type flags source_bus source_irq dest_id dest_lint : ℕ) → MpEntry

pub split_at : ℕ → List ℕ → Option (List ℕ × List ℕ)
split_at zero bytes = some ([], bytes)
split_at (suc n) [] = none
split_at (suc n) (b ∷ bytes) = elim (split_at n bytes) [
  | none ↦ none
  | some (first, rest) ↦ some (b ∷ first, rest)
]

abbrev pub field : ℕ → ℕ → List ℕ → ℕ
field offset width fields = from_le (take width (drop offset fields))

-- The entry of type `kind` whose other bytes are `fields`.
pub decode : ℕ → List ℕ → Option MpEntry
decode kind fields =
    if kind == 0
    then some (
        processor (get_or fields 0 0) (get_or fields 1 0) (get_or fields 2 0) (field 3 4 fields)
          (field 7 4 fields))
    else if kind == 1
    then some (bus (get_or fields 0 0) (drop 1 fields))
    else if kind == 2
    then some
        (ioapic (get_or fields 0 0) (get_or fields 1 0) (get_or fields 2 0) (field 3 4 fields))
    else if kind == 3
    then some (
        intsrc (get_or fields 0 0) (field 1 2 fields) (get_or fields 3 0) (get_or fields 4 0)
          (get_or fields 5 0) (get_or fields 6 0))
    else if kind == 4
    then some (
        lintsrc (get_or fields 0 0) (field 1 2 fields) (get_or fields 3 0) (get_or fields 4 0)
          (get_or fields 5 0) (get_or fields 6 0))
    else none

abbrev pub cons_entry : Option MpEntry → Option (List MpEntry) → Option (List MpEntry)
cons_entry (some e) (some es) = some (e ∷ es)
cons_entry _ _ = none

-- Exactly `count` entries: 20 bytes for a processor, 8 for any other.
pub parse : ℕ → List ℕ → Option (List MpEntry)
parse zero [] = some []
parse zero (b ∷ bytes) = none
parse (suc count) [] = none
parse (suc count) (kind ∷ bytes) = elim (split_at (if kind == 0 then 19 else 7) bytes) [
  | none ↦ none
  | some (fields, rest) ↦ cons_entry (decode kind fields) (parse count rest)
]

-- CPUs `id` to `id + left - 1`: enabled, and CPU 0 the bootstrap processor.
pub processors : ℕ → ℕ → ℕ → ℕ → List MpEntry
processors cpu_sig cpu_feat zero id = []
processors cpu_sig cpu_feat (suc left) id =
    processor id 0x14 (cpu_flags id) cpu_sig cpu_feat ∷ processors cpu_sig cpu_feat left (id + 1)

-- An ISA interrupt line on a pin of the I/O APIC.
abbrev pub isa : ℕ → ℕ → ℕ → ℕ → MpEntry
isa ioapic_id int_type irq pin = intsrc int_type 0 0 irq ioapic_id pin

-- The pins: line `i` on pin `i`, but for the timer on pin 2 and the 8259 on pin 0 when `timer_on_pin2`.
pub isa_lines : Bool → ℕ → List MpEntry
isa_lines timer_on_pin2 a =
    (if timer_on_pin2 then isa a 3 0 0 else isa a 0 0 0)
    ∷ isa a 0 1 1
    ∷ (if timer_on_pin2 then isa a 0 0 2 else isa a 0 2 2)
    ∷ isa a 0 3 3
    ∷ isa a 0 4 4
    ∷ isa a 0 5 5
    ∷ isa a 0 6 6
    ∷ isa a 0 7 7
    ∷ isa a 0 8 8
    ∷ isa a 0 9 9
    ∷ isa a 0 10 10
    ∷ isa a 0 11 11
    ∷ isa a 0 12 12
    ∷ isa a 0 13 13
    ∷ isa a 0 14 14
    ∷ isa a 0 15 15
    ∷ []

-- The ISA bus, the I/O APIC with the id after the CPUs', the lines, and the local interrupts.
pub fixed_entries : Bool → ℕ → List MpEntry
fixed_entries timer_on_pin2 a =
    bus 0 (0x49 ∷ 0x53 ∷ 0x41 ∷ 0x20 ∷ 0x20 ∷ 0x20 ∷ [])
      ∷ ioapic a 0x11 1 0xfec0_0000
      ∷ isa_lines timer_on_pin2 a
    ++ (lintsrc 3 0 0 0 0xff 0 ∷ lintsrc 0x1 0 0 0 0xff 1 ∷ [])

parse_fixed :
    (timer_on_pin2 : Bool) (a : ℕ)
    → parse 20 (fixed_bytes timer_on_pin2 a) ≡ some (fixed_entries timer_on_pin2 a)
unfolding parse split_at decode fixed_bytes intsrc_entries pin_source isa_lines fixed_entries to_le
    from_le
parse_fixed true a = refl
parse_fixed false a = refl

parse-processor_entries :
    (cpu_sig cpu_feat left id count : ℕ) (tail : List ℕ) (entries : List MpEntry)
    → cpu_sig < 2 ^ 32
    → cpu_feat < 2 ^ 32
    → parse count tail ≡ some entries
    → parse (left + count) (processor_entries cpu_sig cpu_feat left id ++ tail)
      ≡ some (processors cpu_sig cpu_feat left id ++ entries)
unfolding parse split_at decode processor_entries processors to_le from_le
parse-processor_entries cpu_sig cpu_feat zero id count tail entries hs hf h =
    let none_left : 0 + count ≡ count = omega arith in rw none_left h
parse-processor_entries cpu_sig cpu_feat (suc left) id count tail entries hs hf h =
    let next : suc left + count ≡ suc (left + count) = omega arith in
    let rest = parse-processor_entries cpu_sig cpu_feat left (id + 1) count tail entries hs hf h in
    let s : from_le (to_le 4 cpu_sig) ≡ cpu_sig = from_le-to_le 4 cpu_sig (omega arith) in
    let f : from_le (to_le 4 cpu_feat) ≡ cpu_feat = from_le-to_le 4 cpu_feat (omega arith) in
    rw (next, rest, s, f) refl

-- The bytes after the header are exactly the CPUs' entries, in order of their ids, and the fixed
-- ones, and a guest that splits them by their types finds as many as the header counts.
pub parse-mpc_entries :
    (timer_on_pin2 : Bool) (cpu_sig cpu_feat num_cpus : ℕ)
    → cpu_sig < 2 ^ 32
    → cpu_feat < 2 ^ 32
    → parse (entry_count num_cpus) (mpc_entries timer_on_pin2 cpu_sig cpu_feat num_cpus)
      ≡ some (processors cpu_sig cpu_feat num_cpus 0 ++ fixed_entries timer_on_pin2 num_cpus)
unfolding mpc_entries
parse-mpc_entries timer_on_pin2 cpu_sig cpu_feat num_cpus hs hf =
    let count : entry_count num_cpus ≡ num_cpus + 20 = omega arith in
    rw count (
      parse-processor_entries cpu_sig cpu_feat num_cpus 0 20 (fixed_bytes timer_on_pin2 num_cpus)
        (fixed_entries timer_on_pin2 num_cpus) hs hf (parse_fixed timer_on_pin2 num_cpus))
