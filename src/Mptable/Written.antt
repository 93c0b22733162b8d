-- ===== src/Mptable/Written.antt =====
-- The MP table of src/mptable.rs in guest memory.
use ferrvm.Prelude.{
  arith, ℕ, ◌+◌, ◌*◌, ◌<◌, ◌≤◌, ◌≡◌, ◌∙◌, inl, inr, Bool, List, ◌++◌, ok, err, ok_bind, err_bind,
  bind_ok, Result-cases,
}
use ferrvm.Memory.{GuestMemory, exceeds, read_at, write_at, copy_in}
use ferrvm.Memory.Access.{
  size-write_at, write_at_ok, write_at_exceeds, write_at-read_at, write_at-read_at_disjoint,
}
use ferrvm.Mptable.{
  memory, mpf_addr, mpc_addr, mpc_header, mpc_entries, entry_count, backfill, mpf, put,
  write_mptable,
}
use ferrvm.Mptable.Sums.{backfill_lem, mpf_lem}

put_ok :
    (mem mem' : GuestMemory) (gpa : ℕ) (bytes : List ℕ)
    → write_at mem gpa bytes ≡ ok mem'
    → put mem gpa bytes ≡ ok mem'
put_ok mem mem' gpa bytes h = rw (put, h)

put_exceeds :
    (mem : GuestMemory) (gpa : ℕ) (bytes : List ℕ)
    → write_at mem gpa bytes ≡ err exceeds
    → put mem gpa bytes ≡ err (memory exceeds)
put_exceeds mem gpa bytes h = rw (put, h)

-- Where guest memory reaches past the table, both structures are written: at the table's address
-- the bytes that `backfill` makes, and at the scanned address a pointer to it.
pub write_mptable_lem :
    (timer_on_pin2 : Bool) (cpu_sig cpu_feat num_cpus : ℕ) (mem : GuestMemory)
    → num_cpus < 256
    → mpc_addr + 204 + 20 * num_cpus ≤ mem.size
    → (mem' : GuestMemory) × (mpc : List ℕ) × (write_mptable timer_on_pin2 cpu_sig cpu_feat mem
          num_cpus
        ≡ ok mem')
      × (backfill
            (entry_count num_cpus)
            (mpc_header ++ mpc_entries timer_on_pin2 cpu_sig cpu_feat num_cpus)
          ≡ ok mpc)
      × (read_at mem' mpc_addr (204 + 20 * num_cpus) ≡ ok mpc)
      × (read_at mem' mpf_addr 16 ≡ ok mpf)
unfolding write_mptable
write_mptable_lem timer_on_pin2 cpu_sig cpu_feat num_cpus mem h room =
    let made = backfill_lem timer_on_pin2 cpu_sig cpu_feat num_cpus h in
    let mpc = made.0 in
    let first = write_at_ok mem mpc_addr mpc (omega (arith, made.2), omega (arith, made.2)) in
    let mem₁ : GuestMemory = record mem { byte_at = copy_in mem.byte_at mpc_addr mpc } in
    let second =
      write_at_ok mem₁ mpf_addr mpf (omega (arith, mpf_lem.0), omega (arith, mpf_lem.0)) in
    let mem₂ : GuestMemory = record mem₁ { byte_at = copy_in (mem₁.byte_at) mpf_addr mpf } in
    (
      mem₂,
      mpc,
      ok_bind _ _ mpc made.1
          ∙ ok_bind _ (λ m. put m mpf_addr mpf) mem₁ (put_ok mem mem₁ mpc_addr mpc first)
          ∙ put_ok mem₁ mem₂ mpf_addr mpf second,
      made.1,
      write_at-read_at_disjoint mem₁ mem₂ mpf_addr mpf mpc_addr (204 + 20 * num_cpus) second
            (inr (omega (arith, mpf_lem.0)))
          ∙ rw made.2 at (write_at-read_at mem mem₁ mpc_addr mpc first),
      rw (mpf_lem.0) at (write_at-read_at mem₁ mem₂ mpf_addr mpf second),
    )

put-size :
    (mem mem' : GuestMemory) (gpa : ℕ) (bytes : List ℕ)
    → put mem gpa bytes ≡ ok mem'
    → mem'.size ≡ mem.size
put-size mem mem' gpa bytes h = elim (Result-cases (write_at mem gpa bytes)) [
  | inl (e, bad) ↦ absurd (ground arith)
  | inr (made, good) ↦ size-write_at mem mem' gpa bytes (ground arith)
]

pub write_mptable-size :
    (timer_on_pin2 : Bool) (cpu_sig cpu_feat num_cpus : ℕ) (mem mem' : GuestMemory)
    → write_mptable timer_on_pin2 cpu_sig cpu_feat mem num_cpus ≡ ok mem'
    → mem'.size ≡ mem.size
unfolding write_mptable
write_mptable-size timer_on_pin2 cpu_sig cpu_feat num_cpus mem mem' h =
    let (mpc, _, h₁) = bind_ok (backfill (entry_count num_cpus) _) _ mem' h in
    let (between, table, pointer) = bind_ok (put mem mpc_addr mpc) _ mem' h₁ in
    put-size between mem' mpf_addr mpf pointer ∙ put-size mem between mpc_addr mpc table

-- Where it does not, the error of guest memory is returned.
pub write_mptable_exceeds :
    (timer_on_pin2 : Bool) (cpu_sig cpu_feat num_cpus : ℕ) (mem : GuestMemory)
    → num_cpus < 256
    → mem.size < mpc_addr + 204 + 20 * num_cpus
    → write_mptable timer_on_pin2 cpu_sig cpu_feat mem num_cpus ≡ err (memory exceeds)
unfolding write_mptable
write_mptable_exceeds timer_on_pin2 cpu_sig cpu_feat num_cpus mem h short =
    let made = backfill_lem timer_on_pin2 cpu_sig cpu_feat num_cpus h in
    ok_bind _ _ made.0 made.1
    ∙ err_bind _ (λ m. put m mpf_addr mpf) (memory exceeds)
        (put_exceeds mem mpc_addr made.0
          (write_at_exceeds mem mpc_addr made.0 (omega (arith, made.2)) (omega (arith, made.2))))
