-- ===== src/Virtio/Pci/Common/Halves.antt =====
-- The 64-bit queue addresses of src/virtio/pci.rs, which the guest writes in halves.
use ferrvm.Prelude.{
  arith, ℕ, zero, suc, ◌+◌, ◌*◌, ◌/◌, ◌%◌, ◌^◌, ◌<◌, List, [], ◌∷◌, ◌≡◌, refl, ◌∙◌, ap, bit_and,
  u64, ◌<<<◌,
}
use ferrvm.Prelude.Bits.{
  bit_and_field, bit_and_ones, bit_or_fields, bit_or_split, zero-bit_or, bit_or-zero,
}
use ferrvm.Virtio.Pci.State.{VirtioPciDevice}
use ferrvm.Virtio.Pci.Common.{with_low, with_high, modify, write_common_cfg}

with_low_lem : (x low : ℕ) → low < 2 ^ 32 → with_low x low ≡ x / 2 ^ 32 % 2 ^ 32 * 2 ^ 32 + low
unfolding with_low
with_low_lem x low h = rw (bit_and_field 32 32 x) (bit_or_fields 32 (x / 2 ^ 32 % 2 ^ 32) low h)

with_high_lem : (x high : ℕ) → high < 2 ^ 32 → with_high x high ≡ x % 2 ^ 32 + high * 2 ^ 32
unfolding with_high
with_high_lem x high h =
    let fits : u64 (high <<< 32) ≡ high * 2 ^ 32 = omega arith in
    rw (bit_and_ones 32 x, fits)
      (ground
        (arith, bit_or_split 32 0 (x % 2 ^ 32) high 0, zero-bit_or high, bit_or-zero (x % 2 ^ 32)))

halves :
    (x low high : ℕ)
    → low < 2 ^ 32
    → high < 2 ^ 32
    → with_high (with_low x low) high ≡ high * 2 ^ 32 + low
halves x low high hl hh =
    rw (with_low_lem x low hl, with_high_lem (x / 2 ^ 32 % 2 ^ 32 * 2 ^ 32 + low) high hh)
      (omega arith)

modify-modify {ℓ} :
    {A : Type ℓ} (xs : List A) (i : ℕ) (f g h : A → A)
    → ((x : A) → g (f x) ≡ h x)
    → modify (modify xs i f) i g ≡ modify xs i h
modify-modify [] i f g h e = refl
modify-modify (x ∷ xs) zero f g h e = ap (λ y. y ∷ xs) (e x)
modify-modify (x ∷ xs) (suc i) f g h e = ap (λ ys. x ∷ ys) (modify-modify xs i f g h e)

-- The guest's two writes set the whole address of the selected queue's part, whatever it was, and
-- change nothing else of any queue: the descriptor table at 0x20 and 0x24, the available ring at 0x28
-- and 0x2c, the used ring at 0x30 and 0x34.
pub write_common_cfg_address :
    {D : Type 0} (v : VirtioPciDevice D) (low high : ℕ)
    → low < 2 ^ 32
    → high < 2 ^ 32
    → ((write_common_cfg 0x24 high (write_common_cfg 0x20 low v)).queues
        ≡ modify v.queues v.queue_select (λ q. record q { desc_table = high * 2 ^ 32 + low }))
      × ((write_common_cfg 0x2c high (write_common_cfg 0x28 low v)).queues
          ≡ modify v.queues v.queue_select (λ q. record q { avail_ring = high * 2 ^ 32 + low }))
      × ((write_common_cfg 0x34 high (write_common_cfg 0x30 low v)).queues
          ≡ modify v.queues v.queue_select (λ q. record q { used_ring = high * 2 ^ 32 + low }))
unfolding write_common_cfg
write_common_cfg_address v low high hl hh =
    let small : bit_and low 0xffff_ffff ≡ low = bit_and_ones 32 low ∙ omega arith in
    let whole : (x : ℕ)
        → with_high (with_low x (bit_and low 0xffff_ffff)) high ≡ high * 2 ^ 32 + low =
      λ x. rw small (halves x low high hl hh) in
    (
      modify-modify v.queues v.queue_select _ _ _
          (λ q. ap (λ a. record q { desc_table = a }) (whole q.desc_table)),
      modify-modify v.queues v.queue_select _ _ _
          (λ q. ap (λ a. record q { avail_ring = a }) (whole q.avail_ring)),
      modify-modify v.queues v.queue_select _ _ _
          (λ q. ap (λ a. record q { used_ring = a }) (whole q.used_ring)),
    )
