-- ===== src/Virtio/Pci/Common.antt =====
-- The common configuration registers of src/virtio/pci.rs, and its little-endian accesses.
pub mod Halves
use ferrvm.Prelude.{
  ℕ, zero, suc, ◌+◌, ◌*◌, Bool, true, false, not, Option, none, some, List, [], ◌∷◌, ◌==◌,
  if◌then◌else◌, length, get_elem?, bit_and, bit_or, to_le, u8, u16, u32, u64, ◌<<<◌, ◌>>>◌, take,
}
use ferrvm.Pci.{latch_read}
use ferrvm.Virtio.Queue.{Virtqueue}
use ferrvm.Virtio.Pci.State.{VirtioDevice, VirtioPciDevice, vector_or_none, reset}

-- Pack `value` little-endian into a buffer; bytes past the eighth are 0.
pub put_le : List ℕ → ℕ → List ℕ
put_le buffer value = latch_read (to_le 8 value) 0 buffer

unfoldable pub get_le_from : ℕ → ℕ → List ℕ → ℕ
get_le_from i value [] = value
get_le_from i value (b ∷ bytes) = get_le_from (i + 1) (bit_or value (u64 (b <<< i * 8))) bytes

-- At most eight little-endian bytes as a `u64`.
unfoldable pub get_le : List ℕ → ℕ
get_le bytes = get_le_from 0 0 (take 8 bytes)

-- `(x & 0xffff_ffff_0000_0000) | low` and `(x & 0xffff_ffff) | (high << 32)`
pub with_low : ℕ → ℕ → ℕ
with_low x low = bit_or (bit_and x 0xffff_ffff_0000_0000) low

pub with_high : ℕ → ℕ → ℕ
with_high x high = bit_or (bit_and x 0xffff_ffff) (u64 (high <<< 32))

-- A 64-bit value read in halves: select 0 is the low one, 1 the high one.
abbrev pub half_of : ℕ → ℕ → ℕ
half_of select x =
    if select == 0 then bit_and x 0xffff_ffff else if select == 1 then x >>> 32 else 0

-- `queue.map_or(0, ..)`
abbrev pub queue_field : Option Virtqueue → (Virtqueue → ℕ) → ℕ
queue_field none f = 0
queue_field (some q) f = f q

abbrev pub bit_of : Bool → ℕ
bit_of true = 1
bit_of false = 0

-- `if let Some(q) = self.queues.get_mut(sel)`
abbrev pub modify {ℓ} : {A : Type ℓ} → List A → ℕ → (A → A) → List A
modify [] i f = []
modify (x ∷ xs) zero f = f x ∷ xs
modify (x ∷ xs) (suc i) f = x ∷ modify xs i f

module _ {D : Type 0} (backend : VirtioDevice D) where
  pub common_cfg_value : VirtioPciDevice D → ℕ → ℕ
  common_cfg_value v offset =
      let q = get_elem? v.queues v.queue_select in
      if offset == 0x00
      then v.device_feature_select
      else if offset == 0x04
      then half_of v.device_feature_select (backend.device_features v.device)
      else if offset == 0x08
      then v.driver_feature_select
      else if offset == 0x0c
      then half_of v.driver_feature_select v.driver_features
      else if offset == 0x10
      then v.config_msix_vector
      else if offset == 0x1a
      then vector_or_none (get_elem? v.queue_msix_vectors v.queue_select)
      else if offset == 0x12
      then length v.queues
      else if offset == 0x14
      then v.status
      else if offset == 0x16
      then v.queue_select
      else if offset == 0x18
      then queue_field q (λ q. q.num)
      else if offset == 0x1c
      then queue_field q (λ q. bit_of q.ready)
      else if offset == 0x20
      then queue_field q (λ q. bit_and q.desc_table 0xffff_ffff)
      else if offset == 0x24
      then queue_field q (λ q. q.desc_table >>> 32)
      else if offset == 0x28
      then queue_field q (λ q. bit_and q.avail_ring 0xffff_ffff)
      else if offset == 0x2c
      then queue_field q (λ q. q.avail_ring >>> 32)
      else if offset == 0x30
      then queue_field q (λ q. bit_and q.used_ring 0xffff_ffff)
      else if offset == 0x34
      then queue_field q (λ q. q.used_ring >>> 32)
      else 0

  pub common_cfg_read : VirtioPciDevice D → ℕ → List ℕ → List ℕ
  common_cfg_read v offset buffer = put_le buffer (common_cfg_value v offset)

module _ {D : Type 0} where
  -- A write to a field of the selected queue.
  abbrev pub on_queue : VirtioPciDevice D → (Virtqueue → Virtqueue) → VirtioPciDevice D
  on_queue v f = record v { queues = modify v.queues v.queue_select f }

  unfoldable pub set_driver_features : ℕ → VirtioPciDevice D → VirtioPciDevice D
  set_driver_features value v =
      if v.driver_feature_select == 0
      then record v { driver_features = with_low v.driver_features (u32 value) }
      else if v.driver_feature_select == 1
      then record v { driver_features = with_high v.driver_features (u32 value) }
      else v

  unfoldable pub set_status : ℕ → VirtioPciDevice D → VirtioPciDevice D
  set_status value v =
      let v' : VirtioPciDevice D = record v { status = u8 value } in
      if u8 value == 0 then reset v' else v'

  unfoldable pub write_common_cfg : ℕ → ℕ → VirtioPciDevice D → VirtioPciDevice D
  write_common_cfg offset value v =
      if offset == 0x00
      then record v { device_feature_select = u32 value }
      else if offset == 0x08
      then record v { driver_feature_select = u32 value }
      else if offset == 0x0c
      then set_driver_features value v
      else if offset == 0x14
      then set_status value v
      else if offset == 0x16
      then record v { queue_select = u16 value }
      else if offset == 0x18
      then on_queue v (λ q. record q { num = u16 value })
      else if offset == 0x1c
      then on_queue v (λ q. record q { ready = not (value == 0) })
      else if offset == 0x20
      then on_queue v
          (λ q. record q { desc_table = with_low q.desc_table (bit_and value 0xffff_ffff) })
      else if offset == 0x24
      then on_queue v (λ q. record q { desc_table = with_high q.desc_table value })
      else if offset == 0x28
      then on_queue v
          (λ q. record q { avail_ring = with_low q.avail_ring (bit_and value 0xffff_ffff) })
      else if offset == 0x2c
      then on_queue v (λ q. record q { avail_ring = with_high q.avail_ring value })
      else if offset == 0x30
      then on_queue v
          (λ q. record q { used_ring = with_low q.used_ring (bit_and value 0xffff_ffff) })
      else if offset == 0x34
      then on_queue v (λ q. record q { used_ring = with_high q.used_ring value })
      else if offset == 0x10
      then record v { config_msix_vector = u16 value }
      else if offset == 0x1a
      then record v {
        queue_msix_vectors = modify v.queue_msix_vectors v.queue_select (λ w. u16 value);
      }
      else v

  unfoldable pub common_cfg_write : VirtioPciDevice D → ℕ → List ℕ → VirtioPciDevice D
  common_cfg_write v offset bytes = write_common_cfg offset (get_le bytes) v
