-- ===== src/Virtio/Blk.antt =====
-- src/virtio/blk.rs: the virtio block device.
-- The backing file is not part of the repository: its positioned reads and writes and its sync are a
-- parameter over a file state `F`. A write that fails may still have changed the file. Debug output is
-- left out. `sum` and `+=` on machine integers wrap, as in a release build.
pub mod Bounds
use ferrvm.Prelude.{
  ℕ, zero, suc, ◌+◌, ◌-◌, ◌*◌, ◌/◌, ◌%◌, ◌^◌, Bool, true, false, Option, none, some, List, [], ◌∷◌,
  ◌++◌, ltb, leb, ◌==◌, if◌then◌else◌, Result, ok, err, length, take, drop, replicate, get_or, min,
  to_le, from_le, u32, u64, ◌<<<◌, checked_add, checked_mul, bit_or,
}
use ferrvm.Memory.{GuestMemory, read_at, write_at}
use ferrvm.Virtio.Queue.{VirtqDesc, Virtqueue, le_field, process}

abbrev pub virtio_blk_t_in : ℕ
virtio_blk_t_in = 0

abbrev pub virtio_blk_t_out : ℕ
virtio_blk_t_out = 1

abbrev pub virtio_blk_t_flush : ℕ
virtio_blk_t_flush = 4

abbrev pub virtio_blk_t_get_id : ℕ
virtio_blk_t_get_id = 8

abbrev pub virtio_blk_s_ok : ℕ
virtio_blk_s_ok = 0

abbrev pub virtio_blk_s_ioerr : ℕ
virtio_blk_s_ioerr = 1

abbrev pub virtio_blk_s_unsupp : ℕ
virtio_blk_s_unsupp = 2

abbrev pub sector_size : ℕ
sector_size = 512

abbrev pub virtio_blk_seg_max : ℕ
virtio_blk_seg_max = 254

abbrev pub virtio_blk_id_bytes : ℕ
virtio_blk_id_bytes = 20

-- "ferrvm-blk" in ASCII
abbrev pub virtio_blk_id_prefix : List ℕ
virtio_blk_id_prefix = 102 ∷ 101 ∷ 114 ∷ 114 ∷ 118 ∷ 109 ∷ 45 ∷ 98 ∷ 108 ∷ 107 ∷ []

-- What the device asks of its backing file.
pub record Disk (F : Type 0) : Type 0 where
  pub read_exact_at : ℕ → ℕ → F → Option (List ℕ)
  pub write_all_at : List ℕ → ℕ → F → Bool × F
  pub sync_all : F → Bool

pub record VirtioBlk (F : Type 0) : Type 0 where
  pub id : ℕ
  pub disk : F
  pub capacity_sectors : ℕ

-- The decimal digits of a `u32`, at most ten, before `digits`.
pub decimal : ℕ → ℕ → List ℕ → List ℕ
decimal zero n digits = digits
decimal (suc left) n digits =
    let more = (n % 10 + 48) ∷ digits in
    let rest = decimal left (n / 10) more in if n / 10 == 0 then more else rest

-- The identification, cut or padded with zeros to `len` bytes.
pub id_buffer : ℕ → ℕ → List ℕ
id_buffer id len =
    let text = virtio_blk_id_prefix ++ decimal 10 id [] in
    take len text ++ replicate (len - length text) 0

unfoldable pub total_len : List VirtqDesc → ℕ
total_len [] = 0
total_len (d ∷ rest) = d.len + total_len rest

-- `sector.checked_mul(SECTOR_SIZE).and_then(|s| s.checked_add(total_len))`
unfoldable pub request_end : ℕ → List VirtqDesc → Option ℕ
request_end sector segments = elim (checked_mul sector sector_size) [
  | none ↦ none
  | some start ↦ checked_add start (u64 (total_len segments))
]

unfoldable pub in_capacity : ℕ → Option ℕ → Bool
in_capacity capacity none = false
in_capacity capacity (some end) = leb end (u64 (capacity * sector_size))

-- The state of a request: the bytes written to the guest, guest memory and the file.
pub record Progress (F : Type 0) : Type 0 where
  pub written : ℕ
  pub memory : GuestMemory
  pub file : F

module _ {F : Type 0} where
  unfoldable pub get_id : ℕ → List VirtqDesc → Progress F → ℕ × Progress F
  get_id id [] p = (virtio_blk_s_ioerr, p)
  get_id id (desc ∷ segments) p =
      let len = min desc.len virtio_blk_id_bytes in
      elim (write_at p.memory desc.addr (id_buffer id len)) [
        | err e ↦ (virtio_blk_s_ioerr, p)
        | ok mem ↦ (virtio_blk_s_ok, record p { memory = mem; written = u32 (p.written + len) })
      ]

  -- The request between its header and its status byte; `last` is the descriptor of the status.
  unfoldable pub finish : VirtqDesc → ℕ × Progress F → Progress F
  finish last (status, p) = elim (write_at p.memory last.addr (status ∷ [])) [
    | err e ↦ p
    | ok mem ↦ record p { memory = mem; written = u32 (p.written + 1) }
  ]

module _ {F : Type 0} (backing : Disk F) where
  -- One data segment: `none` for the next one, or the status that ends the request.
  unfoldable pub read_segment : ℕ → VirtqDesc → Progress F → Option ℕ × Progress F
  read_segment offset desc p = elim (backing.read_exact_at desc.len offset p.file) [
    | none ↦ (some virtio_blk_s_ioerr, p)
    | some bytes ↦ elim (write_at p.memory desc.addr bytes) [
      | err e ↦ (some virtio_blk_s_ioerr, p)
      | ok mem ↦ (none, record p { memory = mem; written = u32 (p.written + desc.len) })
    ]
  ]

  unfoldable pub write_segment : ℕ → VirtqDesc → Progress F → Option ℕ × Progress F
  write_segment offset desc p = elim (read_at p.memory desc.addr desc.len) [
    | err e ↦ (some virtio_blk_s_ioerr, p)
    | ok bytes ↦
        let (fine, file) = backing.write_all_at bytes offset p.file in
        (if fine then none else some virtio_blk_s_ioerr, record p { file = file })
  ]

  unfoldable pub segment : ℕ → ℕ → VirtqDesc → Progress F → Option ℕ × Progress F
  segment req_type offset desc p =
      if req_type == virtio_blk_t_in
      then read_segment offset desc p
      else if req_type == virtio_blk_t_out
      then write_segment offset desc p
      else (some virtio_blk_s_unsupp, p)

  -- The loop over the data segments, from the byte `offset` on.
  unfoldable pub transfer : ℕ → ℕ → List VirtqDesc → Progress F → ℕ × Progress F
  transfer req_type offset [] p = (virtio_blk_s_ok, p)
  transfer req_type offset (desc ∷ segments) p =
      let result = segment req_type offset desc p in
      let rest = transfer req_type (u64 (offset + desc.len)) segments result.1 in
      elim result.0 [ none ↦ rest | some status ↦ (status, result.1) ]

  unfoldable pub execute : VirtioBlk F → ℕ → ℕ → List VirtqDesc → Progress F → ℕ × Progress F
  execute blk req_type sector segments p =
      if req_type == virtio_blk_t_flush
      then (if backing.sync_all p.file then virtio_blk_s_ok else virtio_blk_s_ioerr, p)
      else if req_type == virtio_blk_t_get_id
      then get_id blk.id segments p
      else if in_capacity blk.capacity_sectors (request_end sector segments)
      then transfer req_type (u64 (sector * sector_size)) segments p
      else (virtio_blk_s_ioerr, p)

  unfoldable pub process_chain :
      List VirtqDesc → GuestMemory → VirtioBlk F → ℕ × GuestMemory × VirtioBlk F
  process_chain [] mem blk = (0, mem, blk)
  process_chain (head ∷ []) mem blk = (0, mem, blk)
  process_chain (head ∷ second ∷ rest) mem blk = elim (read_at mem head.addr 16) [
    | err e ↦ (0, mem, blk)
    | ok hdr ↦
        let chain = second ∷ rest in
        let p = finish (get_or chain (length rest) second) (
          execute blk (le_field 0 4 hdr) (le_field 8 8 hdr) (take (length rest) chain)
            (record { written = 0; memory = mem; file = blk.disk })) in
        (p.written, p.memory, record blk { disk = p.file })
  ]

  -- `process` on the queue, for queue 0 alone.
  pub on_notify :
      ℕ → Virtqueue → GuestMemory → VirtioBlk F → Bool × Virtqueue × GuestMemory × VirtioBlk F
  on_notify queue_idx queue mem blk =
      if queue_idx == 0
      then elim (process (λ chain m b. process_chain chain m b) queue mem blk) [
        | none ↦ (false, queue, mem, blk)
        | some (processed, queue', mem', blk') ↦ (ltb 0 processed, queue', mem', blk')
      ]
      else (false, queue, mem, blk)

-- `VIRTIO_F_VERSION_1 | VIRTIO_BLK_F_FLUSH | VIRTIO_BLK_F_SEG_MAX`
pub device_features : ℕ
device_features = bit_or (bit_or (1 <<< 32) (1 <<< 9)) (1 <<< 2)

-- The 16 bytes of `struct virtio_blk_config`.
pub blk_config : ℕ → List ℕ
blk_config capacity_sectors =
    to_le 8 capacity_sectors ++ (0 ∷ 0 ∷ 0 ∷ 0 ∷ []) ++ to_le 4 virtio_blk_seg_max

-- The buffer from byte `idx` of the configuration on; bytes past its end are 0.
pub read_config_bytes : List ℕ → ℕ → List ℕ → List ℕ
read_config_bytes cfg idx [] = []
read_config_bytes cfg idx (byte ∷ buffer) =
    (if ltb idx (length cfg) then get_or cfg idx 0 else 0) ∷ read_config_bytes cfg (idx + 1) buffer

pub read_config : {F : Type 0} → VirtioBlk F → ℕ → List ℕ → List ℕ
read_config blk offset buffer = read_config_bytes (blk_config blk.capacity_sectors) offset buffer
