-- ===== src/Virtio/Pci/State.antt =====
-- The virtio-pci device of src/virtio/pci.rs: its state, its interrupts and its reset.
-- The sinks are logs, newest first: `lines` the `IrqSink::set_level` calls with the sink they went
-- to, `messages` the `MsiSink::signal` calls. Guest memory is shared, so it is no field here.
use ferrvm.Prelude.{
  ℕ, ◌+◌, Bool, true, false, not, ◌&&◌, ◌||◌, Option, none, some, List, [], ◌∷◌, map, ◌==◌,
  if◌then◌else◌, has_bits, replicate, get_elem?, set, u16, bit_or,
}
use ferrvm.Memory.{GuestMemory}
use ferrvm.Pci.{ConfigSpace}
use ferrvm.Virtio.Queue
use ferrvm.Virtio.Queue.{Virtqueue}
use ferrvm.Virtio.Pci.Layout.{
  virtio_msi_no_vector, isr_queue, queue_size_max, msix_vector_ctrl_mask,
}
use ferrvm.Virtio.Pci.Config.{build_config, msix_enabled, msix_function_masked}

-- `trait VirtioDevice`, over the backend's state.
pub record VirtioDevice (D : Type 0) : Type 0 where
  pub device_id : D → ℕ
  pub device_features : D → ℕ
  pub num_queues : D → ℕ
  pub on_notify : ℕ → Virtqueue → GuestMemory → D → Bool × Virtqueue × GuestMemory × D
  pub read_config : D → ℕ → List ℕ → List ℕ
  pub write_config : ℕ → List ℕ → D → D

pub record MsixEntry : Type 0 where
  pub address : ℕ
  pub word : ℕ
  pub control : ℕ

abbrev pub new_entry : MsixEntry
new_entry = record { address = 0; word = 0; control = msix_vector_ctrl_mask }

abbrev pub masked : MsixEntry → Bool
masked e = has_bits e.control msix_vector_ctrl_mask

pub record VirtioPciDevice (D : Type 0) : Type 0 where
  pub device : D
  pub queues : List Virtqueue
  pub config : ConfigSpace
  pub device_feature_select : ℕ
  pub driver_feature_select : ℕ
  pub driver_features : ℕ
  pub status : ℕ
  pub queue_select : ℕ
  pub isr_status : ℕ
  pub irq_sink : ℕ
  pub msix_table : List MsixEntry
  pub msix_pending : List Bool
  pub queue_msix_vectors : List ℕ
  pub config_msix_vector : ℕ
  pub lines : List (ℕ × Bool)
  pub messages : List (ℕ × ℕ)

abbrev pub fresh_queue : Virtqueue
fresh_queue = record Queue.new { num = queue_size_max }

module _ {D : Type 0} (backend : VirtioDevice D) where
  unfoldable pub new : ℕ → D → ℕ → VirtioPciDevice D
  new irq_sink device irq_line =
      let num_queues = backend.num_queues device in
      let num_vectors = u16 (num_queues + 1) in
      record {
        device = device;
        queues = replicate num_queues fresh_queue;
        config = build_config (backend.device_id device) irq_line num_vectors;
        device_feature_select = 0;
        driver_feature_select = 0;
        driver_features = 0;
        status = 0;
        queue_select = 0;
        isr_status = 0;
        irq_sink = irq_sink;
        msix_table = replicate num_vectors new_entry;
        msix_pending = replicate num_vectors false;
        queue_msix_vectors = replicate num_queues virtio_msi_no_vector;
        config_msix_vector = virtio_msi_no_vector;
        lines = [];
        messages = [];
      }

-- The delivery loop over the table and the pending bits.
unfoldable pub deliver : List MsixEntry → List Bool → List (ℕ × ℕ) → List Bool × List (ℕ × ℕ)
deliver [] pending log = (pending, log)
deliver (e ∷ table) [] log = ([], log)
deliver (e ∷ table) (p ∷ pending) log =
    let due = p && not (masked e) in
    let (rest, log') = deliver table pending (if due then (e.address, e.word) ∷ log else log) in
    ((if due then false else p) ∷ rest, log')

-- `.copied().unwrap_or(VIRTIO_MSI_NO_VECTOR)`
abbrev pub vector_or_none : Option ℕ → ℕ
vector_or_none none = virtio_msi_no_vector
vector_or_none (some vector) = vector

module _ {D : Type 0} where
  unfoldable pub replace_irq_sink : ℕ → VirtioPciDevice D → VirtioPciDevice D
  replace_irq_sink sink v = record v { irq_sink = sink }

  unfoldable pub set_line : Bool → VirtioPciDevice D → VirtioPciDevice D
  set_line asserted v = record v { lines = (v.irq_sink, asserted) ∷ v.lines }

  unfoldable pub signal_msix : ℕ → VirtioPciDevice D → VirtioPciDevice D
  signal_msix vector v = elim (get_elem? v.msix_table vector) [
    | none ↦ v
    | some e ↦
        if vector == virtio_msi_no_vector
        then v
        else if msix_function_masked v.config || masked e
        then record v { msix_pending = set v.msix_pending vector true }
        else record v { messages = (e.address, e.word) ∷ v.messages }
  ]

  unfoldable pub raise_queue_interrupt : ℕ → VirtioPciDevice D → VirtioPciDevice D
  raise_queue_interrupt queue_idx v =
      if msix_enabled v.config
      then signal_msix (vector_or_none (get_elem? v.queue_msix_vectors queue_idx)) v
      else set_line true (record v { isr_status = bit_or v.isr_status isr_queue })

  unfoldable pub deliver_pending : VirtioPciDevice D → VirtioPciDevice D
  deliver_pending v =
      if not (msix_enabled v.config) || msix_function_masked v.config
      then v
      else (let (pending, log) = deliver v.msix_table v.msix_pending v.messages in
          record v { msix_pending = pending; messages = log })

  -- `reset`; the status is the caller's.
  unfoldable pub reset : VirtioPciDevice D → VirtioPciDevice D
  reset v = set_line false (record v {
    queues = map (λ q. fresh_queue) v.queues;
    device_feature_select = 0;
    driver_feature_select = 0;
    driver_features = 0;
    queue_select = 0;
    isr_status = 0;
    queue_msix_vectors = map (λ q. virtio_msi_no_vector) v.queue_msix_vectors;
    config_msix_vector = virtio_msi_no_vector;
    msix_pending = map (λ p. false) v.msix_pending;
  })
