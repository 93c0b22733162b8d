-- ===== src/Vm/Tests.antt =====
-- The theorems on set-up at a kernel that keeps VMs.
use ferrvm.Prelude.{
  arith, ℕ, ◌≡◌, ◌≢◌, refl, sym, ap, ◌∙◌, Option, none, some, List, [], ◌∷◌, Result, ok, err,
}
use mathlib.Core.Logic.{ite, if_pos, if_neg}
use native.Mathlib.Decide.{ℕ_discrete}
use ferrvm.Vm.Calls.{ErrorKind, already_exists, other_kind}
use ferrvm.Vm.Bhyve.Requests
use ferrvm.Vm.Bhyve.{create_vm, drop_vm}
use ferrvm.Vm.Bhyve.Requests.{Host, BhyveVm}
use ferrvm.Vm.Bhyve.Names.{c_string}
use ferrvm.Vm.Bhyve.Lifetime.{IsVmm, create_vm-drop_vm}

-- A kernel that keeps the VM of each name, and the VM that its one descriptor, 4, has open. One that is
-- open cannot be destroyed.
record Vms : Type 0 where
  vms : List ℕ → Option ℕ
  slot : Option (List ℕ)

name-discrete : Discrete (List ℕ)
name-discrete = hlevel ℕ_discrete

slot-discrete : Discrete (Option (List ℕ))
slot-discrete = hlevel ℕ_discrete

abbrev find : Vms → List ℕ → Option ℕ
find k = k.vms

abbrev held : Vms → ℕ → Option (List ℕ)
held k fd = ite (ℕ_discrete fd 4) (k.slot) none

abbrev put : Vms → List ℕ → Option ℕ → Vms
put k name vm = record k { vms = λ other. ite (name-discrete other name) vm (k.vms other) }

put_same : (k : Vms) (name : List ℕ) (vm : Option ℕ) → find (put k name vm) name ≡ vm
put_same k name vm = if_pos (name-discrete name name) refl vm (k.vms name)

put_other :
    (k : Vms) (name : List ℕ) (vm : Option ℕ) (other : List ℕ)
    → other ≢ name
    → find (put k name vm) other ≡ find k other
put_other k name vm other apart = if_neg (name-discrete other name) apart vm (k.vms other)

abbrev created : Vms → List ℕ → Option ℕ → Result ErrorKind ℕ × Vms
created k name none = (ok 0, put k name (some 7))
created k name (some vm) = (err already_exists, k)

abbrev destroyed : Vms → List ℕ → Result ErrorKind ℕ × Vms
destroyed k name =
    ite (slot-discrete (k.slot) (some name)) (err (other_kind 16), k) (ok 0, put k name none)

abbrev answers : Requests.Request → Vms → Result ErrorKind ℕ × Vms
answers (Requests.vmm_create_vm r) k = created k (c_string (r.name)) (find k (c_string (r.name)))
answers (Requests.vmm_destroy_vm r) k = destroyed k (c_string (r.name))
answers request k = (ok 0, k)

abbrev closed : ℕ → Vms → Vms
closed fd k = record k { slot = ite (ℕ_discrete fd 4) none (k.slot) }

closed_own : (fd : ℕ) (k : Vms) → held (closed fd k) fd ≡ none
closed_own fd k = elim (ℕ_discrete fd 4) [
  | yes own ↦
      if_pos (ℕ_discrete fd 4) own ((closed fd k).slot) none
      ∙ if_pos (ℕ_discrete fd 4) own none (k.slot)
  | no apart ↦ if_neg (ℕ_discrete fd 4) apart ((closed fd k).slot) none
]

closed_other : (fd user : ℕ) (k : Vms) → user ≢ fd → held (closed fd k) user ≡ held k user
closed_other fd user k apart = elim (ℕ_discrete user 4) [
  | yes own ↦
      let free : fd ≢ 4 = λ same. apart (own ∙ sym same) in
      ap (λ slot. ite (ℕ_discrete user 4) slot none) (if_neg (ℕ_discrete fd 4) free none (k.slot))
  | no away ↦
      if_neg (ℕ_discrete user 4) away ((closed fd k).slot) none
      ∙ sym (if_neg (ℕ_discrete user 4) away (k.slot) none)
]

opened_other :
    (k : Vms) (name : List ℕ) (user : ℕ)
    → user ≢ 4
    → held (record k { slot = some name }) user ≡ held k user
opened_other k name user apart =
    if_neg (ℕ_discrete user 4) apart (some name) none
    ∙ sym (if_neg (ℕ_discrete user 4) apart (k.slot) none)

abbrev vms_kernel : Requests.Kernel Vms
vms_kernel = record {
  open_control = λ k. (ok 3, k);
  open_vm = λ name k. (ok 4, record k { slot = some name });
  close = closed;
  ioctl = λ fd request k. answers request k;
  mmap_fixed = λ addr len fd offset k. (ok addr, k);
}

vms_kernel-IsVmm : IsVmm vms_kernel find 7 held
unfolding ℕ_discrete
vms_kernel-IsVmm = record {
  create_new = λ fd r k free. (
    0,
    put k (c_string (r.name)) (some 7),
    ap (created k (c_string (r.name))) free,
    put_same k (c_string (r.name)) (some 7),
    put_other k (c_string (r.name)) (some 7),
    λ user. refl,
  );
  create_taken = λ fd r k v there. ap (created k (c_string (r.name))) there;
  destroys = λ fd r k v there unused. (
    0,
    put k (c_string (r.name)) none,
    if_neg (slot-discrete (k.slot) (some (c_string (r.name)))) (unused 4) (err (other_kind 16), k)
        (ok 0, put k (c_string (r.name)) none),
    put_same k (c_string (r.name)) none,
    put_other k (c_string (r.name)) none,
    λ user. refl,
  );
  opens = λ name k v there.
      (4, record k { slot = some name }, refl, λ other. refl, refl, opened_other k name);
  close_keeps = λ fd k name. refl;
  closes = λ fd k. closed_own fd k;
  close_others = λ fd user k apart. closed_other fd user k apart;
}

-- Descriptor 4 has another VM open.
abbrev one_vm : Host Vms
one_vm = record {
  kernel_state = record { vms = λ name. some 1; slot = some (0x67 ∷ []) };
  next_segid = 0;
}

other_name : ◌≢◌ {A = Option (List ℕ)} (some (0x67 ∷ [])) (some (0x66 ∷ 0x76 ∷ []))
other_name h = cc

no_name : ◌≢◌ {A = Option (List ℕ)} none (some (0x66 ∷ 0x76 ∷ []))
no_name h = cc

unused : (user : ℕ) → held (one_vm.kernel_state) user ≢ some (0x66 ∷ 0x76 ∷ [])
unused user holds = elim (ℕ_discrete user 4) [
  | yes own ↦ other_name (sym (if_pos (ℕ_discrete user 4) own (some (0x67 ∷ [])) none) ∙ holds)
  | no apart ↦ no_name (sym (if_neg (ℕ_discrete user 4) apart (some (0x67 ∷ [])) none) ∙ holds)
]

create_vm-drop_vm_example :
    let name : List ℕ = 0x66 ∷ 0x76 ∷ [] in
    (vm : BhyveVm) × (h' : Host Vms) × (create_vm vms_kernel 3 name one_vm ≡ (ok vm, h'))
    × ((h'.kernel_state.vms name ≡ some 7)
        × ((other : List ℕ) → other ≢ name → h'.kernel_state.vms other ≡ some 1))
    × (held (h'.kernel_state) vm.fd ≡ some name)
    × ((drop_vm vms_kernel vm h').kernel_state.vms name ≡ none)
    × ((other : List ℕ) → other ≢ name → (drop_vm vms_kernel vm h').kernel_state.vms other ≡ some 1)
    × ((user : ℕ) → held ((drop_vm vms_kernel vm h').kernel_state) user ≢ some name)
create_vm-drop_vm_example =
    create_vm-drop_vm vms_kernel find 7 held vms_kernel-IsVmm 3 (0x66 ∷ 0x76 ∷ []) one_vm
      (omega arith) (omega arith) unused
