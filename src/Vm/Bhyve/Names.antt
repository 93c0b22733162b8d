-- ===== src/Vm/Bhyve/Names.antt =====
-- The names of VMs in the requests of src/bhyve/core.rs.
use ferrvm.Prelude.{
  arith, ℕ, zero, suc, ◌-◌, ◌<◌, ◌≤◌, ◌≡◌, refl, ◌∙◌, ◌==◌, if◌then◌else◌, List, [], ◌∷◌, ◌++◌,
  length, take, replicate, min, length-append, length-take, length-replicate, take_all, sym, inl,
  inr, ◌⊎◌, All, All-take,
}
use ferrvm.Vm.Bhyve.{name_field}
use ferrvm.Vm.Bhyve.Requests.{vm_max_namelen}

-- The text that the kernel reads in a field: the bytes before the first NUL.
abbrev pub c_string : List ℕ → List ℕ
c_string [] = []
c_string (b ∷ bytes) = if b == 0 then [] else b ∷ c_string bytes

abbrev pub IsText : List ℕ → Type 0
IsText name = All (λ b. 0 < b) name

c_string-append_zeros :
    (name : List ℕ) (n : ℕ) → IsText name → 0 < n → c_string (name ++ replicate n 0) ≡ name
c_string-append_zeros [] zero text pos = absurd (omega arith)
c_string-append_zeros [] (suc n) text pos = refl
c_string-append_zeros (b ∷ name) n text pos =
    ground (arith, c_string-append_zeros name n (text.1) pos)

le_total : (a b : ℕ) → (a ≤ b) ⊎ (b ≤ a)
le_total a b = ground arith

take-min : (n : ℕ) (xs : List ℕ) → take (min (length xs) n) xs ≡ take n xs
take-min n xs = elim (le_total (length xs) n) [
  | inl short ↦
      let all : min (length xs) n ≡ length xs = omega arith in
      rw all (take_all (length xs) xs (omega arith) ∙ sym (take_all n xs short))
  | inr long ↦ let part : min (length xs) n ≡ n = omega arith in rw part refl
]

-- The field is as long as the structure has it, and the kernel reads the name in it, cut to 127 bytes:
-- the whole of a name that is no longer.
pub name_field_lem :
    (name : List ℕ)
    → IsText name
    → (length (name_field name) ≡ vm_max_namelen)
      × (c_string (name_field name) ≡ take 127 name)
      × (length name < vm_max_namelen → c_string (name_field name) ≡ name)
unfolding name_field
name_field_lem name text =
    let len = min (length name) 127 in
    let nul : ℕ = 0 in
    let cut : c_string (take len name ++ replicate (128 - len) 0) ≡ take 127 name =
      c_string-append_zeros (take len name) (128 - len) (All-take (λ b. 0 < b) len name text)
        (omega arith)
      ∙ take-min 127 name in
    (
      length-append (take len name) (replicate (128 - len) 0)
          ∙ omega (arith, length-take len name, length-replicate (128 - len) nul),
      cut,
      λ short. cut ∙ take_all 127 name (omega arith),
    )
