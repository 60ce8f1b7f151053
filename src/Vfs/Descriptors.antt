-- ===== src/Vfs/Descriptors.antt =====
-- The descriptor table.
use white_os.Base.{
  ℕ, suc, ◌+◌, ◌-◌, ◌≤◌, ◌<◌, ◌≡◌, refl, sym, ap, ◌∙◌, ◌≢◌, false, none, some, List, [], ◌∷◌, arith,
  ℕ_discrete, ◌==◌, if◌then◌else◌, length, get_elem?, set, length-set, get_elem?-set_self,
  get_elem?-set_ne, store_of_lt,
}
use white_os.Base.Int.{pos}
use white_os.Status.{all_ok}
use white_os.Vfs.{FileDescriptor, Vfs, update, first_null, file_new_descriptor, file_get_descriptor}

-- Slot `i` of the table is null or points to a descriptor of index `i + 1`.
pub record IsTable {S : Type 0} (s : Vfs S) : Type 0 where
  pub size : length s.file_descriptors ≡ 512
  pub linked :
      (i p : ℕ)
      → get_elem? s.file_descriptors i ≡ some p
      → p ≢ 0
      → (o : FileDescriptor S) × (s.objects p ≡ some o) × (o.index ≡ i + 1)

-- Slot `i` is the first null one.
abbrev pub IsFirstNull : List ℕ → ℕ → Type 0
IsFirstNull table i = first_null table 0 ≡ some i

first_null_slot :
    (table : List ℕ) (k i : ℕ)
    → first_null table k ≡ some i
    → (k ≤ i) × (get_elem? table (i - k) ≡ some 0) × (i < k + length table)
unfolding first_null
first_null_slot [] k i e = cc
first_null_slot (p ∷ table) k i e = elim (ℕ_discrete p 0) [
  | yes z ↦
      let k=i : k ≡ i = ground arith in (omega arith, rw (here k=i) (ground arith), omega arith)
  | no n ↦
      let (l, got, u) = first_null_slot table (k + 1) i (ground arith) in
      (omega arith, rw (further l) got, omega arith)
]
  where
    here : k ≡ i → i - k ≡ 0
    here h = omega arith

    further : k + 1 ≤ i → i - k ≡ suc (i - (k + 1))
    further h = omega arith

module _ {S : Type 0} where
  -- The state that a new descriptor at `fresh` in slot `i` makes.
  abbrev pub with_new : Vfs S → (fresh i : ℕ) → Vfs S
  with_new s fresh i = record s {
    file_descriptors = set s.file_descriptors i fresh;
    objects =
        update s.objects fresh
          (some (record { index = i + 1; filesystem = none; private_data = 0; disk = 0 }));
  }

module _ {S : Type 0} {s : Vfs S} (valid : IsTable s) (fresh i : ℕ) (n : fresh ≢ 0)
    (e : IsFirstNull s.file_descriptors i) where
  slot_in : i < 512
  slot_in = omega (arith, (first_null_slot s.file_descriptors 0 i e).2, valid.size)

  new_descriptor : file_new_descriptor fresh s ≡ some (all_ok, fresh, with_new s fresh i)
  unfolding file_new_descriptor
  new_descriptor =
      rw
        (
          e,
          file_new_descriptor,
          not_null,
          store_of_lt s.file_descriptors i fresh (omega (arith, slot_in, valid.size)),
        )
        refl
    where
      not_null : (fresh == 0) ≡ false
      not_null = ground arith

  get_new :
      (fd : ℕ)
      → i < 511
      → file_get_descriptor (with_new s fresh i) (pos fd)
        ≡ (if fd == i + 1 then some fresh else file_get_descriptor s (pos fd))
  unfolding file_get_descriptor
  get_new fd h = elim (ℕ_discrete fd (i + 1)) [
    | yes z ↦ ground (arith, get_elem?-set_self s.file_descriptors i fresh, valid.size)
    | no z ↦ ground (arith, other z)
  ]
    where
      other :
          fd ≢ i + 1
          → fd ≢ 0
          → get_elem? (set s.file_descriptors i fresh) (fd - 1)
            ≡ get_elem? s.file_descriptors (fd - 1)
      other z p = get_elem?-set_ne s.file_descriptors fresh (λ q. z (omega arith))

  IsTable-new : s.objects fresh ≡ none → IsTable (with_new s fresh i)
  IsTable-new unused = record {
    size = length-set s.file_descriptors i fresh ∙ valid.size;
    linked = linked;
  }
    where
      made : FileDescriptor S
      made = record { index = i + 1; filesystem = none; private_data = 0; disk = 0 }

      same_object : (p : ℕ) → p ≡ fresh → update s.objects fresh (some made) p ≡ some made
      same_object p q = ground arith

      other_object :
          (p : ℕ) (o : FileDescriptor S)
          → s.objects p ≡ some o
          → update s.objects fresh (some made) p ≡ some o
      other_object p o q = elim (ℕ_discrete p fresh) [
        | yes z ↦ absurd (cc (sym q ∙ ap s.objects z ∙ unused))
        | no z ↦ ground arith
      ]

      linked :
          (j p : ℕ)
          → get_elem? (set s.file_descriptors i fresh) j ≡ some p
          → p ≢ 0
          → (o : FileDescriptor S) × (update s.objects fresh (some made) p ≡ some o)
            × (o.index ≡ j + 1)
      linked j p got live = elim (ℕ_discrete i j) [
        | yes z ↦ (
          made,
          same_object p (
              ground (
                arith,
                get_elem?-set_self s.file_descriptors i fresh (omega (arith, slot_in, valid.size)),
              )),
          omega arith,
        )
        | no z ↦
            let (o, at, index) =
              valid.linked j p (sym (get_elem?-set_ne s.file_descriptors fresh z) ∙ got) live in
            (o, other_object p o at, index)
      ]

  -- A new descriptor at an unused address takes the first null slot and leaves the table in order. If
  -- the slot is not the last, the descriptor is found under the slot's number plus one, and every
  -- other number finds what it found.
  pub file_new_descriptor_lem :
      (fd : ℕ)
      → s.objects fresh ≡ none
      → i < 511
      → (file_new_descriptor fresh s ≡ some (all_ok, fresh, with_new s fresh i))
        × IsTable (with_new s fresh i)
        × (file_get_descriptor (with_new s fresh i) (pos fd)
            ≡ (if fd == i + 1 then some fresh else file_get_descriptor s (pos fd)))
  file_new_descriptor_lem fd unused h = (new_descriptor, IsTable-new unused, get_new fd h)

  -- The descriptor in the last slot gets number 512, under which nothing is found.
  pub file_new_descriptor-last :
      i ≡ 511
      → (file_new_descriptor fresh s ≡ some (all_ok, fresh, with_new s fresh i))
        × (file_get_descriptor (with_new s fresh i) (pos (i + 1)) ≡ some 0)
  file_new_descriptor-last h = (new_descriptor, unfold file_get_descriptor in rw h refl)
