-- ===== src/Vfs/Close.antt =====
-- `fclose`: what it reports, and which slot it clears.
use white_os.Base.{
  ℕ, ◌+◌, ◌-◌, ◌<◌, ◌≡◌, refl, sym, ap, ◌∙◌, ◌≢◌, inr, false, none, some, arith, ◌==◌, get_elem?,
  set, get_elem?-set_self, get_elem?-set_ne, store_of_lt,
}
use white_os.Base.Int.{ℤ, pos}
use white_os.Base.Runs.{ret, fault, and_then}
use white_os.Status.{all_ok, eio}
use white_os.Vfs.{
  Filesystem, FileDescriptor, Vfs, update, file_get_descriptor, file_free_descriptor,
}
use white_os.Vfs.Descriptors.{IsTable}
use white_os.Vfs.Calls.{find, fclose}

module _ {S : Type 0} where
  -- The state behind a close of the object at `desc`: the slot of its index is null, the object gone.
  abbrev pub closed : Vfs S → (desc index : ℕ) → S → Vfs S
  closed s desc index d = record s {
    file_descriptors = set s.file_descriptors index 0;
    objects = update s.objects desc none;
    driver = d;
  }

  -- Number `fd` finds the descriptor at `desc`, which belongs to `fs`.
  pub record IsOpen (s : Vfs S) (fd desc : ℕ) (object : FileDescriptor S) (fs : Filesystem S)
      : Type 0 where
    pub positive : 0 < fd
    pub below : fd < 512
    pub found : get_elem? s.file_descriptors (fd - 1) ≡ some desc
    pub live : desc ≢ 0
    pub allocated : s.objects desc ≡ some object
    pub owner : object.filesystem ≡ some fs

  module _ {s : Vfs S} {fd desc : ℕ} {object : FileDescriptor S} {fs : Filesystem S}
      (valid : IsTable s) (opened : IsOpen s fd desc object fs) where
    get_open : file_get_descriptor s (pos fd) ≡ some desc
    unfolding file_get_descriptor
    get_open = ground (arith, opened.positive, opened.below, opened.found)

    index_is : object.index ≡ fd
    index_is =
        let (o, at, index) = valid.linked (fd - 1) desc opened.found opened.live in
        ap (λ (x : FileDescriptor S). x.index) (some_injective (sym opened.allocated ∙ at))
        ∙ index
        ∙ omega (arith, opened.positive)
      where
        some_injective : {x y : FileDescriptor S} → some x ≡ some y → x ≡ y
        some_injective e = cc

    pub find_open : find s (pos fd) ≡ some (inr (desc, object, fs))
    unfolding find
    find_open = rw (get_open, live, opened.allocated, opened.owner) refl
      where
        live : (desc == 0) ≡ false
        live = ground (arith, opened.live)

    cleared :
        (d : S) → file_free_descriptor (record s { driver = d }) desc ≡ some (closed s desc fd d)
    unfolding file_free_descriptor
    cleared d =
        rw
          (
            opened.allocated,
            index_is,
            store_of_lt s.file_descriptors fd 0 (omega (arith, valid.size, opened.below)),
          )
          refl

    runs :
        (d : S)
        → fs.close object.private_data s.driver ≡ ret (all_ok, d)
        → fclose s (pos fd) ≡ ret (all_ok, closed s desc fd d)
    unfolding fclose
    runs d ok = rw (find_open, ok, cleared d) refl

    still : (d : S) → file_get_descriptor (closed s desc fd d) (pos fd) ≡ some desc
    unfolding file_get_descriptor
    still d = ground (
      arith,
      opened.positive,
      opened.below,
      opened.found,
      get_elem?-set_ne s.file_descriptors {i = fd} {j = fd - 1} 0 (omega (arith, opened.positive)),
    )

    gone : update s.objects desc none desc ≡ none
    gone = ground arith

    next : (d : S) → file_get_descriptor (closed s desc fd d) (pos (fd + 1)) ≡ some 0
    unfolding file_get_descriptor
    next d = ground (
      arith,
      opened.below,
      ap (get_elem? (set s.file_descriptors fd 0)) back,
      get_elem?-set_self s.file_descriptors fd 0 (omega (arith, valid.size, opened.below)),
    )
      where
        back : fd + 1 - 1 ≡ fd
        back = omega arith

    find_gone : (d : S) → find (closed s desc fd d) (pos fd) ≡ none
    unfolding find
    find_gone d = rw (still d, not_null, gone) refl
      where
        not_null : (desc == 0) ≡ false
        not_null = ground (arith, opened.live)

    fclose_gone : (d : S) → fclose (closed s desc fd d) (pos fd) ≡ fault
    unfolding fclose
    fclose_gone d = rw (find_gone d) refl

    -- When the driver closes the file, `fclose` of number `fd` reports success, clears slot `fd` of the
    -- table and frees the descriptor. Its own slot is `fd - 1`: number `fd` still finds the address of
    -- the freed object.
    pub fclose-closed :
        (d : S)
        → fs.close object.private_data s.driver ≡ ret (all_ok, d)
        → (fclose s (pos fd) ≡ ret (all_ok, closed s desc fd d))
          × (file_get_descriptor (closed s desc fd d) (pos fd) ≡ some desc)
          × ((closed s desc fd d).objects desc ≡ none)
          × (file_get_descriptor (closed s desc fd d) (pos (fd + 1)) ≡ some 0)
    fclose-closed d ok = (runs d ok, still d, gone, next d)

    -- A second `fclose` of the number goes through the address of the freed descriptor.
    pub fclose-twice :
        (d : S)
        → fs.close object.private_data s.driver ≡ ret (all_ok, d)
        → and_then (fclose s (pos fd)) (λ (res, s'). fclose s' (pos fd)) ≡ fault
    fclose-twice d ok =
        ap (λ r. and_then r (λ (res, s'). fclose s' (pos fd))) (runs d ok) ∙ fclose_gone d

-- A number that finds nothing is refused, and nothing changes.
pub fclose-null :
    {S : Type 0} (s : Vfs S) (fd : ℤ)
    → file_get_descriptor s fd ≡ some 0
    → fclose s fd ≡ ret (eio, s)
unfolding fclose
fclose-null s fd e = rw e refl
