-- ===== src/Memory/Objects/Ordered.antt =====
-- `get_ordered_firmware`: the slot that it finds holds the newest or the oldest image.
use upkit.Prelude.{
  ℕ, ◌≤◌, ◌≡◌, ◌⊎◌, inl, inr, refl, sym, ap, subst, ◌∙◌, Bool, true, false, List, [], ◌∷◌, arith,
  if◌then◌else◌, Bool-cases,
}
use upkit.Errors.{pull_success, is_error}
use upkit.Memory.{MemId, MemSlot, read_only, MemoryImpl, memory_open, memory_close}
use upkit.Memory.Manifest.{Layout}
use upkit.Memory.Objects.{
  Found, consider, is_slot, read_firmware_manifest, ordered_loop, get_ordered_firmware,
}

-- The slots before `OBJ_END`.
abbrev pub active : List MemSlot → List MemSlot
active [] = []
active (s ∷ ss) = if is_slot s.id then s ∷ active ss else []

-- `v` does not beat `best`.
abbrev pub Beaten : Bool → ℕ → ℕ → Type 0
Beaten true v best = v ≤ best
Beaten false v best = best ≤ v

-- What has been found is one of the slots.
abbrev pub IsOneOf : Found → List MemSlot → Type 0
IsOneOf r [] = ⊥
IsOneOf r (s ∷ ss) = ((r.id ≡ s.id) × (r.bootable ≡ s.bootable)) ⊎ IsOneOf r ss

module _ (version_of : MemId → ℕ) where
  abbrev pub select : Bool → Bool → List MemSlot → Found → Found
  select newest prefer [] f = f
  select newest prefer (s ∷ ss) f =
      select newest prefer ss (consider newest prefer f s (version_of s.id))

  -- No slot that may be chosen has an image which beats the version found.
  abbrev pub Best : Bool → Bool → List MemSlot → Found → Type 0
  Best newest prefer [] r = Unit
  Best newest prefer (s ∷ ss) r =
      ((prefer ≡ true → s.bootable ≡ true) → Beaten newest (version_of s.id) r.version)
      × Best newest prefer ss r

  -- What has been found is an image on the device, bootable if that is preferred.
  pub record IsFound (prefer : Bool) (f : Found) : Type 0 where
    pub read : f.version ≡ version_of f.id
    pub late : f.first ≡ false
    pub boots : prefer ≡ true → f.bootable ≡ true

  consider-IsFound :
      (newest prefer : Bool) (f : Found) (s : MemSlot)
      → IsFound prefer f
      → let r = consider newest prefer f s (version_of s.id) in
        IsFound prefer r
        × Beaten newest f.version r.version
        × ((prefer ≡ true → s.bootable ≡ true) → Beaten newest (version_of s.id) r.version)
        × ((r ≡ f) ⊎ ((r.id ≡ s.id) × (r.bootable ≡ s.bootable)))
  unfolding consider
  consider-IsFound true true f s h = ground arith
  consider-IsFound true false f s h = ground arith
  consider-IsFound false true f s h = ground arith
  consider-IsFound false false f s h = ground arith

  Beaten-trans :
      (newest : Bool) (u v w : ℕ) → Beaten newest u v → Beaten newest v w → Beaten newest u w
  Beaten-trans true u v w h k = omega arith
  Beaten-trans false u v w h k = omega arith

  IsOneOf-step :
      (r f f' : Found) (s : MemSlot) (ss : List MemSlot)
      → (r ≡ f') ⊎ IsOneOf r ss
      → (f' ≡ f) ⊎ ((f'.id ≡ s.id) × (f'.bootable ≡ s.bootable))
      → (r ≡ f) ⊎ IsOneOf r (s ∷ ss)
  IsOneOf-step r f f' s ss (inr p) q = inr (inr p)
  IsOneOf-step r f f' s ss (inl p) (inl q) = inl (p ∙ q)
  IsOneOf-step r f f' s ss (inl p) (inr q) =
      inr (inl (ap (λ t. t.id) p ∙ q.0, ap (λ t. t.bootable) p ∙ q.1))

  select-IsFound :
      (newest prefer : Bool) (ss : List MemSlot) (f : Found)
      → IsFound prefer f
      → let r = select newest prefer ss f in
        IsFound prefer r
        × Beaten newest f.version r.version
        × Best newest prefer ss r
        × ((r ≡ f) ⊎ IsOneOf r ss)
  select-IsFound true prefer [] f h = (h, omega arith, tt, inl refl)
  select-IsFound false prefer [] f h = (h, omega arith, tt, inl refl)
  select-IsFound newest prefer (s ∷ ss) f h =
      let f' = consider newest prefer f s (version_of s.id) in
      let (h', up, beats, from) = consider-IsFound newest prefer f s h in
      let (found, up', best, from') = select-IsFound newest prefer ss f' h' in
      let r = select newest prefer ss f' in
      (
        found,
        Beaten-trans newest f.version f'.version r.version up up',
        ((λ e. Beaten-trans newest (version_of s.id) f'.version r.version (beats e) up'), best),
        IsOneOf-step r f f' s ss from' from,
      )

  select_first :
      (newest prefer : Bool) (s : MemSlot) (ss : List MemSlot) (id : MemId) (version : ℕ)
      → (prefer ≡ true → s.bootable ≡ true)
      → let r =
          select newest prefer
            (s ∷ ss)
            (record { id = id; version = version; bootable = false; first = true }) in
        IsFound prefer r × Best newest prefer (s ∷ ss) r × IsOneOf r (s ∷ ss)
  unfolding consider
  select_first newest prefer s ss id version b =
      let f : Found = record {
        id = s.id;
        version = version_of s.id;
        bootable = s.bootable;
        first = false;
      } in
      let (found, up, best, from) =
        select-IsFound newest prefer ss f (record { read = refl; late = refl; boots = b }) in
      (
        found,
        ((λ _. up), best),
        elim from [ inl e ↦ inl (ap (λ t. t.id) e, ap (λ t. t.bootable) e) | inr i ↦ inr i ],
      )

  -- The images on the device do not change while the slots are read: opening a slot and reading its
  -- manifest, where both succeed, always gives the same version.
  module _ {O W : Type 0} (mem : MemoryImpl O W) (layout : Layout) (Good : W → Type 0) where
    pub record Steady : Type 0 where
      pub opens : (o : O) (id : MemId) (w : W) → Good w → Good (memory_open mem o id read_only w).2
      pub reads : (o : O) (w : W) → Good w → Good (read_firmware_manifest mem layout o w).2
      pub closes : (o : O) (w : W) → Good w → Good (memory_close mem o w).1
      pub same :
          (o : O) (id : MemId) (w : W)
          → Good w
          → let (err, o1, w1) = memory_open mem o id read_only w in
            let (err2, mt, w2) = read_firmware_manifest mem layout o1 w1 in
            is_error err ≡ false → is_error err2 ≡ false → mt.vendor.version ≡ version_of id

    ordered_loop-cons :
        (newest prefer : Bool) (s : MemSlot) (ss : List MemSlot) (f : Found) (o : O) (w : W)
        → is_slot s.id ≡ true
        → (ordered_loop mem layout newest prefer (s ∷ ss) f o w).0 ≡ pull_success
        → let (err, o1, w1) = memory_open mem o s.id read_only w in
          let (err2, mt, w2) = read_firmware_manifest mem layout o1 w1 in
          let (ignored, w3) = memory_close mem o1 w2 in
          (is_error err ≡ false)
          × (is_error err2 ≡ false)
          × (ordered_loop mem layout newest prefer (s ∷ ss) f o w
              ≡ ordered_loop mem layout newest prefer ss
                  (consider newest prefer f s mt.vendor.version)
                  o1
                  w3)
    unfolding ordered_loop
    ordered_loop-cons newest prefer s ss f o w a h = ground arith

    ordered_loop-end :
        (newest prefer : Bool) (s : MemSlot) (ss : List MemSlot) (f : Found) (o : O) (w : W)
        → is_slot s.id ≡ false
        → (ordered_loop mem layout newest prefer (s ∷ ss) f o w).1 ≡ f
    unfolding ordered_loop
    ordered_loop-end newest prefer s ss f o w a = rw a

    ordered_loop-nil :
        (newest prefer : Bool) (f : Found) (o : O) (w : W)
        → (ordered_loop mem layout newest prefer [] f o w).1 ≡ f
    unfolding ordered_loop
    ordered_loop-nil newest prefer f o w = refl

    ordered_loop_lem :
        (newest prefer : Bool) (ss : List MemSlot) (f : Found) (o : O) (w : W)
        → Steady
        → Good w
        → (ordered_loop mem layout newest prefer ss f o w).0 ≡ pull_success
        → (ordered_loop mem layout newest prefer ss f o w).1 ≡ select newest prefer (active ss) f
    ordered_loop_lem newest prefer [] f o w st g h = ordered_loop-nil newest prefer f o w
    ordered_loop_lem newest prefer (s ∷ ss) f o w st g h = elim (Bool-cases (is_slot s.id)) [
      | inl a ↦
          let (e1, e2, goes) = ordered_loop-cons newest prefer s ss f o w a h in
          let (err, o1, w1) = memory_open mem o s.id read_only w in
          let (err2, mt, w2) = read_firmware_manifest mem layout o1 w1 in
          let w3 = (memory_close mem o1 w2).1 in
          let f1 = consider newest prefer f s mt.vendor.version in
          let good = st.closes o1 w2 (st.reads o1 w1 (st.opens o s.id w g)) in
          let ih =
            ordered_loop_lem newest prefer ss f1 o1 w3 st good (ap (λ t. t.0) (sym goes) ∙ h) in
          rw a (
            ap (λ t. t.1) goes
            ∙ (ih
                ∙ ap (λ v. select newest prefer (active ss) (consider newest prefer f s v))
                    (st.same o s.id w g e1 e2)))
      | inr a ↦ rw a (ordered_loop-end newest prefer s ss f o w a)
    ]

    -- If `get_ordered_firmware` returns success and the device has a slot, then what it has found is
    -- one of the slots, with the version of its image; no image in a slot that may be chosen is newer
    -- (or, when the oldest is asked for, older). Where a bootable slot is preferred, the first slot is
    -- assumed to be bootable, the slots that may be chosen are the bootable ones, and so is the slot
    -- found; where none is preferred, all the slots may be chosen.
    pub get_ordered_firmware_lem :
        (newest prefer : Bool) (first : MemSlot) (slots : List MemSlot) (id : MemId) (version : ℕ)
        (o : O) (w : W)
        → Steady
        → Good w
        → is_slot first.id ≡ true
        → (prefer ≡ true → first.bootable ≡ true)
        → let (err, r, o', w') =
            get_ordered_firmware mem layout (first ∷ slots) id version newest prefer o w in
          err ≡ pull_success
          → IsFound prefer r
            × Best newest prefer (first ∷ active slots) r
            × IsOneOf r (first ∷ active slots)
    unfolding get_ordered_firmware
    get_ordered_firmware_lem newest prefer first slots id version o w st g a b h =
        let f0 : Found = record { id = id; version = version; bootable = false; first = true } in
        subst
          (λ r.
            IsFound prefer r
            × Best newest prefer (first ∷ active slots) r
            × IsOneOf r (first ∷ active slots))
          (sym (
            ordered_loop_lem newest prefer (first ∷ slots) f0 o w st g h
            ∙ ap (λ ss. select newest prefer ss f0)
                (let e : active (first ∷ slots) ≡ first ∷ active slots = rw a in e)))
          (select_first newest prefer first (active slots) id version b)
