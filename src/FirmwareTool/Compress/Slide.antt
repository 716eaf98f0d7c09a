-- ===== src/FirmwareTool/Compress/Slide.antt =====
-- utils/firmware_tool/commands/pipeline.cpp: the move of the buffer's second half to the first.
use native.Mathlib.Nat.{add-zero}
use upkit.Prelude.{
  ℕ, zero, suc, ◌+◌, ◌-◌, ◌%◌, ◌<◌, ◌≤◌, ◌≡◌, refl, sym, ap, ap₂, subst, ◌∙◌, List, [], ◌∷◌, ◌++◌,
  inl, inr, if◌then◌else◌, leb, get_or, length, drop, length-drop, memcpy, length-memcpy, arith,
  Bool-cases, slice,
}
use upkit.FirmwareTool.Compress.{Encoder, refill, slide}
use upkit.FirmwareTool.Compress.Refill.{Ready, Ready-refill}
use upkit.FirmwareTool.Compress.Sliding.{bytes_at, Trailing}
use upkit.Pipeline.Lzss.Tokens.{Window}

slice_shift :
    (f g : ℕ → ℕ) (p q n : ℕ)
    → ((k : ℕ) → k < n → f (p + k) ≡ g (q + k))
    → slice f p n ≡ slice g q n
slice_shift f g p q zero h = refl
slice_shift f g p q (suc n) h =
    ap₂ (λ a l. a ∷ l) (rw (sym (add-zero p), sym (add-zero q)) (h 0 (omega arith)))
      (slice_shift f g (p + 1) (q + 1) n (λ k l.
        let e1 : p + 1 + k ≡ p + suc k = omega arith in
        let e2 : q + 1 + k ≡ q + suc k = omega arith in rw (e1, e2) (h (suc k) (omega arith))))

get_or-drop : (n : ℕ) (xs : List ℕ) (q : ℕ) → get_or (drop n xs) q 0 ≡ get_or xs (q + n) 0
get_or-drop zero xs q = rw (add-zero q) refl
get_or-drop (suc n) [] q = refl
get_or-drop (suc n) (x ∷ xs) q =
    let e : q + suc n ≡ suc (q + n) = omega arith in rw e (get_or-drop n xs q)

get_or-append : (xs ys : List ℕ) (q : ℕ) → q < length xs → get_or (xs ++ ys) q 0 ≡ get_or xs q 0
get_or-append [] ys q h = absurd (omega arith)
get_or-append (x ∷ xs) ys zero h = refl
get_or-append (x ∷ xs) ys (suc q) h = get_or-append xs ys q (omega arith)

-- The encoder after the move, before the reads.
abbrev halved : Encoder → Encoder
halved e = record e {
  buffer = memcpy e.buffer 0 (drop 1024 e.buffer);
  bufferend = e.bufferend - 1024;
  r = e.r - 1024;
  s = e.s - 1024;
}

module _ {rest : List ℕ} {w : Window} (e : Encoder) (h : Ready rest w e) where
  halved_byte : (q : ℕ) → q < 1024 → get_or (halved e).buffer q 0 ≡ get_or e.buffer (q + 1024) 0
  halved_byte q l =
      get_or-append (drop 1024 e.buffer) _ q (omega (arith, h.room, length-drop 1024 e.buffer))
      ∙ get_or-drop 1024 e.buffer q

  halved-Trailing : 2031 ≤ e.r → Trailing (halved e).buffer (halved e).s (halved e).r w
  halved-Trailing l = record {
    same = λ q a b.
        halved_byte q (omega (arith, h.order, h.bound))
        ∙ (h.trailing.same (q + 1024) (omega (arith, h.trailing.size)) (omega arith)
            ∙ (let m : (q + 1024) % 1024 ≡ q % 1024 = omega arith in ap w.at m));
    here = omega (arith, h.trailing.here);
    size = omega (arith, h.trailing.size);
  }

  halved_text :
      2031 ≤ e.r
      → slice (bytes_at (halved e).buffer) (halved e).r ((halved e).bufferend - (halved e).r)
          ++ e.input
        ≡ rest
  halved_text l =
      let m : e.bufferend - 1024 - (e.r - 1024) ≡ e.bufferend - e.r = omega arith in
      rw m (
        ap (λ t. t ++ e.input)
          (slice_shift (bytes_at (halved e).buffer) (bytes_at e.buffer) (e.r - 1024) e.r
            (e.bufferend - e.r)
            (λ k b.
              let p : e.r - 1024 + k + 1024 ≡ e.r + k = omega arith in
              halved_byte (e.r - 1024 + k) (omega (arith, h.order, h.bound)) ∙ rw p refl))
        ∙ h.text)

  halved_room : length (halved e).buffer ≡ 2048
  halved_room =
      length-memcpy e.buffer 0 (drop 1024 e.buffer) (omega (arith, length-drop 1024 e.buffer))
      ∙ h.room

  pub slide-Ready :
      e.r < 2048 → Ready rest w (slide e) × ((slide e).r < 2031) × ((slide e).bit_out ≡ e.bit_out)
  unfolding slide refill
  slide-Ready l = elim (Bool-cases (leb 2031 e.r)) [
    | inl p ↦
        subst
          (λ t.
            let e' = (if t then refill (halved e) else e) in
            Ready rest w e' × (e'.r < 2031) × (e'.bit_out ≡ e.bit_out))
          (sym p)
          (
            Ready-refill rest w (halved e) halved_room (omega (arith, h.order))
                (omega (arith, h.bound)) (halved_text (ground arith))
                (halved-Trailing (ground arith)) (inl h.counted),
            omega (arith, h.order, h.bound),
            refl,
          )
    | inr p ↦
        subst
          (λ t.
            let e' = (if t then refill (halved e) else e) in
            Ready rest w e' × (e'.r < 2031) × (e'.bit_out ≡ e.bit_out))
          (sym p) (h, ground arith, refl)
  ]
