-- ===== src/FirmwareTool/Compress/Refill.antt =====
-- utils/firmware_tool/commands/pipeline.cpp: the reads of the LZSS encoder into its buffer, and the move
-- of the buffer's second half to the first.
use native.Mathlib.Nat.{add-zero}
use upkit.Prelude.{
  ℕ, zero, suc, ◌+◌, ◌-◌, ◌<◌, ◌≤◌, ◌≡◌, refl, sym, ap, ap₂, subst, ◌∙◌, List, [], ◌∷◌, ◌++◌,
  append_assoc, ◌⊎◌, inl, inr, if◌then◌else◌, ltb, get_or, set, get_or-set, length-set, length,
  arith, Bool-cases, slice, slice-append,
}
use upkit.FirmwareTool.Compress.{Encoder, read_in, refill}
use upkit.FirmwareTool.Compress.Sliding.{bytes_at, Trailing}
use upkit.Pipeline.Lzss.Tokens.{Window}

slice_ext :
    (f g : ℕ → ℕ) (p n : ℕ) → ((k : ℕ) → k < n → f (p + k) ≡ g (p + k)) → slice f p n ≡ slice g p n
slice_ext f g p zero h = refl
slice_ext f g p (suc n) h =
    ap₂ (λ a l. a ∷ l) (rw (sym (add-zero p)) (h 0 (omega arith)))
      (slice_ext f g (p + 1) n
        (λ k l. let e : p + 1 + k ≡ p + suc k = omega arith in rw e (h (suc k) (omega arith))))

-- What the reads from `e` on leave: the array, its end, and the rest of the file.
record Read (buffer : List ℕ) (e : ℕ) (cs : List ℕ) (b : List ℕ) (e' : ℕ) (i : List ℕ)
    : Type 0 where
  room : length b ≡ length buffer
  up : e ≤ e'
  bound : e' ≤ 2048
  full : (e' ≡ 2048) ⊎ (i ≡ [])
  old : (q : ℕ) → q < e → get_or b q 0 ≡ get_or buffer q 0
  new : slice (bytes_at b) e (e' - e) ++ i ≡ cs
  some_read : (e < 2048) → 0 < length cs → e < e'

read_in_lem :
    (cs buffer : List ℕ) (e : ℕ)
    → length buffer ≡ 2048
    → e ≤ 2048
    → let (b, e', i) = read_in buffer e cs in Read buffer e cs b e' i
unfolding read_in
read_in_lem [] buffer e h k = record {
  room = refl;
  up = omega arith;
  bound = k;
  full = inr refl;
  old = λ q l. refl;
  new = let z : e - e ≡ 0 = omega arith in rw z refl;
  some_read = λ l m. absurd (omega arith);
}
read_in_lem (c ∷ cs) buffer e h k = elim (Bool-cases (ltb e 2048)) [
  | inl p ↦
      let rest = read_in (set buffer e c) (e + 1) cs in
      let ih = read_in_lem cs (set buffer e c) (e + 1) (length-set buffer e c ∙ h) (ground arith) in
      subst
        (λ t.
          let (b, e', i) = (if t then rest else (buffer, e, c ∷ cs)) in
          Read buffer e (c ∷ cs) b e' i)
        (sym p)
        (record {
          room = ih.room ∙ length-set buffer e c;
          up = omega (arith, ih.up);
          bound = ih.bound;
          full = ih.full;
          old = λ q l. ih.old q (omega arith) ∙ ground (arith, get_or-set buffer e q c 0);
          new =
              let m : rest.1 - e ≡ suc (rest.1 - (e + 1)) = omega (arith, ih.up) in
              let first : get_or rest.0 e 0 ≡ c =
                ih.old e (omega arith) ∙ ground (arith, get_or-set buffer e e c 0) in
              rw m (ap₂ (λ a l. a ∷ l) first ih.new);
          some_read = λ l m. omega (arith, ih.up);
        })
  | inr p ↦
      let rest = read_in (set buffer e c) (e + 1) cs in
      let z : e - e ≡ 0 = omega arith in
      subst
        (λ t.
          let (b, e', i) = (if t then rest else (buffer, e, c ∷ cs)) in
          Read buffer e (c ∷ cs) b e' i)
        (sym p)
        (record {
          room = refl;
          up = omega arith;
          bound = k;
          full = inl (ground arith);
          old = λ q l. refl;
          new = rw z refl;
          some_read = λ l m. absurd (ground arith);
        })
]

-- A refill adds to the end of what is in the buffer.
record Refilled (e e' : Encoder) : Type 0 where
  room : length e'.buffer ≡ 2048
  up : e.bufferend ≤ e'.bufferend
  bound : e'.bufferend ≤ 2048
  full : (e'.bufferend ≡ 2048) ⊎ (e'.input ≡ [])
  old : (q : ℕ) → q < e.bufferend → get_or e'.buffer q 0 ≡ get_or e.buffer q 0
  text :
      slice (bytes_at e'.buffer) e.r (e'.bufferend - e.r) ++ e'.input
      ≡ slice (bytes_at e.buffer) e.r (e.bufferend - e.r) ++ e.input
  some_read : e.bufferend < 2048 → 0 < length e.input → e.bufferend < e'.bufferend

refill_lem :
    (e : Encoder)
    → length e.buffer ≡ 2048
    → e.r ≤ e.bufferend
    → e.bufferend ≤ 2048
    → Refilled e (refill e)
unfolding refill
refill_lem e h k l =
    let got = read_in_lem e.input e.buffer e.bufferend h l in
    let (b, end, i) = read_in e.buffer e.bufferend e.input in
    let split =
      slice-append (bytes_at b) e.r (e.bufferend - e.r) (end - e.bufferend) (end - e.r)
        (omega (arith, got.up)) in
    let mid : e.r + (e.bufferend - e.r) ≡ e.bufferend = omega arith in
    let same =
      slice_ext (bytes_at b) (bytes_at e.buffer) e.r (e.bufferend - e.r)
        (λ n m. got.old (e.r + n) (omega arith)) in
    record {
      room = got.room ∙ h;
      up = got.up;
      bound = got.bound;
      full = got.full;
      old = got.old;
      text =
          ap (λ t. t ++ i)
            (split ∙ ap₂ (λ x (y : ℕ). x ++ slice (bytes_at b) y (end - e.bufferend)) same mid)
          ∙ (append_assoc (slice (bytes_at e.buffer) e.r (e.bufferend - e.r)) _ i
              ∙ ap (λ t. slice (bytes_at e.buffer) e.r (e.bufferend - e.r) ++ t) got.new);
      some_read = got.some_read;
    }

Trailing-old :
    (b b' : List ℕ) (s r : ℕ) (w : Window)
    → ((q : ℕ) → q < r → get_or b' q 0 ≡ get_or b q 0)
    → Trailing b s r w
    → Trailing b' s r w
Trailing-old b b' s r w h t = record {
  same = λ q a c. h q c ∙ t.same q a c;
  here = t.here;
  size = t.size;
}

-- What holds behind the move, or without it, before the next round.
pub record Ready (rest : List ℕ) (w : Window) (e : Encoder) : Type 0 where
  pub room : length e.buffer ≡ 2048
  pub order : e.r ≤ e.bufferend
  pub bound : e.bufferend ≤ 2048
  pub full : (e.bufferend ≡ 2048) ⊎ (e.input ≡ [])
  pub text : slice (bytes_at e.buffer) e.r (e.bufferend - e.r) ++ e.input ≡ rest
  pub trailing : Trailing e.buffer e.s e.r w
  pub counted : 0 < e.textcount

pub Ready-refill :
    (rest : List ℕ) (w : Window) (e : Encoder)
    → length e.buffer ≡ 2048
    → e.r ≤ e.bufferend
    → e.bufferend ≤ 2048
    → slice (bytes_at e.buffer) e.r (e.bufferend - e.r) ++ e.input ≡ rest
    → Trailing e.buffer e.s e.r w
    → (0 < e.textcount) ⊎ ((e.bufferend < 2048) × (0 < length e.input))
    → Ready rest w (refill e)
unfolding refill
Ready-refill rest w e h k l text t counted =
    let f = refill_lem e h k l in
    record {
      room = f.room;
      order = omega (arith, f.up);
      bound = f.bound;
      full = f.full;
      text = f.text ∙ text;
      trailing = Trailing-old e.buffer (refill e).buffer e.s e.r w (λ q c. f.old q (omega arith)) t;
      counted = elim counted [
        | inl c ↦ omega (arith, c)
        | inr c ↦ omega (arith, f.some_read c.0 c.1)
      ];
    }
