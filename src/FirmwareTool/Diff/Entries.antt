-- ===== src/FirmwareTool/Diff/Entries.antt =====
-- utils/firmware_tool/commands/pipeline.cpp: the blocks that bsdiff writes make the new file out of the old
-- one.
use upkit.Prelude.{
  ℕ, zero, suc, ◌+◌, ◌-◌, ◌<◌, ◌≤◌, ◌≡◌, ◌≢◌, refl, sym, ap, ap₂, subst, subst₂, ◌∙◌, List, [], ◌∷◌,
  ◌++◌, append_assoc, append-nil, Option, some, pos, sub_ℕ, ◌+ℤ◌, not, ◌||◌, ◌==◌, Bool,
  if◌then◌else◌, ltb, length, slice, slice-append, length-slice, arith, false, Bool-cases, ltb→lt,
  inl, inr,
}
use upkit.FirmwareTool.Diff.{
  Score, Scan, scan_loop, block_ends, divide, write_block, after_scan, diff_round, bsdiff_loop,
  first_scan, bsdiff_internal,
}
use upkit.FirmwareTool.Diff.Bounds.{Fits, block_ends-Apart, divide-Fits}
use upkit.FirmwareTool.Diff.Progress.{Stopped, scan_loop-Stopped}
use upkit.FirmwareTool.Diff.Blocks.{
  byte_of, AreBytes, entry_of, write_block-encode, length-diff_bytes, sums-diff_bytes, add-sub_ℕ,
  magnitude-sub_ℕ,
}
use upkit.Pipeline.Bspatch.Format.{
  Entry, encode, encode_all, size_of, behind, patched, InRange, InOld,
}

second_false : (a : Bool) (m n : ℕ) → (a || (m == n)) ≡ false → m ≢ n
second_false a m n h = ground arith

not_ltb : (a b : ℕ) → ltb a b ≡ false → b ≤ a
not_ltb a b h = ground arith

slice_cons :
    (x : ℕ) (xs : List ℕ) (p n : ℕ) → slice (byte_of (x ∷ xs)) (suc p) n ≡ slice (byte_of xs) p n
slice_cons x xs p zero = refl
slice_cons x xs p (suc n) =
    let e : suc p + 1 ≡ suc (p + 1) = omega arith in
    ap (λ t. byte_of xs p ∷ t) (rw e (slice_cons x xs (p + 1) n))

slice_all : (xs : List ℕ) → slice (byte_of xs) 0 (length xs) ≡ xs
slice_all [] = refl
slice_all (x ∷ xs) = ap (λ t. x ∷ t) (slice_cons x xs 0 (length xs) ∙ slice_all xs)

slice_whole : (xs : List ℕ) → slice (byte_of xs) 0 (length xs - 0) ≡ xs
slice_whole xs = let e : length xs - 0 ≡ length xs = omega arith in rw e (slice_all xs)

slice_join :
    (f : ℕ → ℕ) (a n x c m k : ℕ)
    → a + n + x ≡ c
    → k ≡ n + (x + m)
    → slice f a n ++ (slice f (a + n) x ++ slice f c m) ≡ slice f a k
slice_join f a n x c m k e h = sym (
    slice-append f a n (x + m) k h
    ∙ ap (λ t. slice f a n ++ t)
        (slice-append f (a + n) x m (x + m) refl ∙ ap (λ q. slice f (a + n) x ++ slice f q m) e))

module _ (I : ℕ → ℕ) (old new : List ℕ) (old_bytes : AreBytes old) (new_bytes : AreBytes new)
    (small_old : length old < 2147483648) (small_new : length new < 2147483648) where
  -- From a state on, the output goes on with blocks that make the rest of the new file.
  record Done (output : List ℕ) (s : Scan) (o : Option (List ℕ)) : Type 0 where
    entries : List Entry
    written : o ≡ some (output ++ encode_all entries)
    in_range : InRange (length old) (pos s.lastpos) entries
    in_old : InOld (length old) (pos s.lastpos) entries
    size : size_of entries + s.lastscan ≡ length new
    makes :
        patched (byte_of old) (pos s.lastpos) entries
        ≡ slice (byte_of new) s.lastscan (length new - s.lastscan)

  behind_block :
      (s : Scan) (lenf lenb : ℕ)
      → behind (pos s.lastpos) (entry_of old new old_bytes new_bytes s lenf lenb)
        ≡ pos (s.pos_old - lenb)
  behind_block s lenf lenb =
      ap (λ n. pos (s.lastpos + n) +ℤ sub_ℕ (s.pos_old - lenb) (s.lastpos + lenf))
        (length-diff_bytes old new old_bytes new_bytes lenf s.lastscan s.lastpos)
      ∙ add-sub_ℕ (s.lastpos + lenf) (s.pos_old - lenb)

  -- A block in front of what follows it.
  block_step :
      (s s' : Scan) (lenf lenb : ℕ) (output : List ℕ) (o : Option (List ℕ))
      → Fits old new s lenf lenb
      → s.lastpos ≤ length old
      → s.pos_old ≤ length old
      → s.scan ≤ length new
      → s.lastscan < length new
      → s'.lastscan ≡ s.scan - lenb
      → s'.lastpos ≡ s.pos_old - lenb
      → Done (output ++ encode (entry_of old new old_bytes new_bytes s lenf lenb)) s' o
      → Done output s o
  block_step s s' lenf lenb output o f p q l more e1 e2 d =
      let e : Entry = entry_of old new old_bytes new_bytes s lenf lenb in
      let x = s.scan - lenb - (s.lastscan + lenf) in
      let n0 : length e.diff ≡ lenf =
        length-diff_bytes old new old_bytes new_bytes lenf s.lastscan s.lastpos in
      let n1 : length e.extra ≡ x = length-slice (byte_of new) (s.lastscan + lenf) x in
      let b : behind (pos s.lastpos) e ≡ pos s'.lastpos =
        behind_block s lenf lenb ∙ ap pos (sym e2) in
      let total : size_of (e ∷ d.entries) + s.lastscan ≡ length new =
        omega (arith, n0, n1, d.size, e1, f.front, f.back) in
      record {
        entries = e ∷ d.entries;
        written = d.written ∙ ap some (append_assoc output (encode e) (encode_all d.entries));
        in_range = (
          λ k h. omega (arith, f.front_old),
          magnitude-sub_ℕ (s.pos_old - lenb) (s.lastpos + lenf) 2147483648 (omega arith)
              (omega (arith, f.front_old)),
          omega (arith, total),
          subst (λ z. InRange (length old) z d.entries) (sym b) d.in_range,
        );
        in_old = (
          s.lastpos,
          refl,
          omega (arith, n0, f.front_old),
          subst (λ z. InOld (length old) z d.entries) (sym b) d.in_old,
        );
        size = total;
        makes =
            ap₂ (λ u v. u ++ (e.extra ++ v))
              (sums-diff_bytes old new old_bytes new_bytes lenf s.lastscan s.lastpos s.lastpos 0
                (omega arith) (omega (arith, f.front_old)))
              (ap (λ z. patched (byte_of old) z d.entries) b ∙ d.makes)
            ∙ slice_join (byte_of new) s.lastscan lenf x s'.lastscan (length new - s'.lastscan) _
                (omega (arith, e1, f.front)) (omega (arith, e1, f.front, f.back));
      }

  rebase :
      (s s' : Scan) (output : List ℕ) (o : Option (List ℕ))
      → s'.lastscan ≡ s.lastscan
      → s'.lastpos ≡ s.lastpos
      → Done output s' o
      → Done output s o
  rebase s s' output o e f d = record {
    entries = d.entries;
    written = d.written;
    in_range = subst (λ q. InRange (length old) (pos q) d.entries) f d.in_range;
    in_old = subst (λ q. InOld (length old) (pos q) d.entries) f d.in_old;
    size = ap (λ q. size_of d.entries + q) (sym e) ∙ d.size;
    makes =
        subst₂
          (λ u v. patched (byte_of old) (pos u) d.entries ≡ slice (byte_of new) v (length new - v))
          f e d.makes;
  }

  -- The state between two rounds.
  record Between (s : Scan) : Type 0 where
    bound : s.scan ≤ length new
    last : s.lastscan ≤ s.scan
    fits : s.scan < length new → s.scan + s.len ≤ length new
    lastpos : s.lastpos ≤ length old
    pos_old : s.pos_old ≤ length old
    over : length new ≤ s.scan → s.lastscan ≡ length new

  -- After a round: the state, and what it has put in front.
  record Rounded (s : Scan) (output : List ℕ) (r : Scan × List ℕ) : Type 0 where
    between : Between r.0
    progress : r.0.scan < length new → s.scan + s.len < r.0.scan + r.0.len
    front : (o : Option (List ℕ)) → Done r.1 r.0 o → Done output s o

  skipped :
      (s s' : Scan) (output : List ℕ)
      → Stopped (length old) new (record s { scan = s.scan + s.len }) s'
      → Between s
      → s.scan < length new
      → s'.scan < length new
      → Rounded s output (s', output)
  skipped s s' output st b more on = record {
    between = record {
      bound = st.bound;
      last = omega (arith, st.lastscan, st.up, b.last);
      fits = st.fits;
      lastpos = omega (arith, st.lastpos, b.lastpos);
      pos_old = st.pos_old;
      over = λ h. absurd (omega arith);
    };
    progress = λ h. omega (arith, st.more h, st.up);
    front = λ o d. rebase s s' output o st.lastscan st.lastpos d;
  }

  written :
      (s s' : Scan) (lenf lenb : ℕ) (output : List ℕ)
      → Stopped (length old) new (record s { scan = s.scan + s.len }) s'
      → Between s
      → s.scan < length new
      → Fits old new s' lenf lenb
      → Rounded s output (write_block I old new s' lenf lenb output)
  unfolding write_block
  written s s' lenf lenb output st b more f =
      let s1 = (write_block I old new s' lenf lenb output).0 in
      record {
        between = record {
          bound = st.bound;
          last = omega arith;
          fits = st.fits;
          lastpos = omega (arith, st.pos_old);
          pos_old = st.pos_old;
          over = λ h. omega (arith, st.bound, f.at_end h);
        };
        progress = λ h. omega (arith, st.more h, st.up);
        front = λ o d. rebase s s' output o st.lastscan st.lastpos (
            block_step s' s1 lenf lenb output o f (omega (arith, st.lastpos, b.lastpos)) st.pos_old
              st.bound (omega (arith, st.lastscan, b.last)) refl refl
              (subst (λ t. Done t s1 o)
                (write_block-encode old new old_bytes new_bytes I s' lenf lenb output f) d));
      }

  after_scan-Rounded :
      (s s' : Scan) (sc : Score) (output : List ℕ)
      → Stopped (length old) new (record s { scan = s.scan + s.len }) s'
      → Between s
      → s.scan < length new
      → Rounded s output (after_scan I old new (s', sc) output)
  unfolding after_scan
  after_scan-Rounded s s' sc output st b more =
      let (f0, b0) = block_ends old new s' in
      let d = divide old new s' f0 b0 in
      let fit =
        divide-Fits old new s' f0 b0
          (block_ends-Apart old new s' (omega (arith, st.lastscan, st.up, b.last))) in
      elim (Bool-cases (not (s'.len + sc.down == sc.up) || (s'.scan == length new))) [
        | inl e ↦
            subst
              (λ t.
                Rounded s output
                  (if t then write_block I old new s' d.0 d.1 output else (s', output)))
              (sym e) (written s s' d.0 d.1 output st b more fit)
        | inr e ↦
            subst
              (λ t.
                Rounded s output
                  (if t then write_block I old new s' d.0 d.1 output else (s', output)))
              (sym e)
              (skipped s s' output st b more (
                omega (
                  arith,
                  st.bound,
                  second_false (not (s'.len + sc.down == sc.up)) s'.scan (length new) e,
                )))
      ]

  diff_round-Rounded :
      (within : (x : ℕ) → x ≤ length old → I x ≤ length old) (s : Scan) (output : List ℕ)
      → Between s
      → s.scan < length new
      → Rounded s output (diff_round I old new s output)
  unfolding diff_round
  diff_round-Rounded within s output b more =
      let s0 : Scan = record s { scan = s.scan + s.len } in
      let z : Score = record { up = 0; down = 0 } in
      let r = scan_loop I old new (length new - s0.scan) s0 s0.scan z in
      after_scan-Rounded s r.0 r.1 output
        (scan_loop-Stopped I old new (length old) within (length new - s0.scan) s0 s0.scan z
          (omega (arith, b.fits more)) (omega arith) b.pos_old refl)
        b more

  bsdiff_loop-Done :
      (within : (x : ℕ) → x ≤ length old → I x ≤ length old) (fuel : ℕ) (s : Scan) (output : List ℕ)
      → Between s
      → 1 ≤ fuel
      → (s.scan < length new → length new + 1 < fuel + (s.scan + s.len))
      → Done output s (bsdiff_loop I old new fuel s output)
  unfolding bsdiff_loop
  bsdiff_loop-Done within zero s output b h k = absurd (omega arith)
  bsdiff_loop-Done within (suc fuel) s output b h k =
      let r = diff_round I old new s output in
      let rest = bsdiff_loop I old new fuel r.0 r.1 in
      elim (Bool-cases (ltb s.scan (length new))) [
        | inl e ↦
            let more : s.scan < length new = ltb→lt _ _ e in
            let d = diff_round-Rounded within s output b more in
            subst (λ t. Done output s (if t then rest else some output)) (sym e)
              (d.front rest (
                bsdiff_loop-Done within fuel r.0 r.1 d.between (omega (arith, k more, b.fits more))
                  (λ l. omega (arith, k more, d.progress l))))
        | inr e ↦
            let over : s.lastscan ≡ length new = b.over (not_ltb _ _ e) in
            subst (λ t. Done output s (if t then rest else some output)) (sym e)
              (record {
                entries = [];
                written = ap some (sym (append-nil output));
                in_range = tt;
                in_old = tt;
                size = omega (arith, over);
                makes = let z : length new - s.lastscan ≡ 0 = omega arith in rw z refl;
              })
      ]

  -- What is put behind the output are blocks of the format, which make the new file out of the old one.
  pub record Patches (output : List ℕ) (o : Option (List ℕ)) : Type 0 where
    pub entries : List Entry
    pub written : o ≡ some (output ++ encode_all entries)
    pub in_range : InRange (length old) (pos 0) entries
    pub in_old : InOld (length old) (pos 0) entries
    pub size : size_of entries ≡ length new
    pub makes : patched (byte_of old) (pos 0) entries ≡ new

  pub bsdiff_internal-Patches :
      ((x : ℕ) → x ≤ length old → I x ≤ length old)
      → (output : List ℕ) → Patches output (bsdiff_internal I old new output)
  unfolding bsdiff_internal
  bsdiff_internal-Patches within output =
      let d =
        bsdiff_loop-Done within (length new + 2) (first_scan I old new) output
          (record {
            bound = omega arith;
            last = omega arith;
            fits = λ h. omega arith;
            lastpos = omega arith;
            pos_old = omega arith;
            over = λ h. omega arith;
          })
          (omega arith) (λ h. omega arith) in
      record {
        entries = d.entries;
        written = d.written;
        in_range = d.in_range;
        in_old = d.in_old;
        size = omega (arith, d.size);
        makes = d.makes ∙ slice_whole new;
      }
