-- ===== src/FirmwareTool/Diff/Progress.antt =====
-- utils/firmware_tool/commands/pipeline.cpp: that the scan of bsdiff goes on.
use upkit.Prelude.{
  ℕ, zero, suc, ◌+◌, ◌-◌, ◌/◌, ◌<◌, ◌≤◌, ◌≡◌, refl, sym, subst, true, false, List, [], ◌∷◌, ℤ,
  if◌then◌else◌, length, drop, length-drop, arith, Bool-cases, inl, inr, Bool,
}
use upkit.FirmwareTool.Search.{matchlen, closer, search}
use upkit.FirmwareTool.Diff.{Score, Scan, is_break, same_at, count_same, scan_loop}

matchlen_le : (xs ys : List ℕ) → matchlen xs ys ≤ length ys
unfolding matchlen
matchlen_le [] ys = omega arith
matchlen_le (x ∷ xs) [] = omega arith
matchlen_le (x ∷ xs) (y ∷ ys) = ground (arith, matchlen_le xs ys)

-- A match is not longer than the text, and starts at an entry of the sorted suffixes.
abbrev Matched : (ℕ → ℕ) → List ℕ → ℕ → ℕ × ℕ → Type 0
Matched I new m r = (r.0 ≤ length new) × (r.1 ≤ m)

module _ (I : ℕ → ℕ) (old : List ℕ) (m : ℕ) (within : (x : ℕ) → x ≤ length old → I x ≤ m) where
  choose :
      (b : Bool) (new : List ℕ) (p q : ℕ × ℕ)
      → Matched I new m p
      → Matched I new m q
      → Matched I new m (if b then p else q)
  choose true new p q h k = h
  choose false new p q h k = k

  closer-Matched :
      (new : List ℕ) (st en : ℕ)
      → st ≤ length old
      → en ≤ length old
      → Matched I new m (closer I old new st en)
  unfolding closer
  closer-Matched new st en a b =
      choose _ new _ _ (matchlen_le (drop (I st) old) new, within st a)
        (matchlen_le (drop (I en) old) new, within en b)

  search-Matched :
      (fuel : ℕ) (new : List ℕ) (st en : ℕ)
      → st ≤ length old
      → en ≤ length old
      → Matched I new m (search I old fuel new st en)
  unfolding search
  search-Matched zero new st en a b = closer-Matched new st en a b
  search-Matched (suc fuel) new st en a b =
      let mid : st + (en - st) / 2 ≤ length old = omega arith in
      choose _ new _ _ (closer-Matched new st en a b) (
        choose _ new _ _ (search-Matched fuel new (st + (en - st) / 2) en mid b)
          (search-Matched fuel new st (st + (en - st) / 2) a mid))

breaks : (len : ℕ) (sc : Score) → sc.down ≤ sc.up → is_break len sc ≡ true → 0 < len
unfolding is_break
breaks zero sc h e = ground arith
breaks (suc len) sc h e = omega arith

module _ (old new : List ℕ) (off : ℤ) where
  -- How many of the bytes before `k` are the same at the last offset.
  abbrev pub same_before : ℕ → ℕ
  same_before zero = 0
  same_before (suc k) = same_before k + (if same_at old new off k then 1 else 0)

  same_before-next :
      (k : ℕ) → same_before (k + 1) ≡ same_before k + (if same_at old new off k then 1 else 0)
  same_before-next k = let e : k + 1 ≡ suc k = omega arith in rw e refl

  same_before_mono : (k n : ℕ) → same_before k ≤ same_before (n + k)
  same_before_mono k zero = let e : 0 + k ≡ k = omega arith in rw e (omega arith)
  same_before_mono k (suc n) =
      let e : suc n + k ≡ suc (n + k) = omega arith in rw e (omega (arith, same_before_mono k n))

  -- `oldscore` is the number of same bytes from `scan` on and before `scsc`.
  abbrev pub Counts : ℕ → ℕ → Score → Type 0
  Counts scan scsc sc = sc.up + same_before scan ≡ sc.down + same_before scsc

  count_same-Counts :
      (n scan scsc : ℕ) (sc : Score)
      → Counts scan scsc sc
      → let (scsc', sc') = count_same old new n off scsc sc in
        (scsc' ≡ scsc + n) × Counts scan scsc' sc'
  unfolding count_same
  count_same-Counts zero scan scsc sc h = (omega arith, h)
  count_same-Counts (suc n) scan scsc sc h =
      let (a, b) =
        count_same-Counts n scan (scsc + 1)
          (record sc { up = sc.up + (if same_at old new off scsc then 1 else 0) })
          (omega (arith, h, same_before-next scsc)) in
      (omega (arith, a), b)

  -- With `scsc` not before `scan` the score is not negative, so that the loop breaks only at a match.
  break_progress :
      (scan scsc len : ℕ) (sc : Score)
      → Counts scan scsc sc
      → scan ≤ scsc
      → is_break len sc ≡ true
      → 0 < len
  unfolding is_break
  break_progress scan scsc len sc h k e =
      let mono : same_before scan ≤ same_before scsc =
        (let q : scsc - scan + scan ≡ scsc = omega arith in
          subst (λ t. same_before scan ≤ same_before t) q (same_before_mono scan (scsc - scan))) in
      let up : sc.down ≤ sc.up = omega (arith, h, mono) in breaks len sc up e

-- Where the scan has stopped: at the end, or at a match to which it will go on.
pub record Stopped (m : ℕ) (new : List ℕ) (s s' : Scan) : Type 0 where
  pub lastscan : s'.lastscan ≡ s.lastscan
  pub lastpos : s'.lastpos ≡ s.lastpos
  pub up : s.scan ≤ s'.scan
  pub bound : s'.scan ≤ length new
  pub more : s'.scan < length new → 0 < s'.len
  pub fits : s'.scan < length new → s'.scan + s'.len ≤ length new
  pub pos_old : s'.pos_old ≤ m

module _ (I : ℕ → ℕ) (old new : List ℕ) (m : ℕ) (within : (x : ℕ) → x ≤ length old → I x ≤ m) where
  pub scan_loop-Stopped :
      (n : ℕ) (s : Scan) (scsc : ℕ) (sc : Score)
      → s.scan + n ≡ length new
      → s.scan ≤ scsc + 1
      → s.pos_old ≤ m
      → Counts old new s.lastoffset s.scan scsc sc
      → Stopped m new s (scan_loop I old new n s scsc sc).0
  unfolding scan_loop
  scan_loop-Stopped zero s scsc sc h k p c = record {
    lastscan = refl;
    lastpos = refl;
    up = omega arith;
    bound = omega arith;
    more = λ l. absurd (omega arith);
    fits = λ l. absurd (omega arith);
    pos_old = p;
  }
  scan_loop-Stopped (suc n) s scsc sc h k p c =
      let f = search I old (length old) (drop s.scan new) 0 (length old) in
      let found =
        search-Matched I old m within (length old) (drop s.scan new) 0 (length old) (omega arith)
          (omega arith) in
      let s1 : Scan = record s { len = f.0; pos_old = f.1 } in
      let r = count_same old new (s.scan + f.0 - scsc) s.lastoffset scsc sc in
      let (at, counts) =
        count_same-Counts old new s.lastoffset (s.scan + f.0 - scsc) s.scan scsc sc c in
      let score2 : Score = record r.1 {
        down = r.1.down + (if same_at old new s.lastoffset s.scan then 1 else 0);
      } in
      let rest = scan_loop I old new n (record s1 { scan = s.scan + 1 }) r.0 score2 in
      let ih =
        scan_loop-Stopped n (record s1 { scan = s.scan + 1 }) r.0 score2 (omega arith)
          (omega (arith, at)) found.1
          (omega (arith, counts, same_before-next old new s.lastoffset s.scan)) in
      elim (Bool-cases (is_break f.0 r.1)) [
        | inl e ↦
            subst
              (λ b. let t : Scan × Score = (if b then (s1, r.1) else rest) in Stopped m new s t.0)
              (sym e)
              (record {
                lastscan = refl;
                lastpos = refl;
                up = omega arith;
                bound = omega arith;
                more = λ l.
                    break_progress old new s.lastoffset s.scan r.0 f.0 r.1 counts
                      (omega (arith, at)) e;
                fits = λ l. omega (arith, found, length-drop s.scan new);
                pos_old = found.1;
              })
        | inr e ↦
            subst
              (λ b. let t : Scan × Score = (if b then (s1, r.1) else rest) in Stopped m new s t.0)
              (sym e)
              (record {
                lastscan = ih.lastscan;
                lastpos = ih.lastpos;
                up = omega (arith, ih.up);
                bound = ih.bound;
                more = ih.more;
                fits = ih.fits;
                pos_old = ih.pos_old;
              })
      ]
