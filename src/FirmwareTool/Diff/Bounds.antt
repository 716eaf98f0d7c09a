-- ===== src/FirmwareTool/Diff/Bounds.antt =====
-- utils/firmware_tool/commands/pipeline.cpp: how far the parts of a block of a patch reach.
use upkit.Prelude.{
  ℕ, zero, suc, ◌+◌, ◌-◌, ◌<◌, ◌≤◌, ◌≡◌, sym, subst, true, false, List, if◌then◌else◌, ltb, length,
  min, arith, Bool-cases, ltb→lt, inl, inr, Bool,
}
use upkit.FirmwareTool.Diff.{Score, Scan, forward, backward, overlap_loop, block_ends, divide}

choose_le : (b : Bool) (x y m : ℕ) → x ≤ m → y ≤ m → (if b then x else y) ≤ m
choose_le true x y m h k = h
choose_le false x y m h k = k

not_ltb : (a b : ℕ) → ltb a b ≡ false → b ≤ a
not_ltb a b h = ground arith

module _ (old new : List ℕ) where
  forward_le :
      (n lastscan lastpos i s sf lenf m : ℕ)
      → lenf ≤ m
      → i + n ≤ m
      → forward old new n lastscan lastpos i s sf lenf ≤ m
  unfolding forward
  forward_le zero lastscan lastpos i s sf lenf m h k = h
  forward_le (suc n) lastscan lastpos i s sf lenf m h k =
      forward_le n lastscan lastpos (i + 1) _ _ _ m (choose_le _ (i + 1) lenf m (omega arith) h)
        (omega arith)

  backward_le :
      (n scan p i s sb lenb m : ℕ)
      → lenb ≤ m
      → i + n ≤ m + 1
      → backward old new n scan p i s sb lenb ≤ m
  unfolding backward
  backward_le zero scan p i s sb lenb m h k = h
  backward_le (suc n) scan p i s sb lenb m h k =
      backward_le n scan p (i + 1) _ _ _ m (choose_le _ i lenb m (omega arith) h) (omega arith)

  overlap_le :
      (n nf of nb ob i : ℕ) (s ss : Score) (lens m : ℕ)
      → lens ≤ m
      → i + n ≤ m
      → overlap_loop old new n nf of nb ob i s ss lens ≤ m
  unfolding overlap_loop
  overlap_le zero nf of nb ob i s ss lens m h k = h
  overlap_le (suc n) nf of nb ob i s ss lens m h k =
      overlap_le n nf of nb ob (i + 1) _ _ _ m (choose_le _ (i + 1) lens m (omega arith) h)
        (omega arith)

  -- The first string ends before the second one starts; both are inside the two files.
  pub record Fits (s : Scan) (lenf lenb : ℕ) : Type 0 where
    pub front : s.lastscan + lenf ≤ s.scan - lenb
    pub front_old : lenf ≤ length old - s.lastpos
    pub back : lenb ≤ s.scan - s.lastscan
    pub back_old : lenb ≤ s.pos_old
    pub at_end : length new ≤ s.scan → lenb ≡ 0

  pub record Apart (s : Scan) (lenf lenb : ℕ) : Type 0 where
    front : s.lastscan + lenf ≤ s.scan
    front_old : lenf ≤ length old - s.lastpos
    back : lenb ≤ s.scan - s.lastscan
    back_old : lenb ≤ s.pos_old
    at_end : length new ≤ s.scan → lenb ≡ 0

  pub block_ends-Apart :
      (s : Scan)
      → s.lastscan ≤ s.scan
      → let (lenf, lenb) = block_ends old new s in Apart s lenf lenb
  unfolding block_ends
  block_ends-Apart s h =
      let n = min (s.scan - s.lastscan) (length old - s.lastpos) in
      let m = min (s.scan - s.lastscan) s.pos_old in
      let f = forward_le n s.lastscan s.lastpos 0 0 0 0 n (omega arith) (omega arith) in
      let b = backward_le m s.scan s.pos_old 1 0 0 0 m (omega arith) (omega arith) in
      let c =
        choose_le (ltb s.scan (length new)) (backward old new m s.scan s.pos_old 1 0 0 0) 0 m b
          (omega arith) in
      record {
        front = omega (arith, f);
        front_old = omega (arith, f);
        back = omega (arith, c);
        back_old = omega (arith, c);
        at_end = λ l. ground arith;
      }

  divided :
      (s : Scan) (lenf lenb lens : ℕ)
      → Apart s lenf lenb
      → s.scan - lenb < s.lastscan + lenf
      → lens ≤ s.lastscan + lenf - (s.scan - lenb)
      → Fits s (lenf + lens - (s.lastscan + lenf - (s.scan - lenb))) (lenb - lens)
  divided s lenf lenb lens a q l = record {
    front = omega (arith, a.front, a.back);
    front_old = omega (arith, a.front_old);
    back = omega (arith, a.back);
    back_old = omega (arith, a.back_old);
    at_end = λ h. omega (arith, a.at_end h, a.front);
  }

  whole :
      (s : Scan) (lenf lenb : ℕ)
      → Apart s lenf lenb
      → s.lastscan + lenf ≤ s.scan - lenb
      → Fits s lenf lenb
  whole s lenf lenb a q = record {
    front = q;
    front_old = a.front_old;
    back = a.back;
    back_old = a.back_old;
    at_end = a.at_end;
  }

  pub divide-Fits :
      (s : Scan) (lenf lenb : ℕ)
      → Apart s lenf lenb
      → let (f, b) = divide old new s lenf lenb in Fits s f b
  unfolding divide
  divide-Fits s lenf lenb a =
      let overlap = s.lastscan + lenf - (s.scan - lenb) in
      let z : Score = record { up = 0; down = 0 } in
      let lens =
        overlap_loop old new overlap (s.lastscan + lenf - overlap) (s.lastpos + lenf - overlap)
          (s.scan - lenb) (s.pos_old - lenb) 0 z z 0 in
      let l =
        overlap_le overlap (s.lastscan + lenf - overlap) (s.lastpos + lenf - overlap)
          (s.scan - lenb) (s.pos_old - lenb) 0 z z 0 overlap (omega arith) (omega arith) in
      elim (Bool-cases (ltb (s.scan - lenb) (s.lastscan + lenf))) [
        | inl p ↦
            let q : s.scan - lenb < s.lastscan + lenf = ltb→lt _ _ p in
            subst
              (λ t.
                let r : ℕ × ℕ =
                  (if t then (lenf + lens - overlap, lenb - lens) else (lenf, lenb)) in
                Fits s r.0 r.1)
              (sym p) (divided s lenf lenb lens a q l)
        | inr p ↦
            subst
              (λ t.
                let r : ℕ × ℕ =
                  (if t then (lenf + lens - overlap, lenb - lens) else (lenf, lenb)) in
                Fits s r.0 r.1)
              (sym p) (whole s lenf lenb a (not_ltb _ _ p))
      ]
