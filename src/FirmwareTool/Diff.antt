-- ===== src/FirmwareTool/Diff.antt =====
-- utils/firmware_tool/commands/pipeline.cpp: the blocks of a patch (bsdiff).
pub mod Bounds
mod Progress
pub mod Blocks
pub mod Entries
pub mod RoundTrip
mod Tests
use upkit.Prelude.{
  ℕ, zero, suc, ◌+◌, ◌-◌, ◌*◌, ◌/◌, ◌%◌, Bool, true, false, ◌&&◌, ◌||◌, not, List, [], ◌∷◌, ◌++◌,
  Option, none, some, ℤ, pos, negsuc, sub_ℕ, ◌+ℤ◌, if◌then◌else◌, ltb, leb, ◌==◌, length, get_or,
  take, drop, min, slice, replicate,
}
use upkit.FirmwareTool.Offset.{offtout}
use upkit.FirmwareTool.Search.{search}

-- `oldscore`, and `s` where it goes up and down: the difference of what has been added and what has been
-- taken off.
pub record Score : Type 0 where
  pub up : ℕ
  pub down : ℕ

-- The variables of `bsdiff_internal` that go from one round to the next.
pub record Scan : Type 0 where
  pub scan : ℕ
  pub len : ℕ
  pub pos_old : ℕ
  pub lastscan : ℕ
  pub lastpos : ℕ
  pub lastoffset : ℤ

-- `((len == oldscore) && (len != 0)) || (len > oldscore + 8)`
unfoldable pub is_break : ℕ → Score → Bool
is_break len oldscore =
    ((len + oldscore.down == oldscore.up) && not (len == 0))
    || ltb (oldscore.up + 8) (len + oldscore.down)

module _ (old new : List ℕ) where
  -- `(k + lastoffset < oldsize) && (old[k + lastoffset] == new[k])`. An index below 0 does not arise.
  unfoldable pub same_at : ℤ → ℕ → Bool
  same_at lastoffset k = elim (pos k +ℤ lastoffset) [
    | pos q ↦ ltb q (length old) && (get_or old q 0 == get_or new k 0)
    | negsuc q ↦ false
  ]

  -- `for (; scsc < scan + len; scsc++) …` with `n` rounds left: `scsc` and `oldscore`.
  unfoldable pub count_same : ℕ → ℤ → ℕ → Score → ℕ × Score
  count_same zero lastoffset scsc oldscore = (scsc, oldscore)
  count_same (suc n) lastoffset scsc oldscore =
      count_same n lastoffset (scsc + 1)
        (record oldscore { up = oldscore.up + (if same_at lastoffset scsc then 1 else 0) })

  -- `for (i = 0; (lastscan + i < scan) && (lastpos + i < oldsize);) …` with `n` rounds left: `lenf`. The
  -- test is `s * 2 - i > Sf * 2 - lenf`.
  unfoldable pub forward : ℕ → ℕ → ℕ → ℕ → ℕ → ℕ → ℕ → ℕ
  forward zero lastscan lastpos i s sf lenf = lenf
  forward (suc n) lastscan lastpos i s sf lenf =
      let s1 = if get_or old (lastpos + i) 0 == get_or new (lastscan + i) 0 then s + 1 else s in
      let better = ltb (sf * 2 + (i + 1)) (s1 * 2 + lenf) in
      forward n lastscan lastpos (i + 1) s1 (if better then s1 else sf)
        (if better then i + 1 else lenf)

  -- `for (i = 1; (scan >= lastscan + i) && (pos >= i); i++) …` with `n` rounds left: `lenb`.
  unfoldable pub backward : ℕ → ℕ → ℕ → ℕ → ℕ → ℕ → ℕ → ℕ
  backward zero scan p i s sb lenb = lenb
  backward (suc n) scan p i s sb lenb =
      let s1 = if get_or old (p - i) 0 == get_or new (scan - i) 0 then s + 1 else s in
      let better = ltb (sb * 2 + i) (s1 * 2 + lenb) in
      backward n scan p (i + 1) s1 (if better then s1 else sb) (if better then i else lenb)

  -- `for (i = 0; i < overlap; i++) …` with `n` rounds left, from the two places in each file: `lens`.
  unfoldable pub overlap_loop : ℕ → ℕ → ℕ → ℕ → ℕ → ℕ → Score → Score → ℕ → ℕ
  overlap_loop zero nf of nb ob i s ss lens = lens
  overlap_loop (suc n) nf of nb ob i s ss lens =
      let s1 : Score = record {
        up = s.up + (if get_or new (nf + i) 0 == get_or old (of + i) 0 then 1 else 0);
        down = s.down + (if get_or new (nb + i) 0 == get_or old (ob + i) 0 then 1 else 0);
      } in
      let better = ltb (ss.up + s1.down) (s1.up + ss.down) in
      overlap_loop n nf of nb ob (i + 1) s1 (if better then s1 else ss)
        (if better then i + 1 else lens)

  -- The ends of the match with the block before it, and of the match with the one behind it.
  unfoldable pub block_ends : Scan → ℕ × ℕ
  unfolding forward backward
  block_ends s = (
    forward (min (s.scan - s.lastscan) (length old - s.lastpos)) s.lastscan s.lastpos 0 0 0 0,
    if ltb s.scan (length new)
        then backward (min (s.scan - s.lastscan) s.pos_old) s.scan s.pos_old 1 0 0 0
        else 0,
  )

  -- `if (lastscan + lenf > scan - lenb)`: the overlap is divided between the two.
  unfoldable pub divide : Scan → ℕ → ℕ → ℕ × ℕ
  unfolding overlap_loop
  divide s lenf lenb =
      let overlap = s.lastscan + lenf - (s.scan - lenb) in
      let zero_score : Score = record { up = 0; down = 0 } in
      let lens =
        overlap_loop overlap (s.lastscan + lenf - overlap) (s.lastpos + lenf - overlap)
          (s.scan - lenb) (s.pos_old - lenb) 0 zero_score zero_score 0 in
      if ltb (s.scan - lenb) (s.lastscan + lenf)
      then (lenf + lens - overlap, lenb - lens)
      else (lenf, lenb)

  -- `buffer[i] = new[lastscan + i] - old[lastpos + i]` for `n` bytes, modulo 256.
  unfoldable pub diff_bytes : ℕ → ℕ → ℕ → List ℕ
  diff_bytes zero lastscan lastpos = []
  diff_bytes (suc n) lastscan lastpos =
      (get_or new lastscan 0 + 256 - get_or old lastpos 0) % 256
      ∷ diff_bytes n (lastscan + 1) (lastpos + 1)

-- `diff_write`, which returns 0: what is in the output file.
abbrev pub diff_write : List ℕ → List ℕ → List ℕ
diff_write output bytes = output ++ bytes

-- `while (length > 0)` on fuel: pieces of INT_MAX bytes. The result is 0, as the stream's write returns 0.
unfoldable pub writedata : ℕ → List ℕ → List ℕ → List ℕ
writedata zero output bytes = output
writedata (suc fuel) output bytes =
    let smallsize = min (length bytes) 2147483647 in
    let rest = writedata fuel (diff_write output (take smallsize bytes)) (drop smallsize bytes) in
    if ltb 0 (length bytes) then rest else output

abbrev pub write_all : List ℕ → List ℕ → List ℕ
write_all output bytes = writedata (length bytes) output bytes

module _ (I : ℕ → ℕ) (old new : List ℕ) where
  -- `for (scsc = scan += len; scan < newsize; scan++) …` with `n` rounds left: the variables, and
  -- `oldscore`.
  unfoldable pub scan_loop : ℕ → Scan → ℕ → Score → Scan × Score
  unfolding search count_same is_break same_at
  scan_loop zero s scsc oldscore = (s, oldscore)
  scan_loop (suc n) s scsc oldscore =
      let (len, p) = search I old (length old) (drop s.scan new) 0 (length old) in
      let s1 = record s { len = len; pos_old = p } in
      let (scsc1, score1) = count_same old new (s.scan + len - scsc) s.lastoffset scsc oldscore in
      let score2 = record score1 {
        down = score1.down + (if same_at old new s.lastoffset s.scan then 1 else 0);
      } in
      let rest = scan_loop n (record s1 { scan = s.scan + 1 }) scsc1 score2 in
      if is_break len score1 then (s1, score1) else rest

  -- The control data, the diff string and the extra string of a block, and where the next one starts.
  unfoldable pub write_block : Scan → ℕ → ℕ → List ℕ → Scan × List ℕ
  unfolding diff_bytes
  write_block s lenf lenb output =
      let extra = s.scan - lenb - (s.lastscan + lenf) in
      let control =
        offtout (pos lenf)
        ++ (offtout (sub_ℕ (s.scan - lenb) (s.lastscan + lenf))
            ++ offtout (sub_ℕ (s.pos_old - lenb) (s.lastpos + lenf))) in
      let out1 = write_all output control in
      let out2 = write_all out1 (diff_bytes old new lenf s.lastscan s.lastpos) in
      let out3 = write_all out2 (slice (λ q. get_or new q 0) (s.lastscan + lenf) extra) in
      (
        record s {
          lastscan = s.scan - lenb;
          lastpos = s.pos_old - lenb;
          lastoffset = sub_ℕ s.pos_old s.scan;
        },
        out3,
      )

  -- What follows the scan: `if ((len != oldscore) || (scan == newsize))`.
  unfoldable pub after_scan : Scan × Score → List ℕ → Scan × List ℕ
  unfolding block_ends divide write_block
  after_scan (s, oldscore) output =
      let (lenf0, lenb0) = block_ends old new s in
      let (lenf, lenb) = divide old new s lenf0 lenb0 in
      if not (s.len + oldscore.down == oldscore.up) || (s.scan == length new)
      then write_block s lenf lenb output
      else (s, output)

  unfoldable pub diff_round : Scan → List ℕ → Scan × List ℕ
  unfolding scan_loop after_scan
  diff_round s output =
      let s0 = record s { scan = s.scan + s.len } in
      after_scan (scan_loop (length new - s0.scan) s0 s0.scan (record { up = 0; down = 0 })) output

  -- `while (scan < newsize)`, on fuel.
  unfoldable pub bsdiff_loop : ℕ → Scan → List ℕ → Option (List ℕ)
  bsdiff_loop zero s output = none
  bsdiff_loop (suc fuel) s output =
      let (s1, output1) = diff_round s output in
      let rest = bsdiff_loop fuel s1 output1 in
      if ltb s.scan (length new) then rest else some output

  abbrev pub first_scan : Scan
  first_scan = record {
    scan = 0;
    len = 0;
    pos_old = 0;
    lastscan = 0;
    lastpos = 0;
    lastoffset = pos 0;
  }

  -- `bsdiff_internal` behind the sort.
  unfoldable pub bsdiff_internal : List ℕ → Option (List ℕ)
  bsdiff_internal output = bsdiff_loop (length new + 2) first_scan output

-- The header of the output: the magic number and the size of the new file.
unfoldable pub patch_header : ℕ → List ℕ
patch_header size2 = replicate 16 0x2a ++ offtout (pos size2)
