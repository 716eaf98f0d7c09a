-- ===== src/Pipeline/Bspatch/Branches.antt =====
-- The tests of the stage, where the numbers of a patch are known.
use upkit.Prelude.{
  ℕ, ◌+◌, ◌<◌, ◌≤◌, ◌≡◌, ap, ap₂, ◌∙◌, true, false, ℤ, pos, ◌+ℤ◌, ltb_int, length, if◌then◌else◌,
  ltb, lt→ltb, arith,
}
use upkit.Pipeline.Bspatch.{
  at_control, at_diff, at_extra, Patch, going, finished, failed, read_y, next_block, end_block,
  extra_loop, end_diff, diff_loop, end_control,
}

-- The variables between two blocks: `a` bytes of `m` are made, and the old image goes on at `q`.
pub record Ready (p : Patch) (a : ℕ) (q : ℤ) (m : ℕ) : Type 0 where
  pub newpos : p.newpos ≡ pos a
  pub oldpos : p.oldpos ≡ q
  pub newsize : read_y p.newsize ≡ pos m
  pub room_0 : length p.ctrl_0 ≡ 8
  pub room_1 : length p.ctrl_1 ≡ 8
  pub room_2 : length p.ctrl_2 ≡ 8

less : (u v : ℤ) (m n : ℕ) → u ≡ pos m → v ≡ pos n → m < n → ltb_int u v ≡ true
less u v m n e f h = ap₂ ltb_int e f ∙ lt→ltb m n h

not_less : (u v : ℤ) (m n : ℕ) → u ≡ pos m → v ≡ pos n → n ≤ m → ltb_int u v ≡ false
not_less u v m n e f h = ap₂ ltb_int e f ∙ (let k : ltb m n ≡ false = ground arith in k)

module _ {S : Type 0} where
  pub diff_loop-going :
      (p : Patch) (s : S) (m : ℕ)
      → read_y p.ctrl_0 ≡ pos m
      → p.i < m
      → diff_loop p s ≡ going at_diff p s
  unfolding diff_loop
  diff_loop-going p s m e h =
      ap (λ v. if ltb_int (pos p.i) v then going at_diff p s else end_diff p s) e ∙ ground arith

  pub diff_loop-end :
      (p : Patch) (s : S) (m : ℕ) → read_y p.ctrl_0 ≡ pos m → m ≤ p.i → diff_loop p s ≡ end_diff p s
  unfolding diff_loop
  diff_loop-end p s m e h =
      ap (λ v. if ltb_int (pos p.i) v then going at_diff p s else end_diff p s) e ∙ ground arith

  pub extra_loop-going :
      (p : Patch) (s : S) (m : ℕ)
      → read_y p.ctrl_1 ≡ pos m
      → p.i < m
      → extra_loop p s ≡ going at_extra p s
  unfolding extra_loop
  extra_loop-going p s m e h =
      ap (λ v. if ltb_int (pos p.i) v then going at_extra p s else end_block p s) e ∙ ground arith

  pub extra_loop-end :
      (p : Patch) (s : S) (m : ℕ)
      → read_y p.ctrl_1 ≡ pos m
      → m ≤ p.i
      → extra_loop p s ≡ end_block p s
  unfolding extra_loop
  extra_loop-end p s m e h =
      ap (λ v. if ltb_int (pos p.i) v then going at_extra p s else end_block p s) e ∙ ground arith

  pub end_control-diff :
      (p : Patch) (s : S) (a d m : ℕ)
      → p.newpos ≡ pos a
      → read_y p.ctrl_0 ≡ pos d
      → read_y p.newsize ≡ pos m
      → a + d ≤ m
      → end_control p s ≡ diff_loop (record p { i = 0 }) s
  unfolding end_control
  end_control-diff p s a d m e f g h =
      ap (λ b. if b then failed 0 p s else diff_loop (record p { i = 0 }) s)
        (not_less _ _ m (a + d) g (ap₂ (λ x y. x +ℤ y) e f) h)

  pub end_diff-extra :
      (p : Patch) (s : S) (a d x m : ℕ)
      → p.newpos ≡ pos a
      → read_y p.ctrl_0 ≡ pos d
      → read_y p.ctrl_1 ≡ pos x
      → read_y p.newsize ≡ pos m
      → a + d + x ≤ m
      → let p1 : Patch = record p {
        newpos = p.newpos +ℤ read_y p.ctrl_0;
        oldpos = p.oldpos +ℤ read_y p.ctrl_0;
        i = 0;
      } in
        end_diff p s ≡ extra_loop p1 s
  unfolding end_diff
  end_diff-extra p s a d x m e f k g h =
      let p1 : Patch = record p {
        newpos = p.newpos +ℤ read_y p.ctrl_0;
        oldpos = p.oldpos +ℤ read_y p.ctrl_0;
      } in
      ap (λ b. if b then failed 0 p1 s else extra_loop (record p1 { i = 0 }) s)
        (not_less _ _ m (a + d + x) g (ap₂ (λ x y. x +ℤ y) (ap₂ (λ x y. x +ℤ y) e f) k) h)

  pub next_block-going :
      (p : Patch) (s : S) (a m : ℕ)
      → p.newpos ≡ pos a
      → read_y p.newsize ≡ pos m
      → a < m
      → next_block p s ≡ going at_control (record p { i = 0; j = 0 }) s
  unfolding next_block
  next_block-going p s a m e g h =
      ap (λ b. if b then going at_control (record p { i = 0; j = 0 }) s else finished p s)
        (less _ _ a m e g h)

  pub next_block-finished :
      (p : Patch) (s : S) (a m : ℕ)
      → p.newpos ≡ pos a
      → read_y p.newsize ≡ pos m
      → m ≤ a
      → next_block p s ≡ finished p s
  unfolding next_block
  next_block-finished p s a m e g h =
      ap (λ b. if b then going at_control (record p { i = 0; j = 0 }) s else finished p s)
        (not_less _ _ a m e g h)
