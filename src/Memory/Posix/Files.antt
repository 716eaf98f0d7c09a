-- ===== src/Memory/Posix/Files.antt =====
-- src/platform/posix/memory_posix.c: the files store what the library relies on.
use upkit.Prelude.{
  ℕ, ◌≤◌, ◌<◌, ◌≡◌, ◌⊎◌, ◌↔◌, refl, sym, ap, ap₂, subst, ◌∙◌, Bool, true, false, List, [], ℤ, pos,
  negsuc, is_negative, if◌then◌else◌, length, take, take_all, slice, overlay, Bool-cases, inl, inr,
  arith,
}
use upkit.Errors.{pull_success, memory_mapping_error, memory_open_error}
use upkit.Memory.{MemMode}
use upkit.Memory.Stores.{Stores}
use upkit.Memory.Posix.{
  Syscalls, PosixObject, resource_mapper, posix_memory_open_impl, posix_memory_read_impl,
  posix_memory_write_impl, posix_memory_close_impl, posix,
}

-- What POSIX says of files that are read and written through one position, by descriptors.
pub record Files {W : Type 0} (sys : Syscalls W) : Type 0 where
  pub content : ℤ → W → ℕ → ℕ
  pub position : ℤ → W → ℕ
  -- Two descriptors of different files.
  pub separate : ℤ → ℤ → Bool
  pub lseek_position :
      (fd : ℤ) (n : ℕ) (w : W)
      → is_negative (sys.lseek fd n w).0 ≡ false
      → position fd (sys.lseek fd n w).1 ≡ n
  pub lseek_content :
      (fd fd' : ℤ) (n : ℕ) (w : W) → content fd' (sys.lseek fd n w).1 ≡ content fd' w
  pub read_bytes :
      (fd : ℤ) (size : ℕ) (w : W) (k : ℕ)
      → (sys.read_file fd size w).0 ≡ pos k
      → ((sys.read_file fd size w).1 ≡ slice (content fd w) (position fd w) k) × (k ≤ size)
  pub read_error :
      (fd : ℤ) (size : ℕ) (w : W) (k : ℕ) → (sys.read_file fd size w).0 ≡ negsuc k → k ≡ 0
  pub read_content :
      (fd fd' : ℤ) (size : ℕ) (w : W) → content fd' (sys.read_file fd size w).2 ≡ content fd' w
  pub write_bytes :
      (fd : ℤ) (bytes : List ℕ) (w : W) (k : ℕ)
      → (sys.write_file fd bytes w).0 ≡ pos k
      → (content fd (sys.write_file fd bytes w).1
          ≡ overlay (content fd w) (position fd w) (take k bytes))
        × (k ≤ length bytes)
  pub write_error :
      (fd : ℤ) (bytes : List ℕ) (w : W) (k : ℕ) → (sys.write_file fd bytes w).0 ≡ negsuc k → k ≡ 0
  pub write_separate :
      (fd fd' : ℤ) (bytes : List ℕ) (w : W)
      → separate fd fd' ≡ true
      → content fd' (sys.write_file fd bytes w).1 ≡ content fd' w

pos_not : (k : ℕ) → negsuc 0 ≡ pos k → ⊥
pos_not k h = cc

module _ {W : Type 0} (sys : Syscalls W) (fs : Files sys) where
  -- A read is either refused by lseek or one of the file.
  read_cases :
      (P : ℤ × List ℕ × W → Type 0) (o : PosixObject) (size offset : ℕ) (w : W)
      → let (ret, w1) = sys.lseek o.fp offset w in
        P (negsuc 0, [], w1)
        → (is_negative ret ≡ false → P (sys.read_file o.fp size w1))
        → P (posix_memory_read_impl sys o size offset w)
  unfolding posix_memory_read_impl
  read_cases P o size offset w f g =
      let (ret, w1) = sys.lseek o.fp offset w in
      elim (Bool-cases (is_negative ret)) [
        | inl e ↦
            subst (λ b. P (if b then (negsuc 0, [], w1) else sys.read_file o.fp size w1)) (sym e) f
        | inr e ↦
            subst (λ b. P (if b then (negsuc 0, [], w1) else sys.read_file o.fp size w1)) (sym e)
              (g e)
      ]

  write_cases :
      (P : ℤ × W → Type 0) (o : PosixObject) (bytes : List ℕ) (offset : ℕ) (w : W)
      → let (ret, w1) = sys.lseek o.fp offset w in
        P (negsuc 0, w1)
        → (is_negative ret ≡ false → P (sys.write_file o.fp bytes w1))
        → P (posix_memory_write_impl sys o bytes offset w)
  unfolding posix_memory_write_impl
  write_cases P o bytes offset w f g =
      let (ret, w1) = sys.lseek o.fp offset w in
      elim (Bool-cases (is_negative ret)) [
        | inl e ↦
            subst (λ b. P (if b then (negsuc 0, w1) else sys.write_file o.fp bytes w1)) (sym e) f
        | inr e ↦
            subst (λ b. P (if b then (negsuc 0, w1) else sys.write_file o.fp bytes w1)) (sym e)
              (g e)
      ]

  refused : {A : Type 0} (k : ℕ) → negsuc 0 ≡ pos k → A
  refused k h = absurd (pos_not k h)

  minus_one : (k : ℕ) → negsuc 0 ≡ negsuc k → k ≡ 0
  minus_one k h = ground arith

  -- The file that an object is open on.
  abbrev file : PosixObject → W → ℕ → ℕ
  file o w = fs.content o.fp w

  reads :
      (o : PosixObject) (size offset : ℕ) (w : W) (k : ℕ)
      → (posix_memory_read_impl sys o size offset w).0 ≡ pos k
      → ((posix_memory_read_impl sys o size offset w).1 ≡ slice (file o w) offset k) × (k ≤ size)
  reads o size offset w =
      let w1 = (sys.lseek o.fp offset w).1 in
      read_cases (λ r. (k : ℕ) → r.0 ≡ pos k → (r.1 ≡ slice (file o w) offset k) × (k ≤ size)) o
        size offset w (λ k h. refused k h)
        (λ e k h.
          let (a, b) = fs.read_bytes o.fp size w1 k h in
          (
            a
                ∙ ap₂ (λ f p. slice f p k) (fs.lseek_content o.fp o.fp offset w)
                    (fs.lseek_position o.fp offset w e),
            b,
          ))

  writes :
      (o : PosixObject) (bytes : List ℕ) (offset : ℕ) (w : W) (k : ℕ)
      → (posix_memory_write_impl sys o bytes offset w).0 ≡ pos k
      → (file o (posix_memory_write_impl sys o bytes offset w).1
          ≡ overlay (file o w) offset (take k bytes))
        × (k ≤ length bytes)
  writes o bytes offset w =
      let w1 = (sys.lseek o.fp offset w).1 in
      write_cases
        (λ r.
          (k : ℕ)
          → r.0 ≡ pos k
          → (file o r.1 ≡ overlay (file o w) offset (take k bytes)) × (k ≤ length bytes))
        o bytes offset w (λ k h. refused k h)
        (λ e k h.
          let (a, b) = fs.write_bytes o.fp bytes w1 k h in
          (
            a
                ∙ ap₂ (λ f p. overlay f p (take k bytes)) (fs.lseek_content o.fp o.fp offset w)
                    (fs.lseek_position o.fp offset w e),
            b,
          ))

  opens_lem :
      (ctx : PosixObject) (n : ℕ) (mode : MemMode) (w : W)
      → 0 < n
      → n < 8
      → let (err, ctx', w') = posix_memory_open_impl sys ctx (pos n) mode w in
        (err ≡ (if is_negative (sys.open_file n w).0 then memory_open_error else pull_success))
        × (ctx'.fp ≡ (sys.open_file n w).0)
        × (w' ≡ (sys.open_file n w).1)
  unfolding posix_memory_open_impl resource_mapper
  opens_lem ctx n mode w a b = ground arith

  refuses_lem :
      (ctx : PosixObject) (n : ℕ) (mode : MemMode) (w : W)
      → (n ≡ 0) ⊎ (8 ≤ n)
      → let (err, ctx', w') = posix_memory_open_impl sys ctx (pos n) mode w in
        (err ≡ memory_mapping_error) × (w' ≡ w)
  unfolding posix_memory_open_impl resource_mapper
  refuses_lem ctx n mode w (inl e) = ground arith
  refuses_lem ctx n mode w (inr e) = ground arith

  closes_lem :
      (o : PosixObject) (w : W)
      → let (err, w') = posix_memory_close_impl sys o w in
        ((err ≡ pull_success) ↔ ((sys.close_file o.fp w).0 ≡ pos 0))
        × (w' ≡ (sys.close_file o.fp w).1)
  unfolding posix_memory_close_impl
  closes_lem o w = ground arith

  -- The objects hold the bytes of their files, and are opened and closed as the files are.
  pub record Implements : Type 0 where
    pub stores : Stores (posix sys)
    pub holds : (o : PosixObject) (w : W) → stores.at o w ≡ file o w
    pub open_apart : (o o' : PosixObject) → stores.apart o o' ≡ fs.separate o.fp o'.fp
    -- The ids from 1 to 7 are those of files.
    pub opens :
        (ctx : PosixObject) (n : ℕ) (mode : MemMode) (w : W)
        → 0 < n
        → n < 8
        → let (err, ctx', w') = posix_memory_open_impl sys ctx (pos n) mode w in
          (err ≡ (if is_negative (sys.open_file n w).0 then memory_open_error else pull_success))
          × (ctx'.fp ≡ (sys.open_file n w).0)
          × (w' ≡ (sys.open_file n w).1)
    pub refuses :
        (ctx : PosixObject) (n : ℕ) (mode : MemMode) (w : W)
        → (n ≡ 0) ⊎ (8 ≤ n)
        → let (err, ctx', w') = posix_memory_open_impl sys ctx (pos n) mode w in
          (err ≡ memory_mapping_error) × (w' ≡ w)
    pub closes :
        (o : PosixObject) (w : W)
        → let (err, w') = posix_memory_close_impl sys o w in
          ((err ≡ pull_success) ↔ ((sys.close_file o.fp w).0 ≡ pos 0))
          × (w' ≡ (sys.close_file o.fp w).1)

  -- Where the system does what POSIX says of files, the functions that read and write do what the library relies on,
  -- with the bytes of a file for those of an object, and objects with descriptors of different files share no byte.
  -- An open under an id from 1 to 7 opens the file of that number, keeps the descriptor that it is given, and
  -- returns success, or MEMORY_OPEN_ERROR where that is negative; under 0 or an id from 8 on it returns
  -- MEMORY_MAPPING_ERROR and touches no file. A close closes the descriptor, and returns success just if that
  -- returned 0.
  pub posix-Implements : Implements
  posix-Implements = record {
    stores = record {
      at = file;
      apart = λ o o'. fs.separate o.fp o'.fp;
      read_bytes = reads;
      read_error = λ o size offset w.
          read_cases (λ r. (k : ℕ) → r.0 ≡ negsuc k → k < 32768) o size offset w
            (λ k h. omega (arith, minus_one k h))
            (λ e k h. omega (arith, fs.read_error o.fp size (sys.lseek o.fp offset w).1 k h));
      read_same = λ o o' size offset w p.
          read_cases (λ r. file o' r.2 p ≡ file o' w p) o size offset w
            (ap (λ f. f p) (fs.lseek_content o.fp o'.fp offset w))
            (λ e.
              ap (λ f. f p)
                (fs.read_content o.fp o'.fp size (sys.lseek o.fp offset w).1
                  ∙ fs.lseek_content o.fp o'.fp offset w));
      write_bytes = λ o bytes offset w p h.
          ap (λ f. f p) (writes o bytes offset w (length bytes) h).0
          ∙ ap (λ t. overlay (file o w) offset t p) (take_all (length bytes) bytes (omega arith));
      write_error = λ o bytes offset w.
          write_cases (λ r. (k : ℕ) → r.0 ≡ negsuc k → k < 32768) o bytes offset w
            (λ k h. omega (arith, minus_one k h))
            (λ e k h. omega (arith, fs.write_error o.fp bytes (sys.lseek o.fp offset w).1 k h));
      write_count = λ o bytes offset w k h. (writes o bytes offset w k h).1;
      write_apart = λ o o' bytes offset w p s.
          write_cases (λ r. file o' r.1 p ≡ file o' w p) o bytes offset w
            (ap (λ f. f p) (fs.lseek_content o.fp o'.fp offset w))
            (λ e.
              ap (λ f. f p)
                (fs.write_separate o.fp o'.fp bytes (sys.lseek o.fp offset w).1 s
                  ∙ fs.lseek_content o.fp o'.fp offset w));
    };
    holds = λ o w. refl;
    open_apart = λ o o'. refl;
    opens = opens_lem;
    refuses = refuses_lem;
    closes = closes_lem;
  }
