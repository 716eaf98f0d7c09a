-- ===== src/Memory/Posix/Tests.antt =====
-- Two files, by the descriptors 3 and 4, and one position for each.
use upkit.Prelude.{
  ℕ, ◌+◌, ◌≡◌, ◌∙◌, refl, Bool, true, false, [], ◌∷◌, ℤ, pos, negsuc, length, take_all, slice,
  overlay, ap, sym, arith, if◌then◌else◌, ◌==◌, not,
}
use upkit.Errors.{memory_mapping_error}
use upkit.Memory.{read_only}
use upkit.Memory.Posix.{
  Syscalls, PosixObject, posix_memory_open_impl, posix_memory_read_impl, posix_memory_write_impl,
}
use upkit.Memory.Posix.Files.{Files, Implements, posix-Implements}

record OneFile : Type 0 where
  place : ℕ
  data_at : ℕ → ℕ

record Disk : Type 0 where
  first : OneFile
  second : OneFile

-- The descriptor 4 is that of the second file, and any other that of the first.
abbrev is_second : ℤ → Bool
is_second (pos n) = n == 4
is_second (negsuc n) = false

abbrev file_of : ℤ → Disk → OneFile
file_of fd w = if is_second fd then w.second else w.first

abbrev update : ℤ → OneFile → Disk → Disk
update fd f w = if is_second fd then record w { second = f } else record w { first = f }

abbrev sys : Syscalls Disk
sys = record {
  open_file = λ path w. (if path == 4 then pos 4 else pos 3, w);
  lseek = λ fd n w. (pos n, update fd (record { place = n; data_at = (file_of fd w).data_at }) w);
  read_file = λ fd size w.
      let f = file_of fd w in
      (
        pos size,
        slice f.data_at f.place size,
        update fd (record { place = f.place + size; data_at = f.data_at }) w,
      );
  write_file = λ fd bytes w.
      let f = file_of fd w in
      (
        pos (length bytes),
        update fd
            (record { place = f.place + length bytes; data_at = overlay f.data_at f.place bytes })
            w,
      );
  close_file = λ fd w. (pos 0, w);
}

pos_eq : (m n : ℕ) → pos m ≡ pos n → n ≡ m
pos_eq m n h = ground arith

pos_ne : (m n k : ℕ) → pos m ≡ negsuc n → n ≡ k
pos_ne m n k h = cc

abbrev content : ℤ → Disk → ℕ → ℕ
content fd w = (file_of fd w).data_at

abbrev position : ℤ → Disk → ℕ
position fd w = (file_of fd w).place

-- One of the two descriptors is that of the second file, and the other is not.
abbrev separate : ℤ → ℤ → Bool
separate fd fd' = if is_second fd then not (is_second fd') else is_second fd'

position-update : (fd : ℤ) (f : OneFile) (w : Disk) → position fd (update fd f w) ≡ f.place
position-update fd f w = ground arith

content-update : (fd : ℤ) (f : OneFile) (w : Disk) → content fd (update fd f w) ≡ f.data_at
content-update fd f w = ground arith

content-update_same :
    (fd fd' : ℤ) (n : ℕ) (w : Disk)
    → content fd' (update fd (record { place = n; data_at = (file_of fd w).data_at }) w)
      ≡ content fd' w
content-update_same fd fd' n w = ground arith

content-update_separate :
    (fd fd' : ℤ) (f : OneFile) (w : Disk)
    → separate fd fd' ≡ true
    → content fd' (update fd f w) ≡ content fd' w
content-update_separate fd fd' f w h = ground arith

abbrev files : Files sys
files = record {
  content = content;
  position = position;
  separate = separate;
  lseek_position = λ fd n w h. position-update fd _ w;
  lseek_content = λ fd fd' n w. content-update_same fd fd' n w;
  read_bytes = λ fd size w k h. (
    ap (slice (content fd w) (position fd w)) (sym (pos_eq size k h)),
    omega (arith, pos_eq size k h),
  );
  read_error = λ fd size w k h. pos_ne size k 0 h;
  read_content = λ fd fd' size w. content-update_same fd fd' (position fd w + size) w;
  write_bytes = λ fd bytes w k h. (
    content-update fd _ w
        ∙ ap (overlay (content fd w) (position fd w))
            (sym (take_all k bytes (omega (arith, pos_eq (length bytes) k h)))),
    omega (arith, pos_eq (length bytes) k h),
  );
  write_error = λ fd bytes w k h. pos_ne (length bytes) k 0 h;
  write_separate = λ fd fd' bytes w h. content-update_separate fd fd' _ w h;
}

posix-Implements_example : Implements sys files
posix-Implements_example = posix-Implements sys files

abbrev object : PosixObject
object = record { path = 3; fp = pos 3; start_offset = 0; end_offset = 0 }

abbrev disk : Disk
disk = record {
  first = record { place = 0; data_at = λ p. p + 10 };
  second = record { place = 0; data_at = λ p. p + 20 };
}

reads_at : (posix_memory_read_impl sys object 2 5 disk).1 ≡ 15 ∷ 16 ∷ []
unfolding posix_memory_read_impl
reads_at = refl

-- A write to the second file leaves the first as it is.
writes_apart :
    (posix_memory_read_impl sys object 2 5
      (posix_memory_write_impl sys (record object { fp = pos 4 }) (1 ∷ 2 ∷ []) 5 disk).1).1
    ≡ 15 ∷ 16 ∷ []
unfolding posix_memory_read_impl posix_memory_write_impl
writes_apart = refl

no_such_object : (posix_memory_open_impl sys object (pos 8) read_only disk).0 ≡ memory_mapping_error
unfolding posix_memory_open_impl
no_such_object = refl
