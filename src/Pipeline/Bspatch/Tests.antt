-- ===== src/Pipeline/Bspatch/Tests.antt =====
-- A patch of the image of slot 3 of `Fixtures`, before a stage that keeps the bytes.
use upkit.Prelude.{
  ℕ, ◌<◌, ◌≡◌, refl, ap, false, true, List, [], ◌∷◌, ◌++◌, ℤ, pos, negsuc, length, replicate, arith,
}
use upkit.Memory.{memory_read}
use upkit.Pipeline.{Stage}
use upkit.Pipeline.Bspatch.{
  BspatchCtx, Patch, start, bspatch_pipeline, resume, suspend, take_bytes, on_byte, on_header,
}
use upkit.Pipeline.Bspatch.Chunks.{SameCall, bspatch_pipeline-append}
use upkit.Pipeline.Bspatch.Format.{Entry, InRange, encode_patch, address}
use upkit.Pipeline.Bspatch.Patched.{ReadsOld, bspatch_pipeline_lem}
use upkit.FirmwareTool.Offset.{offtout, offtin, offtin-offtout}
use upkit.Fixtures.{Ram, ram, device}

record Sink : Type 0 where
  dev : Ram
  out : List ℕ

abbrev keep : Stage Sink
keep bytes s = (pos (length bytes), record s { out = s.out ++ bytes })

abbrev put : Ram → Sink → Sink
put w s = record s { dev = w }

abbrev OnDevice : Sink → Type 0
OnDevice s = s.dev ≡ device

abbrev reads_old : ReadsOld ram 3 (λ s. s.dev) put keep OnDevice 4294967296 (device 3)
unfolding memory_read
reads_old = record {
  read = λ s a g l. ap (λ (w : Ram). (1, w 3 a ∷ [], s.dev)) g;
  unread = λ s. refl;
  keeps = λ b s g. g;
}

-- Two bytes changed and one inserted, then back by one byte and one more kept.
abbrev entries : List Entry
entries =
    record { diff = 1 ∷ 255 ∷ []; extra = 9 ∷ []; seek = negsuc 0 }
    ∷ record { diff = 0 ∷ []; extra = []; seek = pos 0 }
    ∷ []

abbrev eight : List ℕ
eight = replicate 8 0

abbrev fresh : BspatchCtx
fresh = record {
  state = start;
  finish = false;
  patch = record {
    oldpos = pos 0;
    newpos = pos 0;
    ctrl_0 = eight;
    ctrl_1 = eight;
    ctrl_2 = eight;
    i = 0;
    j = 0;
    newsize = eight;
  };
}

abbrev empty : Sink
empty = record { dev = device; out = [] }

below : (z : ℤ) (k n : ℕ) → k < n → address z k < 4294967296
below (pos q) k n h = omega arith
below (negsuc q) k n h = ground arith

in_range : InRange 4294967296 (pos 0) entries
in_range = (
  λ k h. below (pos 0) k 2 h,
  omega arith,
  omega arith,
  (λ k h. below (pos 1) k 1 h, omega arith, omega arith, tt),
)

-- Slot 3 holds 4 5 4 6 …
bspatch_pipeline_lem_example :
    (p : Patch) × (bspatch_pipeline ram 3 (λ s. s.dev) put keep (encode_patch entries) fresh empty
      ≡ (
        pos 76,
        record { state = start; finish = true; patch = p },
        record { dev = device; out = 5 ∷ 4 ∷ 9 ∷ 5 ∷ [] },
      ))
unfolding offtout
bspatch_pipeline_lem_example =
    bspatch_pipeline_lem ram 3 (λ s. s.dev) put keep OnDevice 4294967296 (device 3) reads_old
      entries fresh empty in_range (omega arith) refl refl (refl, refl, refl, refl) refl

abbrev suspended : BspatchCtx
suspended = (bspatch_pipeline ram 3 (λ s. s.dev) put keep (0x2a ∷ 0x2a ∷ []) fresh empty).1

bspatch_pipeline-append_example :
    SameCall 2
      (bspatch_pipeline ram 3 (λ s. s.dev) put keep (0x2a ∷ 0x2a ∷ 0x2a ∷ 0x2b ∷ []) fresh empty)
      (bspatch_pipeline ram 3 (λ s. s.dev) put keep (0x2a ∷ 0x2b ∷ []) suspended empty)
unfolding bspatch_pipeline resume suspend take_bytes on_byte on_header
bspatch_pipeline-append_example =
    bspatch_pipeline-append ram 3 (λ s. s.dev) put keep (0x2a ∷ 0x2a ∷ []) (0x2a ∷ 0x2b ∷ []) fresh
      suspended empty empty 2 refl

offtin-offtout_example : offtin (offtout (negsuc 299)) ≡ negsuc 299
offtin-offtout_example = offtin-offtout (negsuc 299) (omega arith)
