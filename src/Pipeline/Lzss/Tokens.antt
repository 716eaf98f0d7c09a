-- ===== src/Pipeline/Lzss/Tokens.antt =====
-- The decoder against the format: a stream of literals and of copies out of a window.
use upkit.Prelude.{
  ℕ, zero, suc, ◌+◌, ◌*◌, ◌%◌, ◌<◌, ◌≤◌, ◌≡◌, refl, sym, ap, subst, ◌∙◌, List, [], ◌∷◌, ◌++◌, pos,
  is_negative, false, length, get_or, arith, if◌then◌else◌, ◌==◌, replicate, append_assoc,
  get_or-set, length-set, ltb, drop, length-append, length-replicate, length-drop,
}
use upkit.Pipeline.{Stage, feed, feed-append, singles, singles-append}
use upkit.Pipeline.Lzss.{
  window_size, window_start, Getbit, flag, literal, position, span, Decoder, going, run_then,
  LzssCtx, start, inside, enter, take_bytes, store, copy, after, push_bit, resume, begin, suspend,
  lzss_pipeline,
}
use upkit.Pipeline.Lzss.Chunks.{bits, spell, feed_bits, take_bytes_lem}

-- A byte, or the `j + 2` bytes of the window from position `i` on.
pub data Token : Type 0 where
  lit : ℕ → Token
  ref : ℕ → ℕ → Token

abbrev pub InRange : Token → Type 0
InRange (lit c) = c < 256
InRange (ref i j) = (i < 1024) × (j < 16)

abbrev pub AllInRange : List Token → Type 0
AllInRange [] = Unit
AllInRange (t ∷ ts) = InRange t × AllInRange ts

abbrev pub encode : Token → List ℕ
encode (lit c) = 1 ∷ bits 8 c
encode (ref i j) = 0 ∷ (bits 10 i ++ bits 4 j)

abbrev pub encode_all : List Token → List ℕ
encode_all [] = []
encode_all (t ∷ ts) = encode t ++ encode_all ts

-- The window as the format has it: the byte at each position, and where the next byte goes.
pub record Window : Type 0 where
  pub at : ℕ → ℕ
  pub next : ℕ

abbrev pub write : ℕ → Window → Window
write c w = record { at = λ p. if w.next == p then c else w.at p; next = (w.next + 1) % 1024 }

-- The bytes of a copy, and the window after it: a copy may run into its own bytes.
abbrev pub expand_ref : ℕ → ℕ → Window → List ℕ × Window
expand_ref zero p w = ([], w)
expand_ref (suc n) p w =
    let c = w.at (p % 1024) in let (out, w') = expand_ref n (p + 1) (write c w) in (c ∷ out, w')

abbrev pub expand : Token → Window → List ℕ × Window
expand (lit c) w = (c ∷ [], write c w)
expand (ref i j) w = expand_ref (j + 2) i w

abbrev pub expand_all : List Token → Window → List ℕ
expand_all [] w = []
expand_all (t ∷ ts) w = let (out, w') = expand t w in out ++ expand_all ts w'

-- The array holds the window.
pub record Holds (d : Decoder) (w : Window) : Type 0 where
  pub same : (p : ℕ) → get_or d.buffer p 0 ≡ w.at p
  pub here : d.r ≡ w.next
  pub inside : d.r < 1024
  pub room : length d.buffer ≡ 2048

store-Holds : {d : Decoder} {w : Window} → Holds d w → Holds (store d) (write d.c w)
unfolding store
store-Holds {d} {w} h = record {
  same = λ p.
      get_or-set d.buffer d.r p d.c 0 (omega (arith, h.room, h.inside))
      ∙ ground (arith, h.same p, h.here);
  here = ap (λ t. (t + 1) % 1024) h.here;
  inside = omega arith;
  room = length-set d.buffer d.r d.c ∙ h.room;
}

-- The number that the bits spell, after `x`.
abbrev horner : ℕ → List ℕ → ℕ
horner x [] = x
horner x (b ∷ bs) = horner (2 * x + b) bs

-- What the decoder starts with: spaces, and behind them what the static array held.
abbrev pub initial : List ℕ → Window
initial buffer = record { at = λ p. if ltb p 1007 then 32 else get_or buffer p 0; next = 1007 }

get_or-replicate :
    (n v : ℕ) (xs : List ℕ) (p : ℕ)
    → n ≤ length xs
    → get_or (replicate n v ++ drop n xs) p 0 ≡ (if ltb p n then v else get_or xs p 0)
get_or-replicate zero v xs p h = ground arith
get_or-replicate (suc n) v [] p h = absurd (omega arith)
get_or-replicate (suc n) v (x ∷ xs) zero h = ground arith
get_or-replicate (suc n) v (x ∷ xs) (suc p) h = ground (arith, get_or-replicate n v xs p)

length-begin :
    (n v : ℕ) (xs : List ℕ) → n ≤ length xs → length (replicate n v ++ drop n xs) ≡ length xs
length-begin n v xs h = omega (
  arith,
  length-append {0} (replicate n v) (drop n xs),
  length-replicate {0} n v,
  length-drop {0} n xs,
)

initial-Holds :
    (d : Decoder)
    → length d.buffer ≡ 2048
    → Holds
        (record d {
          i = window_start;
          r = window_start;
          buffer = replicate window_start 32 ++ drop window_start d.buffer;
        })
        (initial d.buffer)
initial-Holds d h = record {
  same = λ p. get_or-replicate window_start 32 d.buffer p (omega arith);
  here = refl;
  inside = omega arith;
  room = length-begin window_start 32 d.buffer (omega arith) ∙ h;
}

module _ {S : Type 0} (next : Stage S) where
  copy_lem :
      (n k p : ℕ) (d : Decoder) (s : S) (w : Window)
      → p ≡ d.i + k
      → Holds d w
      → let (d', s') = copy next n k d s in
        let (out, w') = expand_ref n p w in (s' ≡ feed next (singles out) s) × Holds d' w'
  unfolding copy store
  copy_lem zero k p d s w e h = (refl, h)
  copy_lem (suc n) k p d s w e h =
      let x : ℕ = get_or d.buffer ((d.i + k) % window_size) 0 in
      let d1 : Decoder = record d { c = x } in
      let eq : x ≡ w.at (p % 1024) = rw e (h.same ((d.i + k) % 1024)) in
      let held : Holds d1 w = record {
        same = h.same;
        here = h.here;
        inside = h.inside;
        room = h.room;
      } in
      let ih =
        copy_lem n (k + 1) (p + 1) (store d1) (next (x ∷ []) s).1 (write x w) (omega arith)
          (store-Holds held) in
      subst
        (λ c.
          let r = copy next n (k + 1) (store d1) (next (x ∷ []) s).1 in
          let o = expand_ref n (p + 1) (write c w) in
          (r.1 ≡ feed next (singles o.0) (next (c ∷ []) s).1) × Holds r.0 o.1)
        eq ih

  -- `getbit(8, c)` and the others read a number, the highest bit first.
  read_literal :
      (v : ℕ) (rest : List ℕ) (d : Decoder) (s : S)
      → v < 256
      → feed_bits next (bits 8 v ++ rest) literal (enter literal d) s
        ≡ run_then (after next literal (record d { c = v; s = 8 }) s) (feed_bits next rest)
  unfolding feed_bits push_bit
  read_literal v rest d s h =
      ap (λ x. run_then (after next literal (record d { c = x; s = 8 }) s) (feed_bits next rest))
        (let e : horner 0 (bits 8 v) ≡ v = omega arith in e)

  read_position :
      (v : ℕ) (rest : List ℕ) (d : Decoder) (s : S)
      → v < 1024
      → feed_bits next (bits 10 v ++ rest) position (enter position d) s
        ≡ feed_bits next rest span (enter span (record d { i = v; s = 10 })) s
  unfolding feed_bits push_bit
  read_position v rest d s h =
      ap (λ x. feed_bits next rest span (enter span (record d { i = x; s = 10 })) s)
        (let e : horner 0 (bits 10 v) ≡ v = omega arith in e)

  read_span :
      (v : ℕ) (rest : List ℕ) (d : Decoder) (s : S)
      → v < 16
      → feed_bits next (bits 4 v ++ rest) span (enter span d) s ≡ (
          let (d', s') = copy next (v + 2) 0 (record d { j = v; s = 4 }) s in
          feed_bits next rest flag (enter flag d') s')
  unfolding feed_bits push_bit
  read_span v rest d s h =
      ap
        (λ x.
          let r = copy next (x + 2) 0 (record d { j = x; s = 4 }) s in
          feed_bits next rest flag (enter flag r.0) r.1)
        (let e : horner 0 (bits 4 v) ≡ v = omega arith in e)

  after-literal :
      (d : Decoder) (s : S)
      → is_negative (next (d.c ∷ []) s).0 ≡ false
      → after next literal d s ≡ going flag (enter flag (store d)) (next (d.c ∷ []) s).1
  unfolding after
  after-literal d s h = rw h

  resume_fresh : (ctx : LzssCtx) → ctx.state ≡ start → resume ctx ≡ (flag, begin ctx.dec)
  unfolding resume
  resume_fresh ctx h = rw h

  lzss_fresh :
      (bs : List ℕ) (ctx : LzssCtx) (g : Getbit) (d' : Decoder) (s s' : S)
      → ctx.state ≡ start
      → take_bytes next bs flag (begin ctx.dec) s ≡ going g d' s'
      → lzss_pipeline next bs ctx s ≡ (pos (length bs), record { state = inside g; dec = d' }, s')
  unfolding lzss_pipeline suspend
  lzss_fresh bs ctx g d' s s' h e =
      ap (λ t. suspend (length bs) ctx.state (take_bytes next bs t.0 t.1 s)) (resume_fresh ctx h)
      ∙ ap (suspend (length bs) ctx.state) e

  -- From the first bit of a token over a window the decoder gets to the first bit of the next one,
  -- over the window after it, and the next stage has the token's bytes.
  record Ready (bs rest : List ℕ) (w : Window) (d : Decoder) (s s' : S) : Type 0 where
    d' : Decoder
    holds : Holds d' w
    runs :
        feed_bits next (bs ++ rest) flag (enter flag d) s
        ≡ feed_bits next rest flag (enter flag d') s'

  module _ (fine : (b : List ℕ) (s : S) → is_negative (next b s).0 ≡ false) where
    token_lem :
        (t : Token) (rest : List ℕ) (d : Decoder) (s : S) (w : Window)
        → InRange t
        → Holds d w
        → Ready (encode t) rest (expand t w).1 d s (feed next (singles (expand t w).0) s)
    unfolding feed_bits push_bit
    token_lem (lit c) rest d s w h k =
        let d1 : Decoder = record d { c = c; s = 8 } in
        let held : Holds d1 w = record {
          same = k.same;
          here = k.here;
          inside = k.inside;
          room = k.room;
        } in
        record {
          d' = store d1;
          holds = store-Holds held;
          runs =
              read_literal c rest d s h
              ∙ ap (λ r. run_then r (feed_bits next rest)) (after-literal d1 s (fine (c ∷ []) s));
        }
    token_lem (ref i j) rest d s w h k =
        let d1 : Decoder = record d { c = 0; i = i; j = j; s = 4 } in
        let held : Holds d1 w = record {
          same = k.same;
          here = k.here;
          inside = k.inside;
          room = k.room;
        } in
        let copied = copy_lem (j + 2) 0 i d1 s w (omega arith) held in
        record {
          d' = (copy next (j + 2) 0 d1 s).0;
          holds = copied.1;
          runs =
              read_position i (bits 4 j ++ rest) (record d { c = 0; s = 1 }) s h.0
              ∙ (read_span j rest (record d { c = 0; i = i; s = 10 }) s h.1
                  ∙ ap (feed_bits next rest flag (enter flag (copy next (j + 2) 0 d1 s).0))
                      copied.0);
        }

    tokens_lem :
        (ts : List Token) (rest : List ℕ) (d : Decoder) (s : S) (w : Window)
        → AllInRange ts
        → Holds d w
        → (w' : Window) × Ready
            (encode_all ts)
            rest
            w'
            d
            s
            (feed next (singles (expand_all ts w)) s)
    tokens_lem [] rest d s w h k = (w, record { d' = d; holds = k; runs = refl })
    tokens_lem (t ∷ ts) rest d s w h k =
        let a = token_lem t (encode_all ts ++ rest) d s w h.0 k in
        let (out, w1) = expand t w in
        let (w', b) = tokens_lem ts rest a.d' (feed next (singles out) s) w1 h.1 a.holds in
        (
          w',
          record {
            d' = b.d';
            holds = b.holds;
            runs =
                ap (λ bs. feed_bits next bs flag (enter flag d) s)
                  (append_assoc (encode t) (encode_all ts) rest)
                ∙ (a.runs
                    ∙ (b.runs
                        ∙ ap (feed_bits next rest flag (enter flag b.d')) (
                            sym (
                              ap (λ bs. feed next bs s) (singles-append out (expand_all ts w1))
                              ∙ feed-append next (singles out) (singles (expand_all ts w1)) s))));
          },
        )

    -- The zeros that fill the last byte decode to nothing.
    padding :
        (n : ℕ) (d : Decoder) (s : S)
        → n < 8
        → (g : Getbit) × (d' : Decoder) × (feed_bits next (replicate n 0) flag (enter flag d) s
            ≡ going g d' s)
    unfolding feed_bits push_bit
    padding zero d s h = (_, _, refl)
    padding (suc zero) d s h = (_, _, refl)
    padding (suc (suc zero)) d s h = (_, _, refl)
    padding (suc (suc (suc zero))) d s h = (_, _, refl)
    padding (suc (suc (suc (suc zero)))) d s h = (_, _, refl)
    padding (suc (suc (suc (suc (suc zero))))) d s h = (_, _, refl)
    padding (suc (suc (suc (suc (suc (suc zero)))))) d s h = (_, _, refl)
    padding (suc (suc (suc (suc (suc (suc (suc zero))))))) d s h = (_, _, refl)
    padding (suc (suc (suc (suc (suc (suc (suc (suc n)))))))) d s h = absurd (omega arith)

    -- A fresh decoder that is given the bytes which spell a list of tokens, filled up with at most
    -- seven zero bits, hands the next stage exactly the bytes of the tokens, one at a time and in
    -- order, and takes all its input, if the next stage never fails.
    pub lzss_pipeline_lem :
        (ts : List Token) (bs : List ℕ) (n : ℕ) (ctx : LzssCtx) (s : S)
        → AllInRange ts
        → spell bs ≡ encode_all ts ++ replicate n 0
        → n < 8
        → ctx.state ≡ start
        → length ctx.dec.buffer ≡ 2048
        → (ctx' : LzssCtx) × (lzss_pipeline next bs ctx s ≡ (
          pos (length bs),
          ctx',
          feed next (singles (expand_all ts (initial ctx.dec.buffer))) s,
        ))
    unfolding begin
    lzss_pipeline_lem ts bs n ctx s r e k fresh room =
        let d0 : Decoder = record ctx.dec {
          i = window_start;
          r = window_start;
          buffer = replicate window_start 32 ++ drop window_start ctx.dec.buffer;
        } in
        let a =
          (tokens_lem ts (replicate n 0) d0 s (initial ctx.dec.buffer) r
            (initial-Holds ctx.dec room)).1 in
        let out = feed next (singles (expand_all ts (initial ctx.dec.buffer))) s in
        let (g, d', p) = padding n a.d' out k in
        (
          record { state = inside g; dec = d' },
          lzss_fresh bs ctx g d' s out fresh (
              take_bytes_lem next bs flag (begin ctx.dec) s
              ∙ (ap (λ b. feed_bits next b flag (begin ctx.dec) s) e ∙ (a.runs ∙ p))),
        )
