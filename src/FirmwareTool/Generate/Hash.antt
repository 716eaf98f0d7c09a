-- ===== src/FirmwareTool/Generate/Hash.antt =====
-- utils/firmware_tool/commands/manifest.cpp: the digest of the file.
use upkit.Prelude.{
  ℕ, zero, suc, ◌<◌, ◌≤◌, ◌≡◌, refl, sym, ap, subst, ◌∙◌, Bool, false, List, ◌++◌, append_assoc,
  Option, some, if◌then◌else◌, leb, length, take, drop, take-append-drop, take_all, length-drop,
  arith, Bool-cases, leb→le, inl, inr,
}
use upkit.Errors.{PullError, pull_success, is_error}
use upkit.Memory.Manifest.{Layout}
use upkit.Security.{Crypto}
use upkit.Security.Verifier.Digest.{Streaming}
use upkit.Security.Signing.{Signer}
use upkit.FirmwareTool.Generate.{hash_loop}

not_leb : (a b : ℕ) → leb a b ≡ false → b ≤ a
not_leb a b h = ground arith

module _ {D : Type 0} (crypto : Crypto D) (layout : Layout) (signer : Signer) where
  -- What the loop has taken in when it ends without an error.
  pub record Hashed (sm : Streaming crypto) (file : List ℕ) (d : D) (o : Option (PullError × D))
      : Type 0 where
    pub err : PullError
    pub ctx : D
    pub ends : o ≡ some (err, ctx)
    pub taken : is_error err ≡ false → sm.absorbed ctx ≡ sm.absorbed d ++ file
    pub fine :
        ((c : D) (xs : List ℕ) → is_error (crypto.digest_update c xs).0 ≡ false)
        → is_error err ≡ false

  pub hash_loop_lem :
      (sm : Streaming crypto) (fuel : ℕ) (file : List ℕ) (d : D)
      → length file < fuel
      → Hashed sm file d (hash_loop crypto layout signer fuel file d)
  unfolding hash_loop
  hash_loop_lem sm zero file d h = absurd (omega arith)
  hash_loop_lem sm (suc fuel) file d h =
      let err = (crypto.digest_update d (take 4096 file)).0 in
      let d1 = (crypto.digest_update d (take 4096 file)).1 in
      let rest = hash_loop crypto layout signer fuel (drop 4096 file) d1 in
      let all = λ (c e : Bool).
        if c then some (err, d1) else (if e then rest else some (pull_success, d1)) in
      elim (Bool-cases (is_error err)) [
        | inl p ↦
            subst (λ c. Hashed sm file d (all c (leb 4096 (length file)))) (sym p)
              (record {
                err = err;
                ctx = d1;
                ends = refl;
                taken = λ q. absurd (ground arith);
                fine = λ f. f d (take 4096 file);
              })
        | inr p ↦
            subst (λ c. Hashed sm file d (all c (leb 4096 (length file)))) (sym p)
              (elim (Bool-cases (leb 4096 (length file))) [
                | inl l ↦
                    let ih = hash_loop_lem sm fuel (drop 4096 file) d1 (
                      let n : 4096 ≤ length file = leb→le 4096 (length file) l in
                      omega (arith, length-drop 4096 file)) in
                    subst (λ e. Hashed sm file d (all false e)) (sym l)
                      (record {
                        err = ih.err;
                        ctx = ih.ctx;
                        ends = ih.ends;
                        taken = λ q.
                            ih.taken q
                            ∙ (ap (λ t. t ++ drop 4096 file) (sm.update d (take 4096 file) p)
                                ∙ (append_assoc (sm.absorbed d) (take 4096 file) (drop 4096 file)
                                    ∙ ap (λ t. sm.absorbed d ++ t) (take-append-drop 4096 file)));
                        fine = ih.fine;
                      })
                | inr l ↦
                    let n : length file ≤ 4096 = not_leb 4096 (length file) l in
                    subst (λ e. Hashed sm file d (all false e)) (sym l)
                      (record {
                        err = pull_success;
                        ctx = d1;
                        ends = refl;
                        taken = λ q.
                            sm.update d (take 4096 file) p
                            ∙ ap (λ t. sm.absorbed d ++ t) (take_all 4096 file n);
                        fine = λ f. refl;
                      })
              ])
      ]
