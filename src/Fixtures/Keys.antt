-- ===== src/Fixtures/Keys.antt =====
-- A signer for the tests, whose signatures the back end of `Fixtures` accepts.
use upkit.Prelude.{
  ◌≡◌, refl, ap, Bool, true, false, [], ◌∷◌, get_or, replicate, if◌then◌else◌, ◌==◌,
}
use upkit.Errors.{pull_success, generic_error, is_error}
use upkit.Security.Signing.{Signer}
use upkit.Security.Signing.RoundTrip.{Signs, Local}
use upkit.Fixtures.{layout, crypto}

-- A signature is the first byte of the key, then zeros.
abbrev pub signer : Signer
signer = record {
  ecc_sign = λ k hash n. (pull_success, get_or k 0 0 ∷ replicate 63 0);
  curve_size = 32;
}

pub no_error_then :
    (b : Bool) → b ≡ true → is_error (if b then pull_success else generic_error) ≡ false
no_error_then true h = refl
no_error_then false h = cc

abbrev pub signs : Signs crypto signer
signs = record {
  belongs = λ k x y. get_or x 0 0 == get_or k 0 0;
  curve = refl;
  parts = λ k hash n h. refl;
  valid = λ k x y hash n b h. no_error_then (get_or x 0 0 == get_or k 0 0) b;
}

abbrev pub local : Local layout
local = record {
  vendor = λ m n h.
      ap
        (λ v.
          v.version ∷ v.appid ∷ v.size ∷ v.offset ∷ get_or v.digest 0 0 ∷ get_or v.digest 1 0 ∷ [])
        h;
  server = λ m n h. ap (λ v. v.prop_size ∷ []) h;
}
