-- ===== src/Oidc/Padding.antt =====
-- The padding of a token's segment (`claims_from_id_token` of apps/api/kerislab/auth.py).
use Prim.Native.String.{count, ◌++◌}
use Prim.Native.Nat.{◌%◌}
use text.Mathlib.TextLemmas.{length-append}
use kerislab.Oidc.{padded}
use kerislab.Prelude.{
  concat, String, repeat, ℕ, ◌≡◌, suc, ◌+◌, ◌≤◌, arith, ◌∙◌, ◌-◌, ap, zero, refl,
}

count-repeat : (n : ℕ) → count (repeat "=" n) ≡ n
unfolding repeat
count-repeat zero = refl
count-repeat (suc n) = length-append "=" (repeat "=" n) ∙ omega (arith, count-repeat n)

count-padded :
    (payload : String) → count (padded payload) ≡ count payload + (4 - count payload % 4) % 4
unfolding padded concat
count-padded payload =
    let n = (4 - count payload % 4) % 4 in
    length-append payload (repeat "=" n ++ "")
    ∙ ap (λ k. count payload + k) (length-append (repeat "=" n) "" ∙ omega (arith, count-repeat n))

-- A padded segment has a whole number of groups of four characters, as Base64 wants it, and at most three
-- characters are added.
pub padded-whole :
    (payload : String)
    → (count (padded payload) % 4 ≡ 0)
      × (count payload ≤ count (padded payload))
      × (count (padded payload) ≤ count payload + 3)
padded-whole payload =
    let e = count-padded payload in (omega (arith, e), omega (arith, e), omega (arith, e))
