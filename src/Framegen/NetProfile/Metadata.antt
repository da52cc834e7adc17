-- ===== src/Framegen/NetProfile/Metadata.antt =====
-- Which headers the reader of src/framegen/net_profile.hpp takes.
use gamescope.Common.{List, [], ap, arith, length, refl, suc, zero, ℕ, ◌↔◌, ◌∙◌, ◌∷◌, ◌≡◌, ◌≤◌}
use gamescope.Framegen.NetProfile.{
  layer_words, layers_match, net_profile_metadata, net_profile_metadata_version,
}

-- Tuples of words, as lists.
abbrev Words : ℕ → Type 0
Words zero = Unit
Words (suc n) = ℕ × Words n

abbrev list_of : (n : ℕ) → Words n → List ℕ
list_of zero w = []
list_of (suc n) (x, w) = x ∷ list_of n w

shape : (n : ℕ) (xs : List ℕ) → length xs ≡ n → (w : Words n) × (xs ≡ list_of n w)
shape zero [] h = (tt, refl)
shape zero (x ∷ xs) h = absurd (omega arith)
shape (suc n) [] h = absurd (omega arith)
shape (suc n) (x ∷ xs) h = let (w, e) = shape n xs (omega arith) in ((x, w), ap (λ ys. x ∷ ys) e)

read_twelve :
    (w : Words 12) (v : ℕ)
    → 1 ≤ v
    → net_profile_metadata_version (list_of 12 w) ≡ v
    → (list_of 12 w ≡ net_profile_metadata v) × (v ≤ 3)
unfolding net_profile_metadata_version net_profile_metadata layers_match layer_words
read_twelve (a, (b, (c, (d, (e, (f, (g, (h, (i, (j, (k, (l, u)))))))))))) v ge r = ground arith

written : (v : ℕ) → 1 ≤ v → v ≤ 3 → net_profile_metadata_version (net_profile_metadata v) ≡ v
unfolding net_profile_metadata_version net_profile_metadata layers_match layer_words
written v low high = ground arith

twelve :
    (words : List ℕ) (v : ℕ) → 1 ≤ v → net_profile_metadata_version words ≡ v → length words ≡ 12
unfolding net_profile_metadata_version
twelve words v ge r = ground arith

-- The reader gives a version v other than 0 exactly if v is at most 3 and the words are those that
-- the writer makes for v.
metadata_version_iff :
    (words : List ℕ) (v : ℕ)
    → 1 ≤ v
    → (net_profile_metadata_version words ≡ v) ↔ ((v ≤ 3) × (words ≡ net_profile_metadata v))
metadata_version_iff words v ge = (
  λ r.
      let (w, e) = shape 12 words (twelve words v ge r) in
      let (same, high) = read_twelve w v ge (rw e at r) in (high, e ∙ same),
  λ (high, e). rw e (written v ge high),
)
