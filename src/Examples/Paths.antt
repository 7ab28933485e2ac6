-- ===== src/Examples/Paths.antt =====
-- Paths as the program's calls see them.
use ovm_next.Base.{codes, [], ◌∷◌, ◌≡◌, refl}
use ovm_next.FilePath.{is_abs, clean, join, abs}

clean_tests :
    (clean (codes "/a//b/./../c/") ≡ codes "/a/c")
    × (clean (codes "../../x") ≡ codes "../../x")
    × (clean (codes "/../x") ≡ codes "/x")
    × (clean [] ≡ codes ".")
    × (join ([] ∷ codes "a" ∷ [] ∷ codes "b" ∷ []) ≡ codes "a/b")
    × (abs (codes "/w") (codes "x/..") ≡ codes "/w")
unfolding abs clean join is_abs
clean_tests = (refl, refl, refl, refl, refl, refl)
