-- ===== src/Bufcopy/Tests.antt =====
-- Runs of the copy.
use gosutils.Prelude.{ℕ, ◌≡◌, refl, Option, none, some, [], ◌∷◌, length, arith, ltb, if◌then◌else◌}
use gosutils.Prelude.Text.{Text, codes}
use gosutils.Bufcopy.{more, Reader, short_write, copy}
use gosutils.Bufcopy.Copied.{keeping, Copied, bytes, copy-Copied}

-- A writer that takes four bytes at most and gives no error.
abbrev four : Text → Text → ℕ × Option ℕ
four p w = (if ltb (length p) 4 then length p else 4, none)

abbrev two_reads : Reader ℕ
two_reads = (codes "abc", more) ∷ (codes "defgh", more) ∷ []

copy_short : copy (keeping four) none none two_reads [] ≡ (7, some short_write, codes "abcdefg")
unfolding copy
copy_short = refl

copy-Copied_example : Copied (bytes two_reads) 0 [] (copy (keeping four) none none two_reads [])
copy-Copied_example = copy-Copied four (λ p w. ground arith) two_reads []
