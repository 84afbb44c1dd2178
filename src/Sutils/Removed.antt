-- ===== src/Sutils/Removed.antt =====
-- What PathRemove and PathCleanup leave of a list of paths (sutils/sutils.go).
use gosutils.Prelude.{
  ℕ, ◌≡◌, ◌≢◌, refl, ap, ◌∙◌, arith, Bool, true, false, not, ◌&&◌, List, [], ◌∷◌, ◌++◌,
  if◌then◌else◌, append-nil, Bool-cases, inl, inr, Bool-cases, inl, inr,
}
use gosutils.Prelude.Text.{Text, text_eq, text_eq→eq, All, HasNo}
use gosutils.Sutils.Paths.{
  split_paths, join_paths, has, remove_rest, remove_first, path_remove, cleanup_loop, path_cleanup,
}

-- The paths that are not the given one.
unfoldable pub others : Text → List Text → List Text
others x [] = []
others x (p ∷ ps) = let rest = others x ps in if text_eq p x then rest else p ∷ rest

split_paths-HasNo : (sep : ℕ) (t : Text) → All (HasNo sep) (split_paths sep t)
unfolding split_paths
split_paths-HasNo sep [] = (tt, tt)
split_paths-HasNo sep (c ∷ cs) = ground (arith, split_paths-HasNo sep cs)

pub split_paths-plain : (sep : ℕ) (p : Text) → HasNo sep p → split_paths sep p ≡ p ∷ []
unfolding split_paths
split_paths-plain sep [] h = refl
split_paths-plain sep (c ∷ cs) h = ground (arith, split_paths-plain sep cs h.1)

pub split_paths-sep :
    (sep : ℕ) (p t : Text) → HasNo sep p → split_paths sep (p ++ sep ∷ t) ≡ p ∷ split_paths sep t
unfolding split_paths
split_paths-sep sep [] t h = ground arith
split_paths-sep sep (c ∷ cs) t h = ground (arith, split_paths-sep sep cs t h.1)

-- What stands behind the first path.
split_paths-remove_rest :
    (sep : ℕ) (x p : Text) (ps : List Text)
    → HasNo sep p
    → All (HasNo sep) ps
    → split_paths sep (p ++ remove_rest sep x ps) ≡ p ∷ others x ps
unfolding remove_rest others
split_paths-remove_rest sep x p [] h hs = rw (append-nil p) (split_paths-plain sep p h)
split_paths-remove_rest sep x p (q ∷ qs) h hs = elim (Bool-cases (text_eq q x)) [
  | inl e ↦ rw e (split_paths-remove_rest sep x p qs h hs.1)
  | inr e ↦ rw e (
      split_paths-sep sep p (q ++ remove_rest sep x qs) h
      ∙ ap (λ t. p ∷ t) (split_paths-remove_rest sep x q qs hs.0 hs.1))
]

-- Whether the first path of a list is the given one.
unfoldable pub begins_with : Text → List Text → Bool
begins_with x [] = false
begins_with x (p ∷ ps) = text_eq p x

split_paths-remove_first :
    (sep : ℕ) (x : Text) (ps : List Text)
    → All (HasNo sep) ps
    → ps ≢ []
    → split_paths sep (remove_first sep x ps)
      ≡ (if begins_with x ps then [] ∷ others x ps else others x ps)
unfolding others begins_with
split_paths-remove_first sep x [] hs ne = absurd (ne refl)
split_paths-remove_first sep x (p ∷ ps) hs ne = elim (Bool-cases (text_eq p x)) [
  | inl e ↦ rw e (split_paths-remove_rest sep x [] ps tt hs.1)
  | inr e ↦ rw e (split_paths-remove_rest sep x p ps hs.0 hs.1)
]

split_paths-ne-nil : (sep : ℕ) (t : Text) → split_paths sep t ≢ []
unfolding split_paths
split_paths-ne-nil sep [] = ground arith
split_paths-ne-nil sep (c ∷ cs) = ground (arith, split_paths-ne-nil sep cs)

-- The paths of what PathRemove gives are those of the list without the given one, but if that one was
-- first, an empty path stands in its place.
pub split_paths-path_remove :
    (sep : ℕ) (path x : Text)
    → path ≢ []
    → split_paths sep (path_remove sep path x) ≡ (
        if begins_with x (split_paths sep path)
        then [] ∷ others x (split_paths sep path)
        else others x (split_paths sep path))
unfolding path_remove
split_paths-path_remove sep [] x ne = absurd (ne refl)
split_paths-path_remove sep (c ∷ cs) x ne =
    split_paths-remove_first sep x (split_paths sep (c ∷ cs)) (split_paths-HasNo sep (c ∷ cs))
      (split_paths-ne-nil sep (c ∷ cs))

split_paths-join_paths :
    (sep : ℕ) (p : Text) (ps : List Text)
    → All (HasNo sep) (p ∷ ps)
    → split_paths sep (join_paths sep (p ∷ ps)) ≡ p ∷ ps
unfolding join_paths
split_paths-join_paths sep p [] h = split_paths-plain sep p h.0
split_paths-join_paths sep p (q ∷ ps) h =
    split_paths-sep sep p (join_paths sep (q ∷ ps)) h.0
    ∙ ap (λ t. p ∷ t) (split_paths-join_paths sep q ps h.1)

module _ (exists : Text → Bool) where
  -- Paths that exist, none of them seen or given twice.
  Kept : List Text → List Text → Type 0
  Kept seen [] = Unit
  Kept seen (p ∷ ps) = (has seen p ≡ false) × (exists p ≡ true) × Kept (p ∷ seen) ps

  cleanup_loop-Kept : (seen ps : List Text) → Kept seen (cleanup_loop exists seen ps)
  unfolding cleanup_loop Kept
  cleanup_loop-Kept seen [] = tt
  cleanup_loop-Kept seen (p ∷ ps) =
      ground (arith, cleanup_loop-Kept (p ∷ seen) ps, cleanup_loop-Kept seen ps)

  Kept-cleanup_loop : (seen ps : List Text) → Kept seen ps → cleanup_loop exists seen ps ≡ ps
  unfolding cleanup_loop Kept
  Kept-cleanup_loop seen [] h = refl
  Kept-cleanup_loop seen (p ∷ ps) h = ground (arith, Kept-cleanup_loop (p ∷ seen) ps h.2)

  cleanup_loop-HasNo :
      (sep : ℕ) (seen ps : List Text)
      → All (HasNo sep) ps
      → All (HasNo sep) (cleanup_loop exists seen ps)
  unfolding cleanup_loop
  cleanup_loop-HasNo sep seen [] h = tt
  cleanup_loop-HasNo sep seen (p ∷ ps) h =
      ground (arith, cleanup_loop-HasNo sep (p ∷ seen) ps h.1, cleanup_loop-HasNo sep seen ps h.1)

  cleanup-join_paths :
      (sep : ℕ) (ps : List Text)
      → exists [] ≡ false
      → All (HasNo sep) ps
      → Kept [] ps
      → join_paths sep (cleanup_loop exists [] (split_paths sep (join_paths sep ps)))
        ≡ join_paths sep ps
  unfolding join_paths split_paths cleanup_loop
  cleanup-join_paths sep [] none_there h k = ground arith
  cleanup-join_paths sep (p ∷ ps) none_there h k = ap (join_paths sep) (
      ap (cleanup_loop exists []) (split_paths-join_paths sep p ps h)
      ∙ Kept-cleanup_loop [] (p ∷ ps) k)

  has-cleanup_loop :
      (seen ps : List Text) (p : Text)
      → has (cleanup_loop exists seen ps) p ≡ (has ps p && exists p && not (has seen p))
  unfolding cleanup_loop
  has-cleanup_loop seen [] p = refl
  has-cleanup_loop seen (q ∷ ps) p =
      ground (arith, text_eq→eq q p, has-cleanup_loop (q ∷ seen) ps p, has-cleanup_loop seen ps p)

  has-split_join :
      (sep : ℕ) (ps : List Text) (p : Text)
      → p ≢ []
      → All (HasNo sep) ps
      → has (split_paths sep (join_paths sep ps)) p ≡ has ps p
  unfolding join_paths split_paths
  has-split_join sep [] p ne h = ground (arith, text_eq→eq [] p)
  has-split_join sep (q ∷ ps) p ne h = ap (λ ts. has ts p) (split_paths-join_paths sep q ps h)

  -- As long as the same paths exist and the empty path is not one of them: PathCleanup keeps of the
  -- paths those that exist and no other, and cleaning a list again leaves it as it is.
  pub path_cleanup-clean :
      (sep : ℕ) (path p : Text)
      → exists [] ≡ false
      → p ≢ []
      → (has (split_paths sep (path_cleanup sep exists path)) p
          ≡ (has (split_paths sep path) p && exists p))
        × (path_cleanup sep exists (path_cleanup sep exists path) ≡ path_cleanup sep exists path)
  unfolding path_cleanup
  path_cleanup-clean sep path p none_there ne =
      let ps = split_paths sep path in
      let kept = cleanup_loop exists [] ps in
      let plain = cleanup_loop-HasNo sep [] ps (split_paths-HasNo sep path) in
      (
        has-split_join sep kept p ne plain ∙ ground (arith, has-cleanup_loop [] ps p),
        cleanup-join_paths sep kept none_there plain (cleanup_loop-Kept [] ps),
      )
