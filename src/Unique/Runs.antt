-- ===== src/Unique/Runs.antt =====
-- What ToFront and UniqueSorted of sutils/unique.go keep.
use gosutils.Prelude.{
  ℕ, zero, suc, ◌+◌, ◌≡◌, refl, sym, arith, ap, ◌∙◌, Bool, true, false, List, [], ◌∷◌, ◌++◌,
  if◌then◌else◌, Option, some, length, take, get_elem?, set, inl, inr, Bool-cases, append_assoc,
  append-nil, length-append,
}
use gosutils.Unique.Front.{less_at, swap, front_loop, to_front, unique_sorted}

module _ {A : Type 0} where
  get_elem?-append :
      (xs ys : List A) (y : A) (k : ℕ) → k ≡ length xs → get_elem? (xs ++ y ∷ ys) k ≡ some y
  get_elem?-append [] ys y zero e = refl
  get_elem?-append [] ys y (suc k) e = absurd (omega arith)
  get_elem?-append (x ∷ xs) ys y zero e = absurd (omega arith)
  get_elem?-append (x ∷ xs) ys y (suc k) e = get_elem?-append xs ys y k (omega arith)

  set-append :
      (xs ys : List A) (y z : A) (k : ℕ) → k ≡ length xs → set (xs ++ y ∷ ys) k z ≡ xs ++ z ∷ ys
  set-append [] ys y z zero e = refl
  set-append [] ys y z (suc k) e = absurd (omega arith)
  set-append (x ∷ xs) ys y z zero e = absurd (omega arith)
  set-append (x ∷ xs) ys y z (suc k) e = ap (λ l. x ∷ l) (set-append xs ys y z k (omega arith))

  take-append : (xs ys : List A) (k : ℕ) → k ≡ length xs → take k (xs ++ ys) ≡ xs
  take-append [] ys zero e = refl
  take-append [] ys (suc k) e = absurd (omega arith)
  take-append (x ∷ xs) ys zero e = absurd (omega arith)
  take-append (x ∷ xs) ys (suc k) e = ap (λ l. x ∷ l) (take-append xs ys k (omega arith))

module _ {A : Type 0} (less : A → A → Bool) where
  -- The elements that are above the last one that was kept.
  abbrev pub kept_after : A → List A → List A
  kept_after x [] = []
  kept_after x (y ∷ ys) =
      let next = y ∷ kept_after y ys in
      let same = kept_after x ys in if less x y then next else same

  -- The first element of each run.
  abbrev pub runs : List A → List A
  runs [] = []
  runs (x ∷ xs) = x ∷ kept_after x xs

  pub kept_after-above :
      (x y : A) (ys : List A) → less x y ≡ true → kept_after x (y ∷ ys) ≡ y ∷ kept_after y ys
  kept_after-above x y ys e = rw e refl

  pub kept_after-same :
      (x y : A) (ys : List A) → less x y ≡ false → kept_after x (y ∷ ys) ≡ kept_after x ys
  kept_after-same x y ys e = rw e refl

  -- Two rounds of the loop: with a swap, and without.
  step_up :
      (todo k i : ℕ) (xs ys : List A)
      → less_at less xs k i ≡ some true
      → swap less xs (k + 1) i ≡ some ys
      → front_loop less (suc todo) xs k i ≡ front_loop less todo ys (k + 1) (i + 1)
  unfolding front_loop
  step_up todo k i xs ys e e' = rw (front_loop, e, e') refl

  step_on :
      (todo k i : ℕ) (xs : List A)
      → less_at less xs k i ≡ some false
      → front_loop less (suc todo) xs k i ≡ front_loop less todo xs k (i + 1)
  unfolding front_loop
  step_on todo k i xs e = rw (front_loop, e) refl

  less_at-append :
      (kept junk rest : List A) (x y : A) (k i : ℕ)
      → k ≡ length kept
      → i ≡ length kept + 1 + length junk
      → less_at less (kept ++ x ∷ (junk ++ y ∷ rest)) k i ≡ some (less x y)
  less_at-append kept junk rest x y k i ek ei =
      let first = get_elem?-append kept (junk ++ y ∷ rest) x k ek in
      let second : get_elem? (kept ++ x ∷ (junk ++ y ∷ rest)) i ≡ some y =
        ap (λ l. get_elem? l i) (sym (append_assoc kept (x ∷ junk) (y ∷ rest)))
        ∙ get_elem?-append (kept ++ x ∷ junk) rest y i
            (omega (arith, length-append kept (x ∷ junk))) in
      rw (first, second) refl

  swap-same :
      (before after : List A) (y : A) (k : ℕ)
      → k ≡ length before
      → swap less (before ++ y ∷ after) k k ≡ some (before ++ y ∷ after)
  swap-same before after y k e =
      let once = set-append before after y y k e in
      rw (get_elem?-append before after y k e) (ap some (rw once once))

  swap-append :
      (before junk after : List A) (j y : A) (k i : ℕ)
      → k ≡ length before
      → i ≡ length before + 1 + length junk
      → swap less (before ++ j ∷ (junk ++ y ∷ after)) k i ≡ some (before ++ y ∷ (junk ++ j ∷ after))
  swap-append before junk after j y k i ek ei =
      let first = get_elem?-append before (junk ++ y ∷ after) j k ek in
      let second : get_elem? (before ++ j ∷ (junk ++ y ∷ after)) i ≡ some y =
        ap (λ l. get_elem? l i) (sym (append_assoc before (j ∷ junk) (y ∷ after)))
        ∙ get_elem?-append (before ++ j ∷ junk) after y i
            (omega (arith, length-append before (j ∷ junk))) in
      let written : set (set (before ++ j ∷ (junk ++ y ∷ after)) k y) i j
          ≡ before ++ y ∷ (junk ++ j ∷ after) =
        ap (λ l. set l i j)
          (set-append before (junk ++ y ∷ after) j y k ek
            ∙ sym (append_assoc before (y ∷ junk) (y ∷ after)))
        ∙ set-append (before ++ y ∷ junk) after y j i
            (omega (arith, length-append before (y ∷ junk)))
        ∙ append_assoc before (y ∷ junk) (j ∷ after) in
      rw (first, second) (ap some written)

  -- The swap of a round puts `y` behind `x`.
  swap-up :
      (kept junk rest : List A) (x y : A) (k i : ℕ)
      → k ≡ length kept + 1
      → i ≡ length kept + 1 + length junk
      → (junk2 : List A) × (length junk2 ≡ length junk)
        × (swap less (kept ++ x ∷ (junk ++ y ∷ rest)) k i
            ≡ some ((kept ++ x ∷ []) ++ y ∷ (junk2 ++ rest)))
  swap-up kept [] rest x y k i ek ei =
      let front = kept ++ x ∷ [] in
      (
        [],
        refl,
        ap (λ l. swap less l k i) (sym (append_assoc kept (x ∷ []) (y ∷ rest)))
            ∙ ap (λ n. swap less (front ++ y ∷ rest) k n) (omega arith)
            ∙ swap-same front rest y k (omega (arith, length-append kept (x ∷ []))),
      )
  swap-up kept (j ∷ junk) rest x y k i ek ei =
      let front = kept ++ x ∷ [] in
      (
        junk ++ j ∷ [],
        omega (arith, length-append junk (j ∷ [])),
        ap (λ l. swap less l k i) (sym (append_assoc kept (x ∷ []) (j ∷ (junk ++ y ∷ rest))))
            ∙ swap-append front junk rest j y k i (omega (arith, length-append kept (x ∷ [])))
                (omega (arith, length-append kept (x ∷ [])))
            ∙ ap (λ l. some (front ++ y ∷ l)) (sym (append_assoc junk (j ∷ []) rest)),
      )

  -- The loop ends, with `front` at the front and its length.
  abbrev Ends : Option (List A × ℕ) → List A → Type 0
  Ends r front = (junk : List A) × (r ≡ some (front ++ junk, length front))

  -- The loop, with `kept ++ x ∷ []` at the front, then `junk`, then what is to be read.
  front_loop-kept :
      (todo : ℕ) (kept junk rest : List A) (x : A) (k i : ℕ)
      → todo ≡ length rest
      → k ≡ length kept
      → i ≡ length kept + 1 + length junk
      → Ends (front_loop less todo (kept ++ x ∷ (junk ++ rest)) k i) (kept ++ x ∷ kept_after x rest)
  unfolding front_loop
  front_loop-kept zero kept junk [] x k i et ek ei = (
    junk,
    ap (λ l. some (l, k + 1))
          (ap (λ l. kept ++ x ∷ l) (append-nil junk) ∙ sym (append_assoc kept (x ∷ []) junk))
        ∙ ap (λ n. some ((kept ++ x ∷ []) ++ junk, n)) (omega (arith, length-append kept (x ∷ []))),
  )
  front_loop-kept zero kept junk (y ∷ rest) x k i et ek ei = absurd (omega arith)
  front_loop-kept (suc todo) kept junk [] x k i et ek ei = absurd (omega arith)
  front_loop-kept (suc todo) kept junk (y ∷ rest) x k i et ek ei = elim (Bool-cases (less x y)) [
    | inl e ↦
        let read = less_at-append kept junk rest x y k i ek ei ∙ ap some e in
        let (junk2, len, moved) =
          swap-up kept junk rest x y (k + 1) i (omega arith) (omega arith) in
        let (junk', end) =
          front_loop-kept todo (kept ++ x ∷ []) junk2 rest y (k + 1) (i + 1) (omega arith)
            (omega (arith, length-append kept (x ∷ [])))
            (omega (arith, len, length-append kept (x ∷ []))) in
        (
          junk',
          step_up todo k i (kept ++ x ∷ (junk ++ y ∷ rest))
                ((kept ++ x ∷ []) ++ y ∷ (junk2 ++ rest)) read moved
              ∙ end
              ∙ ap (λ l. some (l ++ junk', length l))
                  (append_assoc kept (x ∷ []) (y ∷ kept_after y rest)
                    ∙ ap (λ l. kept ++ x ∷ l) (sym (kept_after-above x y rest e))),
        )
    | inr e ↦
        let read = less_at-append kept junk rest x y k i ek ei ∙ ap some e in
        let (junk', end) =
          front_loop-kept todo kept (junk ++ y ∷ []) rest x k (i + 1) (omega arith) ek
            (omega (arith, length-append junk (y ∷ []))) in
        (
          junk',
          step_on todo k i (kept ++ x ∷ (junk ++ y ∷ rest)) read
              ∙ ap (λ l. front_loop less todo (kept ++ x ∷ l) k (i + 1))
                  (sym (append_assoc junk (y ∷ []) rest))
              ∙ end
              ∙ ap (λ l. some ((kept ++ x ∷ l) ++ junk', length (kept ++ x ∷ l)))
                  (sym (kept_after-same x y rest e)),
        )
  ]

  to_front-runs : (xs : List A) → Ends (to_front less xs) (runs xs)
  unfolding to_front
  to_front-runs [] = ([], refl)
  to_front-runs (x ∷ xs) = front_loop-kept (length xs) [] [] xs x 0 1 refl refl refl

  -- UniqueSorted reads and writes inside the slice and leaves the first element of each run: the
  -- elements that are above the last one before them that is left.
  pub unique_sorted-runs : (xs : List A) → unique_sorted less xs ≡ some (runs xs)
  unfolding unique_sorted
  unique_sorted-runs xs =
      let (junk, e) = to_front-runs xs in
      rw e (ap some (take-append (runs xs) junk (length (runs xs)) refl))
