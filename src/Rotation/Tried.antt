-- ===== src/Rotation/Tried.antt =====
-- What RotateLogCheck does to the backups that it has chosen, and what it reports of it.
use gosutils.Prelude.{
  ℕ, ◌≡◌, ◌≢◌, refl, sym, ap, ◌∙◌, true, not, if◌then◌else◌, List, [], ◌∷◌, ◌++◌, map, Option, none,
  some, ◌⊎◌, inl, inr, append_assoc, append-nil, arith,
}
use gosutils.Prelude.Int.{ℤ, pos, ltb_ℤ}
use gosutils.Prelude.Text.{Text}
use gosutils.Rotation.{LogInfo, MaxAge, Chosen, choose, compress_suffix}
use gosutils.Rotation.Names.{Paths, backup_name, get_old_log_files}
use gosutils.Rotation.Check.{
  Host, size, ended, copy_file, remove_loop, compress_one, compress_loop, own_zip, on_zipped,
  as_failed, clean_up, on_old, on_truncated, on_backup, on_stat, rotate_log_check,
}

-- A backup that was given to os.Remove, or to GzipFile.
pub data Call : Type 0 where
  removed zipped : Text → Call

-- A view of the state that records those two calls, failed or not, and no other.
pub record Records {S E Info : Type 0} (h : Host S E Info) : Type 0 where
  pub calls : S → List Call
  pub calls-remove : (p : Text) (s : S) → calls (h.remove p s).1 ≡ calls s ++ removed p ∷ []
  pub calls-gzip_file :
      (z p : Text) (s : S) → calls (h.gzip_file z p s).1 ≡ calls s ++ zipped p ∷ []
  pub calls-chown : (p : Text) (i : Info) (s : S) → calls (h.chown p i s).1 ≡ calls s
  pub calls-zip_post_hook : (p : Text) (s : S) → calls (h.zip_post_hook p s) ≡ calls s

module _ {S E Info : Type 0} (h : Host S E Info) (paths : Paths) (r : Records h) where
  open r use {calls, calls-remove, calls-gzip_file, calls-chown, calls-zip_post_hook}

  abbrev pub removals : Text → List LogInfo → List Call
  removals dir files = map (λ (f : LogInfo). removed (paths.join dir f.name)) files

  abbrev pub zips : Text → List LogInfo → List Call
  zips dir files = map (λ (f : LogInfo). zipped (paths.join dir f.name)) files

  -- Every file was removed, one after the other.
  abbrev pub AllRemoved : Text → List LogInfo → S → Type 0
  AllRemoved dir [] s = Unit
  AllRemoved dir (f ∷ files) s =
      ((h.remove (paths.join dir f.name) s).0 ≡ none)
      × AllRemoved dir files (h.remove (paths.join dir f.name) s).1

  -- Every file was compressed, in states that follow each other.
  abbrev pub AllZipped : Text → List LogInfo → S → Type 0
  AllZipped dir [] s = Unit
  AllZipped dir (f ∷ files) s =
      ((h.gzip_file (paths.join dir f.name ++ compress_suffix) (paths.join dir f.name) s).0 ≡ none)
      × AllZipped dir files (compress_one h paths (paths.join dir f.name) none s).1

  remove_loop-calls :
      (dir : Text) (files : List LogInfo) (err : Option E) (s : S)
      → calls (remove_loop h paths dir files err s).1 ≡ calls s ++ removals dir files
  unfolding remove_loop
  remove_loop-calls dir [] err s = sym (append-nil (calls s))
  remove_loop-calls dir (f ∷ files) err s =
      remove_loop-calls dir files _ _
      ∙ ap (λ c. c ++ removals dir files) (calls-remove (paths.join dir f.name) s)
      ∙ append_assoc (calls s) (removed (paths.join dir f.name) ∷ []) (removals dir files)

  own_zip-calls :
      (zipname : Text) (err : Option E) (i : E ⊎ Info) (s : S)
      → calls (own_zip h paths zipname err i s).1 ≡ calls s
  own_zip-calls zipname none (inr i) s = calls-chown zipname i s
  own_zip-calls zipname none (inl e) s = refl
  own_zip-calls zipname (some err) i s = refl

  on_zipped-calls :
      (zipname : Text) (z : Option E × S) → calls (on_zipped h paths zipname z) ≡ calls z.1
  on_zipped-calls zipname (none, s) = calls-zip_post_hook zipname s
  on_zipped-calls zipname (some err, s) = refl

  compress_loop-calls :
      (dir : Text) (files : List LogInfo) (err : Option E) (s : S)
      → calls (compress_loop h paths dir files err s).1 ≡ calls s ++ zips dir files
  unfolding compress_loop
  compress_loop-calls dir [] err s = sym (append-nil (calls s))
  compress_loop-calls dir (f ∷ files) err s =
      let fn = paths.join dir f.name in
      compress_loop-calls dir files _ _
      ∙ ap (λ c. c ++ zips dir files)
          (own_zip-calls (fn ++ compress_suffix) _ _ _
            ∙ on_zipped-calls (fn ++ compress_suffix) _
            ∙ calls-gzip_file (fn ++ compress_suffix) fn s)
      ∙ append_assoc (calls s) (zipped fn ∷ []) (zips dir files)

  remove_loop-none :
      (dir : Text) (files : List LogInfo) (err : Option E) (s : S)
      → (remove_loop h paths dir files err s).0 ≡ none
      → (err ≡ none) × AllRemoved dir files s
  unfolding remove_loop
  remove_loop-none dir [] err s e = (e, tt)
  remove_loop-none dir (f ∷ files) none s e =
      let (here, rest) = remove_loop-none dir files _ _ e in (refl, (here, rest))
  remove_loop-none dir (f ∷ files) (some err) s e =
      let (here, rest) = remove_loop-none dir files _ _ e in absurd (ground arith)

  some_here : {err : E} → some err ≢ none
  some_here e = cc

  own_zip-none :
      (zipname : Text) (err : Option E) (i : E ⊎ Info) (s : S)
      → (own_zip h paths zipname err i s).0 ≡ none
      → err ≡ none
  own_zip-none zipname none i s e = refl
  own_zip-none zipname (some err) i s e = absurd (ground arith)

  compress_loop-none :
      (dir : Text) (files : List LogInfo) (err : Option E) (s : S)
      → (compress_loop h paths dir files err s).0 ≡ none
      → (err ≡ none) × AllZipped dir files s
  unfolding compress_loop
  compress_loop-none dir [] err s e = (e, tt)
  compress_loop-none dir (f ∷ files) none s e =
      let (here, rest) = compress_loop-none dir files _ _ e in
      (refl, (own_zip-none (paths.join dir f.name ++ compress_suffix) _ _ _ here, rest))
  compress_loop-none dir (f ∷ files) (some err) s e =
      let (here, rest) = compress_loop-none dir files _ _ e in absurd (some_here here)

  calls-as_failed : (e : Option E × S) → calls (as_failed h paths e).1 ≡ calls e.1
  calls-as_failed (none, s) = refl
  calls-as_failed (some err, s) = refl

  as_failed-none : (e : Option E × S) → (as_failed h paths e).0 ≡ ended none → e.0 ≡ none
  as_failed-none (none, s) h = refl
  as_failed-none (some err, s) h = absurd (ground arith)

  clean_up-calls :
      (dir : Text) (c : Chosen) (s : S)
      → calls (clean_up h paths dir c s).1 ≡ calls s ++ removals dir c.remove ++ zips dir c.compress
  unfolding clean_up
  clean_up-calls dir c s =
      let s1 = (remove_loop h paths dir c.remove none s).1 in
      calls-as_failed _
      ∙ compress_loop-calls dir c.compress (remove_loop h paths dir c.remove none s).0 s1
      ∙ ap (λ l. l ++ zips dir c.compress) (remove_loop-calls dir c.remove none s)

  clean_up-none :
      (dir : Text) (c : Chosen) (s : S)
      → (clean_up h paths dir c s).0 ≡ ended none
      → AllRemoved dir c.remove s
        × AllZipped dir c.compress (remove_loop h paths dir c.remove none s).1
  unfolding clean_up
  clean_up-none dir c s e =
      let (gone, whole) = compress_loop-none dir c.compress _ _ (as_failed-none _ e) in
      ((remove_loop-none dir c.remove none s gone).1, whole)

  module _ (parse : Text → Option ℕ) (sort : List LogInfo → List LogInfo) where
    larger :
        {A : Type 0} (m k : ℤ) (x y : A) → ltb_ℤ m k ≡ true → (if not (ltb_ℤ m k) then x else y) ≡ y
    larger m k x y e = rw e refl

    rotate_log_check-clean_up :
        (log_file : Text) (max_file_size max_backups : ℤ) (max_age : MaxAge) (n : ℕ) (f : LogInfo)
        (files : List LogInfo) (s s1 s2 : S)
        → h.stat log_file s ≡ size n
        → ltb_ℤ max_file_size (pos n) ≡ true
        → copy_file h paths log_file (backup_name paths log_file (h.stamp s)) s ≡ (none, s1)
        → h.truncate log_file s1 ≡ (none, s2)
        → get_old_log_files paths parse sort (h.read_dir (paths.dir log_file) s2) log_file
          ≡ some (inr (f ∷ files))
        → rotate_log_check h paths parse sort log_file max_file_size max_backups max_age s
          ≡ clean_up h paths
              (paths.dir log_file)
              (choose (h.now s2) max_backups max_age (f ∷ files))
              s2
    unfolding rotate_log_check
    rotate_log_check-clean_up log_file max_file_size max_backups max_age n f files s s1 s2 sized
          large copied truncated found =
        ap (λ x. on_stat h paths parse sort log_file max_file_size max_backups max_age x s) sized
        ∙ larger max_file_size (pos n) _ _ large
        ∙ ap (on_backup h paths parse sort log_file max_backups max_age) copied
        ∙ ap (on_truncated h paths parse sort log_file max_backups max_age) truncated
        ∙ ap (λ x. on_old h paths parse sort log_file max_backups max_age x s2) found

    -- RotateLogCheck on a log that is too large, once it is copied and truncated and backups are
    -- found: os.Remove is called on each backup that is chosen for it, and then GzipFile on each that
    -- is chosen for that, in their order and whichever of the calls before fail; and if it gives no
    -- error, all of these calls were without one. It is assumed of the record of the calls that a
    -- chown and the hook are not in it.
    pub rotate_log_check-calls :
        (log_file : Text) (max_file_size max_backups : ℤ) (max_age : MaxAge) (n : ℕ) (f : LogInfo)
        (files : List LogInfo) (s s1 s2 : S)
        → h.stat log_file s ≡ size n
        → ltb_ℤ max_file_size (pos n) ≡ true
        → copy_file h paths log_file (backup_name paths log_file (h.stamp s)) s ≡ (none, s1)
        → h.truncate log_file s1 ≡ (none, s2)
        → get_old_log_files paths parse sort (h.read_dir (paths.dir log_file) s2) log_file
          ≡ some (inr (f ∷ files))
        → (calls
              (rotate_log_check h paths parse sort log_file max_file_size max_backups max_age s).1
            ≡ calls s2
              ++ removals
                  (paths.dir log_file)
                  (choose (h.now s2) max_backups max_age (f ∷ files)).remove
              ++ zips
                  (paths.dir log_file)
                  (choose (h.now s2) max_backups max_age (f ∷ files)).compress)
          × ((rotate_log_check h paths parse sort log_file max_file_size max_backups max_age s).0
                ≡ ended none
              → AllRemoved
                  (paths.dir log_file)
                  (choose (h.now s2) max_backups max_age (f ∷ files)).remove
                  s2
                × AllZipped
                    (paths.dir log_file)
                    (choose (h.now s2) max_backups max_age (f ∷ files)).compress
                    (remove_loop h paths
                      (paths.dir log_file)
                      (choose (h.now s2) max_backups max_age (f ∷ files)).remove
                      none
                      s2).1)
    unfolding rotate_log_check
    rotate_log_check-calls log_file max_file_size max_backups max_age n f files s s1 s2 sized large
          copied truncated found =
        let chosen = choose (h.now s2) max_backups max_age (f ∷ files) in
        let reached =
          rotate_log_check-clean_up log_file max_file_size max_backups max_age n f files s s1 s2
            sized large copied truncated found in
        (
          ap (λ x. calls x.1) reached ∙ clean_up-calls (paths.dir log_file) chosen s2,
          λ e. clean_up-none (paths.dir log_file) chosen s2 (sym (ap (λ x. x.0) reached) ∙ e),
        )
