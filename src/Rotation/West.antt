-- ===== src/Rotation/West.antt =====
-- Backups that notMatchLogBackup of slogrus/logrotation_utils.go takes for logs.
use gosutils.Prelude.{
  ℕ, zero, suc, ◌+◌, ◌≡◌, ◌≢◌, refl, sym, ap, ◌∙◌, arith, Bool, true, false, List, [], ◌∷◌, ◌++◌,
  Option, none, some, length, ◌||◌, take, append_assoc, if◌then◌else◌, ◌==◌,
}
use gosutils.Prelude.Text.{Text, codes, All, HasNo, HasNo-append}
use gosutils.Sutils.Paths.{split_paths, join_paths}
use gosutils.Rotation.Names.{Paths, backup_file, stem}
use gosutils.Rotation.Dirs.{
  count, get_substring, behind_last, not_match_log_backup, is_error, is_no_stamp,
  backup_time_format,
}

behind_last-none : (a : ℕ) (t : Text) → HasNo a t → behind_last a t ≡ none
unfolding behind_last
behind_last-none a [] h = refl
behind_last-none a (c ∷ cs) h = ground (arith, behind_last-none a cs h.1)

behind_last-append : (a : ℕ) (s t : Text) → HasNo a t → behind_last a (s ++ a ∷ t) ≡ some t
unfolding behind_last
behind_last-append a [] t h = ground (arith, behind_last-none a t h)
behind_last-append a (c ∷ s) t h = rw (behind_last-append a s t h) refl

-- What is split, cut short and joined holds no character that was not there.
split_paths-other : (a sep : ℕ) (t : Text) → HasNo a t → All (HasNo a) (split_paths sep t)
unfolding split_paths
split_paths-other a sep [] h = (tt, tt)
split_paths-other a sep (c ∷ cs) h = ground (arith, split_paths-other a sep cs h.1)

take-All : (a n : ℕ) (ts : List Text) → All (HasNo a) ts → All (HasNo a) (take n ts)
take-All a zero ts h = tt
take-All a (suc n) [] h = tt
take-All a (suc n) (t ∷ ts) h = (h.0, take-All a n ts h.1)

join_paths-HasNo :
    (a sep : ℕ) (ts : List Text) → sep ≢ a → All (HasNo a) ts → HasNo a (join_paths sep ts)
unfolding join_paths
join_paths-HasNo a sep [] ne h = tt
join_paths-HasNo a sep (t ∷ []) ne h = h.0
join_paths-HasNo a sep (t ∷ u ∷ ts) ne h =
    HasNo-append a t _ h.0 (ne, join_paths-HasNo a sep (u ∷ ts) ne h.1)

either-HasNo :
    (a : ℕ) (b : Bool) (s t : Text) → HasNo a s → HasNo a t → HasNo a (if b then s else t)
either-HasNo a true s t h k = h
either-HasNo a false s t h k = k

get_substring-HasNo :
    (a : ℕ) (str1 str2 : Text) → b'.' ≢ a → HasNo a str2 → HasNo a (get_substring str1 str2)
unfolding get_substring
get_substring-HasNo a str1 str2 ne h =
    let parts = split_paths b'.' str2 in
    let dots = count b'.' str1 in
    either-HasNo a (length parts == dots + 2 || length parts == dots + 3)
      (join_paths b'.' (take (dots + 1) parts)) str2
      (join_paths-HasNo a b'.' (take (dots + 1) parts) ne
        (take-All a (dots + 1) parts (split_paths-other a b'.' str2 h)))
      h

-- A backup whose time stamp ends with an offset west of UTC, such as -0500, is never told from a log:
-- notMatchLogBackup takes what is behind the last - for the stamp, and that is the offset. It is
-- assumed that the offset and the extension hold no - and no _, and that time.Parse fails on a text
-- without the _ of its layout.
pub not_match_log_backup-west :
    (parse : Text → Option ℕ) (paths : Paths) (log time offset : Text)
    → ((t : Text) → HasNo b'_' t → parse t ≡ none)
    → HasNo b'-' (offset ++ paths.ext (paths.base log))
    → HasNo b'_' (offset ++ paths.ext (paths.base log))
    → not_match_log_backup parse (backup_file paths log (time ++ b'-' ∷ offset)) ≡ true
unfolding not_match_log_backup
not_match_log_backup-west parse paths log time offset fails no_dash no_bar =
    let rest = offset ++ paths.ext (paths.base log) in
    let front = stem paths (paths.base log) ++ codes "-" ++ time in
    let named : backup_file paths log (time ++ b'-' ∷ offset) ≡ front ++ b'-' ∷ rest =
      append_assoc (stem paths (paths.base log) ++ codes "-") (time ++ b'-' ∷ offset)
        (paths.ext (paths.base log))
      ∙ ap (λ t. stem paths (paths.base log) ++ codes "-" ++ t)
          (append_assoc time (b'-' ∷ offset) (paths.ext (paths.base log)))
      ∙ sym (append_assoc (stem paths (paths.base log) ++ codes "-") time (b'-' ∷ rest)) in
    let cut = ap (behind_last b'-') named ∙ behind_last-append b'-' front rest no_dash in
    ap (is_no_stamp parse) cut
    ∙ ap is_error (fails _ (get_substring-HasNo b'_' backup_time_format rest (omega arith) no_bar))
