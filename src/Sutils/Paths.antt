-- ===== src/Sutils/Paths.antt =====
-- sutils/sutils.go: lists of paths in one text. `sep` is os.PathListSeparator, `exists` is os.Stat
-- without an error, `getenv` is os.Getenv.
use gosutils.Prelude.{ℕ, Bool, true, false, not, ◌&&◌, List, [], ◌∷◌, ◌++◌, ◌==◌, if◌then◌else◌}
use gosutils.Prelude.Text.{Text, is_empty, text_eq, codes}

abbrev pub into_path : ℕ → List Text → List Text
into_path c [] = (c ∷ []) ∷ []
into_path c (part ∷ parts) = (c ∷ part) ∷ parts

-- strings.Split with a separator of one character, and strings.Join.
unfoldable pub split_paths : ℕ → Text → List Text
split_paths sep [] = [] ∷ []
split_paths sep (c ∷ cs) =
    let rest = split_paths sep cs in if c == sep then [] ∷ rest else into_path c rest

unfoldable pub join_paths : ℕ → List Text → Text
join_paths sep [] = []
join_paths sep (p ∷ []) = p
join_paths sep (p ∷ q ∷ ps) = p ++ sep ∷ join_paths sep (q ∷ ps)

abbrev pub has : List Text → Text → Bool
has [] p = false
has (x ∷ xs) p = if text_eq x p then true else has xs p

module _ (exists : Text → Bool) where
  -- The loop of `PathCleanup`: `seen` holds the keys of its map.
  unfoldable pub cleanup_loop : List Text → List Text → List Text
  unfolding text_eq
  cleanup_loop seen [] = []
  cleanup_loop seen (p ∷ ps) =
      let added = cleanup_loop (p ∷ seen) ps in
      let rest = cleanup_loop seen ps in if not (has seen p) && exists p then p ∷ added else rest

module _ (sep : ℕ) where
  -- `PathJointList`.
  unfoldable pub path_joint_list : Text → Text → Text
  path_joint_list path added = if is_empty path then added else path ++ sep ∷ added

  -- The loop of `PathRemove` from its second element on.
  unfoldable pub remove_rest : Text → List Text → Text
  unfolding text_eq
  remove_rest addpath [] = []
  remove_rest addpath (val ∷ vals) =
      let rest = remove_rest addpath vals in if text_eq val addpath then rest else sep ∷ val ++ rest

  abbrev pub remove_first : Text → List Text → Text
  remove_first addpath [] = []
  remove_first addpath (val ∷ vals) =
      let rest = remove_rest addpath vals in if text_eq val addpath then rest else val ++ rest

  -- `PathRemove`.
  unfoldable pub path_remove : Text → Text → Text
  unfolding split_paths remove_rest
  path_remove path addpath =
      if is_empty path then [] else remove_first addpath (split_paths sep path)

  -- `PathCleanup`.
  unfoldable pub path_cleanup : (Text → Bool) → Text → Text
  unfolding split_paths join_paths cleanup_loop
  path_cleanup exists path = join_paths sep (cleanup_loop exists [] (split_paths sep path))

  module _ (getenv : Text → Text) where
    -- `PathGetEnvPathValue`, `PathGetEnvPathKey` and `PATHArr`.
    unfoldable pub path_get_env_path_value : List Text → Text
    path_get_env_path_value [] = []
    path_get_env_path_value (name ∷ names) =
        let rest = path_get_env_path_value names in
        if is_empty (getenv name) then rest else getenv name

    unfoldable pub path_get_env_path_key : List Text → Text
    path_get_env_path_key [] = []
    path_get_env_path_key (name ∷ names) =
        let rest = path_get_env_path_key names in if is_empty (getenv name) then rest else name

    abbrev pub path_names : List Text
    path_names = codes "PATH" ∷ codes "path" ∷ []

    unfoldable pub path_arr : List Text
    unfolding split_paths path_get_env_path_value
    path_arr =
        let envs = path_get_env_path_value path_names in
        if is_empty envs then [] else split_paths sep envs
