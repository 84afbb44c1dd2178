-- ===== src/Sutils/Container.antt =====
-- sutils/sutils.go: GetCurrentContainerID, the functions that it calls, and IsContainer. regexp is a
-- parameter: a search gives the first submatch.
use gosutils.Prelude.{
  Bool, true, false, not, List, [], ◌∷◌, ◌++◌, ◌==◌, if◌then◌else◌, Option, none, some, length,
}
use gosutils.Prelude.Text.{Text, codes, is_empty, drop_return}
use gosutils.Sutils.Lines.{scan}

-- regexp.MustCompilePOSIX with MatchString and FindStringSubmatch: none is no match.
abbrev pub Search : Type 0
Search = Text → Text → Option Text

abbrev pub found_by : Search → Text → Text → Bool
found_by search regex text = elim (search regex text) [ none ↦ false | some m ↦ true ]

abbrev pub submatch : Option Text → Text
submatch none = []
submatch (some id) = id

-- `matchContainerID`.
unfoldable pub match_container_id : Search → Text → Text → Text
match_container_id search regex lines =
    if found_by search (codes "^[0-9]+ [0-9]+ [0-9]+:[0-9]+ /") lines
    then submatch (search (codes "containers/" ++ regex) lines)
    else submatch (search regex lines)

-- `matchContainerIDWithHostname`.
unfoldable pub match_container_id_with_hostname : Search → Text → Text → Text
unfolding match_container_id
match_container_id_with_hostname search hostname lines =
    if found_by search (codes "^[[:alnum:]]{12}$") hostname
    then match_container_id search (codes "(" ++ hostname ++ codes "[[:alnum:]]{52})") lines
    else []

-- The variable `id`, and whether the function has returned.
pub record Found : Type 0 where
  pub id : Text
  pub returned : Bool

-- The loop over the lines of a file; ScanLines is called on each line once more.
unfoldable pub search_lines : (Text → Text) → Text → List Text → Found
search_lines match id [] = record { id = id; returned = false }
search_lines match id (line ∷ lines) =
    let id' = match (drop_return line) in
    let rest = search_lines match id' lines in
    if length id' == 64 then record { id = id'; returned = true } else rest

abbrev pub search_file : (Text → Text) → Text → Option Text → Found
search_file match id none = record { id = id; returned = false }
search_file match id (some contents) = search_lines match id (scan contents).lines

-- The loop over the files: one that cannot be opened is passed over.
unfoldable pub search_files : (Text → Option Text) → (Text → Text) → Text → List Text → Found
unfolding search_lines scan
search_files read match id [] = record { id = id; returned = false }
search_files read match id (path ∷ paths) =
    let here = search_file match id (read path) in
    let rest = search_files read match here.id paths in if here.returned then here else rest

abbrev pub default_paths : List Text → List Text
default_paths [] =
    codes "/proc/1/cpuset" ∷ codes "/proc/self/cgroup" ∷ codes "/proc/self/mountinfo" ∷ []
default_paths (p ∷ ps) = p ∷ ps

-- `GetCurrentContainerID`, with the variable HOSTNAME.
unfoldable pub get_current_container_id : Search → (Text → Option Text) → Text → List Text → Text
unfolding search_files match_container_id match_container_id_with_hostname
get_current_container_id search read hostname filepaths =
    let paths = default_paths filepaths in
    let first = search_files read (match_container_id_with_hostname search hostname) [] paths in
    let second =
      search_files read (match_container_id search (codes "([[:alnum:]]{64})")) first.id paths in
    if first.returned then first.id else second.id

unfoldable pub is_container : Search → (Text → Option Text) → Text → Bool
unfolding get_current_container_id
is_container search read hostname =
    not (is_empty (get_current_container_id search read hostname []))
