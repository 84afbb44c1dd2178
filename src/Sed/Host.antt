-- ===== src/Sed/Host.antt =====
-- What gosed takes from Go's libraries: regexp, strings, strconv, fmt, os. Nothing is assumed of
-- these functions beyond their types.
use gosutils.Prelude.{ℕ, Bool, List, Option}
use gosutils.Prelude.Text.{Text}

pub record Host : Type 1 where
  -- regexp.Regexp, with Compile, MatchString, FindAllStringSubmatchIndex (the bounds of each match
  -- and of its groups) and ExpandString.
  pub Regexp : Type 0
  pub compile : Text → Option Regexp
  pub match_string : Regexp → Text → Bool
  pub find_all : Regexp → Text → List (ℕ × ℕ × List ℕ)
  pub expand : Regexp → Text → Text → ℕ × ℕ × List ℕ → Text
  -- strings.NewReplacer(...).Replace on pairs of characters; utf8 decoding of a string.
  pub replace_pairs : List (ℕ × ℕ) → Text → Text
  pub runes : Text → List ℕ
  -- strconv.Atoi, and fmt.Sprintf("%d").
  pub atoi : Text → Option ℕ
  pub format_int : ℕ → Text
  -- os.ReadFile, and whether os.OpenFile and the writes to a file succeed.
  pub read_file : Text → Option Text
  pub can_write : Text → Bool
