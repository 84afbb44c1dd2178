-- ===== src/Sed/Conditions.antt =====
-- gosed/conditions.go, with cmd_simplecond and cmd_twocond of gosed/instructions.go.
use gosutils.Prelude.{ℕ, Bool, true, false, not, ◌&&◌, ◌==◌, if◌then◌else◌, ltb, get_or, set}
use gosutils.Sed.Host.{Host}
use gosutils.Sed.Vm.{Vm, Guard}

pub data Condition (R : Type 0) : Type 0 where
  number : ℕ → Condition R
  eof : Condition R
  regexp : R → Condition R

abbrev pub fresh : Guard
fresh = record { is_on = false; off_from = 0 }

module _ (h : Host) where
  open h use {Regexp, match_string}

  -- `isMet`.
  unfoldable pub is_met : Condition Regexp → Vm → Bool
  is_met (number n) v = v.started && v.lineno == n
  is_met eof v = v.lastl
  is_met (regexp re) v = match_string re v.pat

  -- The first statement of `cmd_twocond.run`: a range is left on the line after its last.
  unfoldable pub refresh : Guard → ℕ → Guard
  refresh g lineno = if g.is_on && (ltb 0 g.off_from && ltb g.off_from lineno) then fresh else g

  -- The rest of `cmd_twocond.run`: the new state, and whether the jump is to `metloc`.
  unfoldable pub enter : Condition Regexp → Condition Regexp → Guard → Vm → Guard × Bool
  unfolding is_met
  enter start end g v =
      if not g.is_on
      then (if is_met start v then (record g { is_on = true }, true) else (g, false))
      else (if is_met end v then (record g { off_from = v.lineno }, true) else (g, true))

  unfoldable pub run_two_cond : Condition Regexp → Condition Regexp → Guard → Vm → Guard × Bool
  unfolding refresh enter
  run_two_cond start end g v = enter start end (refresh g v.lineno) v

-- `isLastLine`.
unfoldable pub is_last_line : Guard → ℕ → Bool
is_last_line g lineno = g.is_on && g.off_from == lineno

abbrev pub guard_at : Vm → ℕ → Guard
guard_at v k = get_or v.guards k fresh

abbrev pub set_guard : Vm → ℕ → Guard → Vm
set_guard v k g = record v { guards = set v.guards k g }
