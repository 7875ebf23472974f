-- ===== src/Backtest/Args.antt =====
-- `parse_args`, and that it reads back what a command line of options says. `strtoul` and `atoi`
-- are parameters.
use holographic_market.Base.{
  ℕ, ◌%◌, ◌^◌, ◌≡◌, ◌∙◌, refl, Bool, false, List, [], ◌∷◌, if◌then◌else◌, ◌||◌,
}
use holographic_market.Base.Bytes.{codes}
use holographic_market.Base.Int.{ℤ, pos}
use holographic_market.Base.Table.{same_text}
use holographic_market.Oms.Order.{Text}
use holographic_market.Replay.{ReplayMode, fastest, realtime, throttled}

pub record CliArgs : Type 0 where
  pub csv_path : Text
  pub mode : ReplayMode
  pub throttle_rate : ℕ
  pub gpu_device : ℤ
  pub arena_mb : ℕ
  pub out_dir : Text

-- A result, or the status that the program exits with.
pub data Parsed : Type 0 where
  args : CliArgs → Parsed
  exits : ℕ → Parsed

abbrev pub defaults : Text → CliArgs
defaults csv_path = record {
  csv_path = csv_path;
  mode = fastest;
  throttle_rate = 100000;
  gpu_device = pos 0;
  arena_mb = 512;
  out_dir = codes "../data";
}

-- The value of `--mode`.
abbrev pub set_mode : CliArgs → Text → Parsed
set_mode a v =
    if same_text v (codes "fastest")
    then args (record a { mode = fastest })
    else if same_text v (codes "realtime")
    then args (record a { mode = realtime })
    else if same_text v (codes "throttled")
    then args (record a { mode = throttled })
    else exits 1

-- The two branches that take no value.
abbrev pub no_value : Text → Parsed
no_value arg =
    if same_text arg (codes "--help") || same_text arg (codes "-h") then exits 0 else exits 1

abbrev pub takes_value : Text → Bool
takes_value arg =
    same_text arg (codes "--mode")
    || same_text arg (codes "--throttle-rate")
    || same_text arg (codes "--gpu-device")
    || same_text arg (codes "--arena-mb")
    || same_text arg (codes "--out-dir")

module _ (strtoul : Text → ℕ) (atoi : Text → ℤ) where
  abbrev pub set_value : CliArgs → Text → Text → Parsed
  set_value a arg v =
      if same_text arg (codes "--mode")
      then set_mode a v
      else if same_text arg (codes "--throttle-rate")
      then args (record a { throttle_rate = strtoul v % 2 ^ 32 })
      else if same_text arg (codes "--gpu-device")
      then args (record a { gpu_device = atoi v })
      else if same_text arg (codes "--arena-mb")
      then args (record a { arena_mb = strtoul v })
      else args (record a { out_dir = v })

  -- The loop from argument `i` on.
  unfoldable pub parse_from : Parsed → List Text → Parsed
  parse_from (exits n) argv = exits n
  parse_from (args a) [] = args a
  parse_from (args a) (arg ∷ []) = no_value arg
  parse_from (args a) (arg ∷ v ∷ argv) =
      let rest = parse_from (set_value a arg v) argv in
      if takes_value arg then rest else no_value arg

  -- `argv` without the program's name: `main` calls this with one argument at least, and exits
  -- with 1 without.
  unfoldable pub parse_args : List Text → Parsed
  unfolding parse_from
  parse_args [] = exits 1
  parse_args (csv ∷ argv) = parse_from (args (defaults csv)) argv

-- One option of a command line.
pub data Setting : Type 0 where
  sets_mode : ReplayMode → Setting
  sets_rate : Text → Setting
  sets_device : Text → Setting
  sets_arena : Text → Setting
  sets_dir : Text → Setting

abbrev pub mode_text : ReplayMode → Text
mode_text fastest = codes "fastest"
mode_text realtime = codes "realtime"
mode_text throttled = codes "throttled"

-- How an option is written.
abbrev pub written : Setting → List Text → List Text
written (sets_mode m) more = codes "--mode" ∷ mode_text m ∷ more
written (sets_rate v) more = codes "--throttle-rate" ∷ v ∷ more
written (sets_device v) more = codes "--gpu-device" ∷ v ∷ more
written (sets_arena v) more = codes "--arena-mb" ∷ v ∷ more
written (sets_dir v) more = codes "--out-dir" ∷ v ∷ more

abbrev pub command_line : List Setting → List Text → List Text
command_line [] more = more
command_line (s ∷ settings) more = written s (command_line settings more)

module _ (strtoul : Text → ℕ) (atoi : Text → ℤ) where
  -- What an option means.
  abbrev pub meant : CliArgs → Setting → CliArgs
  meant a (sets_mode m) = record a { mode = m }
  meant a (sets_rate v) = record a { throttle_rate = strtoul v % 2 ^ 32 }
  meant a (sets_device v) = record a { gpu_device = atoi v }
  meant a (sets_arena v) = record a { arena_mb = strtoul v }
  meant a (sets_dir v) = record a { out_dir = v }

  abbrev pub all_meant : CliArgs → List Setting → CliArgs
  all_meant a [] = a
  all_meant a (s ∷ settings) = all_meant (meant a s) settings

  parse-written :
      (a : CliArgs) (s : Setting) (more : List Text)
      → parse_from strtoul atoi (args a) (written s more)
        ≡ parse_from strtoul atoi (args (meant a s)) more
  unfolding parse_from
  parse-written a (sets_mode fastest) more = refl
  parse-written a (sets_mode realtime) more = refl
  parse-written a (sets_mode throttled) more = refl
  parse-written a (sets_rate v) more = refl
  parse-written a (sets_device v) more = refl
  parse-written a (sets_arena v) more = refl
  parse-written a (sets_dir v) more = refl

  parse-command_line :
      (a : CliArgs) (settings : List Setting) (more : List Text)
      → parse_from strtoul atoi (args a) (command_line settings more)
        ≡ parse_from strtoul atoi (args (all_meant a settings)) more
  parse-command_line a [] more = refl
  parse-command_line a (s ∷ settings) more =
      parse-written a s (command_line settings more) ∙ parse-command_line (meant a s) settings more

  -- A file and any options, in any order and number, are read back as what they mean one after the
  -- other: a later option of a kind takes the place of an earlier one.
  pub parse_args-command_line :
      (csv : Text) (settings : List Setting)
      → parse_args strtoul atoi (csv ∷ command_line settings [])
        ≡ args (all_meant (defaults csv) settings)
  unfolding parse_args parse_from
  parse_args-command_line csv settings = parse-command_line (defaults csv) settings []

  -- Behind any such options, an argument that is none of the seven known ones ends the program with
  -- status 1, whatever stands behind it.
  parse_args-unrecognized :
      (csv : Text) (settings : List Setting) (arg : Text) (more : List Text)
      → takes_value arg ≡ false
      → no_value arg ≡ exits 1
      → parse_args strtoul atoi (csv ∷ command_line settings (arg ∷ more)) ≡ exits 1
  unfolding parse_args parse_from
  parse_args-unrecognized csv settings arg [] h k =
      parse-command_line (defaults csv) settings (arg ∷ []) ∙ k
  parse_args-unrecognized csv settings arg (v ∷ more) h k =
      parse-command_line (defaults csv) settings (arg ∷ v ∷ more) ∙ rw h k
