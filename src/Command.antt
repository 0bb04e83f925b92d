-- ===== src/Command.antt =====
-- turbobond/util/cmd.py: running commands. The host that runs them is a parameter: a state that a command
-- line with its input changes, and what it answers. The model keeps the commands that were run, the
-- latest first.
use turbobond.Base.{Bool, ◌||◌, List, ◌∷◌}
use Prim.Native.String.{String}

-- What `run` returns of a command that did not raise.
pub record CommandResult : Type 0 where
  pub ok : Bool
  pub skipped : Bool
  pub stderr : String

-- A host and the commands that it ran.
pub record World (S : Type 0) : Type 0 where
  pub host : S
  pub commands : List (List String)

-- `result.ok or result.skipped`
unfoldable pub went_well : CommandResult → Bool
went_well r = r.ok || r.skipped

module _ {S : Type 0} (exec : List String → String → S → CommandResult × S) where
  -- `run(argv, input_text=input)`, where no input is the empty text.
  unfoldable pub run : List String → String → World S → CommandResult × World S
  run argv input w =
      let (result, host) = exec argv input (w.host) in
      (result, record { host = host; commands = argv ∷ w.commands })
