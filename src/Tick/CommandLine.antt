-- ===== src/Tick/CommandLine.antt =====
-- RosaServer/hooks.cpp: the arguments of the process, which `resetGame` reads when it is entered first.
use rosa_server.Base.{
  Bool, true, false, ◌&&◌, ◌||◌, List, [], ◌∷◌, ◌++◌, Option, none, some, if◌then◌else◌, ◌==◌, Text,
  codes,
}
use rosa_server.Console.State.{Console, write_text, log, push_command}

-- Whether the argument has "-c" in it: `argument.rfind("-c") != std::string::npos`.
abbrev pub has_flag : Text → Bool
has_flag [] = false
has_flag (a ∷ []) = false
has_flag (a ∷ b ∷ more) = (a == 45 && b == 99) || has_flag (b ∷ more)

abbrev pub unknown_command : Text → Text
unknown_command argument =
    27 ∷ codes "[41;1m Command Line Error "
    ++ (27 ∷ codes "[0m"
        ++ (10 ∷ 27 ∷ codes "[31mUnknown command " ++ (argument ++ (27 ∷ codes "[0m" ++ 10 ∷ []))))

-- The loop over the arguments; behind the last one a command is empty.
unfoldable pub parse_arguments : List Text → Console → Console
parse_arguments [] c = c
parse_arguments (argument ∷ []) c =
    let d = log c (write_text argument) in
    if has_flag argument then push_command d [] else log d (write_text (unknown_command argument))
parse_arguments (argument ∷ command ∷ more) c =
    let d = log c (write_text argument) in
    elim (has_flag argument) [
      | true ↦ parse_arguments more (push_command d command)
      | false ↦ parse_arguments (command ∷ more) (log d (write_text (unknown_command argument)))
    ]

-- The text of a number in hexadecimal stands in `state`.
abbrev unable_to_open : Text → Text
unable_to_open state =
    27 ∷ codes "[41;1m Command Line Error "
    ++ (27 ∷ codes "[0m"
        ++ (10 ∷ 27 ∷ codes "[31mUnable to open cmdline, "
            ++ (state ++ (27 ∷ codes "[0m" ++ 10 ∷ []))))

abbrev pub parse_command_line : Option (List Text) → Text → Console → Console
parse_command_line none state c = log c (write_text (unable_to_open state))
parse_command_line (some arguments) state c = parse_arguments arguments c
