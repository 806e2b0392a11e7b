-- ===== src/Main/Usage.antt =====
-- `main` of tools/roofline/src/main.cpp without a command.
use llm_river.Base.Int.{pos}
use llm_river.Base.Run.{done}
use llm_river.Base.{false, none, List, [], ◌∷◌, ◌≡◌, ◌≢◌, refl, Bytes, codes, All}
use llm_river.Main.Arguments.{Benches, Host}
use llm_river.Main.Asked.{str_eq_ne}
use llm_river.Main.{is_command, print_usage, new_stream, main}
use llm_river.Report.Print.{Format}

-- The commands, one of which `main` needs.
abbrev pub commands : List Bytes
commands =
    codes "all"
    ∷ codes "ram"
    ∷ codes "latency"
    ∷ codes "disk"
    ∷ codes "compute"
    ∷ codes "hugepage"
    ∷ []

-- What stands in front of the options is not a command, or is missing.
abbrev pub LacksCommand : List Bytes → Type 0
LacksCommand [] = Unit
LacksCommand (cmd ∷ args) = All (λ name. cmd ≢ name) commands

no_command : (cmd : Bytes) → All (λ name. cmd ≢ name) commands → is_command cmd ≡ false
unfolding is_command
no_command cmd (a, (r, (l, (d, (c, (h, _)))))) =
    rw
      (
        str_eq_ne cmd _ a,
        str_eq_ne cmd _ r,
        str_eq_ne cmd _ l,
        str_eq_ne cmd _ d,
        str_eq_ne cmd _ c,
        str_eq_ne cmd _ h,
      )
      refl

-- Without one of the six commands, `main` ends with exit code 1, whatever the benches would do: it prints the
-- usage to `stderr`, nothing to `stdout`, and saves nothing, not even with `--out`.
pub main_usage {ℓ} :
    {F : Type ℓ} (format : Format F) (benches : Benches F) (host : Host) (prog : Bytes)
    (args : List Bytes)
    → LacksCommand args
    → main format benches host prog args
      ≡ done (record {
        exit_code = pos 1;
        stdout = [];
        stderr = (print_usage format prog new_stream).text;
        file = none;
      })
unfolding main
main_usage format benches host prog [] h = refl
main_usage format benches host prog (cmd ∷ args) h = rw (no_command cmd h) refl
