-- ===== src/Shell/Tests.antt =====
-- Runs of the functions on command lines.
use operating_system_related.Prelude.{◌≡◌, refl, true, some, [], ◌∷◌, ◌++◌}
use operating_system_related.Prelude.Text.{codes}
use operating_system_related.Shell.{
  is_white, trim, is_background_command, remove_background_sign, is_special_command,
}
use operating_system_related.Shell.Lines.{IsTrimmed, trim-IsTrimmed, remove_background_sign-front}

trim-IsTrimmed_example : IsTrimmed (codes "  ls -l ") (trim (codes "  ls -l "))
trim-IsTrimmed_example = trim-IsTrimmed (codes "  ls -l ")

trim_run : trim (codes "  ls -l ") ≡ codes "ls -l"
unfolding trim
trim_run = refl

remove_background_sign-front_example :
    (is_background_command (codes "sleep 5  " ++ b'&' ∷ codes "  ") ≡ some true)
    × (remove_background_sign (codes "sleep 5  " ++ b'&' ∷ codes "  ")
        ≡ some (codes "sleep 5  " ++ b' ' ∷ []))
unfolding is_white
remove_background_sign-front_example =
    remove_background_sign-front (codes "sleep 5  ") (codes "  ") (refl, (refl, tt))

is_special_command_run : is_special_command (codes "ls > f |& wc") ≡ some (codes "|&", 7)
unfolding is_special_command
is_special_command_run = refl
