-- ===== src/Process.antt =====
-- controller/process.py: the subprocess wrapper. The timeout of a call is the environment's to
-- enforce, so it is no argument here.
use hv2pve.Prelude.{String, Bool, false, List, [], ◌∷◌, ◌++◌, ◌==◌, if◌then◌else◌}
use hv2pve.Prelude.Int.{ℤ, pos, negsuc}
use hv2pve.Exec.{command_error, file_not_found, timeout_expired, Result, ok, err, Exec}
use hv2pve.World.{Answer, finished, missing, timed_out, World}

abbrev pub zero_code : ℤ → Bool
zero_code (pos n) = n == 0
zero_code (negsuc n) = false

-- `run(argv, check=True)` on the answer.
unfoldable pub check_answer : Answer → Result String
check_answer (finished r) =
    if zero_code r.returncode then ok r.stdout else err (command_error "command failed")
check_answer missing = err (file_not_found "program")
check_answer timed_out = err (timeout_expired "command")

-- Each command is asked of the environment with all that were run before it.
unfoldable pub run : List String → Exec World String
unfolding check_answer
run argv w = (check_answer (w.remote w.ran argv), record w { ran = w.ran ++ argv ∷ [] })
