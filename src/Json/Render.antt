-- ===== src/Json/Render.antt =====
-- `str(v)` of a scalar. Lists and dicts are rendered nowhere in the controller.
use hv2pve.Prelude.{String, true, false}
use hv2pve.Json.{Value, null, bool, int, str, arr, obj}
use hv2pve.Text.{show}

unfoldable pub to_text : Value → String
unfolding show
to_text null = "None"
to_text (bool true) = "True"
to_text (bool false) = "False"
to_text (int n) = show n
to_text (str s) = s
to_text (arr vs) = ""
to_text (obj d) = ""
