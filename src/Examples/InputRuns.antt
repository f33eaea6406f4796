-- ===== src/Examples/InputRuns.antt =====
-- The theorems on the power button at concrete files.
use relay_inner_display_scri.Base.{◌≡◌, ◌↔◌, refl, String, true, false, List, [], ◌∷◌, ◌==◌}
use relay_inner_display_scri.Exec.{ok}
use relay_inner_display_scri.Input.{HostFiles, read_handle_power_key, validate}
use relay_inner_display_scri.Input.Policy.{validate-last_file, trailing_ignore-validate}

-- a main file, and one drop-in that turns the key off
abbrev host_files : HostFiles
host_files = record {
  is_file = λ path. true;
  is_dir = λ path. path == "/etc/systemd/logind.conf.d";
  conf_files = λ directory. "/etc/systemd/logind.conf.d/50-relay.conf" ∷ [];
  lines_of = λ path. "# relay" ∷ "[Login]" ∷ "HandlePowerKey=ignore" ∷ [];
}

abbrev main_files : List String
main_files = "/etc/systemd/logind.conf" ∷ []

abbrev dropin_dirs : List String
dropin_dirs = "/etc/systemd/logind.conf.d" ∷ []

trailing_ignore-validate_example : validate host_files main_files dropin_dirs ≡ ok tt
unfolding relay_inner_display_scri.Input.iter_config_paths
trailing_ignore-validate_example =
    trailing_ignore-validate host_files main_files dropin_dirs main_files
      "/etc/systemd/logind.conf.d/50-relay.conf" ("# relay" ∷ []) refl refl

validate-last_file_example :
    (validate host_files main_files dropin_dirs ≡ ok tt) ↔ (◌≡◌ {A = String} "ignore" "ignore")
unfolding relay_inner_display_scri.Input.iter_config_paths read_handle_power_key
    relay_inner_display_scri.Base.strip
validate-last_file_example =
    validate-last_file host_files main_files dropin_dirs main_files
      "/etc/systemd/logind.conf.d/50-relay.conf" "ignore" refl refl
