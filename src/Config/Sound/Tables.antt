-- ===== src/Config/Sound/Tables.antt =====
-- The tables `[target]`, `[runtime]`, `[policy]` and `[kiosk]` of an accepted configuration.
use relay_inner_display_scri.Base.{
  ℕ, zero, suc, ◌<◌, ◌≡◌, refl, String, true, Option, none, some, is_some, ltb, List, [], ◌∷◌,
  if◌then◌else◌, ◌==◌, one_of, arith, eq_iff, pos, negsuc,
}
use relay_inner_display_scri.Config.{ConsoleConfig, ConsoleSpiceConfig, RuntimeConfig}
use relay_inner_display_scri.Config.Checked.Yields.{
  Yields, Yields-accepted, Yields-refused, Yields-failed, Yields-if, Yields-bind, Yields-then,
  Yields-refuse_if, Yields-refuse_unless,
}
use relay_inner_display_scri.Config.Toml.{
  Value, text_value, integer, boolean, table, other_value, Table, get, has_key,
}
use relay_inner_display_scri.Config.Platform.{Platform}
use relay_inner_display_scri.Config.Fields.{
  table_of, require_table, optional_absolute_path_or_none, positive_of, positive_in,
  require_positive_int, require_child_path,
}
use relay_inner_display_scri.Config.Console.{require_one_of}
use relay_inner_display_scri.Config.Parse.{
  parse_target, parse_policy, parse_runtime, parse_kiosk_config, resolve_kiosk_compositor,
  backend_compositor, runtime_vv_path, supported_console_backends,
}
use relay_inner_display_scri.Config.Sound.{TargetSound, PolicySound, RuntimeSound, HasSpiceFile}

pub Yields-positive_of : (key : String) (v : Value) → Yields (λ (n : ℕ). 0 < n) (positive_of key v)
unfolding positive_of
Yields-positive_of key (text_value s) = Yields-refused _
Yields-positive_of key (integer (pos zero)) = Yields-refused _
Yields-positive_of key (integer (pos (suc n))) = Yields-accepted _ (omega arith)
Yields-positive_of key (integer (negsuc n)) = Yields-refused _
Yields-positive_of key (boolean b) = Yields-refused _
Yields-positive_of key (table t) = Yields-refused _
Yields-positive_of key other_value = Yields-refused _

Yields-positive_in :
    (key : String) (v : Option Value) → Yields (λ (n : ℕ). 0 < n) (positive_in key v)
Yields-positive_in key none = Yields-refused _
Yields-positive_in key (some v) = Yields-positive_of key v

Yields-table_of :
    (key : String) (v : Option Value) → Yields (λ (t : Table). v ≡ some (table t)) (table_of key v)
Yields-table_of key none = Yields-refused _
Yields-table_of key (some (text_value s)) = Yields-refused _
Yields-table_of key (some (integer n)) = Yields-refused _
Yields-table_of key (some (boolean b)) = Yields-refused _
Yields-table_of key (some (table t)) = Yields-accepted t refl
Yields-table_of key (some other_value) = Yields-refused _

pub Yields-require_table :
    (raw : Table) (key : String)
    → Yields (λ (t : Table). get raw key ≡ some (table t)) (require_table raw key)
unfolding require_table
Yields-require_table raw key = Yields-table_of key (get raw key)

-- a path is there exactly where its key is
pub Yields-path_or_none :
    (lib : Platform) (t : Table) (key : String)
    → Yields
        (λ (path : Option String). is_some path ≡ has_key t key)
        (optional_absolute_path_or_none lib t key)
unfolding optional_absolute_path_or_none
Yields-path_or_none lib t key =
    Yields-if (has_key t key) _ _
      (λ there. Yields-then _ _ λ path. Yields-accepted (some path) (rw there))
      (λ missing. Yields-accepted none (rw missing))

pub Yields-require_positive_int :
    (t : Table) (key : String) → Yields (λ (n : ℕ). 0 < n) (require_positive_int t key)
unfolding require_positive_int
Yields-require_positive_int t key = Yields-positive_in key (get t key)

pub Yields-require_one_of :
    (value : String) (supported : List String) (template : String)
    → Yields (λ _. one_of value supported ≡ true) (require_one_of value supported template)
Yields-require_one_of value supported template =
    Yields-refuse_unless (one_of value supported) template (value ∷ [])

pub only_one : (value known : String) → one_of value (known ∷ []) ≡ true → value ≡ known
only_one value known e = ground (arith, eq_iff value known)

pub Yields-parse_target : (t : Table) → Yields TargetSound (parse_target t)
unfolding parse_target
Yields-parse_target t = Yields-bind _ _ (Yields-require_positive_int t "vmid") λ vmid positive.
    Yields-then _ _ λ node_name. Yields-then _ _ λ guest_os. Yields-then _ _ λ backend.
      Yields-bind _ _ (Yields-require_one_of backend supported_console_backends _)
        λ _ known. Yields-accepted _ (record { vmid_positive = positive; backend_known = known })

pub Yields-parse_policy : (t : Table) → Yields PolicySound (parse_policy t)
unfolding parse_policy
Yields-parse_policy t =
    Yields-bind _ _ (Yields-require_positive_int t "poll_interval_ms") λ poll poll_positive.
      Yields-bind _ _ (Yields-require_positive_int t "reconnect_initial_ms") λ first first_positive.
        Yields-then _ _ λ last.
          Yields-bind _ _ (Yields-require_positive_int t "command_timeout_s") λ timeout positive.
            Yields-then _ _ λ dpms. Yields-then _ _ λ delay. Yields-then _ _ λ stabilize.
              Yields-then _ _ λ running. Yields-then _ _ λ stopped. Yields-then _ _ λ shutdown.
                Yields-bind _ _ (Yields-refuse_if (ltb last first) _ _) λ _ ordered.
                  Yields-bind _ _ (Yields-require_one_of dpms ("vm-power" ∷ []) _) λ _ dpms_one.
                    Yields-bind _ _ (Yields-require_one_of running ("shutdown" ∷ []) _)
                      λ _ running_one.
                        Yields-bind _ _ (Yields-require_one_of stopped ("start" ∷ []) _)
                          λ _ stopped_one. Yields-accepted _ (record {
                            poll_positive = poll_positive;
                            initial_positive = first_positive;
                            delays_ordered = ground arith;
                            timeout_positive = positive;
                            dpms_known = only_one _ _ dpms_one;
                            running_known = only_one _ _ running_one;
                            stopped_known = only_one _ _ stopped_one;
                          })

Yields-backend_compositor :
    (backend : String)
    → Yields
        (λ (s : String). s ≡ (if backend == "moonlight" then "sway" else "cage"))
        (backend_compositor backend)
unfolding backend_compositor
Yields-backend_compositor backend =
    Yields-if (backend == "moonlight") _ _ (λ e. Yields-accepted _ (rw e refl))
      λ e.
        Yields-if (one_of backend ("looking-glass" ∷ "spice" ∷ "vnc" ∷ [])) _ _
          (λ _. Yields-accepted "cage" (rw e refl)) (λ _. Yields-failed _)

pub Yields-parse_kiosk :
    (backend : String) (t : Table)
    → Yields
        (λ k. k.resolved_compositor ≡ (if backend == "moonlight" then "sway" else "cage"))
        (parse_kiosk_config backend t)
unfolding parse_kiosk_config resolve_kiosk_compositor
Yields-parse_kiosk backend t = Yields-then _ _ λ _. Yields-then _ _ λ compositor.
    Yields-then _ _ λ _. Yields-bind _ _ (resolved compositor) λ r e. Yields-accepted _ e
  where
    resolved :
        (compositor : String)
        → Yields
            (λ (s : String). s ≡ (if backend == "moonlight" then "sway" else "cage"))
            (resolve_kiosk_compositor backend compositor)
    resolved compositor =
        Yields-bind _ _ (Yields-backend_compositor backend)
          λ s e. Yields-then _ _ λ _. Yields-accepted s e

module _ (lib : Platform) where
  Yields-require_child_path :
      (root child label : String)
      → Yields (λ _. lib.is_below root child ≡ true) (require_child_path lib root child label)
  unfolding require_child_path
  Yields-require_child_path root child label =
      Yields-refuse_unless (lib.is_below root child) _ (label ∷ root ∷ [])

  runtime-HasSpiceFile :
      (legacy : Option String) (spice : Option ConsoleSpiceConfig) (console : ConsoleConfig)
      (r : RuntimeConfig)
      → console.spice ≡ spice
      → r.spice_vv_path ≡ runtime_vv_path lib legacy console
      → lib.is_below r.run_dir (runtime_vv_path lib legacy console) ≡ true
      → HasSpiceFile lib (is_some legacy) r console
  runtime-HasSpiceFile (some path) spice console r e same below = refl
  runtime-HasSpiceFile none none console r e same below = rw (e, same) below
  runtime-HasSpiceFile none (some s) console r e same below = rw e (rw e at below)

  pub Yields-parse_runtime :
      (t : Table) (legacy : Option String) (console : ConsoleConfig)
      → Yields
          (λ r.
            RuntimeSound lib console.artifact_dir r × HasSpiceFile lib (is_some legacy) r console)
          (parse_runtime lib t legacy console)
  unfolding parse_runtime
  Yields-parse_runtime t legacy console = Yields-then _ _ λ run_dir. Yields-then _ _ λ socket.
      Yields-then _ _ λ namespace.
        Yields-bind _ _ (Yields-require_child_path run_dir socket _) λ _ socket_below.
          Yields-bind _ _ (Yields-require_child_path run_dir console.artifact_dir _) λ _ dir_below.
            Yields-bind _ _
              (Yields-require_child_path run_dir (runtime_vv_path lib legacy console) _)
              λ _ vv_below. Yields-accepted _ (
                record {
                  socket_below = socket_below;
                  artifacts_below = dir_below;
                  vv_path_below = vv_below;
                },
                runtime-HasSpiceFile legacy console.spice console
                    (record {
                      run_dir = run_dir;
                      control_socket = socket;
                      spice_vv_path = runtime_vv_path lib legacy console;
                      log_namespace = namespace;
                    })
                    refl refl vv_below,
              )
