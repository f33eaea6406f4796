-- ===== src/Daemon/Preflight.antt =====
-- What the daemon checks on the host before it starts or launches a console: binaries, and the
-- shared memory of Looking Glass with the rights of the session user.
use package.text.Mathlib.Text.{starts_with}
use relay_inner_display_scri.Base.{
  ℕ, ◌/◌, ◌%◌, String, Bool, true, not, ◌&&◌, Option, none, some, List, [], ◌∷◌, eqb, if◌then◌else◌,
  is_some, one_of, any_of,
}
use relay_inner_display_scri.Exec.{
  text, formatted, formatted_with, Exn, runtime_validation_error, assertion_error, os_error, Exec,
  pure, raise, gets, ◌>>=◌, ◌>>◌, try_then,
}
use relay_inner_display_scri.Config.{ConsoleLookingGlassConfig}
use relay_inner_display_scri.Services.{Services, UserEntry, StatResult, GroupEntry}
use relay_inner_display_scri.Daemon.State.{Daemon}

abbrev pub session_user : String
session_user = "relayinner-display"

abbrev pub invalid {ℓ} : {S A : Type ℓ} → String → List String → Exec S A
invalid template arguments = raise (runtime_validation_error (formatted template arguments))

-- `Path(p).is_absolute()`
unfoldable pub is_absolute : String → Bool
is_absolute p = starts_with p "/"

-- `mode & bit` for a bit given by its value
abbrev has_bit : ℕ → ℕ → Bool
has_bit mode bit = eqb (mode / bit % 2) 1

-- S_IRUSR, S_IRGRP and S_IROTH
abbrev irusr : ℕ
irusr = 0o400

abbrev irgrp : ℕ
irgrp = 0o40

abbrev iroth : ℕ
iroth = 0o4

-- the gid is the primary group or that of a group that lists the user
unfoldable pub in_session_groups : String → ℕ → List GroupEntry → ℕ → Bool
in_session_groups username primary_gid groups gid =
    if eqb gid primary_gid
    then true
    else any_of (λ (g : GroupEntry). one_of username g.gr_mem && eqb g.gr_gid gid) groups

unfoldable pub mode_grants_read : UserEntry → List GroupEntry → StatResult → Bool
unfolding in_session_groups
mode_grants_read u groups s =
    if eqb s.st_uid u.pw_uid
    then has_bit s.st_mode irusr
    else if in_session_groups u.pw_name u.pw_gid groups s.st_gid
    then has_bit s.st_mode irgrp
    else has_bit s.st_mode iroth

module _ (w : Services) where
  unfoldable pub ensure_binary_available : String → Exec Daemon Unit
  unfolding is_absolute
  ensure_binary_available binary = do
    exists ← gets (λ (d : Daemon). w.files.exists d.trace binary)
    executable ← gets (λ (d : Daemon). w.files.is_executable d.trace binary)
    found ← gets (λ (d : Daemon). is_some (w.files.which d.trace binary))
    if is_absolute binary
        then (if not exists
            then invalid "Missing required binary: {}" (binary ∷ [])
            else if not executable
            then invalid "Configured binary is not executable: {}" (binary ∷ [])
            else pure tt)
        else if not found
        then invalid "Missing required binary: {}" (binary ∷ [])
        else pure tt

  unfoldable pub user_can_read : String → Option UserEntry → Exec Daemon Bool
  user_can_read path none = invalid "Session user does not exist: {}" (session_user ∷ [])
  user_can_read path (some u) = do
    s ← λ (d : Daemon). (w.files.stat d.trace path, d)
    groups ← gets (λ (d : Daemon). w.files.getgrall d.trace)
    pure (mode_grants_read u groups s)

  unfoldable pub session_user_can_read_path : String → Exec Daemon Bool
  unfolding user_can_read
  session_user_can_read_path path = do
    entry ← gets (λ (d : Daemon). w.files.getpwnam d.trace session_user)
    user_can_read path entry

  unfoldable pub open_failed : String → Exn → Exec Daemon Unit
  open_failed path (os_error reason) = raise (
      runtime_validation_error (
        formatted_with "Looking Glass shared memory path could not be opened: {}: {}" (path ∷ [])
          reason))
  open_failed path e = raise e

  unfoldable pub check_access : String → Exec Daemon Unit
  unfolding open_failed
  check_access path = do
    readable ← session_user_can_read_path path
    if not readable
        then invalid "Looking Glass shared memory path is not readable by session user {}: {}"
            (session_user ∷ path ∷ [])
        else try_then (λ (d : Daemon). (w.files.open_read_only d.trace path, d)) (open_failed path)
            (λ _. pure tt)

  unfoldable pub check_shared_memory : ConsoleLookingGlassConfig → Exec Daemon Unit
  unfolding check_access
  check_shared_memory l = do
    if w.validate_runtime_dependencies then ensure_binary_available l.binary else pure tt
    exists ← gets (λ (d : Daemon). w.files.exists d.trace l.shm_file)
    directory ← gets (λ (d : Daemon). w.files.is_dir d.trace l.shm_file)
    if not exists
        then invalid "Looking Glass shared memory path does not exist: {}" (l.shm_file ∷ [])
        else if directory
        then invalid "Looking Glass shared memory path is not a file or device: {}"
            (l.shm_file ∷ [])
        else if not w.validate_runtime_dependencies
        then pure tt
        else check_access l.shm_file

  -- `_validate_looking_glass_preflight`; both flags are `validate_runtime_dependencies` at each call
  unfoldable pub validate_looking_glass_preflight :
      Option ConsoleLookingGlassConfig → Exec Daemon Unit
  unfolding check_shared_memory
  validate_looking_glass_preflight none =
      raise (
        assertion_error
          (text "Looking Glass backend selected without console.looking_glass config"))
  validate_looking_glass_preflight (some l) = check_shared_memory l
