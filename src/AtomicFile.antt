-- ===== src/AtomicFile.antt =====
-- Writing a file by way of a temporary one: `_atomic_write` of relayinner_display/proxmox.py and the
-- end of `write_runtime_state` of relayinner_display/models.py.
use package.text.Mathlib.TextPositions.{eq_refl}
use relay_inner_display_scri.Base.{
  ◌≡◌, ◌≢◌, ◌∙◌, String, Option, none, some, if◌then◌else◌, ◌==◌, arith, eq_iff,
}
use relay_inner_display_scri.Exec.{Outcome, ok, raised, Exec, raise, modify, ◌>>=◌, ◌>>◌}

-- what stands under each path
abbrev pub Files : Type 0
Files = String → Option String

abbrev pub store : String → Option String → Files → Files
store path content files other = if other == path then content else files other

-- How a write goes: the name that the temporary file gets, what has reached it when the writing
-- stops, and whether the writing and the replacement succeed.
pub record Attempt : Type 0 where
  pub temp_path : String
  pub partial : String
  pub written : Outcome (Unit {0})
  pub replaced : Outcome (Unit {0})

abbrev pub when_ok : Outcome (Unit {0}) → Exec Files Unit → Exec Files Unit
when_ok (ok _) next = next
when_ok (raised e) next = raise e

unfoldable pub atomic_write : Attempt → String → String → Exec Files Unit
atomic_write attempt path content = do
  modify (store attempt.temp_path (some attempt.partial))
  when_ok attempt.written do
    modify (store attempt.temp_path (some content))
    when_ok attempt.replaced do
      modify (λ files. store attempt.temp_path none (store path (files attempt.temp_path) files))

store_same :
    (path : String) (content : Option String) (files : Files)
    → store path content files path ≡ content
store_same path content files = rw (eq_refl path)

store_other :
    (path other : String) (content : Option String) (files : Files)
    → other ≢ path
    → store path content files other ≡ files other
store_other path other content files h = ground (arith, eq_iff other path, h)

-- After a write that returns, the file has the new content and the temporary one is gone; after one
-- that raises, the file is as before. No third file is touched.
abbrev pub IsAtomic : Attempt → String → String → Files → Outcome (Unit {0}) → Files → Type 0
IsAtomic attempt path content before (ok _) after =
    (after path ≡ some content)
    × (after attempt.temp_path ≡ none)
    × ((other : String) → other ≢ path → other ≢ attempt.temp_path → after other ≡ before other)
IsAtomic attempt path content before (raised _) after =
    (after path ≡ before path)
    × ((other : String) → other ≢ path → other ≢ attempt.temp_path → after other ≡ before other)

module _ (temp partial path content : String) (files : Files) (apart : path ≢ temp) where
  outcome_IsAtomic :
      (written replaced : Outcome (Unit {0}))
      → let attempt : Attempt = record {
        temp_path = temp;
        partial = partial;
        written = written;
        replaced = replaced;
      } in
        let result = atomic_write attempt path content files in
        IsAtomic attempt path content files result.0 result.1
  unfolding atomic_write ◌>>=◌
  outcome_IsAtomic (raised e) replaced = (
    store_other temp path (some partial) files apart,
    λ other p t. store_other temp other (some partial) files t,
  )
  outcome_IsAtomic (ok _) (raised e) =
      let f1 = store temp (some partial) files in
      (
        store_other temp path (some content) f1 apart
            ∙ store_other temp path (some partial) files apart,
        λ other p t.
            store_other temp other (some content) f1 t
            ∙ store_other temp other (some partial) files t,
      )
  outcome_IsAtomic (ok _) (ok _) =
      let f1 = store temp (some partial) files in
      let f2 = store temp (some content) f1 in
      let f3 = store path (f2 temp) f2 in
      (
        store_other temp path none f3 apart
            ∙ store_same path (f2 temp) f2
            ∙ store_same temp (some content) f1,
        store_same temp none f3,
        λ other p t.
            store_other temp other none f3 t
            ∙ store_other path other (f2 temp) f2 p
            ∙ store_other temp other (some content) f1 t
            ∙ store_other temp other (some partial) files t,
      )

-- If the temporary file has another name than the file: after a write that returns, the file has
-- the new content and the temporary one is gone; after a write that raises, whatever reached the
-- temporary file, the file is as before; no third file changes.
pub atomic_write-IsAtomic :
    (attempt : Attempt) (path content : String) (files : Files)
    → path ≢ attempt.temp_path
    → let result = atomic_write attempt path content files in
      IsAtomic attempt path content files result.0 result.1
atomic_write-IsAtomic attempt path content files apart =
    outcome_IsAtomic attempt.temp_path attempt.partial path content files apart attempt.written
      attempt.replaced
