-- ===== src/Apiserver/Main/PidFile.antt =====
-- The file with the process id over the starts of the server.
use test_fabric.Base.{ℕ, String, ◌≡◌, ap, ◌∙◌, Bool, true, false, not, none, Option-cases, inl, inr}
use test_fabric.Base.Go.{done}
use test_fabric.Apiserver.Main.{System, pid_file, before_begin, save_pid}

-- The file system as far as it is used: the process id does not change it, a removed file is gone,
-- a written one is there, and looking changes nothing.
pub record HasFiles {World : Type 0} (system : System World) : Type 0 where
  pub getpid_keeps :
      (w : World) → (system.exists pid_file (system.getpid w).1).0 ≡ (system.exists pid_file w).0
  pub removed : (w : World) → (system.exists pid_file (system.remove pid_file w).1).0 ≡ false
  pub written :
      (text : String) (w : World)
      → (system.write_file pid_file text w).0 ≡ none
      → (system.exists pid_file (system.write_file pid_file text w).1).0 ≡ true

module _ {World : Type 0} (system : System World) (files : HasFiles system) where
  save_pid-exists :
      (pid : ℕ) (found : Bool) (w : World)
      → (save_pid system pid found w).0 ≡ done tt
      → (system.exists pid_file (save_pid system pid found w).1).0 ≡ not found
  save_pid-exists pid true w began = files.removed w
  save_pid-exists pid false w began =
      elim (Option-cases (system.write_file pid_file (system.decimal pid) w).0) [
        | inl wrote ↦ rw wrote (files.written (system.decimal pid) w wrote)
        | inr (e, failed) ↦ let ended = rw failed at began in cc
      ]

  -- If the server begins without a panic, then it leaves a file with its process id just if it
  -- found none: the file of an earlier run is removed and not written again.
  pub before_begin_toggles :
      (w : World)
      → (before_begin system w).0 ≡ done tt
      → (system.exists pid_file (before_begin system w).1).0 ≡ not (system.exists pid_file w).0
  unfolding before_begin
  before_begin_toggles w began =
      let v = (system.getpid w).1 in
      let found = system.exists pid_file v in
      save_pid-exists (system.getpid w).0 found.0 found.1 began ∙ ap not (files.getpid_keeps w)
