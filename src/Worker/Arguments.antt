-- ===== src/Worker/Arguments.antt =====
-- worker.cpp, main: what the arguments --id= and --config= come to.
use my_taskflow_system.Common.{
  ◌≡◌, refl, false, true, ℕ, [], ◌∷◌, ◌++◌, Text, codes, arith, length, ltb,
}
use my_taskflow_system.Common.Int.{ℤ, pos, eq_ℤ}
use my_taskflow_system.Common.Exec.{ok}
use my_taskflow_system.Common.Decimal.{to_string, stoi-to_string, IsInt}
use my_taskflow_system.Common.Search.{starts_with, contains, after_literal, search}
use my_taskflow_system.Config.Loader.{Yaml, load_worker_config}
use my_taskflow_system.Worker.Start.{read_arguments, load_for, settle_id, configure, is_file}

module _ (Y : Yaml) where
  open Y use {Memory}

  -- The argument --id=n with an int n has no effect when the configuration file
  -- config/worker.yaml gives an id other than 0: the configuration is the one of the file.
  pub configure_ignores_id :
      (n : ℤ) (m : Memory)
      → IsInt n
      → eq_ℤ (load_worker_config Y (codes "config/worker.yaml") m).0.id (pos 0) ≡ false
      → configure Y ((codes "--id=" ++ to_string n) ∷ []) m ≡ (
        ok (load_worker_config Y (codes "config/worker.yaml") m).0,
        (load_worker_config Y (codes "config/worker.yaml") m).1,
      )
  unfolding configure read_arguments settle_id load_for starts_with contains after_literal search
  configure_ignores_id n m h k = rw (stoi-to_string n h, k) refl

  -- The argument --config=path opens the file whose name is the path without its first character.
  pub configure_drops_first :
      (c : ℕ) (path : Text) (m : Memory)
      → is_file path ≡ true
      → eq_ℤ (load_worker_config Y path m).0.id (pos 0) ≡ false
      → configure Y ((codes "--config=" ++ c ∷ path) ∷ []) m
        ≡ (ok (load_worker_config Y path m).0, (load_worker_config Y path m).1)
  unfolding configure read_arguments settle_id load_for starts_with after_literal
  configure_drops_first c path m f k =
      let long : ltb (length (codes "--config=" ++ c ∷ path)) 10 ≡ false = ground arith in
      rw (configure, read_arguments, starts_with, after_literal, long, load_for, f, settle_id, k)
        refl
