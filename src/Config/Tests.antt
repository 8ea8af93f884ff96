-- ===== src/Config/Tests.antt =====
-- The configuration at concrete inputs: a memory that says for each reference which node it is to.
use my_taskflow_system.Common.{
  ℕ, suc, ◌≡◌, refl, sym, ◌∙◌, ap, true, none, some, [], ◌∷◌, codes, ◌==◌, arith, if◌then◌else◌,
}
use my_taskflow_system.Common.Int.{pos}
use my_taskflow_system.Config.Loader.{Yaml, path_parts, get_path}
use my_taskflow_system.Config.Sharing.{Sharing, get_path_moves}

abbrev references : Yaml
references = record {
  Memory = ℕ → ℕ;
  Node = ℕ;
  load_file = λ path m. (some 0, m);
  child = λ node key m. (some (suc (m node)), m);
  assign = λ node other m. (some node, λ j. if j == node then m other else m j);
  is_defined = λ node m. true;
  as_int = λ node m. some (pos (m node));
  as_text = λ node m. none;
}

abbrev start : ℕ → ℕ
start n = n

abbrev moved_memory : ℕ → ℕ
moved_memory j = if j == 0 then 1 else j

references-Sharing : Sharing references
references-Sharing = record {
  Same = λ m n k. m n ≡ m k;
  assign_law = λ n k n' m m' e.
      sym (ap (λ x. x.1 n) e)
      ∙ (let both : (if n == n then m k else m n) ≡ (if k == n then m k else m k) = ground arith in
          both)
      ∙ ap (λ x. x.1 k) e;
  child_law = λ n k j key m h. h;
  same_law = λ n k key m h. ap (λ x. (some (suc x), m)) h;
}

two_parts : path_parts (codes "worker.id") ≡ codes "worker" ∷ codes "id" ∷ []
unfolding path_parts
two_parts = refl

get_path_moves_example :
    references.child 0
      (codes "worker")
      (get_path references references.as_int 0 (codes "worker.id") (pos 1) start).1
    ≡ references.child 1
        (codes "worker")
        (get_path references references.as_int 0 (codes "worker.id") (pos 1) start).1
get_path_moves_example =
    get_path_moves references references-Sharing references.as_int 0 1 0 (codes "worker.id")
      (codes "worker") (codes "id") (pos 1) start start moved_memory two_parts refl refl
      (codes "worker")
