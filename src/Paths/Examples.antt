-- ===== src/Paths/Examples.antt =====
-- Identifiers and paths at which the theorems apply, and paths that are read unexpectedly.
use vgpu_rs.Base.{ℕ, ◌≡◌, refl, List, [], ◌∷◌, ◌++◌, some}
use vgpu_rs.Paths.{PodIdentifier, slash, join, to_path, from_shm_file_path}
use vgpu_rs.Paths.Identifiers.{IsProper, shm, shm-IsComponent, from_shm_file_path-to_path}

abbrev a : List ℕ
a = b'a' ∷ []

abbrev b : List ℕ
b = b'b' ∷ []

abbrev pod : PodIdentifier
pod = record { namespace = a; name = b }

abbrev run_dir : List ℕ
run_dir = slash ∷ b'r' ∷ b'u' ∷ b'n' ∷ slash ∷ []

pod-IsProper : IsProper pod
pod-IsProper = record {
  namespace = record { no_slash = (refl, tt); kept = refl };
  name = record { no_slash = (refl, tt); kept = refl };
}

pod_path : to_path pod run_dir ≡ run_dir ++ a ++ slash ∷ b
unfolding to_path
pod_path = refl

from_shm_file_path-to_path_example : from_shm_file_path (join (to_path pod run_dir) shm) ≡ some pod
from_shm_file_path-to_path_example =
    from_shm_file_path-to_path pod run_dir shm pod-IsProper shm-IsComponent

-- The root counts as a component, so a path with two names below it is accepted.
root_namespace :
    from_shm_file_path (slash ∷ b ++ slash ∷ shm)
    ≡ some (record { namespace = slash ∷ []; name = b })
unfolding from_shm_file_path
root_namespace = refl

-- With an empty namespace the path is absolute and leaves the base directory.
empty_namespace : to_path (record { namespace = []; name = b }) run_dir ≡ slash ∷ b
unfolding to_path
empty_namespace = refl
