-- ===== src/Paths/Identifiers.antt =====
-- `PodIdentifier::to_path` and `from_shm_file_path` of crates/utils/src/shared_memory/mod.rs: a
-- pod's identifier is read back from the path of a file in its directory.
use vgpu_rs.Base.{
  ℕ, ◌+◌, ◌≡◌, refl, ap, ◌∙◌, List, [], ◌∷◌, ◌++◌, some, arith, length, length-append, get_or,
}
use mathlib.Core.List.{append_assoc}
use vgpu_rs.Paths.{PodIdentifier, components, join, to_path, from_shm_file_path}
use vgpu_rs.Paths.Components.{IsComponent, components-join, components-join_two}

get_or-append :
    (xs ys : List (List ℕ)) (i : ℕ) (d : List ℕ)
    → get_or (xs ++ ys) (length xs + i) d ≡ get_or ys i d
get_or-append [] ys i d = ap (λ k. get_or ys k d) (omega arith)
get_or-append (x ∷ xs) ys i d = ground (arith, get_or-append xs ys i d)

pub record IsProper (id : PodIdentifier) : Type 0 where
  pub namespace : IsComponent id.namespace
  pub name : IsComponent id.name

from_parts :
    (path namespace name file : List ℕ) (parts : List (List ℕ))
    → components path ≡ parts ++ namespace ∷ name ∷ file ∷ []
    → from_shm_file_path path ≡ some (record { namespace = namespace; name = name })
unfolding from_shm_file_path
from_parts path namespace name file parts same = rw same (
    ground (
      arith,
      length-append parts (namespace ∷ name ∷ file ∷ []),
      get_or-append parts (namespace ∷ name ∷ file ∷ []) 0 [],
      get_or-append parts (namespace ∷ name ∷ file ∷ []) 1 [],
    ))

abbrev pub shm : List ℕ
shm = b's' ∷ b'h' ∷ b'm' ∷ []

pub shm-IsComponent : IsComponent shm
shm-IsComponent = record { no_slash = (refl, (refl, (refl, tt))); kept = refl }

-- The identifier of a pod is read back from the path of any file in the directory that the pod has
-- below any base path, if the namespace, the name and the file's name are not empty, not ".", and
-- have no separator.
pub from_shm_file_path-to_path :
    (id : PodIdentifier) (base file : List ℕ)
    → IsProper id
    → IsComponent file
    → from_shm_file_path (join (to_path id base) file) ≡ some id
unfolding to_path
from_shm_file_path-to_path id base file proper f =
    from_parts _ id.namespace id.name file (components base) (
      components-join _ file f
      ∙ ap (λ parts. parts ++ file ∷ [])
          (components-join_two base id.namespace id.name proper.namespace proper.name)
      ∙ append_assoc (components base) (id.namespace ∷ id.name ∷ []) (file ∷ []))
