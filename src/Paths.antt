-- ===== src/Paths.antt =====
-- The names of pods and their paths: `PodIdentifier` of crates/utils/src/shared_memory/mod.rs.
-- A path is a list of bytes; `split`, `components` and `join` say what the language's `Path` and
-- `PathBuf` do on Unix.
use vgpu_rs.Base.{
  ℕ, ◌-◌, ◌≡◌, ◌↔◌, refl, Bool, true, false, ◌&&◌, not, List, [], ◌∷◌, ◌++◌, Option, none, some,
  arith, ltb, ◌==◌, if◌then◌else◌, length, get_or, Bool-cases, inl, inr,
}
use vgpu_rs.Dict.{Eq, bytes_beq, bytes_beq_iff}
pub mod Components
pub mod Identifiers
mod Examples

abbrev pub slash : ℕ
slash = b'/'

abbrev pub dot : List ℕ
dot = b'.' ∷ []

-- The pieces of a path between its separators.
unfoldable pub split : List ℕ → List (List ℕ)
split [] = [] ∷ []
split (c ∷ cs) = elim (split cs) [
  | [] ↦ []
  | piece ∷ pieces ↦ if c == slash then [] ∷ piece ∷ pieces else (c ∷ piece) ∷ pieces
]

-- Repeated separators and "." are passed over.
abbrev pub is_plain : List ℕ → Bool
is_plain [] = false
is_plain (c ∷ cs) = not (bytes_beq (c ∷ cs) dot)

unfoldable pub plain : List (List ℕ) → List (List ℕ)
plain [] = []
plain (piece ∷ pieces) = if is_plain piece then piece ∷ plain pieces else plain pieces

abbrev pub is_absolute : List ℕ → Bool
is_absolute [] = false
is_absolute (c ∷ cs) = c == slash

-- `path.components()`: the root counts as one, and a leading "." of a relative path stays.
unfoldable pub components : List ℕ → List (List ℕ)
unfolding split plain
components [] = []
components (c ∷ cs) =
    if c == slash
    then (slash ∷ []) ∷ plain (split cs)
    else elim (split (c ∷ cs)) [ [] ↦ [] | piece ∷ pieces ↦ piece ∷ plain pieces ]

-- Does a path end in another byte than a separator?
unfoldable pub needs_separator : List ℕ → Bool
needs_separator [] = false
needs_separator (c ∷ []) = not (c == slash)
needs_separator (c ∷ d ∷ cs) = needs_separator (d ∷ cs)

-- `base.join(path)`: an absolute path replaces the base.
unfoldable pub join : List ℕ → List ℕ → List ℕ
unfolding needs_separator
join base path =
    if is_absolute path
    then path
    else if needs_separator base
    then base ++ slash ∷ path
    else base ++ path

pub record PodIdentifier : Type 0 where
  pub namespace : List ℕ
  pub name : List ℕ

unfoldable pub to_path : PodIdentifier → List ℕ → List ℕ
unfolding join
to_path id base = join base (id.namespace ++ slash ∷ id.name)

-- The check on the number makes both indices lie within the components.
unfoldable pub from_shm_file_path : List ℕ → Option PodIdentifier
unfolding components
from_shm_file_path path =
    let parts = components path in
    let len = length parts in
    if ltb len 3
    then none
    else some (record { namespace = get_or parts (len - 3) []; name = get_or parts (len - 2) [] })

pub identifier_beq_iff :
    (a b : PodIdentifier)
    → ((bytes_beq a.namespace b.namespace && bytes_beq a.name b.name) ≡ true) ↔ (a ≡ b)
identifier_beq_iff a b =
    ground (arith, bytes_beq_iff a.namespace b.namespace, bytes_beq_iff a.name b.name)

instance abbrev pub identifier_eq : Eq PodIdentifier
identifier_eq = record {
  beq = λ a b. bytes_beq a.namespace b.namespace && bytes_beq a.name b.name;
  beq_iff = identifier_beq_iff;
}
