-- ===== src/Paths/Components.antt =====
-- The components of a path that is extended by a name.
use vgpu_rs.Base.{
  ℕ, ◌≡◌, refl, sym, ap, ◌∙◌, true, false, List, [], ◌∷◌, ◌++◌, arith, ◌==◌, if◌then◌else◌,
  Bool-cases, inl, inr,
}
use mathlib.Core.List.{append_assoc, append-nil}
use vgpu_rs.Paths.{slash, split, is_plain, plain, is_absolute, components, needs_separator, join}

abbrev HasNoSlash : List ℕ → Type 0
HasNoSlash [] = Unit {0}
HasNoSlash (c ∷ cs) = ((c == slash) ≡ false) × HasNoSlash cs

-- A name that a directory can have: not empty, not ".", and without a separator.
pub record IsComponent (name : List ℕ) : Type 0 where
  pub no_slash : HasNoSlash name
  pub kept : is_plain name ≡ true

pub split_name : (name : List ℕ) → HasNoSlash name → split name ≡ name ∷ []
unfolding split
split_name [] h = refl
split_name (c ∷ cs) h = rw (split_name cs h.1, h.0)

split_pieces :
    (path : List ℕ) → (piece : List ℕ) × (pieces : List (List ℕ)) × (split path ≡ piece ∷ pieces)
unfolding split
split_pieces [] = ([], [], refl)
split_pieces (c ∷ cs) =
    let (piece, pieces, found) = split_pieces cs in
    elim (Bool-cases (c == slash)) [
      | inl same ↦ ([], piece ∷ pieces, rw (found, same))
      | inr other ↦ (c ∷ piece, pieces, rw (found, other))
    ]

pub split-slash :
    (path name : List ℕ) → HasNoSlash name → split (path ++ slash ∷ name) ≡ split path ++ name ∷ []
unfolding split
split-slash [] name h = rw (split_name name h)
split-slash (c ∷ cs) name h =
    let (piece, pieces, found) = split_pieces cs in rw (split-slash cs name h, found) (ground arith)

plain-append : (xs ys : List (List ℕ)) → plain (xs ++ ys) ≡ plain xs ++ plain ys
unfolding plain
plain-append [] ys = refl
plain-append (x ∷ xs) ys = ground (arith, plain-append xs ys)

plain_one : (name : List ℕ) → is_plain name ≡ true → plain (name ∷ []) ≡ name ∷ []
unfolding plain
plain_one name h = rw h

-- A separator and a name add that name to the components.
pub components-slash :
    (c : ℕ) (cs name : List ℕ)
    → IsComponent name
    → components (c ∷ cs ++ slash ∷ name) ≡ components (c ∷ cs) ++ name ∷ []
unfolding components
components-slash c cs name n = elim (Bool-cases (c == slash)) [
  | inl root ↦ rw (root, split-slash cs name n.no_slash, plain-append, plain_one name n.kept)
  | inr other ↦
      let (piece, pieces, found) = split_pieces (c ∷ cs) in
      rw (other, split-slash (c ∷ cs) name n.no_slash, found, plain-append, plain_one name n.kept)
]

-- A separator at the end adds nothing.
components_trailing :
    (c : ℕ) (cs : List ℕ) → components (c ∷ cs ++ slash ∷ []) ≡ components (c ∷ cs)
unfolding components
components_trailing c cs = elim (Bool-cases (c == slash)) [
  | inl root ↦ rw (root, split-slash cs [] tt, plain-append) (append-nil _)
  | inr other ↦
      let (piece, pieces, found) = split_pieces (c ∷ cs) in
      rw (other, split-slash (c ∷ cs) [] tt, found, plain-append) (ap (◌∷◌ piece) (append-nil _))
]

components_name : (name : List ℕ) → IsComponent name → components name ≡ name ∷ []
unfolding components
components_name [] n = absurd (cc (n.kept))
components_name (c ∷ cs) n = rw (n.no_slash.0, split_name (c ∷ cs) n.no_slash)

-- A path that needs no separator is empty or ends in one.
needs_no_separator :
    (c : ℕ) (cs : List ℕ)
    → needs_separator (c ∷ cs) ≡ false
    → (init : List ℕ) × (c ∷ cs ≡ init ++ slash ∷ [])
unfolding needs_separator
needs_no_separator c [] h = ([], ground arith)
needs_no_separator c (d ∷ cs) h =
    let (init, same) = needs_no_separator d cs h in (c ∷ init, ap (◌∷◌ c) same)

components_root :
    (name : List ℕ)
    → IsComponent name
    → components (slash ∷ name) ≡ components (slash ∷ []) ++ name ∷ []
unfolding components
components_root name n = rw (split_name name n.no_slash, plain_one name n.kept)

components-after_slash :
    (init name : List ℕ)
    → IsComponent name
    → components (init ++ slash ∷ name) ≡ components (init ++ slash ∷ []) ++ name ∷ []
components-after_slash [] name n = components_root name n
components-after_slash (c ∷ cs) name n =
    components-slash c cs name n ∙ ap (λ xs. xs ++ name ∷ []) (sym (components_trailing c cs))

relative : (name rest : List ℕ) → IsComponent name → is_absolute (name ++ rest) ≡ false
relative [] rest n = absurd (cc (n.kept))
relative (c ∷ cs) rest n = n.no_slash.0

relative_name : (name : List ℕ) → IsComponent name → is_absolute name ≡ false
relative_name [] n = absurd (cc (n.kept))
relative_name (c ∷ cs) n = n.no_slash.0

-- A relative path is put behind the base, with a separator where one is needed.
pub join_relative :
    (base path : List ℕ)
    → is_absolute path ≡ false
    → join base path ≡ (if needs_separator base then base ++ slash ∷ path else base ++ path)
unfolding join
join_relative base path h = rw h

components_nil : components [] ≡ []
unfolding components
components_nil = refl

needs_separator_nil : needs_separator [] ≡ false
unfolding needs_separator
needs_separator_nil = refl

-- Joining a name adds it to the components.
pub components-join :
    (base name : List ℕ)
    → IsComponent name
    → components (join base name) ≡ components base ++ name ∷ []
components-join [] name n =
    rw (join_relative [] name (relative_name name n), needs_separator_nil, components_nil)
      (components_name name n)
components-join (c ∷ cs) name n = elim (Bool-cases (needs_separator (c ∷ cs))) [
  | inl yes_needed ↦
      rw (join_relative (c ∷ cs) name (relative_name name n), yes_needed)
        (components-slash c cs name n)
  | inr bare ↦
      let (init, same) = needs_no_separator c cs bare in
      let step : join (c ∷ cs) name ≡ init ++ slash ∷ name =
        join_relative (c ∷ cs) name (relative_name name n)
        ∙ rw bare (ap (λ p. p ++ name) same ∙ append_assoc init (slash ∷ []) name) in
      ap components step
      ∙ components-after_slash init name n
      ∙ ap (λ p. components p ++ name ∷ []) (sym same)
]

-- A name, a separator and another name are joined one after the other.
pub join_two :
    (base name rest : List ℕ)
    → IsComponent name
    → join base (name ++ slash ∷ rest) ≡ join base name ++ slash ∷ rest
join_two base name rest n =
    rw
      (
        join_relative base (name ++ slash ∷ rest) (relative name (slash ∷ rest) n),
        join_relative base name (relative_name name n),
      )
      (elim (Bool-cases (needs_separator base)) [
        | inl wanted ↦ rw wanted (sym (append_assoc base (slash ∷ name) (slash ∷ rest)))
        | inr bare ↦ rw bare (sym (append_assoc base name (slash ∷ rest)))
      ])

join_cons :
    (base name : List ℕ) → IsComponent name → (c : ℕ) × (cs : List ℕ) × (join base name ≡ c ∷ cs)
join_cons base [] n = absurd (cc (n.kept))
join_cons [] (d ∷ ds) n =
    (d, ds, join_relative [] (d ∷ ds) (relative_name (d ∷ ds) n) ∙ rw needs_separator_nil refl)
join_cons (c ∷ cs) (d ∷ ds) n =
    let step = join_relative (c ∷ cs) (d ∷ ds) (relative_name (d ∷ ds) n) in
    elim (Bool-cases (needs_separator (c ∷ cs))) [
      | inl wanted ↦ (c, cs ++ slash ∷ d ∷ ds, step ∙ rw wanted refl)
      | inr bare ↦ (c, cs ++ d ∷ ds, step ∙ rw bare refl)
    ]

pub components-join_two :
    (base name rest : List ℕ)
    → IsComponent name
    → IsComponent rest
    → components (join base (name ++ slash ∷ rest)) ≡ components base ++ name ∷ rest ∷ []
components-join_two base name rest n r =
    let (c, cs, same) = join_cons base name n in
    ap components (join_two base name rest n ∙ ap (λ p. p ++ slash ∷ rest) same)
    ∙ components-slash c cs rest r
    ∙ ap (λ p. components p ++ rest ∷ []) (sym same)
    ∙ ap (λ parts. parts ++ rest ∷ []) (components-join base name n)
    ∙ append_assoc (components base) (name ∷ []) (rest ∷ [])
