-- ===== src/Ext2/Names.antt =====
-- The names in a path, source/fs/ext2.c: iget_name and get_name_index. A path is a text in memory;
-- the name found, which the code keeps on its stack, is a list of bytes.
pub mod Split
use mango_os.Base.{
  ◌-◌, ℕ, zero, suc, ◌+◌, Bool, true, false, not, ◌&&◌, Option, none, some, ◌==◌, ltb,
  if◌then◌else◌, List, [], ◌∷◌,
}
use mango_os.Strings.{Memory, kstrlen}

abbrev pub slash : ℕ
slash = 47

-- `MAX_NAME_LEN`
abbrev pub max_name_len : ℕ
max_name_len = 64

-- `while (*path == '/') path++`, and whether there was one.
unfoldable pub skip_slashes : ℕ → Memory → ℕ → Option ℕ
skip_slashes zero m path = none
skip_slashes (suc n) m path =
    let rest = skip_slashes n m (path + 1) in if m path == slash then rest else some path

-- The loop that fills `name`, with room for so many more characters.
unfoldable pub take_name : ℕ → Memory → ℕ → List ℕ × ℕ
take_name zero m path = ([], path)
take_name (suc n) m path =
    let (name, end_at) = take_name n m (path + 1) in
    if not (m path == 0) && not (m path == slash) then (m path ∷ name, end_at) else ([], path)

-- The path after the name, the name, and `end`. The outer `none` is a loop out of fuel, the inner
-- one `NULL`.
unfoldable pub iget_name : ℕ → Memory → ℕ → ℕ → Option (Option (ℕ × List ℕ × ℕ))
unfolding skip_slashes take_name
iget_name fuel m path at_end = elim (kstrlen fuel m path) [
  | none ↦ none
  | some len ↦ elim (len == 0) [
    | true ↦ some none
    | false ↦ elim (skip_slashes fuel m path) [
      | none ↦ none
      | some start ↦
          let (name, stop) = take_name (max_name_len - 1) m start in
          elim (skip_slashes fuel m stop) [
            | none ↦ none
            | some next ↦ some (some (next, name, if m stop == slash then 0 else at_end))
          ]
    ]
  ]
]

-- The loop of `get_name_index`; `path` moves on with `i`.
unfoldable pub index_loop : ℕ → Memory → ℕ → ℕ → ℕ → Option ℕ
index_loop zero m path i start = none
index_loop (suc n) m path i start =
    let rest = index_loop n m (path + 1) (i + 1) (if m path == slash then i + 1 else start) in
    elim (kstrlen (suc n) m path) [
      | none ↦ none
      | some len ↦ if ltb i len then rest else some start
    ]

unfoldable pub get_name_index : ℕ → Memory → ℕ → Option ℕ
unfolding index_loop
get_name_index fuel m path = index_loop fuel m path 0 0
